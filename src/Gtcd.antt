-- ===== src/Gtcd.antt =====
-- gtcd/gtcd.T and gtcd.h: one transfer of the daemon's table, and the handlers that serve its data.
-- A handler returns the entry that it leaves in the table, `none` if it removes it, and what it sends
-- out, in order; a fault (a null pointer, an index outside a vector, a failed assertion) is `none` in
-- place of both. A request is a number, and `SEND_SIZE` is a parameter. The
-- `int` `buf_offset` is its 32 bits and the `long` offset of a callback its 64 bits; they wrap around.
pub mod Faults
pub mod Fetch
pub mod Run
pub mod InOrder
pub mod Served
pub mod Steps
pub mod Transfer
pub mod Ends
pub mod Table
pub mod PutFd
use ditto.Prelude.{
  ℕ, zero, suc, ◌+◌, Bool, true, false, not, ◌&&◌, Option, none, some, List, [], ◌∷◌, ◌++◌, ◌^◌,
  ◌%◌, map, length, take, drop, get_elem?, add32, add64, ltb, leb, ◌==◌, if◌then◌else◌, ◌>>=◌,
}
use ditto.Prelude.Bytes.{Bytes}

pub data XferMode : Type 0 where
  sequential : XferMode
  out_of_order : XferMode

pub data DescStatus : Type 0 where
  unknown : DescStatus
  on_storage : DescStatus
  requested : DescStatus
  done : DescStatus
  error : DescStatus

-- `dot_descriptor`.
pub record Descriptor : Type 0 where
  pub id : Bytes
  pub size : ℕ

-- `xferData`; `xcb` is the request of the `transfer_data` that waits.
pub record XferData : Type 0 where
  pub xmode : XferMode
  pub descs : Option (List Descriptor)
  pub descs_status : Option (List DescStatus)
  pub descs_count : ℕ
  pub descs_xfered : ℕ
  pub buf : Bytes
  pub buf_offset : ℕ
  pub fetching : Bool
  pub xcb : Option ℕ
  pub err : Option Bytes
  pub hints : Option (List Bytes)
  pub sid : ℕ

-- `gtc_get_data_res`; its count is the length of the data.
pub data GetDataRes : Type 0 where
  errmsg : Bytes → GetDataRes
  resok : Bool → ℕ → Bytes → GetDataRes

-- `replyref`, the call of `sp->get_chunk` with the offset of its callback, `delaycb` of `fetch_data`,
-- `release_ichunk`, `inc_chunk_refcount`, `put_ichunk`, and `get_chunks` of the transfer plugin,
-- where each chunk goes with all hints of the transfer.
pub data Out : Type 0 where
  reply : ℕ → GetDataRes → Out
  get_chunk : ℕ → ℕ → Option ℕ → Out
  fetch_data : Out
  release_ichunk : Descriptor → Out
  inc_chunk_refcount : Descriptor → Out
  put_ichunk : Descriptor → Bytes → Out
  get_chunks : List Descriptor → Out

abbrev pub Outcome : Type 0
Outcome = Option XferData × List Out

unfoldable pub is_on_storage : DescStatus → Bool
is_on_storage DescStatus.on_storage = true
is_on_storage DescStatus.unknown = false
is_on_storage DescStatus.requested = false
is_on_storage DescStatus.done = false
is_on_storage DescStatus.error = false

pub is_sequential : XferMode → Bool
is_sequential XferMode.sequential = true
is_sequential XferMode.out_of_order = false

-- `(*pdp->descs_status)[i] == DESC_ON_STORAGE`.
unfoldable pub stored_at : List DescStatus → ℕ → Option Bool
stored_at status i = do st ← get_elem? status i; some (is_on_storage st)

-- The assignment `(*pdp->descs_status)[i] = st`.
unfoldable pub set_status : List DescStatus → ℕ → DescStatus → Option (List DescStatus)
set_status [] i st = none
set_status (x ∷ xs) zero st = some (st ∷ xs)
set_status (x ∷ xs) (suc i) st = do ys ← set_status xs i st; some (x ∷ ys)

module _ (send_size : ℕ) where
  pub actual_transfer_data : ℕ → List Descriptor → XferData → Outcome
  actual_transfer_data sbp descs d = elim d.err [
    | some e ↦ (none, Out.reply sbp (GetDataRes.errmsg e) ∷ [])
    | none ↦
        if leb (length d.buf) send_size
        then if d.descs_xfered == length descs
          then (
            none,
            Out.reply sbp (GetDataRes.resok true d.buf_offset d.buf) ∷ map Out.release_ichunk descs,
          )
          else (
            some (record d { buf = []; buf_offset = add32 d.buf_offset (length d.buf) }),
            Out.reply sbp (GetDataRes.resok false d.buf_offset d.buf) ∷ [],
          )
        else (
          some (record d { buf = drop send_size d.buf; buf_offset = add32 d.buf_offset send_size }),
          Out.reply sbp (GetDataRes.resok false d.buf_offset (take send_size d.buf)) ∷ [],
        )
  ]

  -- The loop of `transfer_data` for the other mode: the first chunk on storage, with its offset.
  unfoldable pub first_stored : ℕ → ℕ → List Descriptor → List DescStatus → Option (Option (ℕ × ℕ))
  first_stored i offset [] status = some none
  first_stored i offset (c ∷ descs) [] = none
  first_stored i offset (c ∷ descs) (st ∷ status) =
      let rest = first_stored (i + 1) (add64 offset c.size) descs status in
      if is_on_storage st then some (some (i, offset)) else rest

  pub transfer_data : ℕ → XferData → Option Outcome
  transfer_data sbp d = elim d.err [
    | some e ↦ some (actual_transfer_data sbp [] d)
    | none ↦ do
      descs ← d.descs
      status ← d.descs_status
      (if is_sequential d.xmode
          then if ltb (length d.buf) send_size && not (d.descs_xfered == length descs)
            then (do
              stored ← stored_at status d.descs_count
              some (
                  if stored
                  then (
                    some (record d { descs_count = d.descs_count + 1 }),
                    Out.get_chunk sbp d.descs_count none ∷ [],
                  )
                  else actual_transfer_data sbp descs d))
            else some (actual_transfer_data sbp descs d)
          else if ltb 0 (length d.buf)
          then some (actual_transfer_data sbp descs d)
          else (do
            found ← first_stored 0 0 descs status
            some (elim found [
              | none ↦ (some d, [])
              | some (i, offset) ↦ (some d, Out.get_chunk sbp i (some offset) ∷ [])
            ])))
  ]

  -- The end of `get_chunk_cb`: the chunk behind it is read too while the buffer has room.
  pub read_ahead : ℕ → ℕ → List Descriptor → List DescStatus → XferData → Option Outcome
  read_ahead sbp desc_no descs status d =
      if ltb (length d.buf) send_size && not (d.descs_xfered == length descs)
      then (do
        stored ← stored_at status (desc_no + 1)
        (if stored
            then if is_sequential d.xmode
              then if d.descs_count == desc_no + 1
                then some (
                  some (record d { descs_count = d.descs_count + 1 }),
                  Out.get_chunk sbp (desc_no + 1) none ∷ [],
                )
                else none
              else some (some d, Out.get_chunk sbp (desc_no + 1) none ∷ [])
            else some (actual_transfer_data sbp descs d)))
      else some (actual_transfer_data sbp descs d)

  pub get_chunk_cb : ℕ → ℕ → Option ℕ → Option Bytes → Bytes → XferData → Option Outcome
  get_chunk_cb sbp desc_no offset (some s) dat d =
      some (actual_transfer_data sbp [] (record d { err = some s }))
  get_chunk_cb sbp desc_no offset none dat d = do
    descs ← d.descs
    status ← d.descs_status
    status' ← set_status status desc_no DescStatus.done
    read_ahead sbp desc_no descs status' (record d {
      buf = d.buf ++ dat;
      descs_status = some status';
      descs_xfered = d.descs_xfered + 1;
      buf_offset = elim offset [
        | none ↦ d.buf_offset
        | some o ↦ if ltb o (2 ^ 63) then o % 2 ^ 32 else d.buf_offset
      ];
    })
