-- ===== src/Gtcd/Table.antt =====
-- gtcd/gtcd.T: the table of the transfers of one client, how a transfer is begun (`get_init`,
-- `get_init_cb`, `put_init`), and how an object is put piece by piece (`put_data`, `put_commit`). The
-- chunker's session number of `cp->init` is a parameter, and `xferCounter` stays in its type.
pub mod Begun
use ditto.Prelude.{
  ℕ, zero, suc, ◌+◌, Bool, true, false, Option, none, some, List, [], ◌∷◌, ◌++◌, map, length, leb,
  ◌==◌, if◌then◌else◌, ◌>>=◌,
}
use ditto.Prelude.Bytes.{Bytes}
use ditto.Gtcd.Fetch
use ditto.Gtcd.{XferMode, DescStatus, Descriptor, XferData, GetDataRes, Out, Outcome}

pub record Gtcd : Type 0 where
  pub xfer_table : List (ℕ × XferData)
  pub xfer_counter : ℕ

-- The texts of the replies with an error.
pub data InitError : Type 0 where
  invalid_oid : InitError
  no_hints : InitError
  invalid_mode : InitError
  unknown_xfer_id : ℕ → InitError
  plugin_error : Bytes → InitError

-- The replies, and the calls of the plugins; a call names the transfer that its callback is for.
pub data Action : Type 0 where
  init_reply : ℕ → Action
  error_reply : InitError → Action
  sp_get_descriptors_init : ℕ → Bytes → Action
  sp_get_descriptors : ℕ → Option Bytes → Action
  xp_get_descriptors : ℕ → Option (List Bytes) → Action
  xp_notify_descriptors : List Descriptor → Action
  sp_notify_descriptors : List Descriptor → Action
  put_object : ℕ → Bytes → Action
  commit_object : ℕ → Action
  data_out : Out → Action

unfoldable pub lookup : ℕ → List (ℕ × XferData) → Option XferData
lookup k [] = none
lookup k ((j, d) ∷ m) = if j == k then some d else lookup k m

unfoldable pub set : ℕ → XferData → List (ℕ × XferData) → List (ℕ × XferData)
set k d [] = []
set k d ((j, e) ∷ m) = if j == k then (j, d) ∷ m else (j, e) ∷ set k d m

unfoldable pub remove : ℕ → List (ℕ × XferData) → List (ℕ × XferData)
remove k [] = []
remove k ((j, d) ∷ m) = if j == k then m else (j, d) ∷ remove k m

-- `xferData::xferData`.
abbrev pub new_xfer : XferData
new_xfer = record {
  xmode = XferMode.sequential;
  descs = none;
  descs_status = none;
  descs_count = 0;
  descs_xfered = 0;
  buf = [];
  buf_offset = 0;
  fetching = false;
  xcb = none;
  err = none;
  hints = none;
  sid = 0;
}

-- A new transfer: `xferTable.insert (xferCounter, pdp)` and `xferCounter++`.
abbrev pub insert : Gtcd → XferData → Gtcd
insert g d = record {
  xfer_table = (g.xfer_counter, d) ∷ g.xfer_table;
  xfer_counter = g.xfer_counter + 1;
}

-- `get_init` up to the storage plugin's `get_descriptors_init`, which it waits for; the mode is `none`
-- if it is neither of the two.
unfoldable pub get_init : Gtcd → Bytes → List Bytes → Option XferMode → Gtcd × List Action
get_init g oid hints mode =
    if leb (length oid) 0
    then (g, Action.error_reply InitError.invalid_oid ∷ [])
    else if leb (length hints) 0
    then (g, Action.error_reply InitError.no_hints ∷ [])
    else elim mode [
      | none ↦ (g, Action.error_reply InitError.invalid_mode ∷ [])
      | some m ↦ (
        insert g (record new_xfer { xmode = m; hints = some hints }),
        Action.sp_get_descriptors_init g.xfer_counter oid ∷ [],
      )
    ]

-- `get_init` behind `get_descriptors_init`, which has told an error or the identifier for the storage
-- plugin, or both; the error is not looked at.
unfoldable pub get_init_told : Gtcd → ℕ → Option Bytes → Option Bytes → Gtcd × List Action
get_init_told g id errmsg oidmd = (g, Action.sp_get_descriptors id oidmd ∷ [])

unfoldable pub unknown_statuses : List Descriptor → List DescStatus
unknown_statuses [] = []
unknown_statuses (d ∷ ds) = DescStatus.unknown ∷ unknown_statuses ds

abbrev pub more_descs : Option (List Descriptor) → List Descriptor → List Descriptor
more_descs none descs = descs
more_descs (some old) descs = old ++ descs

-- A page of descriptors; `none` is a transfer that is not in the table.
unfoldable pub get_init_cb :
    Gtcd → Bool → ℕ → Option Bytes → List Descriptor → Bool → Option (Gtcd × List Action)
get_init_cb g false id (some s) descs end = do
  d ← lookup id g.xfer_table
  some (g, Action.xp_get_descriptors id d.hints ∷ [])
get_init_cb g true id (some s) descs end = some (
  record g { xfer_table = remove id g.xfer_table },
  Action.error_reply (InitError.plugin_error s) ∷ [],
)
get_init_cb g last_try id none descs end = do
  d ← lookup id g.xfer_table
  let all = more_descs d.descs descs
  let d' = record d { descs = some all }
  some (
      if end
      then (
        record g {
          xfer_table =
              set id (record d' { descs_status = some (unknown_statuses all) }) g.xfer_table;
        },
        Action.xp_notify_descriptors all
              ∷ (if last_try then Action.sp_notify_descriptors all ∷ [] else [])
            ++ (Action.init_reply id ∷ []),
      )
      else (record g { xfer_table = set id d' g.xfer_table }, []))

unfoldable pub put_init : Gtcd → ℕ → Gtcd × List Action
put_init g sid = (insert g (record new_xfer { sid = sid }), Action.init_reply g.xfer_counter ∷ [])

-- The assertion compares the two lengths of the message.
unfoldable pub put_data : Gtcd → ℕ → Bytes → ℕ → Option (Gtcd × List Action)
put_data g id bytes count = elim (lookup id g.xfer_table) [
  | none ↦ some (g, Action.error_reply (InitError.unknown_xfer_id id) ∷ [])
  | some d ↦ if length bytes == count then some (g, Action.put_object d.sid bytes ∷ []) else none
]

unfoldable pub put_commit : Gtcd → ℕ → Gtcd × List Action
put_commit g id = elim (lookup id g.xfer_table) [
  | none ↦ (g, Action.error_reply (InitError.unknown_xfer_id id) ∷ [])
  | some d ↦ (record g { xfer_table = remove id g.xfer_table }, Action.commit_object d.sid ∷ [])
]

-- What a handler of the transfer's data left of the entry, and what it sent.
unfoldable pub stored : Gtcd → ℕ → Outcome → Gtcd × List Action
stored g id (none, outs) =
    (record g { xfer_table = remove id g.xfer_table }, map Action.data_out outs)
stored g id (some d, outs) =
    (record g { xfer_table = set id d g.xfer_table }, map Action.data_out outs)

module _ (send_size : ℕ) where
  unfoldable pub get_data : Gtcd → ℕ → ℕ → Option (Gtcd × List Action)
  get_data g sbp id = elim (lookup id g.xfer_table) [
    | none ↦ some (g, Action.error_reply (InitError.unknown_xfer_id id) ∷ [])
    | some d ↦ do r ← Fetch.get_data send_size sbp d; some (stored g id r)
  ]

  unfoldable pub fetch_data : Gtcd → (Descriptor → Bool) → ℕ → Option (Gtcd × List Action)
  fetch_data g has id = do
    d ← lookup id g.xfer_table
    r ← Fetch.fetch_data send_size has d
    some (stored g id r)

  -- A report for a transfer that is gone is dropped.
  unfoldable pub xp_fetch_data_cb :
      Gtcd → ℕ → Option Bytes → Descriptor → Option Bytes → Option (Gtcd × List Action)
  xp_fetch_data_cb g id s desc dat = elim (lookup id g.xfer_table) [
    | none ↦ some (g, [])
    | some d ↦ do r ← Fetch.xp_fetch_data_cb send_size s desc dat d; some (stored g id r)
  ]
