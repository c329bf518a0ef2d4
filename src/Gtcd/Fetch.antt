-- ===== src/Gtcd/Fetch.antt =====
-- gtcd/gtcd.T: `get_data` and what starts when the data are not there yet, `fetch_data` and the
-- transfer plugin's callback `xp_fetch_data_cb`. The storage plugin's `get_chunk_refcount (d) >= 0`
-- is a parameter.
use ditto.Prelude.{
  ℕ, Bool, true, false, not, Option, none, some, List, [], ◌∷◌, ◌++◌, length, ltb, ◌==◌,
  if◌then◌else◌, ◌>>=◌,
}
use ditto.Prelude.Bytes.{Bytes, bytes_eq}
use ditto.Gtcd.{
  DescStatus, Descriptor, XferData, GetDataRes, Out, Outcome, is_on_storage, is_sequential,
  stored_at, transfer_data,
}

-- The loop of `get_data` over the states.
unfoldable pub any_stored : List Descriptor → List DescStatus → Option Bool
any_stored [] status = some false
any_stored (c ∷ descs) [] = none
any_stored (c ∷ descs) (st ∷ status) =
    let rest = any_stored descs status in if is_on_storage st then some true else rest

-- "Unable to fetch data from the xfer plugin".
abbrev pub unable_to_fetch : Bytes
unable_to_fetch =
    85 ∷ 110 ∷ 97 ∷ 98 ∷ 108 ∷ 101 ∷ 32 ∷ 116 ∷ 111 ∷ 32 ∷ 102 ∷ 101 ∷ 116 ∷ 99 ∷ 104 ∷ 32 ∷ 100
    ∷ 97 ∷ 116 ∷ 97 ∷ 32 ∷ 102 ∷ 114 ∷ 111 ∷ 109 ∷ 32 ∷ 116 ∷ 104 ∷ 101 ∷ 32 ∷ 120 ∷ 102 ∷ 101 ∷ 114
    ∷ 32 ∷ 112 ∷ 108 ∷ 117 ∷ 103 ∷ 105 ∷ 110 ∷ []

-- The loop of `fetch_data`: the new states, the references that are taken, and what is missing.
unfoldable pub mark :
    (Descriptor → Bool)
    → List Descriptor
    → List DescStatus
    → Option (List DescStatus × List Out × List Descriptor)
mark has descs [] = some ([], [], [])
mark has [] (st ∷ status) = none
mark has (c ∷ descs) (st ∷ status) = do
  (status', outs, missing) ← mark has descs status
  some (
      if has c
      then (DescStatus.on_storage ∷ status', Out.inc_chunk_refcount c ∷ outs, missing)
      else (DescStatus.requested ∷ status', outs, c ∷ missing))

-- The loop of `xp_fetch_data_cb`: it stops at a chunk that is there already.
unfoldable pub arrived : Bytes → List Descriptor → List DescStatus → Option (List DescStatus × Bool)
arrived id descs [] = some ([], false)
arrived id [] (st ∷ status) = none
arrived id (c ∷ descs) (st ∷ status) =
    let rest = arrived id descs status in
    if not (bytes_eq c.id id)
    then (do (status', match) ← rest; some (st ∷ status', match))
    else if is_on_storage st
    then some (st ∷ status, false)
    else (do (status', match) ← rest; some (DescStatus.on_storage ∷ status', true))

-- Whether the chunk is there that the waiting request can go on with.
unfoldable pub can_go_on : List Descriptor → List DescStatus → XferData → Option Bool
can_go_on descs status d = elim d.xcb [
  | none ↦ some false
  | some sbp ↦
      if is_sequential d.xmode then stored_at status d.descs_count else any_stored descs status
]

-- `s || !res->data || res->data->resid () == 0`, and the message.
unfoldable pub failure : Option Bytes → Option Bytes → Option Bytes
failure (some s) dat = some s
failure none none = some unable_to_fetch
failure none (some []) = some unable_to_fetch
failure none (some (b ∷ bs)) = none

-- The test at the end of `xp_fetch_data_cb`.
unfoldable pub may_wake : List DescStatus → XferData → Option Bool
may_wake status d = elim d.xcb [
  | none ↦ some false
  | some sbp ↦ if is_sequential d.xmode then stored_at status d.descs_count else some true
]

module _ (send_size : ℕ) where
  unfoldable pub get_data : ℕ → XferData → Option Outcome
  get_data sbp d = do
    ready ←
        if ltb 0 (length d.buf)
        then some true
        else if is_sequential d.xmode
        then (do status ← d.descs_status; stored_at status d.descs_count)
        else some false
    if ready then transfer_data send_size sbp d else (do
      descs ← d.descs
      if d.descs_xfered == length descs
          then some (none, Out.reply sbp (GetDataRes.resok true 0 []) ∷ [])
          else (do
            stored ←
                if is_sequential d.xmode
                then some false
                else (do status ← d.descs_status; any_stored descs status)
            if stored
                then transfer_data send_size sbp d
                else some (
                  some (record d { fetching = true; xcb = some sbp }),
                  if d.fetching then [] else Out.fetch_data ∷ [],
                )))

  -- `(*xcb) ()` if the test holds.
  unfoldable pub wake : Bool → XferData → Option Outcome
  wake b d = elim d.xcb [
    | none ↦ some (some d, [])
    | some sbp ↦
        if b then transfer_data send_size sbp (record d { xcb = none }) else some (some d, [])
  ]

  unfoldable pub fetch_data : (Descriptor → Bool) → XferData → Option Outcome
  fetch_data has d = do
    descs ← d.descs
    status ← d.descs_status
    (status', taken, missing) ← mark has descs status
    b ← can_go_on descs status' d
    (d', outs) ← wake b (record d { descs_status = some status' })
    some (d', taken ++ outs ++ elim missing [ [] ↦ [] | c ∷ cs ↦ Out.get_chunks (c ∷ cs) ∷ [] ])

  unfoldable pub xp_fetch_data_cb :
      Option Bytes → Descriptor → Option Bytes → XferData → Option Outcome
  xp_fetch_data_cb s desc dat d = elim (failure s dat) [
    | some e ↦ wake true (record d { err = some e })
    | none ↦ do
      descs ← d.descs
      status ← d.descs_status
      (status', match) ← arrived desc.id descs status
      b ← may_wake status' d
      (d', outs) ← wake b (record d { descs_status = some status' })
      some (
        d',
        if match
            then Out.put_ichunk desc (elim dat [ none ↦ [] | some bytes ↦ bytes ]) ∷ outs
            else outs,
      )
  ]
