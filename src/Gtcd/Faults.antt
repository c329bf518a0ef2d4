-- ===== src/Gtcd/Faults.antt =====
-- gtcd/gtcd.T: inputs on which the handlers of a transfer read past a vector, or leave a request
-- without a reply.
use ditto.Prelude.{
  ℕ, zero, suc, ◌+◌, ◌≤◌, ◌<◌, ◌≡◌, ◌≢◌, refl, true, false, not, ◌&&◌, Option, none, some, List, [],
  ◌∷◌, ◌++◌, length, arith, ltb, ◌==◌, >>=_step, elim_none, length-append,
}
use ditto.Prelude.Bytes.{Bytes}
use ditto.Gtcd.{
  XferMode, DescStatus, Descriptor, XferData, stored_at, set_status, read_ahead, get_chunk_cb,
}
use ditto.Gtcd.Fetch.{get_data, wake, failure, xp_fetch_data_cb}
use ditto.Gtcd.Served.{in_order, set_status_total}

stored_at_end : (status : List DescStatus) (i : ℕ) → length status ≤ i → stored_at status i ≡ none
unfolding stored_at
stored_at_end [] i h = refl
stored_at_end (x ∷ xs) zero h = absurd (omega arith)
stored_at_end (x ∷ xs) (suc i) h = stored_at_end xs i (omega arith)

-- A transfer with a state for each of its chunks, and the last chunk is read into a buffer that
-- still has room then, while not every other chunk was transferred: whatever the mode, the handler
-- reads the state of a chunk behind the last one.
pub get_chunk_cb-last :
    (send_size sbp i : ℕ) (offset : Option ℕ) (dat : Bytes) (d : XferData) (descs : List Descriptor)
    (status : List DescStatus)
    → d.descs ≡ some descs
    → d.descs_status ≡ some status
    → length status ≡ length descs
    → i + 1 ≡ length descs
    → d.descs_xfered + 1 ≢ length descs
    → length d.buf + length dat < send_size
    → get_chunk_cb send_size sbp i offset none dat d ≡ none
unfolding get_chunk_cb read_ahead
get_chunk_cb-last send_size sbp i offset dat d descs status has_descs has_status long last more
      room =
    let (status', written, l) =
      set_status_total status i DescStatus.done (omega (arith, long, last)) in
    let short : (ltb (length (d.buf ++ dat)) send_size && not (d.descs_xfered + 1 == length descs))
        ≡ true =
      ground (arith, length-append d.buf dat) in
    >>=_step d.descs _ descs has_descs (
      >>=_step d.descs_status _ status has_status (
        >>=_step (set_status status i DescStatus.done) _ status' written
          (rw (short, stored_at_end status' (i + 1) (omega (arith, l, long, last))) refl)))

-- A sequential transfer with chunks left to transfer, an empty buffer, its chunks asked for and the
-- next one not there yet, and an error is reported while no request waits: the report calls
-- nothing, and the client's next request is only kept waiting, without a reply or a new fetch.
pub xp_fetch_data_cb-unheard :
    (send_size sbp : ℕ) (s : Bytes) (desc : Descriptor) (dat : Option Bytes) (d : XferData)
    (descs : List Descriptor) (status : List DescStatus)
    → d.xmode ≡ XferMode.sequential
    → d.descs ≡ some descs
    → d.descs_status ≡ some status
    → stored_at status d.descs_count ≡ some false
    → d.descs_xfered ≢ length descs
    → d.buf ≡ []
    → d.fetching ≡ true
    → d.xcb ≡ none
    → (xp_fetch_data_cb send_size (some s) desc dat d ≡ some (some (record d { err = some s }), []))
      × (get_data send_size sbp (record d { err = some s })
          ≡ some (some (record d { err = some s; fetching = true; xcb = some sbp }), []))
unfolding xp_fetch_data_cb get_data wake failure
xp_fetch_data_cb-unheard send_size sbp s desc dat d descs status mode has_descs has_status missing
      more empty fetching free =
    let left : (d.descs_xfered == length descs) ≡ false = ground arith in
    let held : ltb 0 (length d.buf) ≡ false = rw empty refl in
    let looked =
      >>=_step d.descs_status (λ (st : List DescStatus). stored_at st d.descs_count) status
        has_status missing in
    let seq = in_order d mode in
    (
      elim_none d.xcb _ _ free refl,
      rw (held, seq)
          (>>=_step _ _ false looked
            (>>=_step d.descs _ descs has_descs (rw (left, fetching) refl))),
    )
