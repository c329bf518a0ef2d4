-- ===== src/Gtcd/Served/Events.antt =====
-- A transfer in the sequential mode: `fetch_data` and `xp_fetch_data_cb` return, and keep the
-- invariant.
use mathlib.Core.Path.{subst}
use ditto.Prelude.{
  ℕ, ◌<◌, ◌≡◌, refl, sym, ap, ◌∙◌, Bool, true, false, Option, some, List, [], ◌∷◌, ◌++◌, length,
  arith, ◌>>=◌, >>=_step, elim_some,
}
use ditto.Prelude.Bytes.{Bytes}
use ditto.Gtcd.{Descriptor, XferData, Out, Outcome}
use ditto.Gtcd.Fetch.{mark, wake, can_go_on, fetch_data}
use ditto.Gtcd.Run.{Phase, System, sends, after}
use ditto.Gtcd.InOrder.{Core, Good, restated}
use ditto.Gtcd.Served.{in_order, stored_at_total, Goes}
use ditto.Gtcd.Served.Ask.{wake-Goes}
use ditto.Gtcd.Served.Fetched.{sends-append, sends-asked, mark_total}

abbrev ask : List Descriptor → List Out
ask [] = []
ask (c ∷ cs) = Out.get_chunks (c ∷ cs) ∷ []

module _ (descs : List Descriptor) (contents : List Bytes) where
  -- What `fetch_data` sends out around the request that goes on.
  around :
      (s : System) (taken : List Out) (missing : List Descriptor) (m : Option Outcome)
      → ((t : System) → sends t taken ≡ t)
      → ((a : Bool) → Goes descs contents (record s { asked = a }) m)
      → Goes descs contents s (do (d', outs) ← m; some (d', taken ++ outs ++ ask missing))
  unfolding Good
  around s taken missing m quiet goes = last missing
    where
      same :
          (x : Option XferData) (outs rest : List Out)
          → after s (x, taken ++ outs ++ rest) ≡ sends (after s (x, outs)) rest
      same x outs rest =
          sends-append (record s { xfer = x }) (taken ++ outs) rest
          ∙ ap (λ (t : System). sends t rest)
              (sends-append (record s { xfer = x }) taken outs
                ∙ ap (λ (t : System). sends t outs) (quiet (record s { xfer = x })))

      last :
          (missing : List Descriptor)
          → Goes descs contents s (do (d', outs) ← m; some (d', taken ++ outs ++ ask missing))
      last [] =
          let (r, runs, lands) = goes s.asked in
          (
            (r.0, taken ++ r.1 ++ []),
            >>=_step m _ r runs refl,
            subst (Good descs contents) (sym (same (r.0) (r.1) [])) lands,
          )
      last (c ∷ cs) =
          let (r, runs, lands) = goes true in
          (
            (r.0, taken ++ r.1 ++ (Out.get_chunks (c ∷ cs) ∷ [])),
            >>=_step m _ r runs refl,
            subst (Good descs contents)
                (sends-asked (record s { xfer = r.0 }) (r.1)
                  ∙ sym (same (r.0) (r.1) (Out.get_chunks (c ∷ cs) ∷ [])))
                lands,
          )

  module _ (send_size : ℕ) (known : length contents ≡ length descs) where
    pub fetch_data-Goes :
        (s : System) (has : Descriptor → Bool) (d : XferData)
        → Core descs contents 0 s.received d
        → (sbp : ℕ) × (d.xcb ≡ some sbp)
        → d.buf ≡ []
        → d.descs_xfered < length descs
        → d.fetching ≡ true
        → s.scheduled ≡ false
        → s.phase ≡ Phase.waiting
        → s.misplaced ≡ false
        → Goes descs contents s (fetch_data send_size has d)
    unfolding fetch_data can_go_on
    fetch_data-Goes s has d c (sbp, called) empty l fetching quiet e placed =
        let (status, taken, missing, marked, long, silent) = mark_total has descs c.status c.long in
        let (b, found) = stored_at_total status d.descs_count (ground (arith, c.count)) in
        let goes =
          around s taken missing (wake send_size b (record d { descs_status = some status })) silent
            (λ a.
              wake-Goes descs contents send_size known (record s { asked = a }) b
                (record d { descs_status = some status })
                (restated descs contents 0 s.received d status long c) (sbp, called) empty l
                fetching quiet e placed) in
        (
          goes.0,
          >>=_step d.descs _ descs c.has_descs (
              >>=_step d.descs_status _ c.status c.has_status (
                >>=_step (mark has descs c.status) _ (status, taken, missing) marked
                  (>>=_step _ _ b (elim_some d.xcb _ _ sbp called (rw (in_order d c.mode) found))
                    (goes.1)))),
          goes.2,
        )
