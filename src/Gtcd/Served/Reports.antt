-- ===== src/Gtcd/Served/Reports.antt =====
-- A transfer in the sequential mode: a report of the transfer plugin, `xp_fetch_data_cb`, returns and
-- keeps the invariant, whether a request waits or not.
use ditto.Prelude.{
  ℕ, ◌<◌, ◌≡◌, refl, Bool, true, false, Option, none, some, List, [], ◌∷◌, length, arith,
  Option-cases, inl, inr, if◌then◌else◌, ◌>>=◌, >>=_step, elim_some, elim_none,
}
use ditto.Prelude.Bytes.{Bytes}
use ditto.Gtcd.{Descriptor, XferData, Out, Outcome}
use ditto.Gtcd.Fetch.{arrived, wake, may_wake, failure, xp_fetch_data_cb}
use ditto.Gtcd.Run.{Phase, System, sends}
use ditto.Gtcd.InOrder.{Core, Good, retold, restated}
use ditto.Gtcd.Served.{in_order, stored_at_total, Goes}
use ditto.Gtcd.Served.Ask.{wake-Goes}
use ditto.Gtcd.Served.Fetched.{arrived_total}

abbrev bytes_of : Option Bytes → Bytes
bytes_of none = []
bytes_of (some bytes) = bytes

abbrev put : Bool → Descriptor → Option Bytes → List Out → List Out
put match desc dat outs =
    if match then Out.put_ichunk desc (elim dat [ none ↦ [] | some bytes ↦ bytes ]) ∷ outs else outs

put_quiet :
    (match : Bool) (desc : Descriptor) (dat : Option Bytes) (t : System)
    → sends t (put match desc dat []) ≡ t
put_quiet true desc dat t = refl
put_quiet false desc dat t = refl

module _ (descs : List Descriptor) (contents : List Bytes) where
  -- An entry that differs in what the invariant does not speak of.
  abbrev Alike : ℕ → Bytes → XferData → XferData → Type 0
  Alike off r d d' =
      Core descs contents off r d'
      × (d'.xcb ≡ d.xcb)
      × (d'.fetching ≡ d.fetching)
      × (d'.descs_xfered ≡ d.descs_xfered)
      × (d'.buf ≡ d.buf)

  module _ (send_size : ℕ) (known : length contents ≡ length descs) where
    -- No request waits.
    pub unheard :
        (off : ℕ) (r : Bytes) (d : XferData) (e : Option Bytes) (desc : Descriptor)
        (dat : Option Bytes)
        → Core descs contents off r d
        → d.xcb ≡ none
        → (d' : XferData) × (outs : List Out) × (xp_fetch_data_cb send_size e desc dat d
            ≡ some (some d', outs))
          × ((t : System) → sends t outs ≡ t)
          × Alike off r d d'
    unfolding xp_fetch_data_cb wake may_wake
    unheard off r d e desc dat c free = elim (Option-cases (failure e dat)) [
      | inr (m, broken) ↦ (
        record d { err = some m },
        [],
        elim_some (failure e dat) _ _ m broken (elim_none d.xcb _ _ free refl),
        (λ t. refl),
        (retold descs contents off r d d.fetching d.xcb (some m) c, refl, refl, refl, refl),
      )
      | inl fine ↦
          let (status, match, e', long) = arrived_total desc.id descs c.status c.long in
          (
            record d { descs_status = some status },
            put match desc dat [],
            elim_none (failure e dat) _ _ fine (
                >>=_step d.descs _ descs c.has_descs (
                  >>=_step d.descs_status _ c.status c.has_status (
                    >>=_step (arrived desc.id descs c.status) _ (status, match) e'
                      (>>=_step _ _ false (elim_none d.xcb _ _ free refl) (
                        >>=_step _ _ (some (record d { descs_status = some status }), [])
                          (elim_none d.xcb _ _ free refl) refl))))),
            put_quiet match desc dat,
            (restated descs contents off r d status long c, refl, refl, refl, refl),
          )
    ]

    put-Goes :
        (s : System) (match : Bool) (desc : Descriptor) (dat : Option Bytes) (m : Option Outcome)
        → Goes descs contents s m
        → Goes descs contents s (do (d', outs) ← m; some (d', put match desc dat outs))
    unfolding Good
    put-Goes s true desc dat m (r, runs, lands) =
        ((r.0, put true desc dat (r.1)), >>=_step m _ r runs refl, lands)
    put-Goes s false desc dat m (r, runs, lands) =
        ((r.0, put false desc dat (r.1)), >>=_step m _ r runs refl, lands)

    -- A request waits.
    pub heard :
        (s : System) (d : XferData) (e : Option Bytes) (desc : Descriptor) (dat : Option Bytes)
        → Core descs contents 0 s.received d
        → (sbp : ℕ) × (d.xcb ≡ some sbp)
        → d.buf ≡ []
        → d.descs_xfered < length descs
        → d.fetching ≡ true
        → s.scheduled ≡ false
        → s.phase ≡ Phase.waiting
        → s.misplaced ≡ false
        → Goes descs contents s (xp_fetch_data_cb send_size e desc dat d)
    unfolding xp_fetch_data_cb may_wake
    heard s d e desc dat c (sbp, called) empty l fetching quiet w placed =
        elim (Option-cases (failure e dat)) [
          | inr (m, broken) ↦
              let (r, runs, lands) =
                wake-Goes descs contents send_size known s true (record d { err = some m })
                  (retold descs contents 0 s.received d d.fetching d.xcb (some m) c) (sbp, called)
                  empty l fetching quiet w placed in
              (r, elim_some (failure e dat) _ _ m broken runs, lands)
          | inl fine ↦
              let (status, match, e', long) = arrived_total desc.id descs c.status c.long in
              let (b, found) = stored_at_total status d.descs_count (ground (arith, c.count)) in
              let (r, runs, lands) =
                put-Goes s match desc dat
                  (wake send_size b (record d { descs_status = some status }))
                  (wake-Goes descs contents send_size known s b
                    (record d { descs_status = some status })
                    (restated descs contents 0 s.received d status long c) (sbp, called) empty l
                    fetching quiet w placed) in
              (
                r,
                elim_none (failure e dat) _ _ fine (
                    >>=_step d.descs _ descs c.has_descs (
                      >>=_step d.descs_status _ c.status c.has_status (
                        >>=_step (arrived desc.id descs c.status) _ (status, match) e'
                          (>>=_step _ _ b
                            (elim_some d.xcb _ _ sbp called (rw (in_order d c.mode) found))
                            runs)))),
                lands,
              )
        ]
