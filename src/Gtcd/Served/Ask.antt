-- ===== src/Gtcd/Served/Ask.antt =====
-- A transfer in the sequential mode: `get_data` and `wake` return, and keep the invariant.
use ditto.Prelude.{
  ℕ, ◌<◌, ◌≡◌, refl, Bool, true, false, ◌⊎◌, none, some, List, [], ◌∷◌, length, arith, ltb, ◌==◌,
  Bool-cases, inl, inr, if◌then◌else◌, >>=_step, elim_some,
}
use ditto.Prelude.Bytes.{Bytes}
use ditto.Gtcd.{DescStatus, Descriptor, XferData, Out, is_sequential, stored_at}
use ditto.Gtcd.Fetch.{get_data, wake}
use ditto.Gtcd.Run.{Phase, System}
use ditto.Gtcd.InOrder.{Core, Good, Lands, retold}
use ditto.Gtcd.Served.{in_order, stored_at_total, Goes, Ready, transfer_data-Goes}

nothing_held : (xs : Bytes) → ltb 0 (length xs) ≡ false → xs ≡ []
nothing_held [] h = refl
nothing_held (x ∷ xs) h = absurd (ground arith)

module _ (descs : List Descriptor) (contents : List Bytes) where
  module _ (send_size : ℕ) (known : length contents ≡ length descs) where
    -- The request has to wait.
    waits :
        (s : System) (sbp : ℕ) (d : XferData)
        → Ready descs contents s d
        → s.phase ≡ Phase.waiting
        → d.buf ≡ []
        → d.descs_xfered < length descs
        → Lands descs contents s (
          some (record d { fetching = true; xcb = some sbp }),
          if d.fetching then [] else Out.fetch_data ∷ [],
        )
    unfolding Good
    waits s sbp d h e empty l =
        let d' : XferData = record d { fetching = true; xcb = some sbp } in
        let core = retold descs contents 0 s.received d true (some sbp) d.err h.core in
        elim (Bool-cases d.fetching) [
          | inl old ↦
              rw (old, e)
                ((d', refl, core, (sbp, refl), empty, l, (λ b. absurd cc), refl), h.placed)
          | inr new ↦
              rw (new, e)
                ((d', refl, core, (sbp, refl), empty, l, (λ b. h.asks new), refl), h.placed)
        ]

    pub get_data-Goes :
        (s : System) (sbp : ℕ) (d : XferData)
        → Ready descs contents s d
        → s.phase ≡ Phase.waiting
        → (d.descs_xfered < length descs) ⊎ (0 < length d.buf)
        → Goes descs contents s (get_data send_size sbp d)
    unfolding get_data
    get_data-Goes s sbp d h e live =
        let (r, runs, lands) = transfer_data-Goes descs contents send_size known s sbp d h in
        elim (Bool-cases (ltb 0 (length d.buf))) [
          | inl held ↦ (r, rw held runs, lands)
          | inr empty ↦
              let c = h.core in
              let seq : is_sequential d.xmode ≡ true = in_order d c.mode in
              let (b, found) =
                stored_at_total c.status d.descs_count (ground (arith, c.count, c.long)) in
              let looked =
                >>=_step d.descs_status (λ (st : List DescStatus). stored_at st d.descs_count)
                  c.status c.has_status found in
              elim (Bool-cases b) [
                | inl there ↦ (r, rw (empty, seq) (>>=_step _ _ b looked (rw there runs)), lands)
                | inr missing ↦
                    let l : d.descs_xfered < length descs = ground arith in
                    let more : (d.descs_xfered == length descs) ≡ false = ground arith in
                    (
                      (
                        some (record d { fetching = true; xcb = some sbp }),
                        if d.fetching then [] else Out.fetch_data ∷ [],
                      ),
                      rw (empty, seq)
                          (>>=_step _ _ b looked
                            (rw missing (>>=_step d.descs _ descs c.has_descs (rw more refl)))),
                      waits s sbp d h e (nothing_held d.buf empty) l,
                    )
              ]
        ]

    -- A request that waits goes on, or waits still.
    pub wake-Goes :
        (s : System) (b : Bool) (d : XferData)
        → Core descs contents 0 s.received d
        → (sbp : ℕ) × (d.xcb ≡ some sbp)
        → d.buf ≡ []
        → d.descs_xfered < length descs
        → d.fetching ≡ true
        → s.scheduled ≡ false
        → s.phase ≡ Phase.waiting
        → s.misplaced ≡ false
        → Goes descs contents s (wake send_size b d)
    unfolding wake Good
    wake-Goes s false d c (sbp, called) empty l fetching quiet e placed = (
      (some d, []),
      elim_some d.xcb _ _ sbp called refl,
      rw e ((d, refl, c, (sbp, called), empty, l, (λ u. absurd cc), fetching), placed),
    )
    wake-Goes s true d c (sbp, called) empty l fetching quiet e placed =
        let (r, runs, lands) =
          transfer_data-Goes descs contents send_size known s sbp (record d { xcb = none })
            (record {
              core = retold descs contents 0 s.received d d.fetching none d.err c;
              free = refl;
              quiet = quiet;
              asks = λ u. absurd cc;
              placed = placed;
            }) in
        (r, elim_some d.xcb _ _ sbp called runs, lands)
