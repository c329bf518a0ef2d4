-- ===== src/Gtcd/Steps.antt =====
-- A transfer in the sequential mode: every event is handled without a fault, and keeps the invariant.
use mathlib.Core.Path.{subst}
use ditto.Prelude.{
  ℕ, ◌<◌, ◌≡◌, refl, sym, ◌∙◌, Bool, true, false, ◌⊎◌, Option, none, some, List, [], ◌∷◌, length,
  arith, Bool-cases, inl, inr, if◌then◌else◌, ◌>>=◌, >>=_step,
}
use ditto.Prelude.Bytes.{Bytes}
use ditto.Gtcd.{Descriptor, XferData, Out, Outcome, get_chunk_cb}
use ditto.Gtcd.Fetch.{get_data, fetch_data, xp_fetch_data_cb}
use ditto.Gtcd.Run.{
  Phase, System, Event, after, content, ask, load, timed_out, told, step, run, sends,
}
use ditto.Gtcd.InOrder.{Good, InPhase, Lands}
use ditto.Gtcd.Served.{Goes}
use ditto.Gtcd.Served.Read.{get_chunk_cb-Goes}
use ditto.Gtcd.Served.Ask.{get_data-Goes}
use ditto.Gtcd.Served.Events.{fetch_data-Goes}
use ditto.Gtcd.Served.Reports.{unheard, heard}

module _ (send_size : ℕ) (descs : List Descriptor) (contents : List Bytes) where
  -- The step is taken, and keeps the invariant.
  abbrev pub Steps : Option System → Type 0
  Steps m = (s' : System) × (m ≡ some s') × Good descs contents s'

  either :
      (b : Bool) (x y : Option System)
      → (b ≡ true → Steps x)
      → (b ≡ false → Steps y)
      → Steps (if b then x else y)
  either true x y f g = f refl
  either false x y f g = g refl

  handled :
      (t : System) (x : Option XferData) (d : XferData) (f : XferData → Option Outcome)
      → x ≡ some d
      → Goes descs contents t (f d)
      → Steps (do d ← x; r ← f d; some (after t r))
  unfolding Good
  handled t x d f e (r, runs, lands) =
      (after t r, >>=_step x _ d e (>>=_step (f d) _ r runs refl), lands)

  module _ (known : length contents ≡ length descs) where
    ask-Steps :
        (s : System) (sbp : ℕ) (p : Phase)
        → InPhase descs contents s p
        → s.misplaced ≡ false
        → Good descs contents s
        → Steps (ask send_size contents s sbp p)
    unfolding ask
    ask-Steps s sbp Phase.idle (d, there, core, free, quiet, asks, live) placed h =
        handled (record s { phase = Phase.waiting }) s.xfer d (get_data send_size sbp) there
          (get_data-Goes descs contents send_size known (record s { phase = Phase.waiting }) sbp d
            (record { core = core; free = free; quiet = quiet; asks = asks; placed = placed }) refl
            live)
    ask-Steps s sbp Phase.waiting g placed h = (s, refl, h)
    ask-Steps s sbp (Phase.loading b i) g placed h = (s, refl, h)
    ask-Steps s sbp Phase.ended g placed h = (s, refl, h)
    ask-Steps s sbp Phase.failed g placed h = (s, refl, h)

    load-Steps :
        (s : System) (e : Option Bytes) (p : Phase)
        → InPhase descs contents s p
        → s.misplaced ≡ false
        → Good descs contents s
        → Steps (load send_size contents s e p)
    unfolding load
    load-Steps s e (Phase.loading sbp i) (d, there, core, free, quiet, asks, same) placed h =
        handled (record s { phase = Phase.waiting }) s.xfer d
          (get_chunk_cb send_size sbp i none e (content contents i)) there
          (get_chunk_cb-Goes descs contents send_size known (record s { phase = Phase.waiting }) sbp
            i e d core free quiet asks placed same)
    load-Steps s e Phase.idle g placed h = (s, refl, h)
    load-Steps s e Phase.waiting g placed h = (s, refl, h)
    load-Steps s e Phase.ended g placed h = (s, refl, h)
    load-Steps s e Phase.failed g placed h = (s, refl, h)

    -- The timer is set only while a request waits.
    timed_out-Steps :
        (s : System) (has : Descriptor → Bool)
        → s.scheduled ≡ true
        → s.misplaced ≡ false
        → (p : Phase) → s.phase ≡ p
        → InPhase descs contents s p
        → Steps (timed_out send_size contents s has)
    unfolding timed_out
    timed_out-Steps s has due placed Phase.waiting w
          (d, there, core, called, empty, l, apart, fetching) =
        handled (record s { scheduled = false }) s.xfer d (fetch_data send_size has) there
          (fetch_data-Goes descs contents send_size known (record s { scheduled = false }) has d
            core called empty l fetching refl w placed)
    timed_out-Steps s has due placed Phase.idle w (d, there, core, free, quiet, rest, more) =
        absurd cc
    timed_out-Steps s has due placed (Phase.loading b i) w
          (d, there, core, free, quiet, rest, more) =
        absurd cc
    timed_out-Steps s has due placed Phase.ended w (gone, quiet, whole) = absurd cc
    timed_out-Steps s has due placed Phase.failed w (gone, quiet, part) = absurd cc

    reported :
        (s : System) (e : Option Bytes) (desc : Descriptor) (dat : Option Bytes) (d : XferData)
        → s.xfer ≡ some d
        → Goes descs contents s (xp_fetch_data_cb send_size e desc dat d)
        → Steps (told send_size contents s e desc dat s.xfer)
    unfolding told Good
    reported s e desc dat d there (r, runs, lands) =
        subst (λ (x : Option XferData). Steps (told send_size contents s e desc dat x)) (sym there)
          (after s r, >>=_step (xp_fetch_data_cb send_size e desc dat d) _ r runs refl, lands)

    -- A report with no request to go on.
    unanswered :
        (s : System) (d' : XferData) (outs : List Out)
        → ((t : System) → sends t outs ≡ t)
        → s.misplaced ≡ false
        → InPhase descs contents (record s { xfer = some d' }) s.phase
        → Lands descs contents s (some d', outs)
    unfolding Good
    unanswered s d' outs silent placed g =
        subst (Good descs contents) (sym (silent (record s { xfer = some d' }))) (g, placed)

    live_still :
        (d d' : XferData)
        → d'.descs_xfered ≡ d.descs_xfered
        → d'.buf ≡ d.buf
        → (d.descs_xfered < length descs) ⊎ (0 < length d.buf)
        → (d'.descs_xfered < length descs) ⊎ (0 < length d'.buf)
    live_still d d' n b (inl l) = inl (omega (arith, n))
    live_still d d' n b (inr l) = inr (rw b l)

    told-Steps :
        (s : System) (e : Option Bytes) (desc : Descriptor) (dat : Option Bytes)
        → s.asked ≡ true
        → s.misplaced ≡ false
        → (p : Phase) → s.phase ≡ p
        → InPhase descs contents s p
        → Good descs contents s
        → Steps (told send_size contents s e desc dat s.xfer)
    unfolding told
    told-Steps s e desc dat heard_of placed Phase.idle w (d, there, core, free, quiet, asks, live)
          h =
        let (d', outs, runs, silent, (core', x, f, n, b)) =
          unheard descs contents send_size known 0 s.received d e desc dat core free in
        reported s e desc dat d there (
          (some d', outs),
          runs,
          unanswered s d' outs silent placed (
              rw w (
                d',
                refl,
                core',
                x ∙ free,
                quiet,
                (λ u. asks (sym f ∙ u)),
                live_still d d' n b live,
              )),
        )
    told-Steps s e desc dat heard_of placed (Phase.loading sbp i) w
          (d, there, core, free, quiet, asks, same) h =
        let (d', outs, runs, silent, (core', x, f, n, b)) =
          unheard descs contents send_size known 1 s.received d e desc dat core free in
        reported s e desc dat d there (
          (some d', outs),
          runs,
          unanswered s d' outs silent placed
              (rw w (d', refl, core', x ∙ free, quiet, (λ u. asks (sym f ∙ u)), same ∙ sym n)),
        )
    told-Steps s e desc dat heard_of placed Phase.waiting w
          (d, there, core, called, empty, l, apart, fetching) h =
        elim (Bool-cases s.scheduled) [
          | inl due ↦ absurd (let u = apart due in cc)
          | inr quiet ↦ reported s e desc dat d there (
              heard descs contents send_size known s d e desc dat core called empty l fetching quiet
                w placed)
        ]
    told-Steps s e desc dat heard_of placed Phase.ended w (gone, quiet, whole) h =
        subst (λ (x : Option XferData). Steps (told send_size contents s e desc dat x)) (sym gone)
          (s, refl, h)
    told-Steps s e desc dat heard_of placed Phase.failed w (gone, quiet, part) h =
        subst (λ (x : Option XferData). Steps (told send_size contents s e desc dat x)) (sym gone)
          (s, refl, h)

    pub step-Steps :
        (s : System) (e : Event) → Good descs contents s → Steps (step send_size contents s e)
    unfolding step Good
    step-Steps s (Event.asks sbp) (g, placed) = ask-Steps s sbp s.phase g placed (g, placed)
    step-Steps s (Event.read e) (g, placed) = load-Steps s e s.phase g placed (g, placed)
    step-Steps s (Event.timer has) (g, placed) =
        either s.scheduled _ _ (λ due. timed_out-Steps s has due placed s.phase refl g)
          (λ u. (s, refl, (g, placed)))
    step-Steps s (Event.arrival e desc dat) (g, placed) =
        either s.asked _ _
          (λ heard_of. told-Steps s e desc dat heard_of placed s.phase refl g (g, placed))
          (λ u. (s, refl, (g, placed)))

    pub run-Steps :
        (s : System) (es : List Event) → Good descs contents s → Steps (run send_size contents s es)
    unfolding run
    run-Steps s [] h = (s, refl, h)
    run-Steps s (e ∷ es) h =
        let (s1, e1, h1) = step-Steps s e h in
        let (s2, e2, h2) = run-Steps s1 es h1 in
        (s2, >>=_step (step send_size contents s e) _ s1 e1 e2, h2)
