-- ===== src/Gtcd/Ends/Loop.antt =====
-- A transfer in the sequential mode whose chunks are all on storage: the client asks until the end,
-- and the storage plugin reads what it is asked for.
use mathlib.Core.Option.{some-injective}
use mathlib.Core.Path.{subst}
use ditto.Prelude.{
  ℕ, zero, suc, ◌+◌, ◌*◌, ◌≤◌, ◌<◌, ◌≡◌, refl, sym, ap, ◌∙◌, true, not, ◌&&◌, ◌⊎◌, Option, none,
  some, List, [], length, drop, add32, arith, ltb, leb, ◌==◌, Bool-cases, inl, inr, ◌>>=◌, >>=_step,
  case_none, length-drop,
}
use ditto.Prelude.Bytes.{Bytes}
use ditto.Gtcd.{Descriptor, XferData, Outcome, actual_transfer_data, get_chunk_cb}
use ditto.Gtcd.Fetch.{get_data}
use ditto.Gtcd.Run.{Phase, System, Event, after, ask, load, content, step}
use ditto.Gtcd.InOrder.{Good, InPhase, sends-released}
use ditto.Gtcd.Ends.{Ahead, left, served, get_data-served, held, get_chunk_cb-served}

-- What happens next if nothing goes wrong.
unfoldable pub next : Phase → Event
next Phase.idle = Event.asks 0
next Phase.waiting = Event.timer (λ d. true)
next (Phase.loading sbp i) = Event.read none
next Phase.ended = Event.read none
next Phase.failed = Event.read none

unfoldable pub drive : ℕ → List Bytes → ℕ → System → Option System
unfolding next
drive send_size contents zero s = some s
drive send_size contents (suc f) s = do
  s' ← step send_size contents s (next s.phase)
  drive send_size contents f s'

module _ (send_size : ℕ) (descs : List Descriptor) (contents : List Bytes) where
  -- The transfer goes on, with `m` the measure of what is left to do.
  abbrev pub Active : ℕ → System → Type 0
  Active m s =
      (d : XferData) × (s.xfer ≡ some d)
      × Ahead descs contents d
      × (((s.phase ≡ Phase.idle) × (m ≡ 2 * left descs contents d + 1))
          ⊎ ((sbp : ℕ) × (i : ℕ) × (s.phase ≡ Phase.loading sbp i)
              × (m ≡ 2 * left descs contents d)))

  -- The end, or a state in which no more than `m` is left to do.
  abbrev Leads : ℕ → System → Type 0
  Leads m s = (s.phase ≡ Phase.ended) ⊎ ((k : ℕ) × Active k s × (k ≤ m))

  -- What is on storage stays there when the buffer changes.
  rebuffered :
      (d : XferData) (buf : Bytes) (offset : ℕ)
      → Ahead descs contents d
      → Ahead descs contents (record d { buf = buf; buf_offset = offset })
  rebuffered d buf offset a = record {
    fine = a.fine;
    status = a.status;
    has_status = a.has_status;
    stored = a.stored;
  }

  served-Leads :
      (t : System) (sbp : ℕ) (d : XferData)
      → 0 < send_size
      → Ahead descs contents d
      → Leads (2 * left descs contents d) (after t (served descs contents send_size sbp d))
  unfolding served actual_transfer_data
  served-Leads t sbp d pos a =
      elim (Bool-cases (ltb (length d.buf) send_size && not (d.descs_xfered == length descs))) [
        | inl more ↦ rw more (
            inr (
              2 * left descs contents d,
              (
                record d { descs_count = d.descs_count + 1 },
                refl,
                record {
                  fine = a.fine;
                  status = a.status;
                  has_status = a.has_status;
                  stored = λ i le lt. a.stored i (omega arith) lt;
                },
                inr (sbp, d.descs_count, refl, refl),
              ),
              omega arith,
            ))
        | inr full ↦ rw full (
            subst (λ (o : Outcome). Leads (2 * left descs contents d) (after t o))
              (sym (case_none d.err _ _ a.fine))
              (elim (Bool-cases (leb (length d.buf) send_size)) [
                | inl fits ↦ elim (Bool-cases (d.descs_xfered == length descs)) [
                  | inl last ↦
                      rw (fits, last) (inl (ap (λ (u : System). u.phase) (sends-released _ descs)))
                  | inr more ↦
                      rw (fits, more)
                        (inr (
                          2 * left descs contents (record d { buf = [] }) + 1,
                          (
                            record d { buf = []; buf_offset = add32 d.buf_offset (length d.buf) },
                            refl,
                            rebuffered d [] (add32 d.buf_offset (length d.buf)) a,
                            inl (refl, refl),
                          ),
                          ground arith,
                        ))
                ]
                | inr large ↦ rw large (
                    inr (
                      2 * left descs contents (record d { buf = drop send_size d.buf }) + 1,
                      (
                        record d {
                          buf = drop send_size d.buf;
                          buf_offset = add32 d.buf_offset send_size;
                        },
                        refl,
                        rebuffered d (drop send_size d.buf) (add32 d.buf_offset send_size) a,
                        inl (refl, refl),
                      ),
                      ground (arith, length-drop send_size d.buf),
                    ))
              ]))
      ]

  module _ (known : length contents ≡ length descs) (pos : 0 < send_size) where
    -- A step that ends the transfer, or brings it forward.
    abbrev Forward : ℕ → Option System → Type 0
    Forward m r = (s' : System) × (r ≡ some s') × Leads m s'

    later : (k m : ℕ) (s : System) → Leads k s → k ≤ m → Leads m s
    later k m s (inl end) l = inl end
    later k m s (inr (j, active, le)) l = inr (j, active, omega arith)

    from_idle :
        (s : System) (m : ℕ) (d : XferData)
        → Ahead descs contents d
        → s.xfer ≡ some d
        → m ≡ 2 * left descs contents d
        → InPhase descs contents s Phase.idle
        → Forward m (ask send_size contents s 0 Phase.idle)
    unfolding ask
    from_idle s m d a there e (d', there', core, free, quiet, asks, live) =
        let q : d ≡ d' = some-injective _ _ (sym there ∙ there') in
        let a' = subst (Ahead descs contents) q a in
        let t : System = record s { phase = Phase.waiting } in
        (
          after t (served descs contents send_size 0 d'),
          >>=_step s.xfer _ d' there' (
              >>=_step (get_data send_size 0 d') _ (served descs contents send_size 0 d')
                (get_data-served descs contents send_size 0 s.received d' core a' live) refl),
          later (2 * left descs contents d') m (after t (served descs contents send_size 0 d'))
              (served-Leads t 0 d' pos a')
              (subst (λ (x : XferData). 2 * left descs contents x ≤ m) q (omega arith)),
        )

    from_loading :
        (s : System) (m sbp i : ℕ) (d : XferData)
        → Ahead descs contents d
        → s.xfer ≡ some d
        → suc m ≡ 2 * left descs contents d
        → InPhase descs contents s (Phase.loading sbp i)
        → Forward m (load send_size contents s none (Phase.loading sbp i))
    unfolding load
    from_loading s m sbp i d a there e (d', there', core, free, quiet, asks, same) =
        let q : d ≡ d' = some-injective _ _ (sym there ∙ there') in
        let a' = subst (Ahead descs contents) q a in
        let e' = subst (λ (x : XferData). suc m ≡ 2 * left descs contents x) q e in
        let t : System = record s { phase = Phase.waiting } in
        let (status, runs, ahead, fewer) =
          get_chunk_cb-served descs contents send_size sbp i s.received d' known core a' same in
        let r = served descs contents send_size sbp (held descs contents send_size d' i status) in
        (
          after t r,
          >>=_step s.xfer _ d' there' (
              >>=_step (get_chunk_cb send_size sbp i none none (content contents i) d') _ r runs
                refl),
          later (2 * left descs contents (held descs contents send_size d' i status)) m (after t r)
              (served-Leads t sbp (held descs contents send_size d' i status) pos ahead)
              (omega arith),
        )

    pub one_step :
        (s : System) (m : ℕ)
        → Good descs contents s
        → Active (suc m) s
        → Forward m (step send_size contents s (next s.phase))
    unfolding Good step next
    one_step s m (g, placed) (d, there, a, inl (idle, e)) =
        subst (λ (p : Phase). Forward m (step send_size contents s (next p))) (sym idle)
          (subst (λ (p : Phase). Forward m (ask send_size contents s 0 p)) (sym idle)
            (from_idle s m d a there (omega arith) (subst (InPhase descs contents s) idle g)))
    one_step s m (g, placed) (d, there, a, inr (sbp, i, loading, e)) =
        subst (λ (p : Phase). Forward m (step send_size contents s (next p))) (sym loading)
          (subst (λ (p : Phase). Forward m (load send_size contents s none p)) (sym loading)
            (from_loading s m sbp i d a there e (subst (InPhase descs contents s) loading g)))
