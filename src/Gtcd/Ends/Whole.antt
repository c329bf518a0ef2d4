-- ===== src/Gtcd/Ends/Whole.antt =====
-- A transfer in the sequential mode whose chunks are all on storage, from its start to its end.
use mathlib.Core.Option.{some-injective}
use mathlib.Core.Path.{subst}
use ditto.Prelude.{
  ℕ, zero, suc, ◌+◌, ◌*◌, ◌≤◌, ◌<◌, ◌≡◌, refl, sym, ap, ◌∙◌, Bool, true, false, not, ◌&&◌, inl, inr,
  Option, none, some, List, [], ◌∷◌, ◌++◌, length, arith, ltb, ◌==◌, >>=_step,
}
use ditto.Prelude.Bytes.{Bytes}
use ditto.Gtcd.{
  XferMode, DescStatus, Descriptor, XferData, Out, is_on_storage, is_sequential, stored_at,
  transfer_data,
}
use ditto.Gtcd.Fetch.{get_data, fetch_data, mark, can_go_on, wake}
use ditto.Gtcd.Run.{
  Phase, System, Event, ask, send, sends, load, timed_out, step, unknowns, started,
}
use ditto.Gtcd.InOrder.{Good, InPhase, concat}
use ditto.Gtcd.Served.Fetched.{sends-append}
use ditto.Gtcd.Steps.{step-Steps}
use ditto.Gtcd.Transfer.{started-Good}
use ditto.Gtcd.Ends.{left}
use ditto.Gtcd.Ends.Loop.{next, drive, Active, one_step}

-- A transfer that has ended stays as it is.
drive_ended :
    (send_size : ℕ) (contents : List Bytes) (f : ℕ) (s : System)
    → s.phase ≡ Phase.ended
    → drive send_size contents f s ≡ some s
unfolding drive step load next
drive_ended send_size contents zero s e = refl
drive_ended send_size contents (suc f) s e =
    >>=_step (step send_size contents s (next s.phase)) _ s
      (subst (λ (p : Phase). step send_size contents s (next p) ≡ some s) (sym e)
        (subst (λ (p : Phase). load send_size contents s none p ≡ some s) (sym e) refl))
      (drive_ended send_size contents f s e)

stored_all : List Descriptor → List DescStatus
stored_all [] = []
stored_all (d ∷ ds) = DescStatus.on_storage ∷ stored_all ds

references : List Descriptor → List Out
references [] = []
references (d ∷ ds) = Out.inc_chunk_refcount d ∷ references ds

sends-references : (s : System) (ds : List Descriptor) → sends s (references ds) ≡ s
unfolding references
sends-references s [] = refl
sends-references s (d ∷ ds) = sends-references s ds

mark-stored_all :
    (ds : List Descriptor)
    → mark (λ d. true) ds (unknowns ds) ≡ some (stored_all ds, references ds, [])
unfolding mark unknowns stored_all references
mark-stored_all [] = refl
mark-stored_all (d ∷ ds) =
    >>=_step (mark (λ x. true) ds (unknowns ds)) _ _ (mark-stored_all ds) refl

stored_at-stored_all :
    (ds : List Descriptor) (i : ℕ) → i < length ds → stored_at (stored_all ds) i ≡ some true
unfolding stored_at stored_all is_on_storage
stored_at-stored_all [] i l = absurd (omega arith)
stored_at-stored_all (d ∷ ds) zero l = refl
stored_at-stored_all (d ∷ ds) (suc i) l = stored_at-stored_all ds i (omega arith)

module _ (send_size : ℕ) (descs : List Descriptor) (contents : List Bytes) where
  module _ (known : length contents ≡ length descs) (pos : 0 < send_size) where
    not_done : (s : System) → Good descs contents s → Active send_size descs contents 0 s → ⊥
    unfolding Good
    not_done s g (d, there, a, inl (idle, e)) = omega arith
    not_done s (g, placed) (d, there, a, inr (sbp, i, loading, e)) =
        let (d', there', core, a1, a2, a3, a4) = subst (InPhase descs contents s) loading g in
        let q : d ≡ d' = some-injective _ _ (sym there ∙ there') in
        let e' = subst (λ (x : XferData). 0 ≡ 2 * left descs contents x) q e in
        omega (arith, core.room)

    drive-Active :
        (f m : ℕ) (s : System)
        → Good descs contents s
        → Active send_size descs contents m s
        → m ≤ f
        → (s' : System) × (drive send_size contents f s ≡ some s')
          × (s'.phase ≡ Phase.ended)
          × Good descs contents s'
    unfolding drive
    drive-Active f zero s g a l = absurd (not_done s g a)
    drive-Active zero (suc m) s g a l = absurd (omega arith)
    drive-Active (suc f) (suc m) s g a l =
        let (s1, e1, leads) = one_step send_size descs contents known pos s m g a in
        let (s2, e2, g2) = step-Steps send_size descs contents known s (next s.phase) g in
        let g1 = subst (Good descs contents) (some-injective _ _ (sym e2 ∙ e1)) g2 in
        elim leads [
          | inl end ↦ (
            s1,
            >>=_step (step send_size contents s (next s.phase)) _ s1 e1
                (drive_ended send_size contents f s1 end),
            end,
            g1,
          )
          | inr (k, active, le) ↦
              let (s', runs, end, g') = drive-Active f k s1 g1 active (omega arith) in
              (s', >>=_step (step send_size contents s (next s.phase)) _ s1 e1 runs, end, g')
        ]

-- The first two steps: the request waits, and the timer finds every chunk on storage.
abbrev first_entry : List Descriptor → List DescStatus → ℕ → Option ℕ → XferData
first_entry descs status count xcb = record {
  xmode = XferMode.sequential;
  descs = some descs;
  descs_status = some status;
  descs_count = count;
  descs_xfered = 0;
  buf = [];
  buf_offset = 0;
  fetching = true;
  xcb = xcb;
  err = none;
  hints = some [];
  sid = 0;
}

abbrev first_state : XferData → Phase → Bool → System
first_state d phase scheduled = record {
  xfer = some d;
  phase = phase;
  scheduled = scheduled;
  asked = false;
  received = [];
  misplaced = false;
}

module _ (send_size : ℕ) (contents : List Bytes) (c : Descriptor) (cs : List Descriptor) where
  asked_first :
      step send_size contents (started XferMode.sequential (c ∷ cs)) (Event.asks 0)
      ≡ some (first_state (first_entry (c ∷ cs) (unknowns (c ∷ cs)) 0 (some 0)) Phase.waiting true)
  unfolding step ask get_data started unknowns stored_at is_on_storage is_sequential
  asked_first = let more : (0 == suc (length cs)) ≡ false = ground arith in rw more refl

  found_all :
      0 < send_size
      → step send_size contents
          (first_state (first_entry (c ∷ cs) (unknowns (c ∷ cs)) 0 (some 0)) Phase.waiting true)
          (Event.timer (λ d. true))
        ≡ some (
            first_state
              (first_entry (c ∷ cs) (stored_all (c ∷ cs)) 1 none)
              (Phase.loading 0 0)
              false)
  unfolding step timed_out fetch_data can_go_on wake transfer_data is_sequential
  found_all pos =
      let more : (ltb 0 send_size && not (0 == suc (length cs))) ≡ true = ground arith in
      let d : XferData = first_entry (c ∷ cs) (stored_all (c ∷ cs)) 0 none in
      let d' : XferData = first_entry (c ∷ cs) (stored_all (c ∷ cs)) 1 none in
      let there = stored_at-stored_all (c ∷ cs) 0 (omega arith) in
      let t : System = first_state d' Phase.waiting false in
      >>=_step _ _ (some d', references (c ∷ cs) ++ (Out.get_chunk 0 0 none ∷ []) ++ [])
        (>>=_step (mark (λ x. true) (c ∷ cs) (unknowns (c ∷ cs))) _ _ (mark-stored_all (c ∷ cs)) (
          >>=_step (stored_at (stored_all (c ∷ cs)) 0) _ true there (
            >>=_step (transfer_data send_size 0 d) _ (some d', Out.get_chunk 0 0 none ∷ [])
              (rw more (>>=_step (stored_at (stored_all (c ∷ cs)) 0) _ true there refl)) refl)))
        (ap some (
          sends-append t (references (c ∷ cs) ++ (Out.get_chunk 0 0 none ∷ [])) []
          ∙ sends-append t (references (c ∷ cs)) (Out.get_chunk 0 0 none ∷ [])
          ∙ ap (λ (u : System). send u (Out.get_chunk 0 0 none)) (sends-references t (c ∷ cs))))

-- A sequential transfer of at least one chunk, all of them on storage, replies of at least one byte
-- at most: if the client asks again after each reply, then after no more than twice as many steps
-- as there are bytes and chunks, and two, a reply is marked as the last, and the client has
-- received all chunks one after the other.
pub drive-ends :
    (send_size : ℕ) (descs : List Descriptor) (contents : List Bytes) (f : ℕ)
    → length contents ≡ length descs
    → 0 < length descs
    → 0 < send_size
    → 2 * (length (concat contents) + length descs) + 2 ≤ f
    → (s : System) × (drive send_size contents f (started XferMode.sequential descs) ≡ some s)
      × (s.phase ≡ Phase.ended)
      × (s.received ≡ concat contents)
unfolding drive next started Good
drive-ends send_size [] contents f known some_chunk pos fuel = absurd (omega arith)
drive-ends send_size (c ∷ cs) contents zero known some_chunk pos fuel = absurd (omega arith)
drive-ends send_size (c ∷ cs) contents (suc zero) known some_chunk pos fuel = absurd (omega arith)
drive-ends send_size (c ∷ cs) contents (suc (suc f)) known some_chunk pos fuel =
    let descs : List Descriptor = c ∷ cs in
    let s0 = started XferMode.sequential descs in
    let s1 = first_state (first_entry descs (unknowns descs) 0 (some 0)) Phase.waiting true in
    let d = first_entry descs (stored_all descs) 1 none in
    let s2 = first_state d (Phase.loading 0 0) false in
    let e1 = asked_first send_size contents c cs in
    let e2 = found_all send_size contents c cs pos in
    let (t1, r1, g1) =
      step-Steps send_size descs contents known s0 (Event.asks 0)
        (started-Good descs contents some_chunk) in
    let g1' = subst (Good descs contents) (some-injective _ _ (sym r1 ∙ e1)) g1 in
    let (t2, r2, g2) = step-Steps send_size descs contents known s1 (Event.timer (λ x. true)) g1' in
    let g2' = subst (Good descs contents) (some-injective _ _ (sym r2 ∙ e2)) g2 in
    let (s, runs, end, (g, placed)) =
      drive-Active send_size descs contents known pos f (2 * left descs contents d) s2 g2'
        (
          d,
          refl,
          record {
            fine = refl;
            status = stored_all descs;
            has_status = refl;
            stored = λ i le lt. stored_at-stored_all descs i lt;
          },
          inr (0, 0, refl, refl),
        )
        (omega arith) in
    (
      s,
      >>=_step (step send_size contents s0 (Event.asks 0)) _ s1 e1
          (>>=_step (step send_size contents s1 (Event.timer (λ x. true))) _ s2 e2 runs),
      end,
      (subst (InPhase descs contents s) end g).2,
    )
