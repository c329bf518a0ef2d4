-- ===== src/Gtcd/PutFd/Whole.antt =====
-- An object that is put from a file descriptor is the whole file, committed once.
use mathlib.Core.Path.{subst}
use ditto.Prelude.{
  ℕ, zero, suc, ◌+◌, ◌-◌, ◌≡◌, refl, sym, ap, ◌∙◌, Bool, true, false, List, [], ◌∷◌, ◌++◌, All,
  arith, ltb, ◌==◌, if◌then◌else◌,
}
use ditto.Prelude.Bytes.{Bytes}
use ditto.Gtcd.PutFd.{
  PutFdState, Action, Result, Input, Event, put_fd_main, put_fd_read, put_fd_read_cb, put_fd, step,
  run,
}

-- The pieces that the chunker is given, in order, and how often the object is committed.
abbrev pub objects : List Action → List Bytes
objects [] = []
objects (Action.put_object b ∷ rest) = b ∷ objects rest
objects (Action.watch ∷ rest) = objects rest
objects (Action.unwatch ∷ rest) = objects rest
objects (Action.commit_object ∷ rest) = objects rest
objects (Action.error_reply ∷ rest) = objects rest

abbrev pub commits : List Action → ℕ
commits [] = 0
commits (Action.put_object b ∷ rest) = commits rest
commits (Action.watch ∷ rest) = commits rest
commits (Action.unwatch ∷ rest) = commits rest
commits (Action.commit_object ∷ rest) = suc (commits rest)
commits (Action.error_reply ∷ rest) = commits rest

-- What is read up to the end of the file.
abbrev pub file : List Event → List Bytes
file [] = []
file (Event.readable (Input.bytes b) ∷ es) = b ∷ file es
file (Event.readable Input.end ∷ es) = []
file (Event.readable Input.failed ∷ es) = file es
file (Event.taken s ∷ es) = file es

-- An event that reports no error.
abbrev Fine : Event → Type 0
Fine (Event.readable (Input.bytes b)) = Unit
Fine (Event.readable Input.end) = Unit
Fine (Event.readable Input.failed) = ⊥
Fine (Event.taken true) = ⊥
Fine (Event.taken false) = Unit

abbrev state : Bool → ℕ → PutFdState
state o n = record { fd_open = o; pending = n }

-- Committed: nothing more is done.
committed : (es : List Event) → All Fine es → run (state false 0) es ≡ (state false 0, [])
unfolding run step
committed [] h = refl
committed (Event.readable i ∷ es) h = ap (λ (r : Result). (r.0, r.1)) (committed es (h.1))
committed (Event.taken s ∷ es) h = ap (λ (r : Result). (r.0, r.1)) (committed es (h.1))

abbrev pub due : PutFdState → ℕ
due st = if st.fd_open then 0 else if st.pending == 0 then 1 else 0

abbrev Did : List Bytes → Result → Type 0
Did bs r = (objects (r.1) ≡ bs) × (commits (r.1) ≡ due (r.0))

run-step :
    (st st' : PutFdState) (e : Event) (done : List Action) (es : List Event)
    → step st e ≡ (st', done)
    → run st (e ∷ es) ≡ ((run st' es).0, done ++ (run st' es).1)
unfolding run
run-step st st' e done es h = ap (λ (r : Result). ((run (r.0) es).0, r.1 ++ (run (r.0) es).1)) h

taken_step :
    (o : Bool) (n : ℕ)
    → step (state o (suc n)) (Event.taken false) ≡ (state o n, put_fd_main (state o n))
unfolding step put_fd_read_cb
taken_step o n =
    let some_left : ltb 0 (suc n) ≡ true = ground arith in
    let one_less : suc n - 1 ≡ n = omega arith in rw (some_left, one_less) refl

main_closed : (n : ℕ) → put_fd_main (state false (suc n)) ≡ []
unfolding put_fd_main
main_closed n = let more : (suc n == 0) ≡ false = ground arith in rw more refl

-- The file is closed, and calls of the chunker are outstanding.
closed : (n : ℕ) (es : List Event) → All Fine es → Did [] (run (state false (suc n)) es)
unfolding run step
closed n [] h = (refl, ground arith)
closed n (Event.readable i ∷ es) h = closed n es (h.1)
closed n (Event.taken true ∷ es) h = absurd (h.0)
closed zero (Event.taken false ∷ es) h =
    subst (Did [])
      (sym (run-step (state false 1) (state false 0) (Event.taken false) _ es (taken_step false 0)))
      (rw (committed es (h.1)) (refl, refl))
closed (suc n) (Event.taken false ∷ es) h =
    subst (Did [])
      (sym (
        run-step (state false (suc (suc n))) (state false (suc n)) (Event.taken false) _ es (
          taken_step false (suc n)
          ∙ ap (λ (x : List Action). (state false (suc n), x)) (main_closed n))))
      (closed n es (h.1))

-- The file is open.
opened : (n : ℕ) (es : List Event) → All Fine es → Did (file es) (run (state true n) es)
unfolding run step put_fd_read put_fd_main
opened n [] h = (refl, refl)
opened n (Event.readable (Input.bytes b) ∷ es) h =
    let (a, c) = opened (n + 1) es (h.1) in (ap (λ (x : List Bytes). b ∷ x) a, c)
opened n (Event.readable Input.failed ∷ es) h = absurd (h.0)
opened zero (Event.readable Input.end ∷ es) h = rw (committed es (h.1)) (refl, refl)
opened (suc n) (Event.readable Input.end ∷ es) h =
    let more : (suc n == 0) ≡ false = ground arith in rw more (closed n es (h.1))
opened n (Event.taken true ∷ es) h = absurd (h.0)
opened zero (Event.taken false ∷ es) h = opened zero es (h.1)
opened (suc n) (Event.taken false ∷ es) h =
    subst (Did (file es))
      (sym
        (run-step (state true (suc n)) (state true n) (Event.taken false) _ es (taken_step true n)))
      (opened n es (h.1))

-- An object put from a file descriptor, with no error reported: whatever the order of the reads and
-- of the chunker's callbacks, the chunker is given exactly what was read up to the end of the file,
-- piece by piece in order, and the object is committed once if the file has ended and no call is
-- outstanding, and not at all before.
pub run-put_fd :
    (es : List Event)
    → All Fine es
    → (objects (run (put_fd.0) es).1 ≡ file es)
      × (commits (run (put_fd.0) es).1 ≡ due (run (put_fd.0) es).0)
unfolding put_fd
run-put_fd es h = opened 0 es h
