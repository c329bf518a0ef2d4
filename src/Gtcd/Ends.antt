-- ===== src/Gtcd/Ends.antt =====
-- A transfer in the sequential mode whose chunks are all on storage: what a request or a chunk that
-- was read leads to, and how much is left to do then.
pub mod Loop
pub mod Whole
use mathlib.Core.List.{append_assoc}
use mathlib.Core.Option.{some-injective}
use mathlib.Core.Path.{subst}
use ditto.Prelude.{
  ℕ, zero, suc, ◌+◌, ◌-◌, ◌*◌, ◌≤◌, ◌<◌, ◌≡◌, ◌≢◌, refl, sym, ap, ◌∙◌, Bool, true, false, not, ◌&&◌,
  ◌⊎◌, Option, none, some, List, [], ◌∷◌, ◌++◌, length, take, drop, arith, ltb, leb, ◌==◌,
  Bool-cases, Option-cases, inl, inr, if◌then◌else◌, ◌>>=◌, >>=_step, elim_some, elim_none,
  case_none, length-append, length-drop,
}
use ditto.Prelude.Bytes.{Bytes}
use ditto.Gtcd.{
  XferMode, DescStatus, Descriptor, XferData, GetDataRes, Out, Outcome, is_on_storage,
  is_sequential, stored_at, set_status, actual_transfer_data, transfer_data, read_ahead,
  get_chunk_cb,
}
use ditto.Gtcd.Fetch.{get_data}
use ditto.Gtcd.Run.{Phase, System, after, content}
use ditto.Gtcd.InOrder.{Core, concat, sends-released}
use ditto.Gtcd.Served.{in_order, set_status_total}

stored_at-set_status :
    (status status' : List DescStatus) (i j : ℕ) (st : DescStatus)
    → set_status status i st ≡ some status'
    → i < j
    → stored_at status' j ≡ stored_at status j
unfolding stored_at set_status
stored_at-set_status [] status' i j st e l = absurd cc
stored_at-set_status (x ∷ xs) status' zero zero st e l = absurd (omega arith)
stored_at-set_status (x ∷ xs) status' zero (suc j) st e l =
    subst (λ (u : List DescStatus). stored_at u (suc j) ≡ stored_at xs j) (some-injective _ _ e)
      refl
stored_at-set_status (x ∷ xs) status' (suc i) zero st e l = absurd (omega arith)
stored_at-set_status (x ∷ xs) status' (suc i) (suc j) st e l =
    elim (Option-cases (set_status xs i st)) [
      | inl gone ↦
          let u =
            sym (ap (λ (o : Option (List DescStatus)). o >>= (λ ys. some (x ∷ ys))) gone) ∙ e in
          absurd cc
      | inr (ys, found) ↦
          let u =
            sym (ap (λ (o : Option (List DescStatus)). o >>= (λ ys. some (x ∷ ys))) found) ∙ e in
          subst (λ (v : List DescStatus). stored_at v (suc j) ≡ stored_at xs j)
            (some-injective _ _ u) (stored_at-set_status xs ys i j st found (omega arith))
    ]

concat-drop :
    (k : ℕ) (cs : List Bytes)
    → k < length cs
    → length (concat (drop k cs)) ≡ length (content cs k) + length (concat (drop (suc k) cs))
unfolding content
concat-drop k [] l = absurd (omega arith)
concat-drop zero (c ∷ cs) l = length-append c (concat cs)
concat-drop (suc k) (c ∷ cs) l = concat-drop k cs (omega arith)

module _ (descs : List Descriptor) (contents : List Bytes) where
  -- No error was reported, and the chunks that were not asked for are on storage.
  pub record Ahead (d : XferData) : Type 0 where
    pub fine : d.err ≡ none
    pub status : List DescStatus
    pub has_status : d.descs_status ≡ some status
    pub stored : (i : ℕ) → d.descs_count ≤ i → i < length descs → stored_at status i ≡ some true

  -- The bytes and the chunks that the client has yet to get.
  abbrev pub left : XferData → ℕ
  left d =
      length d.buf
      + length (concat (drop d.descs_xfered contents))
      + (length descs - d.descs_xfered)

  module _ (send_size : ℕ) where
    -- What both handlers come to.
    unfoldable pub served : ℕ → XferData → Outcome
    served sbp d =
        if ltb (length d.buf) send_size && not (d.descs_xfered == length descs)
        then (
          some (record d { descs_count = d.descs_count + 1 }),
          Out.get_chunk sbp d.descs_count none ∷ [],
        )
        else actual_transfer_data send_size sbp descs d

    transfer_data-served :
        (sbp : ℕ) (r : Bytes) (d : XferData)
        → Core descs contents 0 r d
        → Ahead d
        → transfer_data send_size sbp d ≡ some (served sbp d)
    unfolding transfer_data served
    transfer_data-served sbp r d c a = elim_none d.err _ _ a.fine (
        >>=_step d.descs _ descs c.has_descs (
          >>=_step d.descs_status _ a.status a.has_status
            (elim (Bool-cases
              (ltb (length d.buf) send_size && not (d.descs_xfered == length descs))) [
                | inl more ↦
                    let there =
                      a.stored d.descs_count (omega arith) (ground (arith, c.count, c.room)) in
                    rw (in_order d c.mode, more)
                      (>>=_step (stored_at a.status d.descs_count) _ true there refl)
                | inr full ↦ rw (in_order d c.mode, full) refl
              ])))

    -- Nothing is outstanding: a request is served at once.
    pub get_data-served :
        (sbp : ℕ) (r : Bytes) (d : XferData)
        → Core descs contents 0 r d
        → Ahead d
        → (d.descs_xfered < length descs) ⊎ (0 < length d.buf)
        → get_data send_size sbp d ≡ some (served sbp d)
    unfolding get_data
    get_data-served sbp r d c a live =
        let runs = transfer_data-served sbp r d c a in
        elim (Bool-cases (ltb 0 (length d.buf))) [
          | inl held ↦ rw held runs
          | inr empty ↦
              let there = a.stored d.descs_count (omega arith) (ground (arith, c.count)) in
              rw (empty, in_order d c.mode)
                (>>=_step _ _ true (>>=_step d.descs_status _ a.status a.has_status there) runs)
        ]

    -- The entry when the chunk `i` was read into the buffer.
    abbrev pub held : XferData → ℕ → List DescStatus → XferData
    held d i status = record d {
      buf = d.buf ++ content contents i;
      descs_status = some status;
      descs_xfered = d.descs_xfered + 1;
    }

    read_ahead-served :
        (sbp i : ℕ) (status : List DescStatus) (d : XferData)
        → d.xmode ≡ XferMode.sequential
        → d.descs_count ≡ i + 1
        → d.descs_xfered ≡ i + 1
        → d.descs_xfered ≤ length descs
        → ((j : ℕ) → i < j → j < length descs → stored_at status j ≡ some true)
        → read_ahead send_size sbp i descs status d ≡ some (served sbp d)
    unfolding read_ahead served
    read_ahead-served sbp i status d mode count xfered room stored =
        let at : (d.descs_count == i + 1) ≡ true = ground arith in
        elim (Bool-cases (ltb (length d.buf) send_size && not (d.descs_xfered == length descs))) [
          | inr full ↦ rw full refl
          | inl more ↦ rw more (
              >>=_step (stored_at status (i + 1)) _ true
                (stored (i + 1) (omega arith) (ground arith))
                (rw (in_order d mode, at)
                  (ap
                    (λ (n : ℕ). some (
                      some (record d { descs_count = d.descs_count + 1 }),
                      Out.get_chunk sbp n none ∷ [],
                    ))
                    (sym count))))
        ]

    less :
        (d : XferData) (i : ℕ) (status : List DescStatus)
        → i ≡ d.descs_xfered
        → i < length contents
        → length contents ≡ length descs
        → left (held d i status) < left d
    less d i status same l known =
        let p : suc i ≡ d.descs_xfered + 1 = omega (arith, same) in
        let e =
          ap (λ (n : ℕ). length (concat (drop n contents))) (sym same)
          ∙ concat-drop i contents l
          ∙ ap (λ (n : ℕ). length (content contents i) + length (concat (drop n contents))) p in
        omega (arith, e, length-append d.buf (content contents i), same, l, known)

    -- A chunk that was read is served from a state with less to get.
    pub get_chunk_cb-served :
        (sbp i : ℕ) (r : Bytes) (d : XferData)
        → length contents ≡ length descs
        → Core descs contents 1 r d
        → Ahead d
        → i ≡ d.descs_xfered
        → (status : List DescStatus) × (get_chunk_cb send_size sbp i none none
              (content contents i)
              d
            ≡ some (served sbp (held d i status)))
          × Ahead (held d i status)
          × (left (held d i status) < left d)
    unfolding get_chunk_cb
    get_chunk_cb-served sbp i r d known c a same =
        let long : length a.status ≡ length descs =
          ap length (some-injective _ _ (sym a.has_status ∙ c.has_status)) ∙ c.long in
        let (status, written, l) =
          set_status_total a.status i DescStatus.done (omega (arith, long, same, c.room)) in
        let stored : (j : ℕ) → i < j → j < length descs → stored_at status j ≡ some true =
          λ j le lt.
            stored_at-set_status a.status status i j DescStatus.done written le
            ∙ a.stored j (omega (arith, le, same, c.count)) lt in
        (
          status,
          >>=_step d.descs _ descs c.has_descs (
              >>=_step d.descs_status _ a.status a.has_status (
                >>=_step (set_status a.status i DescStatus.done) _ status written (
                  read_ahead-served sbp i status (held d i status) c.mode
                    (omega (arith, c.count, same)) (omega (arith, same)) (omega (arith, c.room))
                    stored))),
          record {
            fine = a.fine;
            status = status;
            has_status = refl;
            stored = λ j le lt. stored j (omega (arith, le, same, c.count)) lt;
          },
          less d i status same (omega (arith, same, c.room, known)) known,
        )
