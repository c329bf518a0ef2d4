-- ===== src/Config/Errors.antt =====
-- Which files `parse_config` refuses.
use ditto.Prelude.{
  ℕ, ◌+◌, ◌≡◌, refl, sym, ◌∙◌, ap, Bool, true, false, not, ◌&&◌, ◌||◌, Option, none, some, List, [],
  ◌∷◌, leb, ltb, ◌==◌, arith, Option-cases, Bool-cases, inl, inr, case_some, case_none,
}
use ditto.Prelude.Bytes.{Bytes}
use ditto.Config.{Line, Section, header, Parse, saw, enter, plain_line, config_lines, parse_config}
use ditto.Config.Headers.{
  is, seen, twice, saw_fields, enter-errors, enter-state, is→eq, count, starts_with_header,
  count-header, count_plain, seen-enter, seen_twice, line-plain, line-header, sticky, plain_same,
}

module _ (join : List Bytes → Bytes) where
  twice_nil : (c : Parse) → twice c [] ≡ false
  unfolding count
  twice_nil c = ground arith

  or_true : (b c : Bool) → c ≡ true → true ≡ (b || c)
  or_true true c h = refl
  or_true false c h = sym h

  -- In a section, the errors are the headers that come twice.
  errors-config_lines :
      (c : Parse) (k : Section) (ls : List Line)
      → c.state ≡ some k
      → (config_lines join c ls).errors ≡ (c.errors || twice c ls)
  unfolding config_lines saw
  errors-config_lines c k [] h = rw (twice_nil c) (or_false c.errors)
    where
      or_false : (b : Bool) → b ≡ (b || false)
      or_false true = refl
      or_false false = refl
  errors-config_lines c k (l ∷ ls) h =
      let from : Parse → Bool = λ d. (config_lines join d ls).errors in
      elim (Option-cases (header (l.0))) [
        | inl a ↦
            let (e, st, sw) = plain_same join c l ls k in
            ap from (line-plain join c l a ∙ ap (plain_line join c l) h)
            ∙ errors-config_lines (plain_line join c l (some k)) k ls (st ∙ h)
            ∙ rw
                (
                  e,
                  sw Section.storage,
                  sw Section.xfer,
                  sw Section.routing,
                  sw Section.sniffer,
                  count_plain Section.storage l ls a,
                  count_plain Section.xfer l ls a,
                  count_plain Section.routing l ls a,
                  count_plain Section.sniffer l ls a,
                )
                refl
        | inr (j, a) ↦ elim (Bool-cases (saw c j)) [
          | inl b ↦
              ap from (line-header join c j l a ∙ rw b refl)
              ∙ sticky join (record c { errors = true }) ls refl
              ∙ or_true c.errors (twice c (l ∷ ls)) (seen_twice c j l ls a b)
          | inr b ↦
              ap from (line-header join c j l a ∙ rw b refl)
              ∙ errors-config_lines (enter c j) j ls (enter-state c j)
              ∙ rw
                  (
                    enter-errors c j,
                    seen-enter c j Section.storage l ls a b,
                    seen-enter c j Section.xfer l ls a b,
                    seen-enter c j Section.routing l ls a b,
                    seen-enter c j Section.sniffer l ls a b,
                  )
                  refl
        ]
      ]

  pub plain-saw :
      (c : Parse) (l : Line) (o : Option Section) (j : Section)
      → saw (plain_line join c l o) j ≡ saw c j
  unfolding plain_line
  plain-saw c l none j = saw_fields c _ j refl refl refl refl
  plain-saw c l (some Section.storage) j = saw_fields c _ j refl refl refl refl
  plain-saw c l (some Section.xfer) j = saw_fields c _ j refl refl refl refl
  plain-saw c l (some Section.routing) j = refl
  plain-saw c l (some Section.sniffer) j = refl

  seen_nil : (c : Parse) (j : Section) → saw c j ≡ ltb 0 (seen c j [])
  unfolding count
  seen_nil c j = ground arith

  seen_again :
      (c : Parse) (k j : Section) (l : Line) (ls : List Line)
      → header (l.0) ≡ some k
      → saw c k ≡ true
      → ltb 0 (seen c j ls) ≡ ltb 0 (seen c j (l ∷ ls))
  seen_again c k j l ls a b = rw (count-header k j l ls a) (elim (Bool-cases (is k j)) [
    | inl e ↦ let g : saw c j ≡ true = ap (saw c) (sym (is→eq k j e)) ∙ b in ground (arith, e, g)
    | inr e ↦ ground (arith, e)
  ])

  -- The sections that were seen are those with a header.
  saw-config_lines :
      (c : Parse) (j : Section) (ls : List Line)
      → saw (config_lines join c ls) j ≡ ltb 0 (seen c j ls)
  unfolding config_lines
  saw-config_lines c j [] = seen_nil c j
  saw-config_lines c j (l ∷ ls) =
      let from : Parse → Bool = λ d. saw (config_lines join d ls) j in
      elim (Option-cases (header (l.0))) [
        | inl a ↦
            ap from (line-plain join c l a)
            ∙ saw-config_lines (plain_line join c l c.state) j ls
            ∙ rw (plain-saw c l c.state j, count_plain j l ls a) refl
        | inr (k, a) ↦ elim (Bool-cases (saw c k)) [
          | inl b ↦
              let again : saw (record c { errors = true }) j ≡ saw c j =
                saw_fields c _ j refl refl refl refl in
              ap from (line-header join c k l a ∙ rw b refl)
              ∙ saw-config_lines (record c { errors = true }) j ls
              ∙ rw again (seen_again c k j l ls a b)
          | inr b ↦
              ap from (line-header join c k l a ∙ rw b refl)
              ∙ saw-config_lines (enter c k) j ls
              ∙ ap (ltb 0) (seen-enter c k j l ls a b)
        ]
      ]

-- A file without errors: every line stands in a section, each section has at most one header, and
-- the storage and the transfer section have one.
abbrev pub well_formed : List Line → Bool
well_formed ls =
    starts_with_header ls
    && count Section.storage ls == 1
    && count Section.xfer ls == 1
    && leb (count Section.routing ls) 1
    && leb (count Section.sniffer ls) 1

abbrev pub fresh : Parse
fresh = record {
  state = none;
  saw_storage = false;
  saw_xfer = false;
  saw_routing = false;
  saw_sniffer = false;
  errors = false;
  sp_list = [];
  xp_list = [];
}

-- From the variables at the end of the loop to the result.
judged :
    (err st xf begins : Bool) (a b c d : ℕ)
    → st ≡ ltb 0 (0 + a)
    → xf ≡ ltb 0 (0 + b)
    → (begins ≡ false → err ≡ true)
    → (begins ≡ true → err ≡ (ltb 1 (0 + a) || ltb 1 (0 + b) || ltb 1 (0 + c) || ltb 1 (0 + d)))
    → (err || not st || not xf) ≡ not (begins && a == 1 && b == 1 && leb c 1 && leb d 1)
judged err st xf begins a b c d s x f t = elim (Bool-cases begins) [
  | inl e ↦ rw (e, s, x, t e) (ground arith)
  | inr e ↦ rw (e, f e) refl
]

missing : not (well_formed []) ≡ true
unfolding count starts_with_header
missing = refl

begins-none :
    (l : Line) (ls : List Line) → header (l.0) ≡ none → starts_with_header (l ∷ ls) ≡ false
unfolding starts_with_header
begins-none l ls a = case_none (header (l.0)) false (λ k. true) a

begins-some :
    (k : Section) (l : Line) (ls : List Line)
    → header (l.0) ≡ some k
    → starts_with_header (l ∷ ls) ≡ true
unfolding starts_with_header
begins-some k l ls a = case_some (header (l.0)) false (λ j. true) k a

run_errors :
    (join : List Bytes → Bytes) (k : Section) (l : Line) (ls : List Line)
    → header (l.0) ≡ some k
    → (config_lines join fresh (l ∷ ls)).errors ≡ twice fresh (l ∷ ls)
unfolding config_lines saw
run_errors join k l ls a =
    let b : saw fresh k ≡ false = unseen k in
    ap (λ (d : Parse). (config_lines join d ls).errors) (line-header join fresh k l a ∙ rw b refl)
    ∙ errors-config_lines join (enter fresh k) k ls (enter-state fresh k)
    ∙ rw
        (
          enter-errors fresh k,
          seen-enter fresh k Section.storage l ls a b,
          seen-enter fresh k Section.xfer l ls a b,
          seen-enter fresh k Section.routing l ls a b,
          seen-enter fresh k Section.sniffer l ls a b,
        )
        refl
  where
    unseen : (k : Section) → saw fresh k ≡ false
    unseen Section.storage = refl
    unseen Section.xfer = refl
    unseen Section.routing = refl
    unseen Section.sniffer = refl

run_stray :
    (join : List Bytes → Bytes) (l : Line) (ls : List Line)
    → header (l.0) ≡ none
    → (config_lines join fresh (l ∷ ls)).errors ≡ true
unfolding config_lines plain_line
run_stray join l ls a =
    ap (λ (d : Parse). (config_lines join d ls).errors) (line-plain join fresh l a)
    ∙ sticky join (record fresh { errors = true }) ls refl

-- Every file: parse_config reports no error exactly when the file starts with a header or is empty,
-- has one storage and one transfer header, and at most one routing and one sniffer header.
pub parse_config-errors :
    (join : List Bytes → Bytes) (ls : List Line)
    → (parse_config join (some ls)).2 ≡ not (well_formed ls)
unfolding parse_config saw config_lines
parse_config-errors join [] = sym missing
parse_config-errors join (l ∷ ls) =
    let c : Parse = config_lines join fresh (l ∷ ls) in
    judged c.errors c.saw_storage c.saw_xfer (starts_with_header (l ∷ ls))
      (count Section.storage (l ∷ ls)) (count Section.xfer (l ∷ ls))
      (count Section.routing (l ∷ ls)) (count Section.sniffer (l ∷ ls))
      (saw-config_lines join fresh Section.storage (l ∷ ls))
      (saw-config_lines join fresh Section.xfer (l ∷ ls))
      (λ e. elim (Option-cases (header (l.0))) [
        | inl a ↦ run_stray join l ls a
        | inr (k, a) ↦ absurd (true_false (sym (begins-some k l ls a) ∙ e))
      ])
      (λ e. elim (Option-cases (header (l.0))) [
        | inl a ↦ absurd (true_false (sym e ∙ begins-none l ls a))
        | inr (k, a) ↦ run_errors join k l ls a
      ])
  where
    true_false : ¬ (true ≡ false)
    true_false e = absurd cc
