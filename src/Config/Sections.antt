-- ===== src/Config/Sections.antt =====
-- What `parse_config` takes from the sections of a file without errors.
use mathlib.Core.List.{append_assoc}
use ditto.Prelude.{
  ℕ, ◌+◌, ◌≡◌, refl, sym, ◌∙◌, ap, Bool, true, false, not, ◌&&◌, ◌||◌, Option, none, some, List, [],
  ◌∷◌, ◌++◌, leb, ltb, ◌==◌, arith, Option-cases, Bool-cases, inl, inr, case_some, case_none,
  if◌then◌else◌,
}
use ditto.Prelude.Bytes.{Bytes}
use ditto.Config.{
  Line, Section, header, Parse, saw, enter, entry, plain_line, config_lines, parse_config,
}
use ditto.Config.Headers.{
  is, twice, count, count_plain, seen-enter, seen_twice, line-plain, line-header, enter-state,
  starts_with_header,
}
use ditto.Config.Errors.{well_formed, plain-saw, fresh, parse_config-errors}

append_none : (xs : List Bytes) → xs ++ [] ≡ xs
append_none [] = refl
append_none (x ∷ xs) = λ i. x ∷ append_none xs i

abbrev in_section : Section → Option Section → Bool
in_section k none = false
in_section k (some j) = is j k

-- The list of a section.
abbrev listed : Section → Parse → List Bytes
listed Section.storage c = c.sp_list
listed Section.xfer c = c.xp_list
listed Section.routing c = []
listed Section.sniffer c = []

enter-sp_list : (c : Parse) (k : Section) → (enter c k).sp_list ≡ c.sp_list
unfolding enter
enter-sp_list c Section.storage = refl
enter-sp_list c Section.xfer = refl
enter-sp_list c Section.routing = refl
enter-sp_list c Section.sniffer = refl

enter-xp_list : (c : Parse) (k : Section) → (enter c k).xp_list ≡ c.xp_list
unfolding enter
enter-xp_list c Section.storage = refl
enter-xp_list c Section.xfer = refl
enter-xp_list c Section.routing = refl
enter-xp_list c Section.sniffer = refl

listed-enter : (k : Section) (c : Parse) (j : Section) → listed k (enter c j) ≡ listed k c
listed-enter Section.storage c j = enter-sp_list c j
listed-enter Section.xfer c j = enter-xp_list c j
listed-enter Section.routing c j = refl
listed-enter Section.sniffer c j = refl

-- The sections whose lines are listed.
abbrev takes : Section → Bool
takes Section.storage = true
takes Section.xfer = true
takes Section.routing = false
takes Section.sniffer = false

plain-state :
    (join : List Bytes → Bytes) (c : Parse) (l : Line) (o : Option Section)
    → (plain_line join c l o).state ≡ c.state
unfolding plain_line
plain-state join c l none = refl
plain-state join c l (some Section.storage) = refl
plain-state join c l (some Section.xfer) = refl
plain-state join c l (some Section.routing) = refl
plain-state join c l (some Section.sniffer) = refl

listed_plain :
    (join : List Bytes → Bytes) (k : Section) (c : Parse) (l : Line) (o : Option Section)
    → takes k ≡ true
    → listed k (plain_line join c l o) ≡ listed k c ++ (if in_section k o then entry join l else [])
unfolding plain_line
listed_plain join Section.storage c l none t = sym (append_none c.sp_list)
listed_plain join Section.storage c l (some Section.storage) t = refl
listed_plain join Section.storage c l (some Section.xfer) t = sym (append_none c.sp_list)
listed_plain join Section.storage c l (some Section.routing) t = sym (append_none c.sp_list)
listed_plain join Section.storage c l (some Section.sniffer) t = sym (append_none c.sp_list)
listed_plain join Section.xfer c l none t = sym (append_none c.xp_list)
listed_plain join Section.xfer c l (some Section.storage) t = sym (append_none c.xp_list)
listed_plain join Section.xfer c l (some Section.xfer) t = refl
listed_plain join Section.xfer c l (some Section.routing) t = sym (append_none c.xp_list)
listed_plain join Section.xfer c l (some Section.sniffer) t = sym (append_none c.xp_list)
listed_plain join Section.routing c l o t = absurd cc
listed_plain join Section.sniffer c l o t = absurd cc

twice-enter :
    (c : Parse) (j : Section) (l : Line) (ls : List Line)
    → header (l.0) ≡ some j
    → saw c j ≡ false
    → twice (enter c j) ls ≡ twice c (l ∷ ls)
twice-enter c j l ls a b =
    rw
      (
        seen-enter c j Section.storage l ls a b,
        seen-enter c j Section.xfer l ls a b,
        seen-enter c j Section.routing l ls a b,
        seen-enter c j Section.sniffer l ls a b,
      )
      refl

twice_plain :
    (join : List Bytes → Bytes) (c : Parse) (l : Line) (ls : List Line)
    → header (l.0) ≡ none
    → twice (plain_line join c l c.state) ls ≡ twice c (l ∷ ls)
twice_plain join c l ls a =
    rw
      (
        plain-saw join c l c.state Section.storage,
        plain-saw join c l c.state Section.xfer,
        plain-saw join c l c.state Section.routing,
        plain-saw join c l c.state Section.sniffer,
        count_plain Section.storage l ls a,
        count_plain Section.xfer l ls a,
        count_plain Section.routing l ls a,
        count_plain Section.sniffer l ls a,
      )
      refl

module _ (join : List Bytes → Bytes) (k : Section) where
  -- The entries of the lines of a section: those with its header as the last header before them.
  unfoldable pub section_entries : Bool → List Line → List Bytes
  section_entries in_section [] = []
  section_entries in_section (l ∷ ls) = elim (header (l.0)) [
    | none ↦ (if in_section then entry join l else []) ++ section_entries in_section ls
    | some j ↦ section_entries (is j k) ls
  ]

  entries-plain :
      (b : Bool) (l : Line) (ls : List Line)
      → header (l.0) ≡ none
      → section_entries b (l ∷ ls) ≡ (if b then entry join l else []) ++ section_entries b ls
  unfolding section_entries
  entries-plain b l ls a =
      case_none (header (l.0)) ((if b then entry join l else []) ++ section_entries b ls)
        (λ j. section_entries (is j k) ls) a

  entries-header :
      (b : Bool) (j : Section) (l : Line) (ls : List Line)
      → header (l.0) ≡ some j
      → section_entries b (l ∷ ls) ≡ section_entries (is j k) ls
  unfolding section_entries
  entries-header b j l ls a =
      case_some (header (l.0)) ((if b then entry join l else []) ++ section_entries b ls)
        (λ j. section_entries (is j k) ls) j a

  listed-config_lines :
      (c : Parse) (ls : List Line)
      → takes k ≡ true
      → twice c ls ≡ false
      → listed k (config_lines join c ls) ≡ listed k c ++ section_entries (in_section k c.state) ls
  unfolding config_lines section_entries
  listed-config_lines c [] t h = sym (append_none (listed k c))
  listed-config_lines c (l ∷ ls) t h =
      let from : Parse → List Bytes = λ d. listed k (config_lines join d ls) in
      elim (Option-cases (header (l.0))) [
        | inl a ↦
            let d : Parse = plain_line join c l c.state in
            let b : Bool = in_section k c.state in
            ap from (line-plain join c l a)
            ∙ listed-config_lines d ls t (twice_plain join c l ls a ∙ h)
            ∙ ap (λ (o : Option Section). listed k d ++ section_entries (in_section k o) ls)
                (plain-state join c l c.state)
            ∙ ap (λ (xs : List Bytes). xs ++ section_entries b ls)
                (listed_plain join k c l c.state t)
            ∙ append_assoc (listed k c) (if b then entry join l else []) (section_entries b ls)
            ∙ ap (λ (xs : List Bytes). listed k c ++ xs) (sym (entries-plain b l ls a))
        | inr (j, a) ↦ elim (Bool-cases (saw c j)) [
          | inl b ↦ absurd (true_false (sym (seen_twice c j l ls a b) ∙ h))
          | inr b ↦
              ap from (line-header join c j l a ∙ rw b refl)
              ∙ listed-config_lines (enter c j) ls t (twice-enter c j l ls a b ∙ h)
              ∙ ap
                  (λ (o : Option Section).
                    listed k (enter c j) ++ section_entries (in_section k o) ls)
                  (enter-state c j)
              ∙ ap (λ (xs : List Bytes). xs ++ section_entries (is j k) ls) (listed-enter k c j)
              ∙ ap (λ (xs : List Bytes). listed k c ++ xs)
                  (sym (entries-header (in_section k c.state) j l ls a))
        ]
      ]
    where
      true_false : ¬ (true ≡ false)
      true_false e = absurd cc

once_each :
    (begins : Bool) (a b c d : ℕ)
    → (begins && a == 1 && b == 1 && leb c 1 && leb d 1) ≡ true
    → (ltb 1 (0 + a) || ltb 1 (0 + b) || ltb 1 (0 + c) || ltb 1 (0 + d)) ≡ false
once_each begins a b c d h = ground arith

well_formed-once : (ls : List Line) → well_formed ls ≡ true → twice fresh ls ≡ false
unfolding saw
well_formed-once ls h =
    once_each (starts_with_header ls) (count Section.storage ls) (count Section.xfer ls)
      (count Section.routing ls) (count Section.sniffer ls) h

-- A file without the errors above: parse_config returns no error, and its two lists are the
-- entries, in order, of the lines whose last header before them is that of the storage section and
-- that of the transfer section.
pub parse_config-sections :
    (join : List Bytes → Bytes) (ls : List Line)
    → well_formed ls ≡ true
    → parse_config join (some ls) ≡ (
      section_entries join Section.storage false ls,
      section_entries join Section.xfer false ls,
      false,
    )
unfolding parse_config
parse_config-sections join ls h =
    let once : twice fresh ls ≡ false = well_formed-once ls h in
    let sp : listed Section.storage (config_lines join fresh ls)
        ≡ section_entries join Section.storage false ls =
      listed-config_lines join Section.storage fresh ls refl once in
    let xp : listed Section.xfer (config_lines join fresh ls)
        ≡ section_entries join Section.xfer false ls =
      listed-config_lines join Section.xfer fresh ls refl once in
    let e : (parse_config join (some ls)).2 ≡ false = parse_config-errors join ls ∙ ap not h in
    λ i. (sp i, xp i, e i)
