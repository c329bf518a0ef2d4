-- ===== src/Config/Headers.antt =====
-- The headers of a file, and what one line does to the variables of `parse_config`.
use ditto.Prelude.{
  ℕ, ◌+◌, ◌≡◌, refl, sym, ◌∙◌, ap, Bool, true, false, ◌||◌, Option, none, some, List, [], ◌∷◌, ltb,
  arith, Option-cases, Bool-cases, inl, inr, case_some, case_none, if◌then◌else◌,
}
use ditto.Prelude.Bytes.{Bytes}
use ditto.Config.{Line, Section, header, Parse, saw, enter, plain_line, config_line, config_lines}

abbrev pub is : Section → Section → Bool
is Section.storage Section.storage = true
is Section.xfer Section.xfer = true
is Section.routing Section.routing = true
is Section.sniffer Section.sniffer = true
is _ _ = false

-- The headers of a section in a file.
unfoldable pub count : Section → List Line → ℕ
count k [] = 0
count k (l ∷ ls) = elim (header (l.0)) [
  | none ↦ count k ls
  | some j ↦ (if is j k then 1 else 0) + count k ls
]

unfoldable pub starts_with_header : List Line → Bool
starts_with_header [] = true
starts_with_header (l ∷ ls) = elim (header (l.0)) [ none ↦ false | some k ↦ true ]

abbrev pub seen : Parse → Section → List Line → ℕ
seen c k ls = (if saw c k then 1 else 0) + count k ls

-- What is wrong with the lines that are left, in a section.
abbrev pub twice : Parse → List Line → Bool
twice c ls =
    ltb 1 (seen c Section.storage ls)
    || ltb 1 (seen c Section.xfer ls)
    || ltb 1 (seen c Section.routing ls)
    || ltb 1 (seen c Section.sniffer ls)

pub saw-enter : (c : Parse) (k j : Section) → saw (enter c k) j ≡ (is k j || saw c j)
unfolding saw enter
saw-enter c Section.storage Section.storage = refl
saw-enter c Section.storage Section.xfer = refl
saw-enter c Section.storage Section.routing = refl
saw-enter c Section.storage Section.sniffer = refl
saw-enter c Section.xfer Section.storage = refl
saw-enter c Section.xfer Section.xfer = refl
saw-enter c Section.xfer Section.routing = refl
saw-enter c Section.xfer Section.sniffer = refl
saw-enter c Section.routing Section.storage = refl
saw-enter c Section.routing Section.xfer = refl
saw-enter c Section.routing Section.routing = refl
saw-enter c Section.routing Section.sniffer = refl
saw-enter c Section.sniffer Section.storage = refl
saw-enter c Section.sniffer Section.xfer = refl
saw-enter c Section.sniffer Section.routing = refl
saw-enter c Section.sniffer Section.sniffer = refl

pub saw_fields :
    (c d : Parse) (j : Section)
    → d.saw_storage ≡ c.saw_storage
    → d.saw_xfer ≡ c.saw_xfer
    → d.saw_routing ≡ c.saw_routing
    → d.saw_sniffer ≡ c.saw_sniffer
    → saw d j ≡ saw c j
unfolding saw
saw_fields c d Section.storage e f g h = e
saw_fields c d Section.xfer e f g h = f
saw_fields c d Section.routing e f g h = g
saw_fields c d Section.sniffer e f g h = h

pub enter-errors : (c : Parse) (k : Section) → (enter c k).errors ≡ c.errors
unfolding enter
enter-errors c Section.storage = refl
enter-errors c Section.xfer = refl
enter-errors c Section.routing = refl
enter-errors c Section.sniffer = refl

pub enter-state : (c : Parse) (k : Section) → (enter c k).state ≡ some k
unfolding enter
enter-state c Section.storage = refl
enter-state c Section.xfer = refl
enter-state c Section.routing = refl
enter-state c Section.sniffer = refl

pub is→eq : (k j : Section) → is k j ≡ true → k ≡ j
is→eq Section.storage Section.storage h = refl
is→eq Section.storage Section.xfer h = absurd cc
is→eq Section.storage Section.routing h = absurd cc
is→eq Section.storage Section.sniffer h = absurd cc
is→eq Section.xfer Section.storage h = absurd cc
is→eq Section.xfer Section.xfer h = refl
is→eq Section.xfer Section.routing h = absurd cc
is→eq Section.xfer Section.sniffer h = absurd cc
is→eq Section.routing Section.storage h = absurd cc
is→eq Section.routing Section.xfer h = absurd cc
is→eq Section.routing Section.routing h = refl
is→eq Section.routing Section.sniffer h = absurd cc
is→eq Section.sniffer Section.storage h = absurd cc
is→eq Section.sniffer Section.xfer h = absurd cc
is→eq Section.sniffer Section.routing h = absurd cc
is→eq Section.sniffer Section.sniffer h = refl

pub count-header :
    (k j : Section) (l : Line) (ls : List Line)
    → header (l.0) ≡ some k
    → count j (l ∷ ls) ≡ (if is k j then 1 else 0) + count j ls
unfolding count
count-header k j l ls h =
    case_some (header (l.0)) (count j ls) (λ i. (if is i j then 1 else 0) + count j ls) k h

pub count_plain :
    (j : Section) (l : Line) (ls : List Line) → header (l.0) ≡ none → count j (l ∷ ls) ≡ count j ls
unfolding count
count_plain j l ls h =
    case_none (header (l.0)) (count j ls) (λ i. (if is i j then 1 else 0) + count j ls) h

-- The first header of a section takes its place among those that were seen.
pub seen-enter :
    (c : Parse) (k j : Section) (l : Line) (ls : List Line)
    → header (l.0) ≡ some k
    → saw c k ≡ false
    → seen (enter c k) j ls ≡ seen c j (l ∷ ls)
seen-enter c k j l ls h b =
    rw (count-header k j l ls h, saw-enter c k j)
      (elim (Bool-cases (is k j)) [
        | inl e ↦
            let g : saw c j ≡ false = ap (saw c) (sym (is→eq k j e)) ∙ b in ground (arith, e, g)
        | inr e ↦ ground (arith, e)
      ])

pub seen_twice :
    (c : Parse) (k : Section) (l : Line) (ls : List Line)
    → header (l.0) ≡ some k
    → saw c k ≡ true
    → twice c (l ∷ ls) ≡ true
seen_twice c Section.storage l ls h b =
    ground (arith, b, count-header Section.storage Section.storage l ls h)
seen_twice c Section.xfer l ls h b =
    ground (arith, b, count-header Section.xfer Section.xfer l ls h)
seen_twice c Section.routing l ls h b =
    ground (arith, b, count-header Section.routing Section.routing l ls h)
seen_twice c Section.sniffer l ls h b =
    ground (arith, b, count-header Section.sniffer Section.sniffer l ls h)

module _ (join : List Bytes → Bytes) where
  pub line-plain :
      (c : Parse) (l : Line)
      → header (l.0) ≡ none
      → config_line join c l ≡ plain_line join c l c.state
  unfolding config_line
  line-plain c l h =
      case_none (header (l.0)) (plain_line join c l c.state)
        (λ k. if saw c k then record c { errors = true } else enter c k) h

  pub line-header :
      (c : Parse) (k : Section) (l : Line)
      → header (l.0) ≡ some k
      → config_line join c l ≡ (if saw c k then record c { errors = true } else enter c k)
  unfolding config_line
  line-header c k l h =
      case_some (header (l.0)) (plain_line join c l c.state)
        (λ k. if saw c k then record c { errors = true } else enter c k) k h

  pub sticky :
      (c : Parse) (ls : List Line) → c.errors ≡ true → (config_lines join c ls).errors ≡ true
  unfolding config_lines config_line plain_line
  sticky c [] h = h
  sticky c (l ∷ ls) h = sticky (config_line join c l) ls (line_sticky c l h)
    where
      plain_sticky :
          (c : Parse) (l : Line) (o : Option Section)
          → c.errors ≡ true
          → (plain_line join c l o).errors ≡ true
      plain_sticky c l none h = refl
      plain_sticky c l (some Section.storage) h = h
      plain_sticky c l (some Section.xfer) h = h
      plain_sticky c l (some Section.routing) h = h
      plain_sticky c l (some Section.sniffer) h = h

      line_sticky : (c : Parse) (l : Line) → c.errors ≡ true → (config_line join c l).errors ≡ true
      line_sticky c l h = elim (Option-cases (header (l.0))) [
        | inl a ↦ rw (line-plain c l a) (plain_sticky c l c.state h)
        | inr (k, a) ↦ elim (Bool-cases (saw c k)) [
          | inl b ↦ rw (line-header c k l a, b) refl
          | inr b ↦ rw (line-header c k l a, b) (enter-errors c k ∙ h)
        ]
      ]

  pub plain_same :
      (c : Parse) (l : Line) (ls : List Line) (k : Section)
      → ((plain_line join c l (some k)).errors ≡ c.errors)
        × ((plain_line join c l (some k)).state ≡ c.state)
        × ((j : Section) → saw (plain_line join c l (some k)) j ≡ saw c j)
  unfolding plain_line
  plain_same c l ls Section.storage = (refl, refl, λ j. saw_fields c _ j refl refl refl refl)
  plain_same c l ls Section.xfer = (refl, refl, λ j. saw_fields c _ j refl refl refl refl)
  plain_same c l ls Section.routing = (refl, refl, λ j. refl)
  plain_same c l ls Section.sniffer = (refl, refl, λ j. refl)
