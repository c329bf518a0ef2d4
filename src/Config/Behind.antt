-- ===== src/Config/Behind.antt =====
-- What the routing and the sniffer parsers take from behind their header.
use mathlib.Core.List.{append_assoc}
use ditto.Prelude.{◌≡◌, refl, sym, ◌∙◌, ap, true, false, none, some, List, [], ◌∷◌, ◌++◌, All}
use ditto.Prelude.Bytes.{Bytes}
use ditto.Config.{
  Line, strcasecmp_eq, routing_info_header, sniffer_header, routing_lines,
  parse_config_routing_info, sniffer_lines, parse_config_sniffer_info,
}

-- The line does not start with the header.
abbrev pub Plain : Bytes → Line → Type 0
Plain h l = strcasecmp_eq (l.0) h ≡ false

-- The words of the lines, in order.
unfoldable pub words : List Line → List Bytes
words [] = []
words ((w, av) ∷ ls) = (w ∷ av) ++ words ls

routing-after :
    (acc : List Bytes) (ls : List Line)
    → All (Plain routing_info_header) ls
    → routing_lines true false acc ls ≡ (acc ++ words ls, false)
unfolding routing_lines words
routing-after acc [] h = ap (λ (t : List Bytes). (t, false)) (sym (append_none acc))
  where
    append_none : (xs : List Bytes) → xs ++ [] ≡ xs
    append_none [] = refl
    append_none (x ∷ xs) = λ i. x ∷ append_none xs i
routing-after acc ((w, av) ∷ ls) h = rw (h.0) (
    routing-after (acc ++ (w ∷ av)) ls (h.1)
    ∙ ap (λ (t : List Bytes). (t, false)) (append_assoc acc (w ∷ av) (words ls)))

routing-before :
    (before after : List Line) (head : Line)
    → All (Plain routing_info_header) before
    → strcasecmp_eq (head.0) routing_info_header ≡ true
    → routing_lines false false [] (before ++ (head ∷ after)) ≡ routing_lines true false [] after
unfolding routing_lines
routing-before [] after head h g = rw g refl
routing-before ((w, av) ∷ before) after head h g =
    rw (h.0) (routing-before before after head (h.1) g)

-- A routing table with one line that starts with the header: the parser reports no error and
-- returns all words of the lines behind it, in order, and none of those before.
pub parse_config_routing_info-words :
    (before after : List Line) (head : Line)
    → All (Plain routing_info_header) before
    → strcasecmp_eq (head.0) routing_info_header ≡ true
    → All (Plain routing_info_header) after
    → parse_config_routing_info (some (before ++ (head ∷ after))) ≡ (words after, false)
unfolding parse_config_routing_info
parse_config_routing_info-words before after head h g k =
    routing-before before after head h g ∙ routing-after [] after k

-- A file whose first sniffer header is followed by a line of the section: the parser returns the
-- first two words of that line without an error, and takes a word from an empty vector if the line
-- has one word only.
parse_config_sniffer_info-first :
    (before after : List Line) (head : Line) (w : Bytes) (av : List Bytes)
    → All (Plain sniffer_header) before
    → strcasecmp_eq (head.0) sniffer_header ≡ true
    → strcasecmp_eq w sniffer_header ≡ false
    → parse_config_sniffer_info (some (before ++ (head ∷ (w, av) ∷ after)))
      ≡ elim av [ [] ↦ none | path ∷ rest ↦ some (w ∷ path ∷ [], false) ]
unfolding parse_config_sniffer_info sniffer_lines
parse_config_sniffer_info-first [] after head w av h g k = rw (g, k) refl
parse_config_sniffer_info-first (l ∷ before) after head w av h g k =
    rw (h.0) (parse_config_sniffer_info-first before after head w av (h.1) g k)
