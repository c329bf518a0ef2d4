-- ===== src/Tests/Settings.antt =====
-- A configuration file with a storage and a transfer section.
use ditto.Prelude.{ℕ, arith, ◌+◌, ◌-◌, ◌≡◌, refl, true, false, not, some, List, [], ◌∷◌}
use ditto.Prelude.Bytes.{Bytes, find, bytes_eq}
use ditto.Config.{
  Line, Section, storage_header, routing_info_header, parse_config, strcasecmp_eq, lower, header,
}
use ditto.Config.Headers.{count, starts_with_header}
use ditto.Config.Errors.{well_formed, parse_config-errors}
use ditto.Config.Sections.{section_entries, parse_config-sections}
use ditto.Xfer.Chunk.{Hint, HintStatus}
use ditto.Xfer.Hint.{parse_hint, make_hint}
use ditto.Xfer.Hint.Printed.{parse_hint-make_hint}
use ditto.Xfer.Routing.{Table, get_next_hop, row_value}
use ditto.Xfer.Routing.NextHop.{Row, lines_of, hop_of, get_next_hop_lem}

abbrev last : List Bytes → Bytes
last [] = []
last (w ∷ ws) = w

-- `[storage]`, `disk`, `[Transfer]`, `gtc null 17`.
abbrev file : List Line
file =
    (storage_header, [])
    ∷ (100 ∷ [], [])
    ∷ (91 ∷ 84 ∷ 114 ∷ 97 ∷ 110 ∷ 115 ∷ 102 ∷ 101 ∷ 114 ∷ 93 ∷ [], [])
    ∷ (103 ∷ [], (110 ∷ []) ∷ (49 ∷ []) ∷ [])
    ∷ []

well : well_formed file ≡ true
unfolding count starts_with_header header strcasecmp_eq lower
well = refl

parse_config-errors_example : (parse_config last (some file)).2 ≡ not (well_formed file)
parse_config-errors_example = parse_config-errors last file

parse_config-sections_example : parse_config last (some file) ≡ (
  section_entries last Section.storage false file,
  section_entries last Section.xfer false file,
  false,
)
parse_config-sections_example = parse_config-sections last file well

-- A table with one row for the host `h`, whose gateway is `g`.
abbrev row : Row
row = record {
  destination = 104 ∷ [];
  gateway = 103 ∷ [];
  genmask = [];
  flags = [];
  metric = [];
  references = [];
  uses = [];
  interface = [];
}

abbrev to_host : Hint
to_host = record { hostname = 104 ∷ []; port = 7 }

get_next_hop_lem_example :
    (table' : Table) × (get_next_hop
        (λ h. HintStatus.gtc_hint to_host)
        false
        []
        (some ((115 ∷ [], []) ∷ (routing_info_header, []) ∷ lines_of (row ∷ [])))
        []
      ≡ some (table', HintStatus.gtc_hint (record to_host { hostname = 103 ∷ [] })))
unfolding strcasecmp_eq lower lines_of hop_of row_value find bytes_eq
get_next_hop_lem_example =
    get_next_hop_lem (λ h. HintStatus.gtc_hint to_host) false [] [] to_host ((115 ∷ [], []) ∷ [])
      (routing_info_header, []) (row ∷ []) (103 ∷ []) refl (refl, tt) refl (refl, tt) refl

abbrev digit : ℕ → Bytes
digit n = (48 + n) ∷ []

abbrev atoi : Bytes → ℕ
atoi [] = 0
atoi (c ∷ cs) = c - 48

parse_hint-make_hint_example :
    parse_hint atoi (make_hint digit to_host) ≡ HintStatus.gtc_hint to_host
parse_hint-make_hint_example =
    parse_hint-make_hint atoi digit to_host ((λ e. omega arith), tt) ((λ e. omega arith), tt) refl
