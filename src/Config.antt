-- ===== src/Config.antt =====
-- gtcd/configfile.cc: the sections of the daemon's configuration file. The lines are those that
-- `parseargs::getline` gives, each with a first word; `join (" ", av)` is a parameter.
pub mod Headers
pub mod Errors
pub mod Sections
pub mod Behind
use ditto.Prelude.{
  ℕ, ◌+◌, ◌≡◌, refl, Bool, true, false, not, ◌&&◌, ◌||◌, Option, none, some, List, [], ◌∷◌, ◌++◌,
  leb, ◌==◌, if◌then◌else◌,
}
use ditto.Prelude.Bytes.{Bytes, bytes_eq}

-- `strcasecmp (a, b) == 0`, in ASCII.
unfoldable pub lower : ℕ → ℕ
lower c = if leb 65 c && leb c 90 then c + 32 else c

unfoldable pub strcasecmp_eq : Bytes → Bytes → Bool
strcasecmp_eq [] [] = true
strcasecmp_eq [] (y ∷ ys) = false
strcasecmp_eq (x ∷ xs) [] = false
strcasecmp_eq (x ∷ xs) (y ∷ ys) = lower x == lower y && strcasecmp_eq xs ys

-- "[storage]", "[transfer]", "[routing]", "[sniffer]" and "Destination".
abbrev pub storage_header : Bytes
storage_header = 91 ∷ 115 ∷ 116 ∷ 111 ∷ 114 ∷ 97 ∷ 103 ∷ 101 ∷ 93 ∷ []

abbrev pub transfer_header : Bytes
transfer_header = 91 ∷ 116 ∷ 114 ∷ 97 ∷ 110 ∷ 115 ∷ 102 ∷ 101 ∷ 114 ∷ 93 ∷ []

abbrev pub routing_header : Bytes
routing_header = 91 ∷ 114 ∷ 111 ∷ 117 ∷ 116 ∷ 105 ∷ 110 ∷ 103 ∷ 93 ∷ []

abbrev pub sniffer_header : Bytes
sniffer_header = 91 ∷ 115 ∷ 110 ∷ 105 ∷ 102 ∷ 102 ∷ 101 ∷ 114 ∷ 93 ∷ []

abbrev pub routing_info_header : Bytes
routing_info_header = 68 ∷ 101 ∷ 115 ∷ 116 ∷ 105 ∷ 110 ∷ 97 ∷ 116 ∷ 105 ∷ 111 ∷ 110 ∷ []

abbrev pub Line : Type 0
Line = Bytes × List Bytes

-- `config_state_t` without CONFIG_NONE.
pub data Section : Type 0 where
  storage : Section
  xfer : Section
  routing : Section
  sniffer : Section

unfoldable pub header : Bytes → Option Section
header w =
    if strcasecmp_eq w storage_header
    then some Section.storage
    else if strcasecmp_eq w transfer_header
    then some Section.xfer
    else if strcasecmp_eq w routing_header
    then some Section.routing
    else if strcasecmp_eq w sniffer_header
    then some Section.sniffer
    else none

-- The variables of `parse_config`; the state `none` is CONFIG_NONE.
pub record Parse : Type 0 where
  pub state : Option Section
  pub saw_storage : Bool
  pub saw_xfer : Bool
  pub saw_routing : Bool
  pub saw_sniffer : Bool
  pub errors : Bool
  pub sp_list : List Bytes
  pub xp_list : List Bytes

pub saw : Parse → Section → Bool
saw c Section.storage = c.saw_storage
saw c Section.xfer = c.saw_xfer
saw c Section.routing = c.saw_routing
saw c Section.sniffer = c.saw_sniffer

pub enter : Parse → Section → Parse
enter c Section.storage = record c { state = some Section.storage; saw_storage = true }
enter c Section.xfer = record c { state = some Section.xfer; saw_xfer = true }
enter c Section.routing = record c { state = some Section.routing; saw_routing = true }
enter c Section.sniffer = record c { state = some Section.sniffer; saw_sniffer = true }

module _ (join : List Bytes → Bytes) where
  -- The three strings of a plugin: its name, the plugins that it is chained to, and its arguments.
  unfoldable pub entry : Line → List Bytes
  entry (w, []) = w ∷ [] ∷ [] ∷ []
  entry (w, plg_list ∷ av) = w ∷ plg_list ∷ join av ∷ []

  pub plain_line : Parse → Line → Option Section → Parse
  plain_line c l none = record c { errors = true }
  plain_line c l (some Section.storage) = record c { sp_list = c.sp_list ++ entry l }
  plain_line c l (some Section.xfer) = record c { xp_list = c.xp_list ++ entry l }
  plain_line c l (some Section.routing) = c
  plain_line c l (some Section.sniffer) = c

  pub config_line : Parse → Line → Parse
  config_line c l = elim (header (l.0)) [
    | some k ↦ if saw c k then record c { errors = true } else enter c k
    | none ↦ plain_line c l c.state
  ]

  pub config_lines : Parse → List Line → Parse
  config_lines c [] = c
  config_lines c (l ∷ ls) = config_lines (config_line c l) ls

  -- The two lists and the result; a missing file is an error.
  pub parse_config : Option (List Line) → List Bytes × List Bytes × Bool
  parse_config none = ([], [], true)
  parse_config (some ls) =
      let c =
        config_lines
          (record {
            state = none;
            saw_storage = false;
            saw_xfer = false;
            saw_routing = false;
            saw_sniffer = false;
            errors = false;
            sp_list = [];
            xp_list = [];
          })
          ls in
      (c.sp_list, c.xp_list, c.errors || not c.saw_storage || not c.saw_xfer)

-- `parse_config_routing_info`: whether the header was seen, the errors, and the words behind it.
pub routing_lines : Bool → Bool → List Bytes → List Line → List Bytes × Bool
routing_lines saw_routing errors routing_list [] = (routing_list, errors || not saw_routing)
routing_lines saw_routing errors routing_list ((w, av) ∷ ls) =
    if strcasecmp_eq w routing_info_header
    then routing_lines true (errors || saw_routing) routing_list ls
    else routing_lines saw_routing errors
        (if saw_routing then routing_list ++ (w ∷ av) else routing_list) ls

pub parse_config_routing_info : Option (List Line) → List Bytes × Bool
parse_config_routing_info none = ([], true)
parse_config_routing_info (some ls) = routing_lines false false [] ls

-- `parse_config_sniffer_info`: the loop stops at the first line of the section, and `none` is
-- `pop_front` of an empty vector.
pub sniffer_lines : Bool → Bool → List Line → Option (List Bytes × Bool)
sniffer_lines saw_sniffer errors [] = some ([], errors || not saw_sniffer)
sniffer_lines saw_sniffer errors ((w, av) ∷ ls) =
    let again = sniffer_lines true (errors || saw_sniffer) ls in
    let next = sniffer_lines saw_sniffer errors ls in
    if strcasecmp_eq w sniffer_header
    then again
    else if saw_sniffer
    then elim av [ [] ↦ none | path ∷ rest ↦ some (w ∷ path ∷ [], errors) ]
    else next

pub parse_config_sniffer_info : Option (List Line) → Option (List Bytes × Bool)
parse_config_sniffer_info none = some ([], true)
parse_config_sniffer_info (some ls) = sniffer_lines false false ls
