-- ===== src/Xfer/Routing.antt =====
-- gtcd/xfer/xferPlugin_gtc.cc: `setup_routing_info` and `get_next_hop`, without
-- USE_LOOPBACK_ROUTING. The file of the routing table is a parameter, and so is the reader of hints.
-- `none` is an access outside a vector, or the daemon's exit.
pub mod NextHop
use ditto.Prelude.{
  ℕ, Bool, true, false, ◌||◌, Option, none, some, List, [], ◌∷◌, drop, if◌then◌else◌, ◌>>=◌,
}
use ditto.Prelude.Bytes.{Bytes, bytes_eq, find, put}
use ditto.Config.{Line, parse_config_routing_info}
use ditto.Xfer.Chunk.{Hint, HintStatus}

abbrev pub Table : Type 0
Table = List (Bytes × Bytes)

-- "*" and "0.0.0.0".
abbrev pub star : Bytes
star = 42 ∷ []

abbrev pub any_address : Bytes
any_address = 48 ∷ 46 ∷ 48 ∷ 46 ∷ 48 ∷ 46 ∷ 48 ∷ []

-- The value of a row: a destination without a gateway is its own next hop.
unfoldable pub row_value : Bool → Bytes → Bytes → Bytes
row_value no_dot_proxy key value =
    if no_dot_proxy || bytes_eq value star || bytes_eq value any_address then key else value

-- The loop over the words, NUM_TABLE_COLUMNS = 8 at a time; the last row may be short of columns
-- behind the second one.
pub fill_table : Bool → Table → List Bytes → Option Table
fill_table no_dot_proxy table [] = some table
fill_table no_dot_proxy table (key ∷ []) = none
fill_table no_dot_proxy table (key ∷ value ∷ _ ∷ _ ∷ _ ∷ _ ∷ _ ∷ _ ∷ rest) =
    fill_table no_dot_proxy (put key (row_value no_dot_proxy key value) table) rest
fill_table no_dot_proxy table (key ∷ value ∷ rest) =
    some (put key (row_value no_dot_proxy key value) table)

pub setup_routing_info : Bool → Table → Option (List Line) → Option Table
setup_routing_info no_dot_proxy table file =
    let (route_list, errors) = parse_config_routing_info file in
    if errors then none else fill_table no_dot_proxy table route_list

-- `get_next_hop`: the table afterwards, and what the hint is turned into.
pub get_next_hop :
    (Bytes → HintStatus) → Bool → Table → Option (List Line) → Bytes → Option (Table × HintStatus)
get_next_hop parse_hint no_dot_proxy table file hint = elim (parse_hint hint) [
  | HintStatus.bad_hint ↦ some (table, HintStatus.bad_hint)
  | HintStatus.other_hint ↦ some (table, HintStatus.other_hint)
  | HintStatus.gtc_hint res ↦ do
    table' ← setup_routing_info no_dot_proxy table file
    next_hop ← find res.hostname table'
    some (table', HintStatus.gtc_hint (record res { hostname = next_hop }))
]
