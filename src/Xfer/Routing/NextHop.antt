-- ===== src/Xfer/Routing/NextHop.antt =====
-- The next hop that a routing file gives.
use ditto.Prelude.{
  ◌≡◌, refl, ◌∙◌, ap, Bool, true, Option, some, List, [], ◌∷◌, ◌++◌, All, >>=_step, if◌then◌else◌,
}
use ditto.Prelude.Bytes.{Bytes, bytes_eq, find, put, find-put}
use ditto.Config.{Line, strcasecmp_eq, routing_info_header}
use ditto.Config.Behind.{Plain, words, parse_config_routing_info-words}
use ditto.Xfer.Chunk.{Hint, HintStatus}
use ditto.Xfer.Routing.{Table, row_value, fill_table, setup_routing_info, get_next_hop}

-- A row of the table: the destination, the gateway and six more columns.
pub record Row : Type 0 where
  pub destination : Bytes
  pub gateway : Bytes
  pub genmask : Bytes
  pub flags : Bytes
  pub metric : Bytes
  pub references : Bytes
  pub uses : Bytes
  pub interface : Bytes

abbrev pub line_of : Row → Line
line_of r = (
  r.destination,
  r.gateway ∷ r.genmask ∷ r.flags ∷ r.metric ∷ r.references ∷ r.uses ∷ r.interface ∷ [],
)

unfoldable pub lines_of : List Row → List Line
lines_of [] = []
lines_of (r ∷ rows) = line_of r ∷ lines_of rows

-- The next hop of a destination: that of its last row, or the one that it had.
unfoldable pub hop_of : Bool → List Row → Bytes → Option Bytes → Option Bytes
hop_of no_dot_proxy [] host old = old
hop_of no_dot_proxy (r ∷ rows) host old = hop_of no_dot_proxy rows host (
    if bytes_eq r.destination host
    then some (row_value no_dot_proxy r.destination r.gateway)
    else old)

fill_table-words :
    (no_dot_proxy : Bool) (table : Table) (rows : List Row) (host : Bytes)
    → (table' : Table) × (fill_table no_dot_proxy table (words (lines_of rows)) ≡ some table')
      × (find host table' ≡ hop_of no_dot_proxy rows host (find host table))
unfolding fill_table words lines_of hop_of
fill_table-words no_dot_proxy table [] host = (table, refl, refl)
fill_table-words no_dot_proxy table (r ∷ rows) host =
    let v : Bytes = row_value no_dot_proxy r.destination r.gateway in
    let (table', e, f) = fill_table-words no_dot_proxy (put r.destination v table) rows host in
    (
      table',
      e,
      f
          ∙ ap (λ (o : Option Bytes). hop_of no_dot_proxy rows host o)
              (find-put r.destination host v table),
    )

-- A hint for a host, and a routing file with one line that starts with the header and with rows of
-- eight columns behind it: get_next_hop returns, and the hint's host is replaced by that of the
-- host's last row (its gateway, or the host itself where the gateway is none or the proxy is off),
-- or of the table from before if no row has the host.
pub get_next_hop_lem :
    (parse_hint : Bytes → HintStatus) (no_dot_proxy : Bool) (table : Table) (hint : Bytes)
    (res : Hint) (before : List Line) (head : Line) (rows : List Row) (hop : Bytes)
    → parse_hint hint ≡ HintStatus.gtc_hint res
    → All (Plain routing_info_header) before
    → strcasecmp_eq (head.0) routing_info_header ≡ true
    → All (Plain routing_info_header) (lines_of rows)
    → hop_of no_dot_proxy rows res.hostname (find res.hostname table) ≡ some hop
    → (table' : Table) × (get_next_hop parse_hint no_dot_proxy table
          (some (before ++ (head ∷ lines_of rows)))
          hint
        ≡ some (table', HintStatus.gtc_hint (record res { hostname = hop })))
unfolding get_next_hop setup_routing_info
get_next_hop_lem parse_hint no_dot_proxy table hint res before head rows hop known a b c h =
    let (table', e, f) = fill_table-words no_dot_proxy table rows res.hostname in
    (
      table',
      rw (get_next_hop, known, parse_config_routing_info-words before (lines_of rows) head a b c)
          (>>=_step (fill_table no_dot_proxy table (words (lines_of rows))) _ table' e
            (>>=_step (find res.hostname table') _ hop (f ∙ h) refl)),
    )
