-- ===== src/Birdc/Counts.antt =====
-- internal/birdc/parser.go, `ParseRouteCount`.
use birdy.Common.{List, [], ◌∷◌, Option, none, some, Text, codes, trim_space, cut_prefix}
use birdy.Birdc.{Reply, lines_of}
use birdy.Birdc.Types.{RouteCountEntry}
use birdy.Birdc.Detail.{number, word, atoi_digits, ◌>>=◌}

-- `reRouteCount`
route_count_line : Text → Option RouteCountEntry
unfolding number word atoi_digits
route_count_line s = do
  a ← number s
  b ← cut_prefix (a.1) (codes " of ")
  c ← number b
  d ← cut_prefix (c.1) (codes " routes for ")
  e ← number d
  f ← cut_prefix (e.1) (codes " networks in table ")
  g ← word f
  some (record { table = g.0; routes = atoi_digits (a.0); networks = atoi_digits (e.0) })

route_count_lines : List Text → List RouteCountEntry
unfolding route_count_line
route_count_lines [] = []
route_count_lines (l ∷ ls) = elim (route_count_line (trim_space l)) [
  | none ↦ route_count_lines ls
  | some e ↦ e ∷ route_count_lines ls
]

-- `ParseRouteCount`
unfoldable pub parse_route_count : Reply → List RouteCountEntry
unfolding route_count_lines lines_of
parse_route_count r = route_count_lines (lines_of r.blocks)
