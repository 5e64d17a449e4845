-- ===== src/Birdc/Queries.antt =====
-- internal/birdc/queries.go: the `show` commands and their answers. `is_address` says which texts
-- `net.ParseCIDR` or `net.ParseIP` accepts. The paged forms of the route queries are left out.
use birdy.Common.{
  Bool, true, false, ◌&&◌, ◌||◌, List, [], ◌∷◌, ◌++◌, Option, none, some, Text, codes,
  if◌then◌else◌, ◌==◌, leb, ℕ,
}
use birdy.Birdc.{Reply, is_error}
use birdy.Birdc.Types.{Status, ProtocolSummary, ProtocolDetail, RouteTable, RouteCountEntry}
use birdy.Birdc.Client.{Client, Failure, Outcome, ok, err, command}
use birdy.Birdc.Rows.{parse_status, parse_protocols}
use birdy.Birdc.Detail.{parse_protocol_detail}
use birdy.Birdc.Counts.{parse_route_count}
use birdy.Birdc.Routes.{parse_routes}

abbrev is_letter : ℕ → Bool
is_letter c = (leb 65 c && leb c 90) || (leb 97 c && leb c 122) || c == 95

abbrev is_symbol : ℕ → Bool
is_symbol c = is_letter c || (leb 48 c && leb c 57)

unfoldable pub all_symbols : Text → Bool
all_symbols [] = true
all_symbols (c ∷ s) = is_symbol c && all_symbols s

-- `validIdent`
unfoldable pub valid_ident : Text → Bool
unfolding all_symbols
valid_ident [] = false
valid_ident (c ∷ s) = is_letter c && all_symbols s

-- One for each method.
pub data Query : Type 0 where
  status protocols route_count : Query
  protocol_detail routes_by_protocol routes_export routes_no_export : Text → Query
  routes_for : Text → Bool → Query

abbrev pub named : Text → Text → Option Text
named verb name = if valid_ident name then some (verb ++ name) else none

abbrev addressed : (Text → Bool) → Text → Bool → Option Text
addressed is_address s true =
    if is_address s then some (codes "show route for " ++ (s ++ codes " all")) else none
addressed is_address s false = if is_address s then some (codes "show route for " ++ s) else none

-- The command, unless the argument is refused.
unfoldable pub query_text : (Text → Bool) → Query → Option Text
unfolding valid_ident
query_text is_address status = some (codes "show status")
query_text is_address protocols = some (codes "show protocols")
query_text is_address route_count = some (codes "show route count")
query_text is_address (protocol_detail name) = named (codes "show protocols all ") name
query_text is_address (routes_by_protocol name) = named (codes "show route protocol ") name
query_text is_address (routes_export name) = named (codes "show route export ") name
query_text is_address (routes_no_export name) = named (codes "show route noexport ") name
query_text is_address (routes_for s all) = addressed is_address s all

-- What a query answers; `none` inside is a reply of another shape.
pub data Answer : Type 0 where
  refused : Answer
  failed : Failure → Answer
  rejected : List Text → Answer
  a_status : Status → Answer
  a_list : Option (List ProtocolSummary) → Answer
  a_detail : Option ProtocolDetail → Answer
  counts : List RouteCountEntry → Answer
  routes : List RouteTable → Answer

pub parsed : Query → Reply → Answer
unfolding parse_status parse_protocols parse_route_count parse_protocol_detail parse_routes
parsed status r = a_status (parse_status r)
parsed protocols r = a_list (parse_protocols r)
parsed route_count r = counts (parse_route_count r)
parsed (protocol_detail name) r = a_detail (parse_protocol_detail r)
parsed (routes_by_protocol name) r = routes (parse_routes r)
parsed (routes_export name) r = routes (parse_routes r)
parsed (routes_no_export name) r = routes (parse_routes r)
parsed (routes_for s all) r = routes (parse_routes r)

abbrev answer_of : Query → Outcome → Answer
answer_of q (err e) = failed e
answer_of q (ok r) = if is_error r then rejected r.terminal.lines else parsed q r

abbrev pub asked : Query → Client → Option Text → Answer × Client
asked q c none = (refused, c)
asked q c (some cmd) = (answer_of q ((command c cmd).0), (command c cmd).1)

unfoldable pub ask : (Text → Bool) → Client → Query → Answer × Client
unfolding query_text parsed command is_error
ask is_address c q = asked q c (query_text is_address q)
