-- ===== src/Birdc/Paging.antt =====
-- internal/birdc/stream.go, `paginate`, and the paged queries of internal/birdc/queries.go. An offset is
-- a natural number: `parsePageParams` gives no other. `is_address` is that of Birdc/Queries.
use birdy.Common.{
  ℕ, zero, suc, ◌+◌, Bool, true, false, not, ◌||◌, List, [], ◌∷◌, ◌++◌, Option, none, some, Text,
  codes, if◌then◌else◌, leb, ltb, ℤ, pos, negsuc, look, put, itoa,
}
use birdy.Birdc.{is_error}
use birdy.Birdc.Types.{RouteEntry, RouteTable, RouteCountEntry}
use birdy.Birdc.Client.{Client, Failure, Outcome, ok, err, command}
use birdy.Birdc.Counts.{parse_route_count}
use birdy.Birdc.Queries.{valid_ident}
use birdy.Birdc.Stream.{Socket, StreamFailure, stream_routes}
pub mod Grouping
pub mod Slices

pub record RoutePage : Type 0 where
  pub tables : List RouteTable
  pub has_more : Bool

-- The variables of `paginate`: the map of tables, their names in the order in which they came, the
-- number of entries seen, and `page.HasMore`.
pub record Collected : Type 0 where
  pub seen : ℕ
  pub has_more : Bool
  pub tables : List (Text × RouteTable)
  pub order : List Text

abbrev pub add_route : RouteEntry → RouteTable → RouteTable
add_route e t = record t { routes = t.routes ++ e ∷ [] }

abbrev pub add_to : Text → RouteEntry → Collected → Option RouteTable → Collected
add_to name e p none = record p {
  tables = put name (add_route e (record { name = name; routes = [] })) p.tables;
  order = p.order ++ name ∷ [];
}
add_to name e p (some t) = record p { tables = put name (add_route e t) p.tables }

-- The callback: what is collected, and whether it wants more.
pub take_entry : ℕ → ℕ → Collected → Text → RouteEntry → Collected × Bool
unfolding look put
take_entry offset limit p name e =
    let p' = record p { seen = p.seen + 1 } in
    if leb (p.seen + 1) offset
    then (p', true)
    else if ltb (offset + limit) (p.seen + 1)
    then (record p' { has_more = true }, false)
    else (add_to name e p' (look name p.tables), true)

abbrev cons_table : Option RouteTable → List RouteTable → List RouteTable
cons_table none ts = ts
cons_table (some t) ts = t ∷ ts

-- Every name in the order is in the map, so that none is passed over.
pub ordered_tables : List (Text × RouteTable) → List Text → List RouteTable
unfolding look
ordered_tables tables [] = []
ordered_tables tables (name ∷ names) = cons_table (look name tables) (ordered_tables tables names)

pub data PageOutcome : Type 0 where
  page : RoutePage → PageOutcome
  page_failed : StreamFailure → PageOutcome
  page_refused : PageOutcome

abbrev pub page_of : Collected × Option StreamFailure → PageOutcome
page_of (p, some e) = page_failed e
page_of (p, none) =
    page (record { tables = ordered_tables p.tables p.order; has_more = p.has_more })

-- The page size: 50 in place of one that is not positive.
abbrev pub page_size : ℤ → ℕ
page_size (negsuc n) = 50
page_size (pos zero) = 50
page_size (pos (suc n)) = suc n

abbrev pub nothing_seen : Collected
nothing_seen = record { seen = 0; has_more = false; tables = []; order = [] }

-- `paginate`
unfoldable pub paginate : Socket → Text → ℕ → ℤ → PageOutcome
unfolding take_entry stream_routes ordered_tables
paginate c cmd offset limit =
    page_of (stream_routes (take_entry offset (page_size limit)) c cmd nothing_seen)

-- `routeCmd`, for a format that ends in the name.
route_cmd : Text → Text → Bool → Text
route_cmd verb name all = if all then (verb ++ name) ++ codes " all" else verb ++ name

-- One for each paged method.
data PageQuery : Type 0 where
  routes_for : Text → Bool → PageQuery
  routes_by_protocol routes_export routes_no_export : Text → Bool → PageQuery
  routes_rpki_invalid : ℕ → PageQuery

abbrev valid_asn : ℕ → Bool
valid_asn asn = not (ltb asn 1 || ltb 4294967295 asn)

abbrev named_page : Text → Text → Bool → Option Text
named_page verb name all = if valid_ident name then some (route_cmd verb name all) else none

abbrev rpki_invalid : ℕ → Text
rpki_invalid asn = codes "show route where (" ++ (itoa asn ++ codes ", 2, 1) ~ bgp_large_community")

-- The command, unless the argument is refused.
page_text : (Text → Bool) → PageQuery → Option Text
unfolding valid_ident route_cmd itoa
page_text is_address (routes_for s all) =
    if is_address s then some (route_cmd (codes "show route for ") s all) else none
page_text is_address (routes_by_protocol name all) =
    named_page (codes "show route protocol ") name all
page_text is_address (routes_export name all) = named_page (codes "show route export ") name all
page_text is_address (routes_no_export name all) =
    named_page (codes "show route noexport ") name all
page_text is_address (routes_rpki_invalid asn) =
    if valid_asn asn then some (rpki_invalid asn) else none

abbrev pub paged : Socket → ℕ → ℤ → Option Text → PageOutcome
paged c offset limit none = page_refused
paged c offset limit (some cmd) = paginate c cmd offset limit

ask_page : (Text → Bool) → Socket → PageQuery → ℕ → ℤ → PageOutcome
unfolding page_text paginate
ask_page is_address c q offset limit = paged c offset limit (page_text is_address q)

data CountOutcome : Type 0 where
  counted : List RouteCountEntry → CountOutcome
  count_failed : Failure → CountOutcome
  count_rejected : List Text → CountOutcome
  count_refused : CountOutcome

abbrev counted_of : Outcome → CountOutcome
counted_of (err e) = count_failed e
counted_of (ok r) =
    if is_error r then count_rejected r.terminal.lines else counted (parse_route_count r)

-- `RoutesRPKIInvalidCount`, on the shared connection.
routes_rpki_invalid_count : Client → ℕ → CountOutcome × Client
unfolding parse_route_count command is_error itoa
routes_rpki_invalid_count c asn = if not (valid_asn asn) then (count_refused, c) else (
  counted_of ((command c (rpki_invalid asn ++ codes " count")).0),
  (command c (rpki_invalid asn ++ codes " count")).1,
)
