-- ===== src/Examples/Listings.antt =====
-- internal/birdc/stream.go on a short listing of routes in two tables.
use birdy.Common.{
  Bool, true, false, List, [], ◌∷◌, some, none, Text, codes, ◌≡◌, refl, pos, map, trim_prefix,
}
use birdy.Birdc.{Reply, read_frame, is_error, parse_coded_line, trim_newlines, add_line}
use birdy.Birdc.Types.{RouteEntry}
use birdy.Birdc.Client.{has_newline}
use birdy.Birdc.Routes.{parse_routes}
use birdy.Birdc.Stream.{Socket}
use birdy.Birdc.Stream.Collecting.{list_routes}
use birdy.Birdc.Stream.Tables.{routes_of}
use birdy.Birdc.Stream.Listing.{begins_coded, list_routes-parse_routes}
use birdy.Birdc.Stream.Held.{entries}
use birdy.Birdc.Paging.{paginate, page, PageOutcome, page_size}
use birdy.Birdc.Paging.Slices.{page_spec, paginate-slice}

abbrev command : Text
command = codes "show route"

abbrev stream : List Text
stream =
    codes "1007-Table master4:"
    ∷ codes " 192.0.2.0/24 unicast [edge1 2026-07-08] * (100) [AS64500i]"
    ∷ (9 ∷ codes "via 198.51.100.1 on eth0")
    ∷ codes " 203.0.113.0/24 unicast [edge1 2026-07-08] * (100) [AS64500i]"
    ∷ codes "1007-Table master6:"
    ∷ codes " 2001:db8::/32 unreachable [static 2026-07-08] * (200)"
    ∷ codes "0000 "
    ∷ []

abbrev answer : List Text
answer = codes "0001 BIRD 2.17 ready." ∷ stream

abbrev socket : Socket
socket = record { dialled = some answer; deadline_set = true; command_written = true }

paginate-slice_example :
    paginate socket command 1 (pos 1) ≡ page_spec 1 (page_size (pos 1)) (list_routes socket command)
paginate-slice_example = paginate-slice socket command 1 (pos 1)

-- The name and the networks of each table of a page, and whether more follows.
abbrev shown : PageOutcome → List (Text × List Text) × Bool
shown (page p) =
    (map (λ t. (t.name, map (λ (e : RouteEntry). e.network) t.routes)) p.tables, p.has_more)
shown o = ([], false)

-- The second of the three routes.
second_page :
    shown (paginate socket command 1 (pos 1))
    ≡ ((codes "master4", codes "203.0.113.0/24" ∷ []) ∷ [], true)
unfolding paginate
second_page = refl

abbrev banner : Reply
banner = record {
  blocks = [];
  terminal = record { code = 1; lines = codes "BIRD 2.17 ready." ∷ [] };
}

abbrev reply : Reply
reply = record {
  blocks =
      record {
        code = 1007;
        lines =
            codes "Table master4:"
            ∷ codes "192.0.2.0/24 unicast [edge1 2026-07-08] * (100) [AS64500i]"
            ∷ (9 ∷ codes "via 198.51.100.1 on eth0")
            ∷ codes "203.0.113.0/24 unicast [edge1 2026-07-08] * (100) [AS64500i]"
            ∷ [];
      }
      ∷ record {
        code = 1007;
        lines =
            codes "Table master6:"
            ∷ codes "2001:db8::/32 unreachable [static 2026-07-08] * (200)"
            ∷ [];
      }
      ∷ [];
  terminal = record { code = 0; lines = [] ∷ [] };
}

one_line : has_newline command ≡ false
unfolding has_newline
one_line = refl

welcome : read_frame [] answer ≡ some (banner, stream)
unfolding read_frame parse_coded_line trim_newlines
welcome = refl

framed : read_frame [] stream ≡ some (reply, [])
unfolding read_frame parse_coded_line trim_newlines add_line trim_prefix
framed = refl

fine : is_error reply ≡ false
unfolding is_error
fine = refl

coded : begins_coded stream ≡ true
unfolding begins_coded
coded = refl

list_routes-parse_routes_example :
    (entries ((list_routes socket command).0) ≡ routes_of (parse_routes reply))
    × ((list_routes socket command).1 ≡ none)
list_routes-parse_routes_example =
    list_routes-parse_routes socket command answer stream [] banner reply one_line refl welcome
      framed fine coded
