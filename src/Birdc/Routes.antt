-- ===== src/Birdc/Routes.antt =====
-- internal/birdc/parser.go, `ParseRoutes`: the replies to `show route`.
use birdy.Common.{
  is_empty, ℕ, Bool, true, false, not, ◌&&◌, ◌||◌, List, [], ◌∷◌, ◌++◌, Option, none, some, Text,
  codes, if◌then◌else◌, ◌==◌, trim_space, trim_right_if, trim_prefix, cut_prefix, has_prefix,
  text_eq, ℤ, pos, atoi, cut, fields,
}
use birdy.Birdc.Attributes.{attach_route_detail}
use birdy.Birdc.{Reply, lines_of}
use birdy.Birdc.Types.{RouteEntry, RouteTable}

abbrev cons_some : ℕ → Option Text → Option Text
cons_some c none = none
cons_some c (some s) = some (c ∷ s)

-- `strings.CutSuffix`
unfoldable pub cut_suffix : Text → Text → Option Text
unfolding text_eq
cut_suffix [] p = if text_eq [] p then some [] else none
cut_suffix (c ∷ s) p =
    let rest = cut_suffix s p in if text_eq (c ∷ s) p then some [] else cons_some c rest

-- The last item changed, if there is one.
unfoldable pub change_last {ℓ} : {A : Type ℓ} → (A → A) → List A → List A
change_last f [] = []
change_last f (x ∷ []) = f x ∷ []
change_last f (x ∷ y ∷ xs) = x ∷ change_last f (y ∷ xs)

from_of : List Text → Text
from_of [] = []
from_of (a ∷ []) = []
from_of (a ∷ b ∷ fs) =
    let later = from_of (b ∷ fs) in
    let here = if text_eq a (codes "from") then b else [] in if is_empty later then here else later

abbrev protocol_of : List Text → Text × Text
protocol_of (protocol ∷ since ∷ fs) = (protocol, since)
protocol_of fs = ([], [])

abbrev after_preference : Text → Text × Option Text → ℤ × Text
after_preference whole (inside, none) = (pos 0, whole)
after_preference whole (inside, some after) = ((atoi inside).0, trim_space after)

abbrev preference_from : Text → Option Text → ℤ × Text
preference_from rest none = (pos 0, rest)
preference_from rest (some inside) = after_preference rest (cut 41 inside)

abbrev or_empty : Option Text → Text
or_empty none = []
or_empty (some s) = s

abbrev inside_brackets : Option Text → Text
inside_brackets none = []
inside_brackets (some s) = or_empty (cut_suffix s (codes "]"))

abbrev route_entry : Text → Text → List Text → Text → RouteEntry
route_entry network kind inside after =
    let rest = trim_space after in
    let (preference, path) =
      (preference_from (trim_space (trim_prefix rest (codes "*")))
        (cut_prefix (trim_space (trim_prefix rest (codes "*"))) (codes "("))) in
    record {
      network = network;
      kind = kind;
      protocol = (protocol_of inside).0;
      since = (protocol_of inside).1;
      from = from_of inside;
      primary = has_prefix rest (codes "*");
      preference = preference;
      as_path = inside_brackets (cut_prefix path (codes "["));
      next_hop = [];
      origin = [];
      local_pref = [];
      med = [];
      communities = [];
      attrs = [];
    }

abbrev is_route_type : Text → Bool
is_route_type s =
    text_eq s (codes "unicast")
    || text_eq s (codes "unreachable")
    || text_eq s (codes "blackhole")
    || text_eq s (codes "prohibit")

-- The network and the type; a line without the network is about that of the line before.
abbrev headed : Text → List Text → Option (Text × Text)
headed last_network (kind ∷ []) = if is_route_type kind then some (last_network, kind) else none
headed last_network (network ∷ kind ∷ []) =
    if is_route_type kind then some (network, kind) else none
headed last_network fs = none

abbrev bracketed : Option (Text × Text) → Text × Option Text → Option RouteEntry
bracketed none brackets = none
bracketed (some head) (inside, none) = none
bracketed (some (network, kind)) (inside, some after) =
    some (route_entry network kind (fields inside) after)

abbrev routed : Text → Text × Option Text → Option RouteEntry
routed last_network (head, none) = none
routed last_network (head, some rest) =
    bracketed (headed last_network (fields (trim_space head))) (cut 93 rest)

-- `parseRouteLine`: the network that it returns beside the entry is the entry's.
unfoldable pub parse_route_line : Text → Text → Option RouteEntry
unfolding cut fields trim_space from_of cut_suffix has_prefix cut_prefix trim_prefix atoi
parse_route_line line last_network = routed last_network (cut 91 line)

-- The variables of the loop: the tables so far, of which the last is `cur` and its last route
-- `lastEntry`, and `lastNetwork`.
pub record Parsing : Type 0 where
  pub tables : List RouteTable
  pub last_network : Text

unfoldable pub attach_line : Text → Parsing → Parsing
unfolding change_last attach_route_detail
attach_line line p = record p {
  tables =
      change_last
        (λ (t : RouteTable). record t { routes = change_last (attach_route_detail line) t.routes })
        p.tables;
}

abbrev or_text : Text → Option Text → Text
or_text s none = s
or_text s (some t) = t

-- The name of the table in a title line.
abbrev pub title_name : Text → Text
unfolding trim_space trim_prefix cut_suffix
title_name line =
    let titled = trim_space (trim_prefix line (codes "Table ")) in
    or_text titled (cut_suffix titled (codes ":"))

unfoldable pub add_table : Text → Parsing → Parsing
add_table line p = record {
  tables = p.tables ++ (record { name = title_name line; routes = [] }) ∷ [];
  last_network = [];
}

abbrev pub or_master : List RouteTable → List RouteTable
or_master [] = (record { name = codes "master"; routes = [] }) ∷ []
or_master (t ∷ ts) = t ∷ ts

unfoldable pub add_route : RouteEntry → Parsing → Parsing
unfolding change_last
add_route e p = record {
  tables =
      change_last (λ (t : RouteTable). record t { routes = t.routes ++ e ∷ [] })
        (or_master p.tables);
  last_network = e.network;
}

abbrev pub route_or_detail : Text → Option RouteEntry → Parsing → Parsing
route_or_detail line none p = attach_line line p
route_or_detail line (some e) p = add_route e p

abbrev pub is_none : Option Text → Bool
is_none none = true
is_none (some s) = false

abbrev pub is_title : Text → Bool
is_title line =
    has_prefix line (codes "Table ") && not (is_none (cut_suffix (trim_space line) (codes ":")))

unfoldable pub route_line : Parsing → Text → Parsing
unfolding trim_right_if trim_space has_prefix cut_suffix attach_line add_table add_route
    parse_route_line
route_line p raw =
    let line = trim_right_if (λ c. c == 32) raw in
    if is_empty (trim_space line)
    then p
    else if is_title line
    then add_table line p
    else if has_prefix line (9 ∷ [])
    then attach_line line p
    else route_or_detail line (parse_route_line line p.last_network) p

unfoldable pub route_lines : Parsing → List Text → Parsing
unfolding route_line
route_lines p [] = p
route_lines p (line ∷ lines) = route_lines (route_line p line) lines

unfoldable pub parse_routes : Reply → List RouteTable
unfolding route_lines lines_of
parse_routes r =
    (route_lines (record { tables = []; last_network = [] }) (lines_of r.blocks)).tables
