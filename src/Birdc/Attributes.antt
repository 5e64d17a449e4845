-- ===== src/Birdc/Attributes.antt =====
-- internal/birdc/parser.go, `attachRouteDetail` and `parseCommunityList`: the attributes of a route.
use birdy.Common.{
  ℕ, zero, suc, Bool, true, false, ◌&&◌, ◌||◌, List, [], ◌∷◌, ◌++◌, Option, none, some, Text, codes,
  if◌then◌else◌, trim_space, has_prefix, text_eq, ℤ, atoi, cut, fields, split_on, length,
}
use birdy.Birdc.Types.{Community, standard, large, RouteEntry}

abbrev after_cut : Text × Option Text → Text
after_cut (before, none) = []
after_cut (before, some after) = trim_space after

-- `afterColon`
after_colon : Text → Text
unfolding cut trim_space
after_colon s = after_cut (cut 58 s)

-- The numbers of a tuple, none of which may be in error.
abbrev cons_number : ℤ × Bool → Option (List ℤ) → Option (List ℤ)
cons_number (n, false) ns = none
cons_number (n, true) none = none
cons_number (n, true) (some ns) = some (n ∷ ns)

pub numbers_of : List Text → Option (List ℤ)
unfolding atoi trim_space
numbers_of [] = some []
numbers_of (p ∷ ps) = cons_number (atoi (trim_space p)) (numbers_of ps)

-- A tuple of another arity is skipped.
abbrev tuple_of : Bool → Option (List ℤ) → List Community
tuple_of true (some (a ∷ b ∷ c ∷ [])) = large a b c ∷ []
tuple_of false (some (a ∷ b ∷ [])) = standard a b ∷ []
tuple_of is_large _ = []

-- The text in the first parentheses and what follows them.
abbrev pub closed : Text × Option Text → Option (Text × Text)
closed (body, none) = none
closed (body, some rest) = some (body, rest)

abbrev pub opened : Text × Option Text → Option (Text × Text)
opened (before, none) = none
opened (before, some rest) = closed (cut 41 rest)

abbrev pub with_tuple : Bool → Option (Text × Text) → (Text → List Community) → List Community
with_tuple is_large none more = []
with_tuple is_large (some (body, rest)) more =
    tuple_of is_large (numbers_of (split_on 44 body)) ++ more rest

-- The loop of `parseCommunityList`; the fuel bounds its rounds.
unfoldable pub community_rounds : ℕ → Bool → Text → List Community
unfolding cut numbers_of split_on
community_rounds zero is_large s = []
community_rounds (suc fuel) is_large s =
    with_tuple is_large (opened (cut 40 s)) (community_rounds fuel is_large)

-- `parseCommunityList`: each round takes a byte at least.
unfoldable pub parse_community_list : Text → Bool → List Community
unfolding community_rounds
parse_community_list s is_large = community_rounds (length s) is_large s

abbrev is_next_hop : List Text → Bool
is_next_hop (a ∷ b ∷ c ∷ d ∷ fs) =
    (text_eq a (codes "via") && text_eq c (codes "on")) || text_eq a (codes "dev")
is_next_hop (a ∷ b ∷ fs) = text_eq a (codes "dev")
is_next_hop fs = false

unfoldable pub attach_route_detail : Text → RouteEntry → RouteEntry
unfolding trim_space fields has_prefix after_colon parse_community_list
attach_route_detail line e =
    let trimmed = trim_space line in
    if is_next_hop (fields trimmed)
    then record e { next_hop = trimmed }
    else if has_prefix trimmed (codes "BGP.community:")
    then record e {
      communities = e.communities ++ parse_community_list (after_colon trimmed) false;
    }
    else if has_prefix trimmed (codes "BGP.large_community:")
    then record e { communities = e.communities ++ parse_community_list (after_colon trimmed) true }
    else if has_prefix trimmed (codes "BGP.local_pref:")
    then record e { local_pref = after_colon trimmed }
    else if has_prefix trimmed (codes "BGP.origin:")
    then record e { origin = after_colon trimmed }
    else if has_prefix trimmed (codes "BGP.med:")
    then record e { med = after_colon trimmed }
    else record e { attrs = e.attrs ++ trimmed ∷ [] }
