-- ===== src/Communities.antt =====
-- internal/store/communities.go: BGP communities and the references to them that the forms take. The
-- texts of the errors are left out.
use birdy.Common.{
  ℕ, Bool, true, false, not, ◌&&◌, ◌||◌, List, [], ◌∷◌, ◌++◌, Option, none, some, Text, codes,
  is_empty, if◌then◌else◌, ◌==◌, leb, ltb, length, ℤ, pos, negsuc, atoi, itoa, trim_space, split_on,
  cut, map, any_of,
}
pub mod Ranges

-- `Community`
pub data Community : Type 0 where
  standard : ℕ → ℕ → Community
  large : ℕ → ℕ → ℕ → Community

-- `BIRD`: a number is printed as Go does.
unfoldable pub bird : Community → Text
unfolding itoa
bird (standard a b) = codes "(" ++ (itoa a ++ (codes ", " ++ (itoa b ++ codes ")")))
bird (large a b c) =
    codes "(" ++ (itoa a ++ (codes ", " ++ (itoa b ++ (codes ", " ++ (itoa c ++ codes ")")))))

abbrev pub number : ℤ × Bool → Option ℤ
number (n, true) = some n
number (n, false) = none

abbrev pub cons_number : Option ℤ → Option (List ℤ) → Option (List ℤ)
cons_number (some n) (some ns) = some (n ∷ ns)
cons_number (some n) none = none
cons_number none ns = none

abbrev pub numbers : List Text → Option (List ℤ)
numbers [] = some []
numbers (p ∷ ps) = cons_number (number (atoi (trim_space p))) (numbers ps)

-- `range16` and `range32`, for the largest value.
pub in_range : ℕ → ℤ → Option ℕ
in_range most (negsuc n) = none
in_range most (pos n) = if ltb most n then none else some n

abbrev pub standard_of : Option ℕ → Option ℕ → Option Community
standard_of (some a) (some b) = some (standard a b)
standard_of (some a) none = none
standard_of none b = none

abbrev pub large_of : Option ℕ → Option ℕ → Option ℕ → Option Community
large_of (some a) (some b) (some c) = some (large a b c)
large_of (some a) (some b) none = none
large_of (some a) none c = none
large_of none b c = none

abbrev pub community_of : Option (List ℤ) → Option Community
community_of (some (a ∷ b ∷ [])) = standard_of (in_range 65535 a) (in_range 65535 b)
community_of (some (a ∷ b ∷ c ∷ [])) =
    large_of (in_range 4294967295 a) (in_range 4294967295 b) (in_range 4294967295 c)
community_of (some ns) = none
community_of none = none

-- `parseCommunity`
pub parse_community : Text → Option Community
unfolding atoi trim_space split_on in_range
parse_community tok = community_of (numbers (split_on 58 tok))

abbrev is_letter : ℕ → Bool
is_letter c = (leb 65 c && leb c 90) || (leb 97 c && leb c 122) || c == 95

abbrev pub all_symbols : Text → Bool
all_symbols [] = true
all_symbols (c ∷ s) = (is_letter c || (leb 48 c && leb c 57)) && all_symbols s

-- `birdIdent`, of internal/store/peers.go
pub bird_ident : Text → Bool
bird_ident [] = false
bird_ident (c ∷ s) = is_letter c && leb (length s) 62 && all_symbols s

-- `CommunityRef`
pub data CommunityRef : Type 0 where
  named : Text → CommunityRef
  literal : Community → CommunityRef

abbrev pub literal_of : Option Community → Option CommunityRef
literal_of none = none
literal_of (some c) = some (literal c)

pub parse_community_ref : Text → Option CommunityRef
unfolding trim_space bird_ident parse_community
parse_community_ref tok =
    let t = trim_space tok in
    if bird_ident t then some (named t) else literal_of (parse_community t)

abbrev pub cons_ref : Option CommunityRef → List CommunityRef → List CommunityRef
cons_ref none rs = rs
cons_ref (some r) rs = r ∷ rs

pub refs_of : List Text → List CommunityRef
unfolding trim_space parse_community_ref
refs_of [] = []
refs_of (tok ∷ toks) =
    let rest = refs_of toks in
    if is_empty (trim_space tok) then rest else cons_ref (parse_community_ref tok) rest

-- A line without its comment.
abbrev pub uncommented : Text → Text
uncommented line = trim_space ((cut 35 (trim_space line)).0)

pub line_refs : Text → List CommunityRef
unfolding cut split_on refs_of trim_space
line_refs line =
    if is_empty (uncommented line) then [] else refs_of (split_on 44 (uncommented line))

pub refs_in : List Text → List CommunityRef
unfolding line_refs
refs_in [] = []
refs_in (line ∷ lines) = line_refs line ++ refs_in lines

-- `ParseCommunityRefs`: what it reads; a bad token is passed over, with an error.
pub parse_community_refs : Text → List CommunityRef
unfolding refs_in split_on
parse_community_refs text = refs_in (split_on 10 text)

abbrev names_of : List CommunityRef → List Text
names_of [] = []
names_of (named n ∷ rs) = n ∷ names_of rs
names_of (literal c ∷ rs) = names_of rs

-- `NamedCommunityRefs`
unfoldable pub named_community_refs : Text → List Text
unfolding parse_community_refs
named_community_refs text = names_of (parse_community_refs text)
