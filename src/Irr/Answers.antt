-- ===== src/Irr/Answers.antt =====
-- internal/irr/irr.go: the expansion of IRR objects by bgpq4. What it prints, and its reading as JSON, is
-- an argument: the entries of its list, in which a number left out is 0, or an error's text. The text of
-- the error about a bad name is cut short.
use birdy.Common.{
  ℕ, ◌+◌, ◌-◌, ◌*◌, Bool, true, false, not, ◌&&◌, ◌||◌, List, [], ◌∷◌, ◌++◌, Option, none, some,
  Text, codes, is_empty, if◌then◌else◌, ◌==◌, leb, ltb, length, map, keep_if, itoa,
}
use birdy.Sets.{PrefixEntry}

pub data Answer {ℓ} (A : Type ℓ) : Type ℓ where
  got : List A → Answer A
  no_answer : Text → Answer A

abbrev is_alnum : ℕ → Bool
is_alnum c = (leb 48 c && leb c 57) || (leb 65 c && leb c 90) || (leb 97 c && leb c 122)

abbrev all_source : Text → Bool
all_source [] = true
all_source (c ∷ s) = (is_alnum c || c == 58 || c == 95 || c == 46 || c == 45) && all_source s

-- `sourceRe`
is_source : Text → Bool
is_source [] = false
is_source (c ∷ s) = is_alnum c && leb (length s) 127 && all_source s

-- An entry of bgpq4's list.
pub record Item : Type 0 where
  pub prefix : Text
  pub exact : Bool
  pub greater_equal : ℕ
  pub less_equal : ℕ

abbrev max_len : Bool → ℕ
max_len v6 = if v6 then 128 else 32

-- The number that the digits give after n, and 0 if there is another byte.
number_from : ℕ → Text → ℕ
number_from n [] = n
number_from n (c ∷ s) =
    let rest = number_from (n * 10 + (c - 48)) s in if ltb c 48 || ltb 57 c then 0 else rest

-- What follows the last slash.
after_slash : Text → Option Text
after_slash [] = none
after_slash (c ∷ s) =
    let later = after_slash s in
    let here = if c == b'/' then some s else none in elim later [ none ↦ here | some t ↦ some t ]

abbrev prefix_len_of : Option Text → ℕ
prefix_len_of none = 0
prefix_len_of (some s) = number_from 0 s

prefix_len : Text → ℕ
unfolding after_slash number_from
prefix_len cidr = prefix_len_of (after_slash cidr)

abbrev or_default : ℕ → ℕ → ℕ
or_default n d = if n == 0 then d else n

item_entry : Bool → Item → PrefixEntry
unfolding prefix_len itoa
item_entry v6 d = record {
  prefix = d.prefix;
  modifier =
      if not d.exact && (ltb 0 d.greater_equal || ltb 0 d.less_equal)
      then codes "{"
        ++ (itoa (or_default d.greater_equal (prefix_len d.prefix))
            ++ (codes "," ++ (itoa (or_default d.less_equal (max_len v6)) ++ codes "}")))
      else [];
}

abbrev entries_of : Bool → Answer Item → Answer PrefixEntry
entries_of v6 (no_answer e) = no_answer e
entries_of v6 (got items) =
    got (map (item_entry v6) (keep_if (λ (d : Item). not (is_empty d.prefix)) items))

-- `Prefixes`: `run` is bgpq4, asked for an object and a family.
unfoldable pub prefixes : (Text → Bool → Answer Item) → Text → Bool → Answer PrefixEntry
unfolding is_source item_entry
prefixes run source v6 =
    if not (is_source source)
    then no_answer (codes "not a valid IRR object name")
    else entries_of v6 (run source v6)

abbrev asns_of : Answer ℕ → Answer ℕ
asns_of (no_answer e) = no_answer e
asns_of (got asns) = got (keep_if (λ a. not (ltb a 1 || ltb 4294967295 a)) asns)

-- `ASNs`
unfoldable pub asns : (Text → Answer ℕ) → Text → Answer ℕ
unfolding is_source
asns run source =
    if not (is_source source)
    then no_answer (codes "not a valid IRR object name")
    else asns_of (run source)
