-- ===== src/Communities/Ranges.antt =====
-- internal/store/communities.go: what a text that is accepted can be.
use birdy.Common.{
  ℕ, ◌≤◌, Bool, true, false, List, [], ◌∷◌, ◌++◌, Option, none, some, Text, ◌≡◌, arith, All, ltb,
  if◌then◌else◌, Bool-cases, inl, inr, ℤ, pos, negsuc, is_empty, trim_space, split_on,
}
use birdy.Communities.{
  Community, standard, large, in_range, standard_of, large_of, community_of, parse_community,
  bird_ident, CommunityRef, named, literal, literal_of, parse_community_ref, cons_ref, refs_of,
  line_refs, refs_in, parse_community_refs, numbers, uncommented,
}

-- The parts fit the fields of the community on the wire.
abbrev Fits : Community → Type 0
Fits (standard a b) = (a ≤ 65535) × (b ≤ 65535)
Fits (large a b c) = (a ≤ 4294967295) × (b ≤ 4294967295) × (c ≤ 4294967295)

abbrev AtMost : ℕ → Option ℕ → Type 0
AtMost most none = Unit
AtMost most (some n) = n ≤ most

in_range-AtMost : (most : ℕ) (n : ℤ) → AtMost most (in_range most n)
unfolding in_range
in_range-AtMost most (negsuc n) = tt
in_range-AtMost most (pos n) = elim (Bool-cases (ltb most n)) [
  | inl e ↦ rw e tt
  | inr e ↦ rw e (ground (arith, e))
]

abbrev FitsIf : Option Community → Type 0
FitsIf none = Unit
FitsIf (some c) = Fits c

standard_of-Fits : (a b : Option ℕ) → AtMost 65535 a → AtMost 65535 b → FitsIf (standard_of a b)
standard_of-Fits (some a) (some b) h k = (h, k)
standard_of-Fits (some a) none h k = tt
standard_of-Fits none b h k = tt

large_of-Fits :
    (a b c : Option ℕ)
    → AtMost 4294967295 a
    → AtMost 4294967295 b
    → AtMost 4294967295 c
    → FitsIf (large_of a b c)
large_of-Fits (some a) (some b) (some c) h k l = (h, k, l)
large_of-Fits (some a) (some b) none h k l = tt
large_of-Fits (some a) none c h k l = tt
large_of-Fits none b c h k l = tt

community_of-Fits : (o : Option (List ℤ)) → FitsIf (community_of o)
community_of-Fits none = tt
community_of-Fits (some []) = tt
community_of-Fits (some (a ∷ [])) = tt
community_of-Fits (some (a ∷ b ∷ [])) =
    standard_of-Fits (in_range 65535 a) (in_range 65535 b) (in_range-AtMost 65535 a)
      (in_range-AtMost 65535 b)
community_of-Fits (some (a ∷ b ∷ c ∷ [])) =
    large_of-Fits (in_range 4294967295 a) (in_range 4294967295 b) (in_range 4294967295 c)
      (in_range-AtMost 4294967295 a) (in_range-AtMost 4294967295 b) (in_range-AtMost 4294967295 c)
community_of-Fits (some (a ∷ b ∷ c ∷ d ∷ ns)) = tt

-- A reference that the renderer can write as it is: a BIRD symbol, or a community that fits.
abbrev pub IsSafe : CommunityRef → Type 0
IsSafe (named n) = bird_ident n ≡ true
IsSafe (literal c) = Fits c

abbrev SafeIf : Option CommunityRef → Type 0
SafeIf none = Unit
SafeIf (some r) = IsSafe r

literal_of-Safe : (o : Option Community) → FitsIf o → SafeIf (literal_of o)
literal_of-Safe none h = tt
literal_of-Safe (some c) h = h

parse_community_ref-Safe : (tok : Text) → SafeIf (parse_community_ref tok)
unfolding parse_community_ref parse_community
parse_community_ref-Safe tok = elim (Bool-cases (bird_ident (trim_space tok))) [
  | inl e ↦ rw e e
  | inr e ↦ rw e (
      literal_of-Safe (parse_community (trim_space tok))
        (community_of-Fits (numbers (split_on 58 (trim_space tok)))))
]

cons_ref-Safe :
    (o : Option CommunityRef) (rs : List CommunityRef)
    → SafeIf o
    → All IsSafe rs
    → All IsSafe (cons_ref o rs)
cons_ref-Safe none rs h hs = hs
cons_ref-Safe (some r) rs h hs = (h, hs)

All-if_else :
    (b : Bool) (xs ys : List CommunityRef)
    → All IsSafe xs
    → All IsSafe ys
    → All IsSafe (if b then xs else ys)
All-if_else true xs ys h k = h
All-if_else false xs ys h k = k

All-append : (xs ys : List CommunityRef) → All IsSafe xs → All IsSafe ys → All IsSafe (xs ++ ys)
All-append [] ys h k = k
All-append (x ∷ xs) ys (h, hs) k = (h, All-append xs ys hs k)

refs_of-Safe : (toks : List Text) → All IsSafe (refs_of toks)
unfolding refs_of
refs_of-Safe [] = tt
refs_of-Safe (tok ∷ toks) = All-if_else (is_empty (trim_space tok)) _ _ (refs_of-Safe toks) (
    cons_ref-Safe (parse_community_ref tok) (refs_of toks) (parse_community_ref-Safe tok)
      (refs_of-Safe toks))

line_refs-Safe : (line : Text) → All IsSafe (line_refs line)
unfolding line_refs
line_refs-Safe line =
    All-if_else (is_empty (uncommented line)) [] (refs_of (split_on 44 (uncommented line))) tt
      (refs_of-Safe (split_on 44 (uncommented line)))

refs_in-Safe : (lines : List Text) → All IsSafe (refs_in lines)
unfolding refs_in
refs_in-Safe [] = tt
refs_in-Safe (line ∷ lines) =
    All-append (line_refs line) (refs_in lines) (line_refs-Safe line) (refs_in-Safe lines)

-- Whatever text is typed, each reference that is read from it is a plain BIRD symbol or a community
-- whose parts fit their fields: 16 bits each of two, 32 bits each of three.
pub parse_community_refs-IsSafe : (text : Text) → All IsSafe (parse_community_refs text)
unfolding parse_community_refs
parse_community_refs-IsSafe text = refs_in-Safe (split_on 10 text)
