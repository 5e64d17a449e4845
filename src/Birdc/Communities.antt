-- ===== src/Birdc/Communities.antt =====
-- internal/birdc/parser.go, `parseCommunityList`: its loop ends.
use birdy.Common.{
  ℕ, zero, suc, ◌≤◌, ◌<◌, Bool, true, false, List, [], ◌∷◌, Option, none, some, Text, ◌==◌, ◌≡◌,
  refl, arith, cut, cons_cut, length, if◌then◌else◌,
}
use birdy.Birdc.Types.{Community}
use birdy.Birdc.Attributes.{closed, opened, with_tuple, community_rounds, parse_community_list}

-- What stands behind a byte is shorter than n.
abbrev Shorter : ℕ → Text × Option Text → Type 0
Shorter n (before, none) = Unit
Shorter n (before, some rest) = length rest < n

Shorter-if :
    (b : Bool) (n : ℕ) (x y : Text × Option Text)
    → Shorter n x
    → Shorter n y
    → Shorter n (if b then x else y)
Shorter-if true n x y h k = h
Shorter-if false n x y h k = k

Shorter-cons_cut : (n d : ℕ) (x : Text × Option Text) → Shorter n x → Shorter (suc n) (cons_cut d x)
Shorter-cons_cut n d (before, none) h = tt
Shorter-cons_cut n d (before, some rest) h = omega (arith, h)

Shorter-cut : (c : ℕ) (s : Text) → Shorter (length s) (cut c s)
unfolding cut
Shorter-cut c [] = tt
Shorter-cut c (d ∷ s) =
    Shorter-if (d == c) (suc (length s)) ([], some s) (cons_cut d (cut c s)) (omega arith)
      (Shorter-cons_cut (length s) d (cut c s) (Shorter-cut c s))

-- What a round leaves is shorter than n.
abbrev Left : ℕ → Option (Text × Text) → Type 0
Left n none = Unit
Left n (some (body, rest)) = length rest < n

Left-closed : (n : ℕ) (x : Text × Option Text) → Shorter n x → Left n (closed x)
Left-closed n (before, none) h = tt
Left-closed n (before, some rest) h = h

Left-more : (n m : ℕ) (x : Option (Text × Text)) → n ≤ m → Left n x → Left m x
Left-more n m none le h = tt
Left-more n m (some (body, rest)) le h = omega (arith, le, h)

Left-opened : (n : ℕ) (x : Text × Option Text) → Shorter n x → Left n (opened x)
Left-opened n (before, none) h = tt
Left-opened n (before, some rest) h =
    Left-more (length rest) n (closed (cut 41 rest)) (omega (arith, h))
      (Left-closed (length rest) (cut 41 rest) (Shorter-cut 41 rest))

with_tuple-same :
    (is_large : Bool) (n : ℕ) (x : Option (Text × Text)) (f g : Text → List Community)
    → Left n x
    → ((s : Text) → length s < n → f s ≡ g s)
    → with_tuple is_large x f ≡ with_tuple is_large x g
with_tuple-same is_large n none f g h k = refl
with_tuple-same is_large n (some (body, rest)) f g h k = rw (k rest h) refl

community_rounds-same :
    (fuel fuel' : ℕ) (is_large : Bool) (s : Text)
    → length s ≤ fuel
    → length s ≤ fuel'
    → community_rounds fuel is_large s ≡ community_rounds fuel' is_large s
unfolding community_rounds
community_rounds-same zero zero is_large s h k = refl
community_rounds-same zero (suc f) is_large [] h k = refl
community_rounds-same zero (suc f) is_large (c ∷ s) h k = absurd (omega (arith, h))
community_rounds-same (suc f) zero is_large [] h k = refl
community_rounds-same (suc f) zero is_large (c ∷ s) h k = absurd (omega (arith, k))
community_rounds-same (suc f) (suc f') is_large s h k =
    with_tuple-same is_large (length s) (opened (cut 40 s)) (community_rounds f is_large)
      (community_rounds f' is_large) (Left-opened (length s) (cut 40 s) (Shorter-cut 40 s))
      (λ t lt. community_rounds-same f f' is_large t (omega (arith, h, lt)) (omega (arith, k, lt)))

-- The loop over the tuples ends: it takes at least a byte in each round, so that as many rounds as the
-- text has bytes are enough, and the rounds that a larger bound allows add nothing.
pub community_rounds-enough :
    (fuel : ℕ) (s : Text) (is_large : Bool)
    → length s ≤ fuel
    → community_rounds fuel is_large s ≡ parse_community_list s is_large
unfolding parse_community_list
community_rounds-enough fuel s is_large h =
    community_rounds-same fuel (length s) is_large s h (omega arith)
