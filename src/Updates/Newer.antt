-- ===== src/Updates/Newer.antt =====
-- internal/updatecheck/updatecheck.go: the order of versions.
use birdy.Common.{
  Bool, true, false, not, ◌&&◌, Option, none, some, Text, ℤ, pos, negsuc, ◌≡◌, ◌≢◌, refl, arith,
}
use birdy.Updates.{semver_tuple, is_prerelease, int_lt, newer_part, available, stable_available}

int_lt-asym : (a b : ℤ) → int_lt a b && int_lt b a ≡ false
int_lt-asym (pos a) (pos b) = ground arith
int_lt-asym (pos a) (negsuc b) = refl
int_lt-asym (negsuc a) (pos b) = refl
int_lt-asym (negsuc a) (negsuc b) = ground arith

newer_part-asym :
    (a b : ℤ) (r s : Bool) → r && s ≡ false → newer_part a b r && newer_part b a s ≡ false
newer_part-asym a b r s h = ground (arith, h, int_lt-asym a b)

last_asym : (p q : Bool) → (p && not q) && (q && not p) ≡ false
last_asym true true = refl
last_asym true false = refl
last_asym false q = refl

-- Of two builds whose versions are release numbers, with or without a suffix, at most one is offered as
-- an update of the other.
stable_available-asym :
    (a b : Text)
    → semver_tuple a ≢ none
    → semver_tuple b ≢ none
    → stable_available a b && stable_available b a ≡ false
unfolding stable_available
stable_available-asym a b = go (semver_tuple a) (semver_tuple b)
  where
    go :
        (u v : Option (ℤ × ℤ × ℤ))
        → u ≢ none
        → v ≢ none
        → available a b u v && available b a v u ≡ false
    go none v h k = absurd (h refl)
    go (some u) none h k = absurd (k refl)
    go (some (a₀, a₁, a₂)) (some (b₀, b₁, b₂)) h k = newer_part-asym a₀ b₀ _ _ (
        newer_part-asym a₁ b₁ _ _
          (newer_part-asym a₂ b₂ _ _ (last_asym (is_prerelease a) (is_prerelease b))))
