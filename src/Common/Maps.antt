-- ===== src/Common/Maps.antt =====
-- Go maps with string keys, as association lists.
use mathlib.Core.Bool.{false}
use mathlib.Core.List.{List, [], ◌∷◌}
use mathlib.Core.Option.{Option, none, some}
use mathlib.Core.Path.{◌≡◌, refl, ap}
use mathlib.Core.Logic.{inl, inr}
use native.Mathlib.Omega.{arith}
use birdy.Common.Tests.{Text, text_eq, text_eq_self, text_eq_sound, Bool-cases, if◌then◌else◌}

module _ {ℓ} {A : Type ℓ} where
  unfoldable pub look : Text → List (Text × A) → Option A
  look k [] = none
  look k ((j, v) ∷ m) = if text_eq j k then some v else look k m

  unfoldable pub put : Text → A → List (Text × A) → List (Text × A)
  put k v [] = (k, v) ∷ []
  put k v ((j, u) ∷ m) = let rest = put k v m in if text_eq j k then (j, v) ∷ m else (j, u) ∷ rest

  unfoldable pub remove : Text → List (Text × A) → List (Text × A)
  remove k [] = []
  remove k ((j, u) ∷ m) = let rest = remove k m in if text_eq j k then rest else (j, u) ∷ rest

  pub look-put : (k : Text) (v : A) (m : List (Text × A)) → look k (put k v m) ≡ some v
  unfolding look put
  look-put k v [] = ground (arith, text_eq_self k)
  look-put k v ((j, u) ∷ m) = elim (Bool-cases (text_eq j k)) [
    | inl e ↦ ground (arith, e)
    | inr e ↦ ground (arith, e, look-put k v m)
  ]

  pub look-put_if :
      (k : Text) (v : A) (m : List (Text × A)) (n : Text)
      → look n (put k v m) ≡ (if text_eq k n then some v else look n m)
  unfolding look put
  look-put_if k v [] n = refl
  look-put_if k v ((j, u) ∷ m) n = elim (Bool-cases (text_eq j k)) [
    | inl e ↦ rw (e, look) (rw (ap (λ s. text_eq s n) (text_eq_sound j k e)) (ground arith))
    | inr e ↦ elim (Bool-cases (text_eq k n)) [
      | inl f ↦
          let g : text_eq j n ≡ false = rw (← text_eq_sound k n f) e in
          ground (arith, e, f, g, look-put_if k v m n)
      | inr f ↦ ground (arith, e, f, look-put_if k v m n)
    ]
  ]
