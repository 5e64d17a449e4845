-- ===== src/Common/Distinct.antt =====
-- Membership by a Boolean equality, and the distinct items of a list.
use mathlib.Core.Path.{◌≡◌, refl, ap, sym, ◌∙◌, subst}
use mathlib.Core.Logic.{inl, inr}
use mathlib.Core.Bool.{Bool, true, false, not, ◌||◌}
use mathlib.Core.List.{List, [], ◌∷◌, ◌++◌, append-nil}
use native.Mathlib.Omega.{arith}
use birdy.Common.Tests.{if◌then◌else◌, Bool-cases}
use birdy.Common.Lists.{All, All-keep_if, All-map, keep_if}

module _ {ℓ} {A : Type ℓ} (p : A → Bool) where
  keep_if-kept :
      (b : Bool) (y : A) (xs ys : List A) {zs : List A}
      → zs ≡ xs ++ ys
      → elim b as (λ b. List A) [ true ↦ y ∷ zs | false ↦ zs ]
        ≡ elim b as (λ b. List A) [ true ↦ y ∷ xs | false ↦ xs ] ++ ys
  keep_if-kept true y xs ys e = ap (λ zs. y ∷ zs) e
  keep_if-kept false y xs ys e = e

  pub keep_if-append : (xs ys : List A) → keep_if p (xs ++ ys) ≡ keep_if p xs ++ keep_if p ys
  keep_if-append [] ys = refl
  keep_if-append (x ∷ xs) ys =
      keep_if-kept (p x) x (keep_if p xs) (keep_if p ys) (keep_if-append xs ys)

  keep_if-one : (x : A) (b : Bool) → p x ≡ b → keep_if p (x ∷ []) ≡ (if b then x ∷ [] else [])
  keep_if-one x true e = rw (e, keep_if) refl
  keep_if-one x false e = rw (e, keep_if) refl

  distinct-step :
      (x y : A) (xs : List A) (b c : Bool)
      → p y ≡ not c
      → x ∷ keep_if p (if b then xs else xs ++ y ∷ [])
        ≡ (if c || b then x ∷ keep_if p xs else x ∷ (keep_if p xs ++ y ∷ []))
  distinct-step x y xs true true e = refl
  distinct-step x y xs true false e = refl
  distinct-step x y xs false true e =
      ap (λ zs. x ∷ zs)
        (keep_if-append xs (y ∷ [])
          ∙ ap (λ zs. keep_if p xs ++ zs) (keep_if-one y false e)
          ∙ append-nil (keep_if p xs))
  distinct-step x y xs false false e =
      ap (λ zs. x ∷ zs)
        (keep_if-append xs (y ∷ []) ∙ ap (λ zs. keep_if p xs ++ zs) (keep_if-one y true e))

module _ {ℓ} {A : Type ℓ} (eq : A → A → Bool) where
  abbrev pub is_in : A → List A → Bool
  is_in x [] = false
  is_in x (y ∷ ys) = eq x y || is_in x ys

  -- Each item once, where it comes first.
  abbrev pub distinct : List A → List A
  distinct [] = []
  distinct (x ∷ xs) = x ∷ keep_if (λ y. not (eq x y)) (distinct xs)

  pub is_in-snoc : (y x : A) (xs : List A) → is_in y (xs ++ x ∷ []) ≡ (is_in y xs || eq y x)
  is_in-snoc y x [] = ground arith
  is_in-snoc y x (z ∷ xs) = ground (arith, is_in-snoc y x xs)

  pub All-distinct {κ} : (P : A → Type κ) (xs : List A) → All P xs → All P (distinct xs)
  All-distinct P [] h = tt
  All-distinct P (x ∷ xs) (h, hs) =
      (h, All-keep_if P (λ y. not (eq x y)) (distinct xs) (All-distinct P xs hs))

  module _ (sound : (x y : A) → eq x y ≡ true → x ≡ y) (self : (x : A) → eq x x ≡ true) where
    pub eq_sym : (x y : A) → eq x y ≡ eq y x
    eq_sym x y = elim (Bool-cases (eq x y)) [
      | inl e ↦ e ∙ sym (subst (λ z. eq z x ≡ true) (sound x y e) (self x))
      | inr e ↦ elim (Bool-cases (eq y x)) [
        | inl f ↦ absurd (differ (sym e ∙ subst (λ z. eq z y ≡ true) (sound y x f) (self y)))
        | inr f ↦ e ∙ sym f
      ]
    ]
      where
        differ : false ≡ true → ⊥
        differ h = cc

    pub distinct-snoc :
        (xs : List A) (y : A)
        → distinct (xs ++ y ∷ []) ≡ (if is_in y xs then distinct xs else distinct xs ++ y ∷ [])
    distinct-snoc [] y = refl
    distinct-snoc (x ∷ xs) y = rw (distinct-snoc xs y) (
        distinct-step (λ z. not (eq x z)) x y (distinct xs) (is_in y xs) (eq y x)
          (ap not (eq_sym x y)))

    pub All-is_in : (xs : List A) → All (λ n. is_in n xs ≡ true) xs
    All-is_in [] = tt
    All-is_in (x ∷ xs) = (
      ground (arith, self x),
      All-map (λ n. is_in n xs ≡ true) (λ n. is_in n (x ∷ xs) ≡ true) xs (λ n h. ground (arith, h))
          (All-is_in xs),
    )
