-- ===== src/Pages/Slices.antt =====
-- internal/web/pagination.go, `pageSlice` and `pagerFor`: the pages of a list held in memory.
use birdy.Common.{
  ℕ, zero, suc, ◌+◌, ◌-◌, ◌*◌, ◌≤◌, ◌<◌, min, max, ◌/◌, List, [], ◌∷◌, ◌++◌, ◌≡◌, refl, ap, ◌∙◌,
  sym, arith, take, drop, length, some, Bool-cases, inl, inr, leb, ◌⊎◌, leb→le, leb→lt,
}
use native.Mathlib.Nat.{suc-mul, mul_comm, mod-lt, le_trans, mul-le-mul_right}
use native.Mathlib.Omega.{div_any}
use birdy.Pages.{page_slice, pages_of}

-- `count` pages of a list, the first at the offset.
pages_from {ℓ} : {A : Type ℓ} → List A → ℕ → ℕ → ℕ → List A
unfolding page_slice
pages_from items limit offset zero = []
pages_from items limit offset (suc count) =
    page_slice items offset limit ++ pages_from items limit (offset + limit) count

module _ {ℓ} {A : Type ℓ} where
  take-nil : (n : ℕ) → take {A = A} n [] ≡ []
  take-nil zero = refl
  take-nil (suc n) = refl

  drop-nil : (n : ℕ) → drop {A = A} n [] ≡ []
  drop-nil zero = refl
  drop-nil (suc n) = refl

  take-past : (n : ℕ) (xs : List A) → length xs ≤ n → take n xs ≡ xs
  take-past n [] h = take-nil n
  take-past zero (x ∷ xs) h = ground (arith, h)
  take-past (suc n) (x ∷ xs) h = ap (λ l. x ∷ l) (take-past n xs (omega (arith, h)))

  drop-past : (n : ℕ) (xs : List A) → length xs ≤ n → drop n xs ≡ []
  drop-past n [] h = drop-nil n
  drop-past zero (x ∷ xs) h = ground (arith, h)
  drop-past (suc n) (x ∷ xs) h = drop-past n xs (omega (arith, h))

  pub length-drop : (n : ℕ) (xs : List A) → length (drop n xs) ≡ length xs - n
  length-drop zero xs = omega arith
  length-drop (suc n) [] = omega arith
  length-drop (suc n) (x ∷ xs) = omega (arith, length-drop n xs)

  take-drop : (n : ℕ) (xs : List A) → take n xs ++ drop n xs ≡ xs
  take-drop zero xs = refl
  take-drop (suc n) [] = refl
  take-drop (suc n) (x ∷ xs) = ap (λ l. x ∷ l) (take-drop n xs)

  drop-suc : (n p : ℕ) (x : A) (xs : List A) → p ≡ suc n → drop p (x ∷ xs) ≡ drop n xs
  drop-suc n p x xs e = ap (λ m. drop m (x ∷ xs)) e

  drop-drop : (n m p : ℕ) (xs : List A) → p ≡ n + m → drop m (drop n xs) ≡ drop p xs
  drop-drop zero m p xs e = ap (λ k. drop k xs) (omega (arith, e))
  drop-drop (suc n) m p [] e = drop-nil m ∙ sym (drop-nil p)
  drop-drop (suc n) m p (x ∷ xs) e =
      drop-drop n m (n + m) xs refl ∙ sym (drop-suc (n + m) p x xs (omega (arith, e)))

  take-rest :
      (a b : ℕ) (xs : List A)
      → (a ≡ b) ⊎ ((length xs ≤ a) × (length xs ≤ b))
      → take a xs ≡ take b xs
  take-rest a b xs (inl e) = ap (λ n. take n xs) e
  take-rest a b xs (inr (h, k)) = take-past a xs h ∙ sym (take-past b xs k)

  pub page_slice-take : (xs : List A) (o l : ℕ) → page_slice xs o l ≡ take l (drop o xs)
  unfolding page_slice
  page_slice-take xs o l = elim (Bool-cases (leb (length xs) o)) [
    | inl e ↦
        rw e (sym (ap (λ ys. take l ys) (drop-past o xs (leb→le (length xs) o e)) ∙ take-nil l))
    | inr e ↦ rw e (
        take-rest (min (o + l) (length xs) - o) l (drop o xs)
          (ground (arith, length-drop o xs, leb→lt (length xs) o e)))
  ]

  pages_from-drop :
      (items : List A) (limit offset count : ℕ)
      → length items ≤ offset + count * limit
      → pages_from items limit offset count ≡ drop offset items
  unfolding pages_from
  pages_from-drop items limit offset zero h = sym (drop-past offset items (omega (arith, h)))
  pages_from-drop items limit offset (suc count) h =
      ap (λ a. a ++ pages_from items limit (offset + limit) count)
        (page_slice-take items offset limit)
      ∙ ap (λ b. take limit (drop offset items) ++ b)
          (pages_from-drop items limit (offset + limit) count
              (omega (arith, h, suc-mul count limit))
            ∙ sym (drop-drop offset limit (offset + limit) items refl))
      ∙ take-drop limit (drop offset items)

positive_limit :
    (total limit : ℕ)
    → 0 < limit
    → pages_of limit (some total) ≡ max 1 ((total + limit - 1) / limit)
positive_limit total limit h = ground (arith, h)

enough_pages : (total limit : ℕ) → 0 < limit → total ≤ pages_of limit (some total) * limit
enough_pages total limit h = rw (positive_limit total limit h) (
    le_trans
      (omega (
        arith,
        h,
        div_any (total + limit - 1) limit,
        mod-lt (total + limit - 1) h,
        mul_comm limit ((total + limit - 1) / limit),
      ))
      (mul-le-mul_right {m = (total + limit - 1) / limit} limit (omega arith)))

-- Cut by a positive page size into as many pages as the pager counts, a list is the concatenation of
-- its pages.
pages_from-all {ℓ} :
    {A : Type ℓ} (items : List A) (limit : ℕ)
    → 0 < limit
    → pages_from items limit 0 (pages_of limit (some (length items))) ≡ items
pages_from-all items limit h =
    pages_from-drop items limit 0 (pages_of limit (some (length items)))
      (omega (arith, enough_pages (length items) limit h))
