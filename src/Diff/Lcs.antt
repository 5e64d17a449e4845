-- ===== src/Diff/Lcs.antt =====
-- internal/render/diff.go, `lcsScript`: the table holds the lengths of longest common subsequences.
use native.Mathlib.Nat.{add-zero}
use birdy.Common.{
  ℕ, zero, suc, ◌+◌, ◌≤◌, max, ◌≡◌, refl, ◌∙◌, List, [], ◌∷◌, arith, if◌then◌else◌, get_or, drop,
  Text, text_eq, text_eq_self,
}
use birdy.Diff.{fill_row, zero_row, lengths, tail_row, entry}

-- A common subsequence of two lists of lines, of a given length.
pub data Align : List Text → List Text → ℕ → Type 0 where
  done : Align [] [] 0
  pair : {a b : List Text} {n : ℕ} (x : Text) → Align a b n → Align (x ∷ a) (x ∷ b) (suc n)
  skip_old : {a b : List Text} {n : ℕ} (x : Text) → Align a b n → Align (x ∷ a) b n
  skip_new : {a b : List Text} {n : ℕ} (y : Text) → Align a b n → Align a (y ∷ b) n

unfoldable pub lcs : List Text → List Text → ℕ
lcs [] b = 0
lcs (x ∷ a) [] = 0
lcs (x ∷ a) (y ∷ b) = if text_eq x y then lcs a b + 1 else max (lcs a (y ∷ b)) (lcs (x ∷ a) b)

pub lcs-nil : (a : List Text) → lcs a [] ≡ 0
unfolding lcs
lcs-nil [] = refl
lcs-nil (x ∷ a) = refl

abbrev StepNew : List Text → Type 0
StepNew a = (b : List Text) (y : Text) → lcs a (y ∷ b) ≤ lcs a b + 1

abbrev StepOld : List Text → Type 0
StepOld b = (a : List Text) (x : Text) → lcs (x ∷ a) b ≤ lcs a b + 1

grow_old : (a b : List Text) (x : Text) → StepNew a → lcs a b ≤ lcs (x ∷ a) b
unfolding lcs
grow_old a [] x h = omega (arith, lcs-nil a)
grow_old a (y ∷ b) x h = ground (arith, h b y)

lcs-StepNew : (a : List Text) → StepNew a
unfolding lcs
lcs-StepNew [] b y = omega arith
lcs-StepNew (x ∷ a) b y = ground (arith, grow_old a b x (lcs-StepNew a), lcs-StepNew a b y)

grow_new : (a b : List Text) (y : Text) → StepOld b → lcs a b ≤ lcs a (y ∷ b)
unfolding lcs
grow_new [] b y h = omega arith
grow_new (x ∷ a) b y h = ground (arith, h a x)

lcs-StepOld : (b : List Text) → StepOld b
unfolding lcs
lcs-StepOld [] a x = omega arith
lcs-StepOld (y ∷ b) a x = ground (arith, grow_new a b y (lcs-StepOld b), lcs-StepOld b a x)

-- No common subsequence is longer than `lcs`.
pub Align-le : {a b : List Text} {n : ℕ} → Align a b n → n ≤ lcs a b
unfolding lcs
Align-le done = omega arith
Align-le (pair x s) = rw (text_eq_self x) (omega (arith, Align-le s))
Align-le (skip_old {a} {b} x s) = omega (arith, Align-le s, grow_old a b x (lcs-StepNew a))
Align-le (skip_new {a} {b} y s) = omega (arith, Align-le s, grow_new a b y (lcs-StepOld b))

-- The entries of `row` are the longest lengths for `a` and each suffix of `b`.
abbrev IsRow : List Text → List Text → List ℕ → Type 0
IsRow a b row = (j : ℕ) → get_or row j 0 ≡ lcs a (drop j b)

get_or-tail_row : (row : List ℕ) (j : ℕ) → get_or (tail_row row) j 0 ≡ get_or row (suc j) 0
get_or-tail_row [] j = refl
get_or-tail_row (v ∷ row) j = refl

zero_row-IsRow : (b : List Text) → IsRow [] b (zero_row b)
unfolding zero_row lcs
zero_row-IsRow [] zero = refl
zero_row-IsRow [] (suc j) = refl
zero_row-IsRow (y ∷ b) zero = refl
zero_row-IsRow (y ∷ b) (suc j) = zero_row-IsRow b j

fill_row-IsRow :
    (x : Text) (a b : List Text) (below : List ℕ)
    → IsRow a b below
    → IsRow (x ∷ a) b (fill_row x b below)
unfolding fill_row lcs
fill_row-IsRow x a [] below h zero = refl
fill_row-IsRow x a [] below h (suc j) = refl
fill_row-IsRow x a (y ∷ b) below h zero =
    rw
      (h 1, h 0, fill_row-IsRow x a b (tail_row below) (λ j. get_or-tail_row below j ∙ h (suc j)) 0)
fill_row-IsRow x a (y ∷ b) below h (suc j) =
    fill_row-IsRow x a b (tail_row below) (λ k. get_or-tail_row below k ∙ h (suc k)) j

-- Entry `i`, `j` of a table is the longest length for `a[i:]` and `b[j:]`.
abbrev pub IsTable : List Text → List Text → ℕ → ℕ → List (List ℕ) → Type 0
IsTable a b i j t = (p q : ℕ) → entry t (p + i) (q + j) ≡ lcs (drop p a) (drop q b)

lengths-IsRow : (a b : List Text) (i : ℕ) → IsRow (drop i a) b (get_or (lengths a b) i [])
unfolding lengths lcs
lengths-IsRow [] b zero j = zero_row-IsRow b j
lengths-IsRow [] b (suc i) j = refl
lengths-IsRow (x ∷ a) b zero j = fill_row-IsRow x a b _ (lengths-IsRow a b 0) j
lengths-IsRow (x ∷ a) b (suc i) j = lengths-IsRow a b i j

pub lengths-IsTable : (a b : List Text) → IsTable a b 0 0 (lengths a b)
lengths-IsTable a b p q = rw (add-zero p, add-zero q) (lengths-IsRow a b p q)
