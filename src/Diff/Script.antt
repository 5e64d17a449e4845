-- ===== src/Diff/Script.antt =====
-- internal/render/diff.go, `lcsScript`: what the edit script says of the two texts.
use birdy.Common.{ℕ, ◌+◌, ◌≡◌, refl, ap, List, [], ◌∷◌, arith, Text, text_eq_sound}
use birdy.Diff.{Op, del, ins, Edit, walk, lengths, lcs_script}

-- The lines of the old text that a script shows, each with its line number.
abbrev old_of : Op → Text × ℕ → List (Text × ℕ) → List (Text × ℕ)
old_of ins l ls = ls
old_of _ l ls = l ∷ ls

abbrev new_of : Op → Text × ℕ → List (Text × ℕ) → List (Text × ℕ)
new_of del l ls = ls
new_of _ l ls = l ∷ ls

unfoldable pub old_side : List Edit → List (Text × ℕ)
old_side [] = []
old_side (e ∷ es) = old_of e.op (e.text, e.old_line) (old_side es)

unfoldable pub new_side : List Edit → List (Text × ℕ)
new_side [] = []
new_side (e ∷ es) = new_of e.op (e.text, e.new_line) (new_side es)

-- Lines numbered from `i + 1`.
unfoldable pub number : ℕ → List Text → List (Text × ℕ)
number i [] = []
number i (x ∷ a) = (x, i + 1) ∷ number (i + 1) a

walk-old : (t : List (List ℕ)) (a b : List Text) (i j : ℕ) → old_side (walk t a b i j) ≡ number i a
unfolding walk old_side number
walk-old t [] [] i j = refl
walk-old t [] (y ∷ b) i j = walk-old t [] b i (j + 1)
walk-old t (x ∷ a) [] i j = ap (λ r. (x, i + 1) ∷ r) (walk-old t a [] (i + 1) j)
walk-old t (x ∷ a) (y ∷ b) i j = ground (
  arith,
  walk-old t a b (i + 1) (j + 1),
  walk-old t a (y ∷ b) (i + 1) j,
  walk-old t (x ∷ a) b i (j + 1),
)

walk-new : (t : List (List ℕ)) (a b : List Text) (i j : ℕ) → new_side (walk t a b i j) ≡ number j b
unfolding walk new_side number
walk-new t [] [] i j = refl
walk-new t [] (y ∷ b) i j = ap (λ r. (y, j + 1) ∷ r) (walk-new t [] b i (j + 1))
walk-new t (x ∷ a) [] i j = walk-new t a [] (i + 1) j
walk-new t (x ∷ a) (y ∷ b) i j = ground (
  arith,
  text_eq_sound x y,
  walk-new t a b (i + 1) (j + 1),
  walk-new t a (y ∷ b) (i + 1) j,
  walk-new t (x ∷ a) b i (j + 1),
)

-- The script, read on either side, gives back the lines of that text in order, each with its own
-- line number, counted from 1.
pub lcs_script-sides :
    (a b : List Text)
    → (old_side (lcs_script a b) ≡ number 0 a) × (new_side (lcs_script a b) ≡ number 0 b)
unfolding lcs_script
lcs_script-sides a b = (walk-old (lengths a b) a b 0 0, walk-new (lengths a b) a b 0 0)
