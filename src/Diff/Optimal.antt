-- ===== src/Diff/Optimal.antt =====
-- internal/render/diff.go, `lcsScript`: no edit script has fewer changes.
use native.Mathlib.Nat.{zero-add}
use birdy.Common.{
  ℕ, suc, ◌+◌, ◌*◌, ◌≤◌, ◌≡◌, refl, ap, ◌∙◌, sym, List, [], ◌∷◌, arith, length, Text,
}
use birdy.Diff.{Op, same, Edit, entry, walk, lengths, lcs_script}
use birdy.Diff.Lcs.{lcs, lcs-nil, Align, Align-le, IsTable, lengths-IsTable}
use birdy.Diff.Script.{old_side, new_side, number, lcs_script-sides}

abbrev kept_of : Op → ℕ → ℕ
kept_of same n = suc n
kept_of _ n = n

-- The unchanged lines of a script, and the changed ones.
pub kept : List Edit → ℕ
kept [] = 0
kept (e ∷ es) = kept_of e.op (kept es)

abbrev changes_of : Op → ℕ → ℕ
changes_of same n = n
changes_of _ n = suc n

unfoldable pub changes : List Edit → ℕ
changes [] = 0
changes (e ∷ es) = changes_of e.op (changes es)

changes-kept :
    (es : List Edit) → changes es + 2 * kept es ≡ length (old_side es) + length (new_side es)
unfolding changes kept old_side new_side
changes-kept [] = omega arith
changes-kept (e ∷ es) = ground (arith, changes-kept es)

length-number : (i : ℕ) (a : List Text) → length (number i a) ≡ length a
unfolding number
length-number i [] = refl
length-number i (x ∷ a) = ap suc (length-number (i + 1) a)

module _ (t : List (List ℕ)) where
  next_old :
      (x : Text) (a b : List Text) (i j : ℕ) → IsTable (x ∷ a) b i j t → IsTable a b (i + 1) j t
  next_old x a b i j h p q = ap (λ k. entry t k (q + j)) (omega arith) ∙ h (suc p) q

  next_new :
      (y : Text) (a b : List Text) (i j : ℕ) → IsTable a (y ∷ b) i j t → IsTable a b i (j + 1) t
  next_new y a b i j h p q = ap (λ k. entry t (p + i) k) (omega arith) ∙ h p (suc q)

  entry-lcs : (a b : List Text) (i j : ℕ) → IsTable a b i j t → entry t i j ≡ lcs a b
  entry-lcs a b i j h =
      ap (λ k. entry t k j) (sym (zero-add i))
      ∙ ap (λ k. entry t (0 + i) k) (sym (zero-add j))
      ∙ h 0 0

  -- The script keeps as many lines as the table promises.
  walk-kept : (a b : List Text) (i j : ℕ) → IsTable a b i j t → kept (walk t a b i j) ≡ lcs a b
  unfolding walk kept lcs
  walk-kept [] [] i j h = refl
  walk-kept [] (y ∷ b) i j h = walk-kept [] b i (j + 1) (next_new y [] b i j h)
  walk-kept (x ∷ a) [] i j h = walk-kept a [] (i + 1) j (next_old x a [] i j h) ∙ lcs-nil a
  walk-kept (x ∷ a) (y ∷ b) i j h =
      let h_old : IsTable a (y ∷ b) (i + 1) j t = next_old x a (y ∷ b) i j h in
      let h_new : IsTable (x ∷ a) b i (j + 1) t = next_new y (x ∷ a) b i j h in
      let h_both : IsTable a b (i + 1) (j + 1) t = next_new y a b (i + 1) j h_old in
      ground (
        arith,
        walk-kept a b (i + 1) (j + 1) h_both,
        walk-kept a (y ∷ b) (i + 1) j h_old,
        walk-kept (x ∷ a) b i (j + 1) h_new,
        entry-lcs a (y ∷ b) (i + 1) j h_old,
        entry-lcs (x ∷ a) b i (j + 1) h_new,
      )

lcs_script-kept : (a b : List Text) → kept (lcs_script a b) ≡ lcs a b
unfolding lcs_script
lcs_script-kept a b = walk-kept (lengths a b) a b 0 0 (lengths-IsTable a b)

-- The script has as few changed lines as can be: any common subsequence of `n` lines leaves at
-- least as many lines to delete and insert.
pub lcs_script-minimal :
    (a b : List Text) (n : ℕ) → Align a b n → changes (lcs_script a b) + 2 * n ≤ length a + length b
lcs_script-minimal a b n s = omega (
  arith,
  Align-le s,
  lcs_script-kept a b,
  changes-kept (lcs_script a b),
  ap length (lcs_script-sides a b).0,
  ap length (lcs_script-sides a b).1,
  length-number 0 a,
  length-number 0 b,
)
