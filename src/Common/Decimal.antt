-- ===== src/Common/Decimal.antt =====
-- `strconv.Atoi` reads what `strconv.Itoa` writes.
use Prim.Native.Nat.{ℕ, zero, suc, ◌+◌, ◌-◌, ◌*◌, ◌/◌, ◌%◌, ◌≤◌, ◌<◌}
use mathlib.Core.Path.{◌≡◌, refl, ap, ◌∙◌, sym}
use mathlib.Core.Logic.{◌≢◌, inl, inr}
use mathlib.Core.Bool.{true, false, ◌&&◌}
use mathlib.Core.List.{[], ◌∷◌, ◌++◌}
use mathlib.Core.Option.{Option, none, some}
use native.Mathlib.Omega.{arith}
use birdy.Common.Tests.{Text, pos, ltb, leb, Bool-cases}
use birdy.Common.Numbers.{max_int, digits, itoa, digits_value, atoi}

next_digit : Option ℕ → ℕ → Option ℕ
next_digit none d = none
next_digit (some v) d = some (v * 10 + d)

digits_value-snoc :
    (acc : ℕ) (s : Text) (d : ℕ)
    → d < 10
    → digits_value acc (s ++ (48 + d) ∷ []) ≡ next_digit (digits_value acc s) d
unfolding digits_value next_digit
digits_value-snoc acc [] d h = ground (arith, h)
digits_value-snoc acc (c ∷ s) d h = ground (arith, digits_value-snoc (acc * 10 + (c - 48)) s d h)

-- The number that the fuel leaves room for.
room : ℕ → ℕ
room zero = 1
room (suc f) = room f * 10

digits_below : (f n : ℕ) → ltb n 10 ≡ true → digits (suc f) n ≡ (48 + n) ∷ []
unfolding digits
digits_below f n e = ground (arith, e)

digits_above :
    (f n : ℕ) → ltb n 10 ≡ false → digits (suc f) n ≡ digits f (n / 10) ++ (48 + n % 10) ∷ []
unfolding digits
digits_above f n e = ground (arith, e)

one_digit : (n : ℕ) → n < 10 → digits_value 0 ((48 + n) ∷ []) ≡ some n
unfolding digits_value
one_digit n h = ground (arith, h)

in_room : (n : ℕ) → n ≤ max_int → n < room 20
unfolding room
in_room n h = omega (arith, h)

digits_value-digits : (f n : ℕ) → n < room (suc f) → digits_value 0 (digits (suc f) n) ≡ some n
unfolding room next_digit
digits_value-digits zero n h =
    ap (digits_value 0) (digits_below zero n (ground (arith, h))) ∙ one_digit n (omega (arith, h))
digits_value-digits (suc f) n h = elim (Bool-cases (ltb n 10)) [
  | inl e ↦ ap (digits_value 0) (digits_below (suc f) n e) ∙ one_digit n (ground (arith, e))
  | inr e ↦
      ap (digits_value 0) (digits_above (suc f) n e)
      ∙ digits_value-snoc 0 (digits (suc f) (n / 10)) (n % 10) (omega arith)
      ∙ ap (λ o. next_digit o (n % 10)) (digits_value-digits f (n / 10) (omega (arith, h)))
      ∙ rest n
]
  where
    rest : (n : ℕ) → next_digit (some (n / 10)) (n % 10) ≡ some n
    rest n = ap some (omega arith)

snoc_not_empty : (s : Text) (c : ℕ) → s ++ c ∷ [] ≢ []
snoc_not_empty [] c h = cc
snoc_not_empty (d ∷ s) c h = cc

digits_not_empty : (f n : ℕ) → digits (suc f) n ≢ []
digits_not_empty f n h = elim (Bool-cases (ltb n 10)) [
  | inl e ↦ cc (digits_below f n e)
  | inr e ↦ snoc_not_empty (digits f (n / 10)) (48 + n % 10) (sym (digits_above f n e) ∙ h)
]

atoi-digits_value :
    (s : Text) (v : ℕ) → s ≢ [] → digits_value 0 s ≡ some v → v ≤ max_int → atoi s ≡ (pos v, true)
unfolding atoi digits_value
atoi-digits_value [] v n e h = absurd (n refl)
atoi-digits_value (c ∷ s) v n e h = elim (Bool-cases (leb 48 c && leb c 57)) [
  | inl d ↦ ground (arith, d, e, h, sym e)
  | inr d ↦ ground (arith, d, e)
]

-- Every `int` that is not negative is read back.
pub atoi-itoa : (n : ℕ) → n ≤ max_int → atoi (itoa n) ≡ (pos n, true)
unfolding itoa
atoi-itoa n h =
    atoi-digits_value (digits 20 n) n (digits_not_empty 19 n)
      (digits_value-digits 19 n (in_room n h)) h
