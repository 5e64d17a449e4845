-- ===== src/Common/Numbers.antt =====
-- Go's `strconv.Itoa` and `strconv.Atoi`, on bytes, with the 64-bit `int`.
use Prim.Native.Nat.{ℕ, zero, suc, ◌+◌, ◌-◌, ◌*◌, ◌/◌, ◌%◌}
use mathlib.Core.Bool.{Bool, true, false, ◌&&◌}
use mathlib.Core.List.{[], ◌∷◌, ◌++◌}
use mathlib.Core.Option.{Option, none, some}
use birdy.Common.Tests.{Text, ℤ, pos, negsuc, ltb, leb, ◌==◌, if◌then◌else◌}

abbrev pub max_int : ℕ
max_int = 9223372036854775807

-- The last digits of a number; the fuel bounds their count.
unfoldable pub digits : ℕ → ℕ → Text
digits zero n = []
digits (suc fuel) n = elim (ltb n 10) [
  | true ↦ (48 + n) ∷ []
  | false ↦ digits fuel (n / 10) ++ (48 + n % 10) ∷ []
]

-- An `int` has 19 digits at most.
unfoldable pub itoa : ℕ → Text
unfolding digits
itoa n = digits 20 n

unfoldable pub digits_value : ℕ → Text → Option ℕ
digits_value acc [] = some acc
digits_value acc (c ∷ s) =
    let rest = digits_value (acc * 10 + (c - 48)) s in if leb 48 c && leb c 57 then rest else none

-- The value, and whether it came without an error: on a syntax error the value is 0, and out of range
-- it is the nearest `int`.
abbrev pub Atoi : Type 0
Atoi = ℤ × Bool

abbrev pub minus : ℕ → ℤ
minus zero = pos 0
minus (suc n) = negsuc n

abbrev pub in_range : Bool → Option ℕ → Atoi
in_range negative none = (pos 0, false)
in_range false (some v) = if leb v max_int then (pos v, true) else (pos max_int, false)
in_range true (some v) = if leb v (max_int + 1) then (minus v, true) else (negsuc max_int, false)

abbrev pub unsigned : Text → Option ℕ
unsigned [] = none
unsigned (c ∷ s) = digits_value 0 (c ∷ s)

unfoldable pub atoi : Text → Atoi
unfolding digits_value
atoi [] = (pos 0, false)
atoi (c ∷ s) =
    if c == b'-'
    then in_range true (unsigned s)
    else (if c == b'+' then in_range false (unsigned s) else in_range false (unsigned (c ∷ s)))
