-- ===== src/Common/Strings.antt =====
-- Go's `strings` functions that the modules share, on bytes; white space is that of ASCII.
use Prim.Native.Nat.{ℕ, ◌+◌}
use mathlib.Core.Bool.{Bool, true, false, ◌&&◌, ◌||◌}
use mathlib.Core.List.{List, [], ◌∷◌, ◌++◌, map}
use mathlib.Core.Option.{Option, none, some}
use birdy.Common.Tests.{Text, leb, ◌==◌, if◌then◌else◌}

abbrev pub is_empty : Text → Bool
is_empty [] = true
is_empty (c ∷ s) = false

abbrev pub is_space : ℕ → Bool
is_space c = c == 32 || (leb 9 c && leb c 13)

unfoldable pub trim_left_if : (ℕ → Bool) → Text → Text
trim_left_if p [] = []
trim_left_if p (c ∷ s) = let rest = trim_left_if p s in if p c then rest else c ∷ s

abbrev trimmed_cons : Bool → ℕ → Text → Text
trimmed_cons true c [] = []
trimmed_cons false c [] = c ∷ []
trimmed_cons b c (d ∷ r) = c ∷ d ∷ r

unfoldable pub trim_right_if : (ℕ → Bool) → Text → Text
trim_right_if p [] = []
trim_right_if p (c ∷ s) = trimmed_cons (p c) c (trim_right_if p s)

-- `strings.TrimSpace`
unfoldable pub trim_space : Text → Text
unfolding trim_left_if trim_right_if
trim_space s = trim_right_if is_space (trim_left_if is_space s)

-- `strings.ToLower`
abbrev pub to_lower : Text → Text
to_lower s = map (λ c. if leb 65 c && leb c 90 then c + 32 else c) s

unfoldable pub has_prefix : Text → Text → Bool
has_prefix s [] = true
has_prefix [] (c ∷ p) = false
has_prefix (d ∷ s) (c ∷ p) = d == c && has_prefix s p

-- What follows a prefix, if there is one (`strings.CutPrefix`).
unfoldable pub cut_prefix : Text → Text → Option Text
cut_prefix s [] = some s
cut_prefix [] (c ∷ p) = none
cut_prefix (d ∷ s) (c ∷ p) = let rest = cut_prefix s p in if d == c then rest else none

abbrev or_whole : Text → Option Text → Text
or_whole s none = s
or_whole s (some rest) = rest

-- `strings.TrimPrefix`
unfoldable pub trim_prefix : Text → Text → Text
unfolding cut_prefix
trim_prefix s p = or_whole s (cut_prefix s p)

-- The text before a byte and, if the byte stands in it, the text behind it (`strings.Cut`).
abbrev pub cons_cut : ℕ → Text × Option Text → Text × Option Text
cons_cut c (before, after) = (c ∷ before, after)

unfoldable pub cut : ℕ → Text → Text × Option Text
cut d [] = ([], none)
cut d (c ∷ s) = let rest = cut d s in if c == d then ([], some s) else cons_cut c rest

abbrev pub cons_first : ℕ → List Text → List Text
cons_first c [] = (c ∷ []) ∷ []
cons_first c (p ∷ ps) = (c ∷ p) ∷ ps

-- `strings.Split` at a byte.
unfoldable pub split_on : ℕ → Text → List Text
split_on d [] = [] ∷ []
split_on d (c ∷ s) = let rest = split_on d s in if c == d then [] ∷ rest else cons_first c rest

abbrev pub nonempty : List Text → List Text
nonempty [] = []
nonempty ([] ∷ ps) = ps
nonempty ((c ∷ p) ∷ ps) = (c ∷ p) ∷ ps

-- Splits at each space: the first item is what stands before the first space, maybe nothing.
unfoldable pub fields_from : Text → List Text
fields_from [] = [] ∷ []
fields_from (c ∷ s) =
    let rest = fields_from s in if is_space c then [] ∷ nonempty rest else cons_first c rest

-- `strings.Fields`
unfoldable pub fields : Text → List Text
unfolding fields_from
fields s = nonempty (fields_from s)

-- `strings.Join`
unfoldable pub join : Text → List Text → Text
join sep [] = []
join sep (s ∷ []) = s
join sep (s ∷ t ∷ ts) = s ++ (sep ++ join sep (t ∷ ts))
