-- ===== src/Diff.antt =====
-- internal/render/diff.go: the edit script of two lists of lines, from a table of longest common
-- subsequences, and the hunks of a unified diff. The table has a row for each suffix of `a` and in
-- it an entry for each suffix of `b`, as in `lcsScript`; a line is the list of its bytes.
pub mod Lcs
pub mod Script
pub mod Optimal
pub mod Hunks
pub mod Context
pub mod Count
pub mod Shown
pub mod Empty
pub mod Sections
pub mod Attribution
use birdy.Common.{
  ℕ, zero, suc, ◌+◌, ◌-◌, max, min, Bool, true, false, not, ◌&&◌, List, [], ◌∷◌, ◌++◌, ◌==◌, leb,
  ltb, if◌then◌else◌, length, get_or, Text, text_eq, any_of, map,
}

pub data Op : Type 0 where
  same del ins : Op

pub record Edit : Type 0 where
  pub op : Op
  pub text : Text
  pub old_line : ℕ
  pub new_line : ℕ

-- Splitting text into lines.

-- `strings.ReplaceAll(s, "\r\n", "\n")`
pub unix_newlines : Text → Text
unix_newlines [] = []
unix_newlines (c ∷ []) = c ∷ []
unix_newlines (c ∷ d ∷ s) =
    let rest = unix_newlines (d ∷ s) in if c == 13 && d == 10 then rest else c ∷ rest

-- `strings.TrimSuffix(s, "\n")`
trim_newline : Text → Text
trim_newline [] = []
trim_newline (c ∷ []) = if c == 10 then [] else c ∷ []
trim_newline (c ∷ d ∷ s) = c ∷ trim_newline (d ∷ s)

abbrev cons_head : ℕ → List Text → List Text
cons_head c [] = (c ∷ []) ∷ []
cons_head c (l ∷ ls) = (c ∷ l) ∷ ls

-- `strings.Split(s, "\n")`
split_newlines : Text → List Text
split_newlines [] = [] ∷ []
split_newlines (c ∷ s) =
    let rest = split_newlines s in if c == 10 then [] ∷ rest else cons_head c rest

pub split_lines : Text → List Text
unfolding unix_newlines trim_newline split_newlines
split_lines [] = []
split_lines (c ∷ s) = split_newlines (trim_newline (unix_newlines (c ∷ s)))

-- The table.

abbrev pub tail_row : List ℕ → List ℕ
tail_row [] = []
tail_row (v ∷ row) = row

-- Row `i`, from `a[i]`, `b` and row `i + 1`.
pub fill_row : Text → List Text → List ℕ → List ℕ
fill_row x [] below = 0 ∷ []
fill_row x (y ∷ b) below =
    let right = fill_row x b (tail_row below) in
    (if text_eq x y then get_or below 1 0 + 1 else max (get_or below 0 0) (get_or right 0 0))
    ∷ right

pub zero_row : List Text → List ℕ
zero_row [] = 0 ∷ []
zero_row (y ∷ b) = 0 ∷ zero_row b

abbrev head_row : List (List ℕ) → List ℕ
head_row t = get_or t 0 []

-- `lengths`, filled from the last row up.
pub lengths : List Text → List Text → List (List ℕ)
unfolding fill_row zero_row
lengths [] b = zero_row b ∷ []
lengths (x ∷ a) b = let t = lengths a b in fill_row x b (head_row t) ∷ t

abbrev pub entry : List (List ℕ) → ℕ → ℕ → ℕ
entry t i j = get_or (get_or t i []) j 0

abbrev same_edit : Text → ℕ → ℕ → Edit
same_edit x i j = record { op = same; text = x; old_line = i + 1; new_line = j + 1 }

abbrev del_edit : Text → ℕ → Edit
del_edit x i = record { op = del; text = x; old_line = i + 1; new_line = 0 }

abbrev ins_edit : Text → ℕ → Edit
ins_edit y j = record { op = ins; text = y; old_line = 0; new_line = j + 1 }

-- The three loops of `lcsScript` over `i` and `j`; `a` and `b` are `a[i:]` and `b[j:]`.
pub walk : List (List ℕ) → List Text → List Text → ℕ → ℕ → List Edit
walk t [] [] i j = []
walk t [] (y ∷ b) i j = ins_edit y j ∷ walk t [] b i (j + 1)
walk t (x ∷ a) [] i j = del_edit x i ∷ walk t a [] (i + 1) j
walk t (x ∷ a) (y ∷ b) i j = elim (text_eq x y) [
  | true ↦ same_edit x i j ∷ walk t a b (i + 1) (j + 1)
  | false ↦ elim (leb (entry t i (j + 1)) (entry t (i + 1) j)) [
    | true ↦ del_edit x i ∷ walk t a (y ∷ b) (i + 1) j
    | false ↦ ins_edit y j ∷ walk t (x ∷ a) b i (j + 1)
  ]
]

pub lcs_script : List Text → List Text → List Edit
unfolding lengths walk
lcs_script a b = walk (lengths a b) a b 0 0
