-- ===== src/Diff/Hunks.antt =====
-- internal/render/diff.go, `hunks`, `buildHunk`, `Stat` and `Diff`. A slice of the script is the
-- list of its edits; `keep` is a list of flags beside the script.
use birdy.Common.{
  ℕ, zero, suc, ◌+◌, ◌-◌, min, Bool, true, false, List, [], ◌∷◌, ◌++◌, ◌==◌, if◌then◌else◌, length,
  Text, text_eq, any_of, map, ℤ, pos, negsuc, set, replicate,
}
use birdy.Diff.{Op, same, del, ins, Edit, split_lines, lcs_script}

pub record DiffLine : Type 0 where
  pub op : Op
  pub text : Text

pub record Hunk : Type 0 where
  pub old_start : ℕ
  pub old_count : ℕ
  pub new_start : ℕ
  pub new_count : ℕ
  pub lines : List DiffLine

abbrev pub is_change : Op → Bool
is_change same = false
is_change del = true
is_change ins = true

unfoldable pub changed_flags : List Edit → List Bool
changed_flags [] = []
changed_flags (e ∷ es) = is_change e.op ∷ changed_flags es

-- `for j := lo; j < lo+n; j++ { keep[j] = true }`
unfoldable pub mark_range : ℕ → ℕ → List Bool → List Bool
mark_range zero lo keep = keep
mark_range (suc n) lo keep = mark_range n (lo + 1) (set keep lo true)

-- The loop over `changed`, at index `i` of a script of `len` edits. The bounds of the inner loop
-- are `max(0, i-context)` and `min(len-1, i+context)`.
unfoldable pub mark_context : ℕ → ℕ → ℕ → List Bool → List Bool → List Bool
mark_context len context i [] keep = keep
mark_context len context i (c ∷ changed) keep =
    let lo = i - context in
    let hi = min (len - 1) (i + context) in
    mark_context len context (i + 1) changed (if c then mark_range (hi + 1 - lo) lo keep else keep)

-- With a negative context, `i-context` lies past `i+context`, so that no line is marked.
unfoldable pub keep_flags : List Edit → ℤ → List Bool
unfolding changed_flags mark_range mark_context
keep_flags script (pos context) =
    mark_context (length script) context 0 (changed_flags script) (replicate (length script) false)
keep_flags script (negsuc n) = replicate (length script) false

-- The edits that the inner loop of the grouping passes, and those that it leaves.
unfoldable pub kept_prefix : List Edit → List Bool → List Edit
kept_prefix [] keep = []
kept_prefix (e ∷ es) [] = []
kept_prefix (e ∷ es) (false ∷ keep) = []
kept_prefix (e ∷ es) (true ∷ keep) = e ∷ kept_prefix es keep

unfoldable pub after_prefix : List Edit → List Bool → List Edit × List Bool
after_prefix [] keep = ([], keep)
after_prefix (e ∷ es) [] = (e ∷ es, [])
after_prefix (e ∷ es) (false ∷ keep) = (e ∷ es, false ∷ keep)
after_prefix (e ∷ es) (true ∷ keep) = after_prefix es keep

-- The slices `script[i:j]`. Each round of the outer loop passes an edit, so the length of the
-- script is fuel enough.
unfoldable pub segments : ℕ → List Edit → List Bool → List (List Edit)
unfolding kept_prefix after_prefix
segments zero es keep = []
segments (suc n) [] keep = []
segments (suc n) (e ∷ es) [] = []
segments (suc n) (e ∷ es) (false ∷ keep) = segments n es keep
segments (suc n) (e ∷ es) (true ∷ keep) =
    let (es', keep') = after_prefix es keep in (e ∷ kept_prefix es keep) ∷ segments n es' keep'

abbrev pub empty_hunk : Hunk
empty_hunk = record { old_start = 0; old_count = 0; new_start = 0; new_count = 0; lines = [] }

abbrev pub is_ins : Op → Bool
is_ins ins = true
is_ins _ = false

abbrev pub is_del : Op → Bool
is_del del = true
is_del _ = false

-- The body of the loop of `buildHunk`.
unfoldable pub add_edit : Hunk → Edit → Hunk
add_edit h e =
    let h1 = record h { lines = h.lines ++ record { op = e.op; text = e.text } ∷ [] } in
    let h2 = if is_ins e.op then h1 else record h1 {
      old_start = (if h1.old_start == 0 then e.old_line else h1.old_start);
      old_count = h1.old_count + 1;
    } in
    if is_del e.op then h2 else record h2 {
      new_start = (if h2.new_start == 0 then e.new_line else h2.new_start);
      new_count = h2.new_count + 1;
    }

unfoldable pub build_from : Hunk → List Edit → Hunk
unfolding add_edit
build_from h [] = h
build_from h (e ∷ seg) = build_from (add_edit h e) seg

unfoldable pub build_hunk : List Edit → Hunk
unfolding build_from
build_hunk seg = build_from empty_hunk seg

unfoldable pub hunks : List Edit → ℤ → List Hunk
unfolding keep_flags segments build_hunk
hunks script context =
    if any_of (λ c. c) (changed_flags script)
    then map build_hunk (segments (length script) script (keep_flags script context))
    else []

-- `Stat`: the added and removed lines of all hunks.
abbrev pub count_line : Op → ℕ × ℕ → ℕ × ℕ
count_line ins (added, removed) = (added + 1, removed)
count_line del (added, removed) = (added, removed + 1)
count_line same n = n

unfoldable pub stat_lines : List DiffLine → ℕ × ℕ → ℕ × ℕ
stat_lines [] n = n
stat_lines (l ∷ ls) n = stat_lines ls (count_line l.op n)

unfoldable pub stat_from : List Hunk → ℕ × ℕ → ℕ × ℕ
unfolding stat_lines
stat_from [] n = n
stat_from (h ∷ hs) n = stat_from hs (stat_lines h.lines n)

unfoldable pub stat : List Hunk → ℕ × ℕ
unfolding stat_from
stat hs = stat_from hs (0, 0)

abbrev pub clamp : ℤ → ℕ
clamp (pos n) = n
clamp (negsuc n) = 0

-- `Diff`
unfoldable pub diff : Text → Text → ℤ → List Hunk
unfolding split_lines lcs_script hunks
diff old new context =
    if text_eq old new
    then []
    else hunks (lcs_script (split_lines old) (split_lines new)) (pos (clamp context))
