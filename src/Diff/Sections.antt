-- ===== src/Diff/Sections.antt =====
-- internal/render/diff.go, `SectionDiff`: the script of the whole config, each edit charged to a
-- section. The sections come in as a list, which `Sections` of render.go makes.
use birdy.Common.{
  ℕ, ◌+◌, ◌-◌, Bool, not, ◌&&◌, List, [], ◌∷◌, ◌++◌, ◌==◌, ltb, if◌then◌else◌, length, get_or, set,
  replicate, Text, ℤ, concat, map, any_of,
}
use birdy.Files.{Section, include_file_name}
use birdy.Diff.{Edit, unix_newlines, split_lines, lcs_script}
use birdy.Diff.Hunks.{Hunk, is_change, hunks, stat}

pub data Status : Type 0 where
  unchanged added removed modified : Status

pub record FileChange : Type 0 where
  pub path : Text
  pub file : Text
  pub title : Text
  pub status : Status
  pub added : ℕ
  pub removed : ℕ
  pub hunks : List Hunk

-- `strings.Count(s, "\n")`
count_newlines : Text → ℕ
count_newlines [] = 0
count_newlines (c ∷ s) = (if c == 10 then 1 else 0) + count_newlines s

-- The section that owns each line of the candidate.
unfoldable pub line_owners : ℕ → List Section → List ℕ
unfolding count_newlines unix_newlines
line_owners si [] = []
line_owners si (s ∷ secs) =
    replicate (count_newlines (unix_newlines s.body)) si ++ line_owners (si + 1) secs

-- Lines past the last newline go to the last section.
unfoldable pub pad_owners : ℕ → ℕ → List ℕ → List ℕ
pad_owners secs lines owners =
    if ltb 0 secs then owners ++ replicate (lines - length owners) (secs - 1) else owners

unfoldable pub owner_of : List ℕ → ℕ → Edit → ℕ
owner_of owners cur e =
    if ltb 0 e.new_line && ltb (e.new_line - 1) (length owners)
    then get_or owners (e.new_line - 1) 0
    else cur

unfoldable pub charge : List (List Edit) → ℕ → Edit → List (List Edit)
charge per_sec si e =
    if ltb si (length per_sec) then set per_sec si (get_or per_sec si [] ++ e ∷ []) else per_sec

-- The loop over the script: `cur` is the owner of the last line of the candidate.
unfoldable pub attribute : List ℕ → ℕ → List (List Edit) → List Edit → List (List Edit)
unfolding owner_of charge
attribute owners cur per_sec [] = per_sec
attribute owners cur per_sec (e ∷ es) =
    let si = owner_of owners cur e in attribute owners si (charge per_sec si e) es

status_of : ℕ → ℕ → Bool → Status
status_of plus minus has_equal =
    if plus == 0 && minus == 0
    then unchanged
    else if minus == 0 && not has_equal
    then added
    else if plus == 0 && not has_equal
    then removed
    else modified

-- An edit of the slice is an unchanged line.
abbrev has_same : List Edit → Bool
has_same = any_of (λ (e : Edit). not (is_change e.op))

unfoldable pub file_change : ℤ → Section → List Edit → FileChange
unfolding status_of
file_change context s seg =
    let hs = hunks seg context in
    let n = stat hs in
    record {
      path = s.path;
      file = include_file_name s.path;
      title = s.title;
      status = status_of n.0 n.1 (has_same seg);
      added = n.0;
      removed = n.1;
      hunks = hs;
    }

unfoldable pub file_changes : ℤ → List Section → List (List Edit) → List FileChange
unfolding file_change
file_changes context [] segs = []
file_changes context (s ∷ secs) [] = []
file_changes context (s ∷ secs) (seg ∷ segs) =
    file_change context s seg ∷ file_changes context secs segs

abbrev candidate : List Section → Text
candidate secs = concat (map (λ (s : Section). s.body) secs)

pub section_script : Text → List Section → List Edit
unfolding split_lines lcs_script
section_script old secs = lcs_script (split_lines old) (split_lines (candidate secs))

-- `SectionDiff`
unfoldable pub section_diff : Text → List Section → ℤ → List FileChange
unfolding section_script line_owners pad_owners attribute file_changes
section_diff old secs context =
    let owners =
      pad_owners (length secs) (length (split_lines (candidate secs))) (line_owners 0 secs) in
    file_changes context secs
      (attribute owners 0 (replicate (length secs) []) (section_script old secs))
