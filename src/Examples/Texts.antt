-- ===== src/Examples/Texts.antt =====
-- internal/render/diff.go and internal/render/files.go on texts of a few lines.
use birdy.Common.{map, ◌+◌, ◌*◌, ◌≤◌, ◌<◌, List, [], ◌∷◌, Text, codes, pos, ◌≡◌, ◌↔◌, arith, length}
use birdy.Diff.{same, del, ins, Edit, split_lines, lcs_script}
use birdy.Diff.Lcs.{Align, done, pair, skip_old, skip_new}
use birdy.Diff.Script.{old_side, new_side, number, lcs_script-sides}
use birdy.Diff.Optimal.{changes, lcs_script-minimal}
use birdy.Diff.Hunks.{is_ins, is_del, hunks, stat, diff}
use birdy.Diff.Count.{count_op, line_of}
use birdy.Diff.Shown.{shown, changed_edits, hunks-changes}
use birdy.Diff.Empty.{diff-nil_iff}
use birdy.Files.{Section}
use birdy.Diff.Sections.{section_script, section_diff}
use birdy.Diff.Attribution.{total_added, total_removed, section_diff-total}

abbrev old_lines : List Text
old_lines = codes "a" ∷ codes "b" ∷ codes "c" ∷ []

abbrev new_lines : List Text
new_lines = codes "a" ∷ codes "x" ∷ codes "c" ∷ []

abbrev script : List Edit
script =
    record { op = same; text = codes "a"; old_line = 1; new_line = 1 }
    ∷ record { op = del; text = codes "b"; old_line = 2; new_line = 0 }
    ∷ record { op = ins; text = codes "x"; old_line = 0; new_line = 2 }
    ∷ []

lcs_script-sides_example :
    (old_side (lcs_script old_lines new_lines) ≡ number 0 old_lines)
    × (new_side (lcs_script old_lines new_lines) ≡ number 0 new_lines)
lcs_script-sides_example = lcs_script-sides old_lines new_lines

common : Align old_lines new_lines 2
common = pair (codes "a") (skip_old (codes "b") (skip_new (codes "x") (pair (codes "c") done)))

lcs_script-minimal_example :
    changes (lcs_script old_lines new_lines) + 2 * 2 ≤ length old_lines + length new_lines
lcs_script-minimal_example = lcs_script-minimal old_lines new_lines 2 common

hunks-changes_example :
    (shown (hunks script (pos 0)) ≡ map line_of (changed_edits script))
    × (stat (hunks script (pos 0)) ≡ (count_op is_ins script, count_op is_del script))
hunks-changes_example = hunks-changes script 0

diff-nil_iff_example :
    (diff (codes "a") (codes "b") (pos 3) ≡ [])
    ↔ (split_lines (codes "a") ≡ split_lines (codes "b"))
diff-nil_iff_example = diff-nil_iff (codes "a") (codes "b") (pos 3)

abbrev sections : List Section
sections = record { path = codes "global"; title = codes "Global"; body = codes "a" } ∷ []

some_section : 0 < length sections
some_section = omega arith

section_diff-total_example :
    (total_added (section_diff (codes "b") sections (pos 3))
      ≡ count_op is_ins (section_script (codes "b") sections))
    × (total_removed (section_diff (codes "b") sections (pos 3))
        ≡ count_op is_del (section_script (codes "b") sections))
section_diff-total_example = section_diff-total (codes "b") sections 3 some_section
