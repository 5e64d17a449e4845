-- ===== src/Diff/Count.antt =====
-- internal/render/diff.go, `hunks`, `buildHunk`, `Stat` and `Diff`: which edits the hunks hold.
use birdy.Common.{
  pos, ℕ, zero, suc, ◌+◌, ◌≤◌, ◌<◌, ◌≡◌, refl, ap, ◌∙◌, sym, inl, inr, Bool, true, false, List, [],
  ◌∷◌, ◌++◌, map, arith, length, get_or, any_of, Bool-cases, concat, append_assoc, append-nil,
}
use birdy.Diff.{Op, Edit}
use birdy.Diff.Hunks.{
  DiffLine, Hunk, is_ins, is_del, changed_flags, keep_flags, kept_prefix, after_prefix, segments,
  empty_hunk, add_edit, build_from, build_hunk, hunks, count_line, stat_lines, stat_from, stat,
}
use birdy.Diff.Context.{keep_flags-near}

abbrev pub line_of : Edit → DiffLine
line_of e = record { op = e.op; text = e.text }

abbrev pub add_if : Bool → ℕ → ℕ
add_if true n = suc n
add_if false n = n

-- The edits of a script whose operation passes a test.
unfoldable pub count_op : (Op → Bool) → List Edit → ℕ
count_op p [] = 0
count_op p (e ∷ es) = add_if (p e.op) (count_op p es)

tally : List Edit → ℕ × ℕ → ℕ × ℕ
tally [] n = n
tally (e ∷ es) n = tally es (count_line e.op n)

tally-count_op :
    (es : List Edit) (p q : ℕ) → tally es (p, q) ≡ (p + count_op is_ins es, q + count_op is_del es)
unfolding tally count_op
tally-count_op [] p q = ground arith
tally-count_op (e ∷ es) p q =
    ground (arith, tally-count_op es p q, tally-count_op es (p + 1) q, tally-count_op es p (q + 1))

tally-append : (xs ys : List Edit) (n : ℕ × ℕ) → tally (xs ++ ys) n ≡ tally ys (tally xs n)
unfolding tally
tally-append [] ys n = refl
tally-append (x ∷ xs) ys n = tally-append xs ys (count_line x.op n)

add_edit-lines : (h : Hunk) (e : Edit) → (add_edit h e).lines ≡ h.lines ++ line_of e ∷ []
unfolding add_edit
add_edit-lines h e = ground arith

pub build_from-lines :
    (h : Hunk) (seg : List Edit) → (build_from h seg).lines ≡ h.lines ++ map line_of seg
unfolding build_from
build_from-lines h [] = sym (append-nil h.lines)
build_from-lines h (e ∷ seg) =
    simp (build_from-lines (add_edit h e) seg, add_edit-lines h e, append_assoc)

stat_lines-tally : (seg : List Edit) (n : ℕ × ℕ) → stat_lines (map line_of seg) n ≡ tally seg n
unfolding stat_lines tally
stat_lines-tally [] n = refl
stat_lines-tally (e ∷ seg) n = stat_lines-tally seg (count_line e.op n)

stat_from-tally :
    (segs : List (List Edit)) (n : ℕ × ℕ)
    → stat_from (map build_hunk segs) n ≡ tally (concat segs) n
unfolding stat_from build_hunk tally
stat_from-tally [] n = refl
stat_from-tally (seg ∷ segs) n =
    simp
      (build_from-lines empty_hunk seg, stat_lines-tally seg n, stat_from-tally segs, tally-append)

-- The edits whose flag is set.
unfoldable pub kept_edits : List Edit → List Bool → List Edit
kept_edits [] keep = []
kept_edits (e ∷ es) [] = []
kept_edits (e ∷ es) (false ∷ keep) = kept_edits es keep
kept_edits (e ∷ es) (true ∷ keep) = e ∷ kept_edits es keep

after : List Edit → List Bool → List Edit
after es keep = kept_edits (after_prefix es keep).0 (after_prefix es keep).1

kept_edits-prefix :
    (es : List Edit) (keep : List Bool) → kept_edits es keep ≡ kept_prefix es keep ++ after es keep
unfolding kept_edits kept_prefix after_prefix after
kept_edits-prefix [] keep = refl
kept_edits-prefix (e ∷ es) [] = refl
kept_edits-prefix (e ∷ es) (false ∷ keep) = refl
kept_edits-prefix (e ∷ es) (true ∷ keep) = ap (λ r. e ∷ r) (kept_edits-prefix es keep)

after_prefix-le : (es : List Edit) (keep : List Bool) → length (after_prefix es keep).0 ≤ length es
unfolding after_prefix
after_prefix-le [] keep = omega arith
after_prefix-le (e ∷ es) [] = omega arith
after_prefix-le (e ∷ es) (false ∷ keep) = omega arith
after_prefix-le (e ∷ es) (true ∷ keep) = omega (arith, after_prefix-le es keep)

-- With fuel for every edit the slices hold all the edits that are kept.
pub concat-segments :
    (n : ℕ) (es : List Edit) (keep : List Bool)
    → length es ≤ n
    → concat (segments n es keep) ≡ kept_edits es keep
unfolding segments kept_edits after
concat-segments zero [] keep h = refl
concat-segments zero (e ∷ es) keep h = absurd (omega arith)
concat-segments (suc n) [] keep h = refl
concat-segments (suc n) (e ∷ es) [] h = refl
concat-segments (suc n) (e ∷ es) (false ∷ keep) h = concat-segments n es keep (omega arith)
concat-segments (suc n) (e ∷ es) (true ∷ keep) h =
    let later =
      concat-segments n (after_prefix es keep).0 (after_prefix es keep).1
        (omega (arith, after_prefix-le es keep)) in
    ap (λ r. e ∷ (kept_prefix es keep ++ r)) later
    ∙ ap (λ r. e ∷ r) (sym (kept_edits-prefix es keep))

pub kept_edits-nil : (es : List Edit) → kept_edits es [] ≡ []
unfolding kept_edits
kept_edits-nil [] = refl
kept_edits-nil (e ∷ es) = refl

-- Every change is kept.
abbrev pub Covers : List Edit → List Bool → Type 0
Covers es keep =
    (j : ℕ) → j < length es → get_or (changed_flags es) j false ≡ true → get_or keep j false ≡ true

tally-kept_edits :
    (es : List Edit) (keep : List Bool) (n : ℕ × ℕ)
    → Covers es keep
    → tally (kept_edits es keep) n ≡ tally es n
unfolding tally kept_edits changed_flags
tally-kept_edits [] keep n h = refl
tally-kept_edits (e ∷ es) [] n h =
    ground
      (arith, tally-kept_edits es [] n (λ j lt. h (suc j) (omega arith)), kept_edits-nil es, h 0)
tally-kept_edits (e ∷ es) (false ∷ keep) n h =
    ground (arith, tally-kept_edits es keep n (λ j lt. h (suc j) (omega arith)), h 0)
tally-kept_edits (e ∷ es) (true ∷ keep) n h =
    tally-kept_edits es keep (count_line e.op n) (λ j lt. h (suc j) (omega arith))

pub keep_flags-Covers :
    (script : List Edit) (context : ℕ) → Covers script (keep_flags script (pos context))
keep_flags-Covers script context j h f =
    (keep_flags-near script context j h).1 (j, f, omega arith, omega arith)

tally_unchanged :
    (es : List Edit) (n : ℕ × ℕ) → any_of (λ c. c) (changed_flags es) ≡ false → tally es n ≡ n
unfolding tally changed_flags
tally_unchanged [] n h = refl
tally_unchanged (e ∷ es) n h = ground (arith, tally_unchanged es n)

-- With any context that is not negative, the hunks of a script count as many added and removed lines as
-- the script inserts and deletes.
pub stat-hunks :
    (script : List Edit) (context : ℕ)
    → stat (hunks script (pos context)) ≡ (count_op is_ins script, count_op is_del script)
unfolding hunks stat
stat-hunks script context = elim (Bool-cases (any_of (λ c. c) (changed_flags script))) [
  | inl some_change ↦ rw some_change (
      stat_from-tally (segments (length script) script (keep_flags script (pos context))) (0, 0)
      ∙ ap (λ es. tally es (0, 0))
          (concat-segments (length script) script (keep_flags script (pos context)) (omega arith))
      ∙ tally-kept_edits script _ (0, 0) (keep_flags-Covers script context)
      ∙ tally-count_op script 0 0
      ∙ ground arith)
  | inr no_change ↦
      rw no_change
        (sym (tally_unchanged script (0, 0) no_change) ∙ tally-count_op script 0 0 ∙ ground arith)
]
