-- ===== src/Diff/Shown.antt =====
-- internal/render/diff.go, `hunks`: the hunks show the changes of the script.
use birdy.Common.{
  ℕ, suc, ◌≡◌, refl, ap, ◌∙◌, sym, inl, inr, Bool, true, false, List, [], ◌∷◌, ◌++◌, map, arith,
  length, any_of, Bool-cases, concat, keep_if, keep_if-append, pos,
}
use birdy.Diff.{Edit}
use birdy.Diff.Hunks.{
  DiffLine, Hunk, is_change, is_ins, is_del, changed_flags, keep_flags, segments, empty_hunk,
  build_hunk, hunks, stat,
}
use birdy.Diff.Count.{
  line_of, count_op, build_from-lines, kept_edits, kept_edits-nil, concat-segments, Covers,
  keep_flags-Covers, stat-hunks,
}

abbrev pub changed_edits : List Edit → List Edit
changed_edits es = keep_if (λ (e : Edit). is_change e.op) es

-- The added and removed lines that the hunks show.
abbrev pub shown : List Hunk → List DiffLine
shown hs = concat (map (λ (h : Hunk). keep_if (λ (l : DiffLine). is_change l.op) h.lines) hs)

keep_if-line_of :
    (es : List Edit)
    → keep_if (λ (l : DiffLine). is_change l.op) (map line_of es) ≡ map line_of (changed_edits es)
keep_if-line_of [] = refl
keep_if-line_of (e ∷ es) = elim (Bool-cases (is_change e.op)) [
  | inl h ↦ rw (h, keep_if) (ap (λ r. line_of e ∷ r) (keep_if-line_of es))
  | inr h ↦ rw (h, keep_if) (keep_if-line_of es)
]

map_append : (xs ys : List Edit) → map line_of (xs ++ ys) ≡ map line_of xs ++ map line_of ys
map_append [] ys = refl
map_append (x ∷ xs) ys = ap (λ r. line_of x ∷ r) (map_append xs ys)

shown-segments :
    (segs : List (List Edit))
    → shown (map build_hunk segs) ≡ map line_of (changed_edits (concat segs))
unfolding build_hunk
shown-segments [] = refl
shown-segments (seg ∷ segs) =
    ap (λ ls. keep_if (λ (l : DiffLine). is_change l.op) ls ++ shown (map build_hunk segs))
      (build_from-lines empty_hunk seg)
    ∙ ap (λ r. r ++ shown (map build_hunk segs)) (keep_if-line_of seg)
    ∙ ap (λ r. map line_of (changed_edits seg) ++ r) (shown-segments segs)
    ∙ sym (map_append (changed_edits seg) (changed_edits (concat segs)))
    ∙ ap (map line_of) (sym (keep_if-append (λ (e : Edit). is_change e.op) seg (concat segs)))

changed_edits-kept :
    (es : List Edit) (keep : List Bool)
    → Covers es keep
    → changed_edits (kept_edits es keep) ≡ changed_edits es
unfolding kept_edits changed_flags
changed_edits-kept [] keep h = refl
changed_edits-kept (e ∷ es) [] h = elim (Bool-cases (is_change e.op)) [
  | inl c ↦ absurd (ground (arith, h 0 (omega arith) c))
  | inr c ↦
      rw (c, keep_if)
        (ap changed_edits (sym (kept_edits-nil es))
          ∙ changed_edits-kept es [] (λ j lt. h (suc j) (omega arith)))
]
changed_edits-kept (e ∷ es) (false ∷ keep) h = elim (Bool-cases (is_change e.op)) [
  | inl c ↦ absurd (ground (arith, h 0 (omega arith) c))
  | inr c ↦ rw (c, keep_if) (changed_edits-kept es keep (λ j lt. h (suc j) (omega arith)))
]
changed_edits-kept (e ∷ es) (true ∷ keep) h = elim (Bool-cases (is_change e.op)) [
  | inl c ↦
      rw (c, keep_if)
        (ap (λ r. e ∷ r) (changed_edits-kept es keep (λ j lt. h (suc j) (omega arith))))
  | inr c ↦ rw (c, keep_if) (changed_edits-kept es keep (λ j lt. h (suc j) (omega arith)))
]

changed_edits-none :
    (es : List Edit) → any_of (λ c. c) (changed_flags es) ≡ false → changed_edits es ≡ []
unfolding changed_flags
changed_edits-none [] h = refl
changed_edits-none (e ∷ es) h = elim (Bool-cases (is_change e.op)) [
  | inl c ↦ absurd (ground (arith, h, c))
  | inr c ↦ rw (c, keep_if) (changed_edits-none es (ground (arith, h, c)))
]

-- With any context that is not negative, the added and removed lines that the hunks show are those of the
-- script, in its order and each as often as there, and `Stat` counts as many as the script has.
pub hunks-changes :
    (script : List Edit) (context : ℕ)
    → (shown (hunks script (pos context)) ≡ map line_of (changed_edits script))
      × (stat (hunks script (pos context)) ≡ (count_op is_ins script, count_op is_del script))
unfolding hunks
hunks-changes script context = (
  elim (Bool-cases (any_of (λ c. c) (changed_flags script))) [
    | inl some_change ↦ rw some_change (
        shown-segments (segments (length script) script (keep_flags script (pos context)))
        ∙ ap (λ es. map line_of (changed_edits es))
            (concat-segments (length script) script (keep_flags script (pos context)) (omega arith))
        ∙ ap (map line_of) (changed_edits-kept script _ (keep_flags-Covers script context)))
    | inr no_change ↦ rw no_change (ap (map line_of) (sym (changed_edits-none script no_change)))
  ],
  stat-hunks script context,
)
