-- ===== src/Diff/Empty.antt =====
-- internal/render/diff.go, `Diff` and `Hunk`: when the result is empty, and what a header counts.
use birdy.Common.{
  pos, ℕ, ◌+◌, ◌<◌, ◌≡◌, refl, ap, ◌∙◌, sym, ◌↔◌, inl, inr, false, List, [], ◌∷◌, arith,
  if◌then◌else◌, length, any_of, Bool-cases, Text, text_eq, text_eq_sound, ℤ, All, ◌==◌,
}
use birdy.Diff.{Edit, split_lines, lcs_script}
use birdy.Diff.Hunks.{
  Hunk, is_ins, is_del, changed_flags, empty_hunk, add_edit, build_from, build_hunk, hunks, stat,
  diff, clamp,
}
use birdy.Diff.Count.{count_op, stat-hunks}
use birdy.Diff.Lcs.{Align, done, pair}
use birdy.Diff.Script.{old_side, new_side, number, lcs_script-sides}
use birdy.Diff.Optimal.{changes, lcs_script-minimal}

changes-count_op : (es : List Edit) → changes es ≡ count_op is_ins es + count_op is_del es
unfolding changes count_op
changes-count_op [] = omega arith
changes-count_op (e ∷ es) = ground (arith, changes-count_op es)

abbrev texts : List (Text × ℕ) → List Text
texts [] = []
texts ((x, i) ∷ ls) = x ∷ texts ls

texts-number : (i : ℕ) (a : List Text) → texts (number i a) ≡ a
unfolding number
texts-number i [] = refl
texts-number i (x ∷ a) = ap (λ r. x ∷ r) (texts-number (i + 1) a)

texts_unchanged : (es : List Edit) → changes es ≡ 0 → texts (old_side es) ≡ texts (new_side es)
unfolding changes old_side new_side
texts_unchanged [] h = refl
texts_unchanged (e ∷ es) h = ground (arith, texts_unchanged es)

any_of-changes : (es : List Edit) → changes es ≡ 0 → any_of (λ c. c) (changed_flags es) ≡ false
unfolding changes changed_flags
any_of-changes [] h = refl
any_of-changes (e ∷ es) h = ground (arith, any_of-changes es)

Align-self : (a : List Text) → Align a a (length a)
Align-self [] = done
Align-self (x ∷ a) = pair x (Align-self a)

changes_self : (a : List Text) → changes (lcs_script a a) ≡ 0
changes_self a = omega (arith, lcs_script-minimal a a (length a) (Align-self a))

hunks-nil : (es : List Edit) (context : ℕ) → hunks es (pos context) ≡ [] → changes es ≡ 0
unfolding stat
hunks-nil es context h = ground (arith, changes-count_op es, stat-hunks es context, ap stat h)

script_unchanged : (a b : List Text) → changes (lcs_script a b) ≡ 0 → a ≡ b
script_unchanged a b h =
    sym (texts-number 0 a)
    ∙ ap texts (sym (lcs_script-sides a b).0)
    ∙ texts_unchanged (lcs_script a b) h
    ∙ ap texts (lcs_script-sides a b).1
    ∙ texts-number 0 b

hunks_self : (a b : List Text) (context : ℕ) → a ≡ b → hunks (lcs_script a b) (pos context) ≡ []
unfolding hunks
hunks_self a b context e = rw e (rw (any_of-changes (lcs_script b b) (changes_self b)))

-- `Diff` is empty exactly when the two texts have the same lines, whatever the context.
pub diff-nil_iff :
    (old new : Text) (context : ℤ)
    → (diff old new context ≡ []) ↔ (split_lines old ≡ split_lines new)
unfolding diff
diff-nil_iff old new context = elim (Bool-cases (text_eq old new)) [
  | inl eq ↦ rw eq (λ _. ap split_lines (text_eq_sound old new eq), λ _. refl)
  | inr ne ↦ rw ne (
    λ h. script_unchanged _ _ (hunks-nil _ _ h),
    hunks_self (split_lines old) (split_lines new) (clamp context),
  )
]

-- The numbers that an edit carries are those of real lines.
abbrev IsNumbered : Edit → Type 0
IsNumbered e = (is_ins e.op ≡ false → 0 < e.old_line) × (is_del e.op ≡ false → 0 < e.new_line)

abbrev pub first_line : List (Text × ℕ) → ℕ
first_line [] = 0
first_line ((x, i) ∷ ls) = i

abbrev start : ℕ → List (Text × ℕ) → ℕ
start n ls = if n == 0 then first_line ls else n

build_from-old :
    (h : Hunk) (seg : List Edit)
    → All IsNumbered seg
    → ((build_from h seg).old_start ≡ start h.old_start (old_side seg))
      × ((build_from h seg).old_count ≡ h.old_count + length (old_side seg))
unfolding build_from old_side add_edit
build_from-old h [] all = ground arith
build_from-old h (e ∷ seg) all = ground (arith, build_from-old (add_edit h e) seg)

build_from-new :
    (h : Hunk) (seg : List Edit)
    → All IsNumbered seg
    → ((build_from h seg).new_start ≡ start h.new_start (new_side seg))
      × ((build_from h seg).new_count ≡ h.new_count + length (new_side seg))
unfolding build_from new_side add_edit
build_from-new h [] all = ground arith
build_from-new h (e ∷ seg) all = ground (arith, build_from-new (add_edit h e) seg)

-- The header of a hunk built from edits that carry line numbers says, for either text, where the
-- hunk's lines of that text begin (0 if it has none) and how many they are.
build_hunk-header :
    (seg : List Edit)
    → All IsNumbered seg
    → ((build_hunk seg).old_start ≡ first_line (old_side seg))
      × ((build_hunk seg).old_count ≡ length (old_side seg))
      × ((build_hunk seg).new_start ≡ first_line (new_side seg))
      × ((build_hunk seg).new_count ≡ length (new_side seg))
unfolding build_hunk
build_hunk-header seg all =
    ground (arith, build_from-old empty_hunk seg all, build_from-new empty_hunk seg all)
