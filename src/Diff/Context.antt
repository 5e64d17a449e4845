-- ===== src/Diff/Context.antt =====
-- internal/render/diff.go, `hunks`: which edits are kept.
use birdy.Common.{
  pos, ℕ, zero, suc, ◌+◌, ◌-◌, ◌≤◌, ◌<◌, min, ◌≡◌, refl, ap, ◌∙◌, ◌↔◌, ◌⊎◌, inl, inr, Bool, true,
  false, ◌&&◌, ◌||◌, List, [], ◌∷◌, arith, ◌==◌, leb, ltb, if◌then◌else◌, length, get_or, set,
  replicate, Bool-cases,
}
use birdy.Diff.{Edit}
use birdy.Diff.Hunks.{changed_flags, mark_range, mark_context, keep_flags}

length-set : (xs : List Bool) (i : ℕ) (v : Bool) → length (set xs i v) ≡ length xs
length-set [] i v = refl
length-set (x ∷ xs) zero v = refl
length-set (x ∷ xs) (suc i) v = ap suc (length-set xs i v)

get_or-set :
    (xs : List Bool) (i j : ℕ)
    → get_or (set xs i true) j false ≡ (get_or xs j false || (i == j && ltb j (length xs)))
get_or-set [] i j = ground arith
get_or-set (x ∷ xs) zero zero = ground arith
get_or-set (x ∷ xs) zero (suc j) = ground arith
get_or-set (x ∷ xs) (suc i) zero = ground arith
get_or-set (x ∷ xs) (suc i) (suc j) = ground (arith, get_or-set xs i j)

length-mark_range : (n lo : ℕ) (keep : List Bool) → length (mark_range n lo keep) ≡ length keep
unfolding mark_range
length-mark_range zero lo keep = refl
length-mark_range (suc n) lo keep =
    length-mark_range n (lo + 1) (set keep lo true) ∙ length-set keep lo true

get_or-mark_range :
    (n lo : ℕ) (keep : List Bool) (j : ℕ)
    → get_or (mark_range n lo keep) j false
      ≡ (get_or keep j false || (leb lo j && ltb j (lo + n) && ltb j (length keep)))
unfolding mark_range
get_or-mark_range zero lo keep j = ground arith
get_or-mark_range (suc n) lo keep j = ground (
  arith,
  get_or-mark_range n (lo + 1) (set keep lo true) j,
  get_or-set keep lo j,
  length-set keep lo true,
)

-- Flag `k` of `changed` is set, and edit `i + k` is within `context` of edit `j`.
abbrev Near : ℕ → ℕ → List Bool → ℕ → Type 0
Near context i changed j =
    (k : ℕ) × (get_or changed k false ≡ true) × (j ≤ i + k + context) × (i + k ≤ j + context)

Near-next :
    (context i : ℕ) (c : Bool) (changed : List Bool) (j : ℕ)
    → Near context (i + 1) changed j
    → Near context i (c ∷ changed) j
Near-next context i c changed j (k, f, lo, hi) = (suc k, f, omega arith, omega arith)

marked : ℕ → ℕ → ℕ → Bool → List Bool → List Bool
marked len context i c keep =
    if c
    then mark_range (min (len - 1) (i + context) + 1 - (i - context)) (i - context) keep
    else keep

length-marked :
    (len context i : ℕ) (c : Bool) (keep : List Bool)
    → length (marked len context i c keep) ≡ length keep
unfolding marked
length-marked len context i true keep = length-mark_range _ _ keep
length-marked len context i false keep = refl

get_or-marked :
    (len context i : ℕ) (keep : List Bool) (j : ℕ)
    → length keep ≡ len
    → j < len
    → get_or (marked len context i true keep) j false
      ≡ (get_or keep j false || (leb j (i + context) && leb i (j + context)))
unfolding marked
get_or-marked len context i keep j e h = ground (
  arith,
  get_or-mark_range (min (len - 1) (i + context) + 1 - (i - context)) (i - context) keep j,
)

mark_context-step :
    (len context i : ℕ) (c : Bool) (changed keep : List Bool)
    → mark_context len context i (c ∷ changed) keep
      ≡ mark_context len context (i + 1) changed (marked len context i c keep)
unfolding mark_context marked
mark_context-step len context i c changed keep = refl

marked-old :
    (len context i : ℕ) (c : Bool) (keep : List Bool) (j : ℕ)
    → length keep ≡ len
    → j < len
    → get_or keep j false ≡ true
    → get_or (marked len context i c keep) j false ≡ true
unfolding marked
marked-old len context i true keep j e h k = ground (arith, get_or-marked len context i keep j e h)
marked-old len context i false keep j e h k = k

module _ (len context : ℕ) where
  mark_context-old :
      (changed : List Bool) (i : ℕ) (keep : List Bool) (j : ℕ)
      → length keep ≡ len
      → j < len
      → get_or keep j false ≡ true
      → get_or (mark_context len context i changed keep) j false ≡ true
  unfolding mark_context
  mark_context-old [] i keep j e h k = k
  mark_context-old (c ∷ changed) i keep j e h k =
      rw (mark_context-step len context i c changed keep) (
        mark_context-old changed (i + 1) (marked len context i c keep) j
          (length-marked len context i c keep ∙ e) h (marked-old len context i c keep j e h k))

  mark_context-Near :
      (changed : List Bool) (i : ℕ) (keep : List Bool) (j : ℕ)
      → length keep ≡ len
      → j < len
      → Near context i changed j
      → get_or (mark_context len context i changed keep) j false ≡ true
  mark_context-Near [] i keep j e h (k, f, lo, hi) = cc
  mark_context-Near (true ∷ changed) i keep j e h (zero, f, lo, hi) =
      rw (mark_context-step len context i true changed keep) (
        mark_context-old changed (i + 1) (marked len context i true keep) j
          (length-marked len context i true keep ∙ e) h
          (ground (arith, get_or-marked len context i keep j e h)))
  mark_context-Near (false ∷ changed) i keep j e h (zero, f, lo, hi) = cc
  mark_context-Near (c ∷ changed) i keep j e h (suc k, f, lo, hi) =
      rw (mark_context-step len context i c changed keep) (
        mark_context-Near changed (i + 1) (marked len context i c keep) j
          (length-marked len context i c keep ∙ e) h (k, f, omega arith, omega arith))

  marked_sound :
      (c : Bool) (changed : List Bool) (i : ℕ) (keep : List Bool) (j : ℕ)
      → length keep ≡ len
      → j < len
      → get_or (marked len context i c keep) j false ≡ true
      → (get_or keep j false ≡ true) ⊎ Near context i (c ∷ changed) j
  unfolding marked
  marked_sound false changed i keep j e h f = inl f
  marked_sound true changed i keep j e h f = elim (Bool-cases (get_or keep j false)) [
    | inl old ↦ inl old
    | inr new ↦ inr (
      0,
      refl,
      ground (arith, get_or-marked len context i keep j e h),
      ground (arith, get_or-marked len context i keep j e h),
    )
  ]

  mark_context_sound :
      (changed : List Bool) (i : ℕ) (keep : List Bool) (j : ℕ)
      → length keep ≡ len
      → j < len
      → get_or (mark_context len context i changed keep) j false ≡ true
      → (get_or keep j false ≡ true) ⊎ Near context i changed j
  unfolding mark_context
  mark_context_sound [] i keep j e h f = inl f
  mark_context_sound (c ∷ changed) i keep j e h f =
      elim (mark_context_sound changed (i + 1) (marked len context i c keep) j
        (length-marked len context i c keep ∙ e) h
        (rw (mark_context-step len context i c changed keep) at f)) [
          | inl old ↦ marked_sound c changed i keep j e h old
          | inr near ↦ inr (Near-next context i c changed j near)
        ]

get_or-replicate : (n j : ℕ) → get_or (replicate n false) j false ≡ false
get_or-replicate zero j = refl
get_or-replicate (suc n) zero = refl
get_or-replicate (suc n) (suc j) = get_or-replicate n j

length-replicate : (n : ℕ) → length (replicate n false) ≡ n
length-replicate zero = refl
length-replicate (suc n) = ap suc (length-replicate n)

-- Edit `j` of a script is kept exactly when some edit at most `context` places away, itself or
-- another, before or after it, is a change.
pub keep_flags-near :
    (script : List Edit) (context j : ℕ)
    → j < length script
    → (get_or (keep_flags script (pos context)) j false ≡ true) ↔ (
        (k : ℕ) × (get_or (changed_flags script) k false ≡ true)
        × (j ≤ k + context)
        × (k ≤ j + context))
unfolding keep_flags
keep_flags-near script context j h = (
  λ f.
      elim (mark_context_sound (length script) context (changed_flags script) 0 _ j
        (length-replicate (length script)) h f) [
          | inl old ↦ cc (get_or-replicate (length script) j)
          | inr (k, g, lo, hi) ↦ (k, g, omega arith, omega arith)
        ],
  λ (k, g, lo, hi).
      mark_context-Near (length script) context (changed_flags script) 0 _ j
        (length-replicate (length script)) h (k, g, omega arith, omega arith),
)
