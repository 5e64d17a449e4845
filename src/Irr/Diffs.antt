-- ===== src/Irr/Diffs.antt =====
-- internal/web/irr_refresh.go: the counts of `diffEntries` and `diffASNs`.
use birdy.Common.{
  Bool, true, false, not, List, [], ◌∷◌, ◌≡◌, refl, ◌∙◌, ap, sym, ◌↔◌, arith, length, keep_if,
  is_in, distinct, Text, text_eq, text_eq_sound, text_eq_self, Bool-cases, inl, inr, All, All-map,
  eq_sym, All-distinct, All-is_in,
}
use mathlib.Core.Path.{subst}
use birdy.Sets.{PrefixEntry, AsnRange}
use birdy.Irr.{missing, diff_entries, diff_asns, patterns, bounds, Bounds, same_bounds, no_change}

module _ {ℓ} {A : Type ℓ} (eq : A → A → Bool) (sound : (x y : A) → eq x y ≡ true → x ≡ y)
    (self : (x : A) → eq x x ≡ true) where
  is_in-keep_if :
      (p : A → Bool) (xs : List A) (k : A)
      → is_in eq k xs ≡ true
      → p k ≡ true
      → is_in eq k (keep_if p xs) ≡ true
  is_in-keep_if p [] k h h' = cc
  is_in-keep_if p (x ∷ xs) k h h' = elim (Bool-cases (eq k x)) [
    | inl e ↦
        let same : p x ≡ true = subst (λ z. p z ≡ true) (sound k x e) h' in
        rw (same, keep_if) (ground (arith, e))
    | inr e ↦ elim (Bool-cases (p x)) [
      | inl f ↦ rw (f, keep_if) (ground (arith, e, is_in-keep_if p xs k (ground (arith, h, e)) h'))
      | inr f ↦ rw (f, keep_if) (is_in-keep_if p xs k (ground (arith, h, e)) h')
    ]
  ]

  is_in-distinct : (xs : List A) (k : A) → is_in eq k xs ≡ true → is_in eq k (distinct eq xs) ≡ true
  is_in-distinct [] k h = cc
  is_in-distinct (x ∷ xs) k h = elim (Bool-cases (eq k x)) [
    | inl e ↦ ground (arith, e)
    | inr e ↦
        let other : eq x k ≡ false = eq_sym eq sound self x k ∙ e in
        ground (
          arith,
          e,
          is_in-keep_if (λ y. not (eq x y)) (distinct eq xs) k
              (is_in-distinct xs k (ground (arith, h, e))) (ground (arith, other)),
        )
  ]

  none-is_in : (xs : List A) (k : A) → length xs ≡ 0 → is_in eq k xs ≡ false
  none-is_in [] k h = refl
  none-is_in (x ∷ xs) k h = absurd (omega arith)

  missing-none :
      (have next : List A) (k : A)
      → missing eq have next ≡ 0
      → is_in eq k next ≡ true
      → is_in eq k have ≡ true
  unfolding missing
  missing-none have next k none h = elim (Bool-cases (is_in eq k have)) [
    | inl e ↦ e
    | inr e ↦
        let left : is_in eq k (keep_if (λ j. not (is_in eq j have)) (distinct eq next)) ≡ true =
          is_in-keep_if (λ j. not (is_in eq j have)) (distinct eq next) k (is_in-distinct next k h)
            (ground (arith, e)) in
        let gone : is_in eq k (keep_if (λ j. not (is_in eq j have)) (distinct eq next)) ≡ false =
          none-is_in (keep_if (λ j. not (is_in eq j have)) (distinct eq next)) k none in
        cc
  ]

  keep_if-none :
      (p : A → Bool) (xs : List A) → All (λ x. p x ≡ false) xs → length (keep_if p xs) ≡ 0
  keep_if-none p [] h = refl
  keep_if-none p (x ∷ xs) (h, hs) = rw (h, keep_if) (keep_if-none p xs hs)

  none-missing :
      (have next : List A)
      → ((k : A) → is_in eq k next ≡ true → is_in eq k have ≡ true)
      → missing eq have next ≡ 0
  unfolding missing
  none-missing have next h =
      keep_if-none (λ j. not (is_in eq j have)) (distinct eq next)
        (All-distinct eq (λ j. not (is_in eq j have) ≡ false) next
          (All-map (λ j. is_in eq j next ≡ true) (λ j. not (is_in eq j have) ≡ false) next
            (λ j i. ap not (h j i)) (All-is_in eq sound self next)))

  -- Nothing is counted either way if and only if the lists have the same keys.
  counts-same :
      (old fresh : List A)
      → (no_change (missing eq old fresh, missing eq fresh old) ≡ true)
        ↔ ((k : A) → is_in eq k old ≡ is_in eq k fresh)
  counts-same old fresh = (there, back)
    where
      both :
          (k : A)
          → missing eq old fresh ≡ 0
          → missing eq fresh old ≡ 0
          → (b c : Bool) → is_in eq k old ≡ b
          → is_in eq k fresh ≡ c
          → b ≡ c
      both k m n true true h i = refl
      both k m n false false h i = refl
      both k m n true false h i = sym (missing-none fresh old k n h) ∙ i
      both k m n false true h i = sym h ∙ missing-none old fresh k m i

      there :
          no_change (missing eq old fresh, missing eq fresh old) ≡ true
          → (k : A) → is_in eq k old ≡ is_in eq k fresh
      there h k = both k (ground (arith, h)) (ground (arith, h)) _ _ refl refl

      back :
          ((k : A) → is_in eq k old ≡ is_in eq k fresh)
          → no_change (missing eq old fresh, missing eq fresh old) ≡ true
      back h =
          let m = none-missing old fresh (λ k i. h k ∙ i) in
          let n = none-missing fresh old (λ k i. sym (h k) ∙ i) in ground (arith, m, n)

-- A refresh counts no change if and only if the old and the new entries are the same patterns, whatever
-- their order and however often each stands there.
pub diff_entries-same :
    (old fresh : List PrefixEntry)
    → (no_change (diff_entries old fresh) ≡ true)
      ↔ ((k : Text) → is_in text_eq k (patterns old) ≡ is_in text_eq k (patterns fresh))
unfolding diff_entries
diff_entries-same old fresh =
    counts-same text_eq text_eq_sound text_eq_self (patterns old) (patterns fresh)

same_bounds_sound : (x y : Bounds) → same_bounds x y ≡ true → x ≡ y
same_bounds_sound (a, b) (c, d) h = ground (arith, h)

same_bounds_self : (x : Bounds) → same_bounds x x ≡ true
same_bounds_self (a, b) = ground arith

diff_asns-same :
    (old fresh : List AsnRange)
    → (no_change (diff_asns old fresh) ≡ true)
      ↔ ((k : Bounds) → is_in same_bounds k (bounds old) ≡ is_in same_bounds k (bounds fresh))
unfolding diff_asns
diff_asns-same old fresh =
    counts-same same_bounds same_bounds_sound same_bounds_self (bounds old) (bounds fresh)
