-- ===== src/Sets/Named.antt =====
-- internal/store/prefixsets.go and assets.go: policies that name only sets that are there.
use birdy.Common.{
  ℕ, Bool, true, false, not, List, [], ◌∷◌, some, ◌≡◌, refl, ◌∙◌, ap, sym, inl, inr, arith, length,
  Bool-cases, ◌==◌, All, keep_if, any_of,
}
use birdy.Sets.{PrefixSet, AsSet, PolicyRow, Db}
use birdy.Sets.Prefixes
use birdy.Sets.Prefixes.{
  get_prefix_set, first_of, rows_of, is_some_of, prefix_set_usage, delete_prefix_set,
}
use birdy.Sets.Asns
use birdy.Sets.Asns.{as_set_usage, delete_as_set}

-- Every set that a policy names is there.
abbrev pub Named : Db → PolicyRow → Type 0
Named db p =
    All (λ n. any_of (Prefixes.at_id n) db.prefix_sets ≡ true) p.set_ids
    × ((n : ℕ) → p.accept_only ≡ some n → any_of (Prefixes.at_id n) db.prefix_sets ≡ true)
    × ((n : ℕ) → p.origin_as ≡ some n → any_of (Asns.at_id n) db.as_sets ≡ true)

abbrev pub NoDangling : Db → Type 0
NoDangling db = All (Named db) db.policies

-- The rows left when those of another number go.
other_left :
    {A : Type 0} (ident : A → ℕ) (id n : ℕ) (sets : List A)
    → (n == id) ≡ false
    → any_of (λ s. ident s == n) sets ≡ true
    → any_of (λ s. ident s == n) (keep_if (λ s. not (ident s == id)) sets) ≡ true
other_left ident id n [] h i = cc
other_left ident id n (s ∷ sets) h i = elim (Bool-cases (ident s == n)) [
  | inl e ↦
      let other : (ident s == id) ≡ false = ground (arith, e, h) in
      rw (other, keep_if) (ground (arith, e))
  | inr e ↦ elim (Bool-cases (ident s == id)) [
    | inl f ↦ rw (f, keep_if) (other_left ident id n sets h (ground (arith, e, i)))
    | inr f ↦
        rw (f, keep_if) (ground (arith, e, other_left ident id n sets h (ground (arith, e, i))))
  ]
]

none_kept :
    {A : Type 0} (b : Bool) (x : A) (xs : List A)
    → length (elim b as (λ b. List A) [ true ↦ x ∷ xs | false ↦ xs ]) ≡ 0
    → (b ≡ false) × (length xs ≡ 0)
none_kept true x xs h = absurd (omega arith)
none_kept false x xs h = (refl, h)

none_pass :
    {A : Type 0} (p : A → Bool) (xs : List A)
    → length (keep_if p xs) ≡ 0
    → All (λ x. p x ≡ false) xs
none_pass p [] h = tt
none_pass p (x ∷ xs) h =
    let both = none_kept (p x) x (keep_if p xs) h in (both.0, none_pass p xs (both.1))

rows_of-none :
    (id : ℕ) (ps : List PolicyRow)
    → rows_of id ps ≡ 0
    → All (λ p. All (λ n. (n == id) ≡ false) p.set_ids) ps
rows_of-none id [] h = tt
rows_of-none id (p ∷ ps) h =
    (none_pass (λ n. n == id) p.set_ids (omega (arith, h)), rows_of-none id ps (omega (arith, h)))

All-two :
    {A : Type 0} (P Q R : A → Type 0) (xs : List A)
    → ((x : A) → P x → Q x → R x)
    → All P xs
    → All Q xs
    → All R xs
All-two P Q R [] f h i = tt
All-two P Q R (x ∷ xs) f (h, hs) (i, is) = (f x h i, All-two P Q R xs f hs is)

-- The tables without a prefix set, and without an AS set.
abbrev pub without : ℕ → Db → Db
without id db = record db { prefix_sets = keep_if (λ s. not (Prefixes.at_id id s)) db.prefix_sets }

abbrev pub accepts : ℕ → PolicyRow → Bool
accepts id p = is_some_of id p.accept_only

pub NoDangling-without :
    (id : ℕ) (db : Db)
    → NoDangling db
    → rows_of id db.policies ≡ 0
    → length (keep_if (accepts id) db.policies) ≡ 0
    → NoDangling (without id db)
NoDangling-without id db h none_announce none_accept =
    All-two (Named db) (λ p. All (λ n. (n == id) ≡ false) p.set_ids × (accepts id p ≡ false))
      (Named (without id db)) db.policies
      (λ p named (others, other). (
        All-two (λ n. any_of (Prefixes.at_id n) db.prefix_sets ≡ true) (λ n. (n == id) ≡ false)
            (λ n. any_of (Prefixes.at_id n) (without id db).prefix_sets ≡ true) p.set_ids
            (λ n there e. other_left (λ (s : PrefixSet). s.id) id n db.prefix_sets e there)
            (named.0) others,
        λ n e.
            other_left (λ (s : PrefixSet). s.id) id n db.prefix_sets
              (sym (ap (is_some_of id) e) ∙ other) (named.1 n e),
        named.2,
      ))
      h
      (All-two (λ p. All (λ n. (n == id) ≡ false) p.set_ids) (λ p. accepts id p ≡ false) _
        db.policies (λ p i j. (i, j)) (rows_of-none id db.policies none_announce)
        (none_pass (accepts id) db.policies none_accept))

abbrev pub without_as : ℕ → Db → Db
without_as id db = record db { as_sets = keep_if (λ s. not (Asns.at_id id s)) db.as_sets }

abbrev pub filters : ℕ → PolicyRow → Bool
filters id p = is_some_of id p.origin_as

pub NoDangling-without_as :
    (id : ℕ) (db : Db)
    → NoDangling db
    → length (keep_if (filters id) db.policies) ≡ 0
    → NoDangling (without_as id db)
NoDangling-without_as id db h none_filter =
    All-two (Named db) (λ p. filters id p ≡ false) (Named (without_as id db)) db.policies
      (λ p named other. (
        named.0,
        named.1,
        λ n e.
            other_left (λ (s : AsSet). s.id) id n db.as_sets (sym (ap (is_some_of id) e) ∙ other)
              (named.2 n e),
      ))
      h (none_pass (filters id) db.policies none_filter)
