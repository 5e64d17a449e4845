-- ===== src/Lint/Quiet.antt =====
-- internal/render/lint.go: findings among which no danger is.
use birdy.Common.{
  ℕ, Bool, true, false, not, List, [], ◌∷◌, ◌++◌, Text, text_eq, text_eq_self, ◌≡◌, refl, ◌∙◌, inl,
  inr, arith, Bool-cases, All, any_of, keep_if, map, ◌==◌, length, if◌then◌else◌,
}
use birdy.Lint
use birdy.Lint.{Warning, fold_by_template}
use birdy.Lint.Kept.{says, fold_by_template-says}
use birdy.Lint.Model.{danger, when, each}

-- No finding is a danger.
abbrev pub Quiet : List Warning → Type 0
Quiet ws = any_of (λ (w : Warning). text_eq w.severity danger) ws ≡ false

pub Quiet-append : (xs ys : List Warning) → Quiet (xs ++ ys) → Quiet xs × Quiet ys
Quiet-append [] ys h = (refl, h)
Quiet-append (x ∷ xs) ys h = elim (Bool-cases (text_eq x.severity danger)) [
  | inl e ↦ ground (arith, h, e)
  | inr e ↦
      let both = Quiet-append xs ys (ground (arith, h, e)) in (ground (arith, e, both.0), both.1)
]

pub Quiet-each {ℓ} :
    {A : Type ℓ} (f : A → List Warning) (xs : List A)
    → Quiet (each f xs)
    → All (λ x. Quiet (f x)) xs
unfolding each
Quiet-each f [] h = tt
Quiet-each f (x ∷ xs) h =
    let both = Quiet-append (f x) (each f xs) h in (both.0, Quiet-each f xs (both.1))

pub Quiet-when : (b : Bool) (peer message : Text) → Quiet (when b danger peer message) → b ≡ false
Quiet-when true peer message h = ground (arith, h, text_eq_self danger)
Quiet-when false peer message h = refl

pub Quiet-map {ℓ} :
    {A : Type ℓ} (f : A → Warning) (xs : List A)
    → ((x : A) → (f x).severity ≡ danger)
    → Quiet (map f xs)
    → xs ≡ []
Quiet-map f [] e h = refl
Quiet-map f (x ∷ xs) e h =
    let same : text_eq ((f x).severity) danger ≡ true = rw (e x) (text_eq_self danger) in cc

-- A danger is there under its own text.
danger-says :
    (ws : List Warning)
    → any_of (λ (w : Warning). text_eq w.severity danger) ws ≡ true
    → (m : Text) × (any_of (says danger m) ws ≡ true)
danger-says [] h = cc
danger-says (w ∷ ws) h = elim (Bool-cases (text_eq w.severity danger)) [
  | inl e ↦ (w.message, ground (arith, e, text_eq_self w.message))
  | inr e ↦ let (m, said) = danger-says ws (ground (arith, h, e)) in (m, ground (arith, said))
]

says-danger :
    (m : Text) (ws : List Warning)
    → any_of (says danger m) ws ≡ true
    → any_of (λ (w : Warning). text_eq w.severity danger) ws ≡ true
says-danger m [] h = h
says-danger m (w ∷ ws) h = ground (arith, h, says-danger m ws)

-- Folding hides no danger.
pub Quiet-fold :
    (ws : List Warning) (peers : List Lint.Peer) → Quiet (fold_by_template ws peers) → Quiet ws
Quiet-fold ws peers h = elim (Bool-cases (any_of (λ (w : Warning). text_eq w.severity danger) ws)) [
  | inl e ↦
      let (m, said) = danger-says ws e in
      let shown =
        says-danger m (fold_by_template ws peers)
          (fold_by_template-says danger m ws peers ∙ said) in
      cc
  | inr e ↦ e
]

pub Quiet-if_then :
    (b : Bool) (ws : List Warning) → Quiet (if b then ws else []) → b ≡ true → Quiet ws
Quiet-if_then true ws h e = h
Quiet-if_then false ws h e = cc

pub Quiet-unless :
    (b : Bool) (ws : List Warning) → Quiet (if b then [] else ws) → b ≡ false → Quiet ws
Quiet-unless true ws h e = cc
Quiet-unless false ws h e = h

none_kept :
    (b : Bool) (n : Text) (ns : List Text)
    → elim (not b) as (λ b. List Text) [ true ↦ n ∷ ns | false ↦ ns ] ≡ []
    → (b ≡ true) × (ns ≡ [])
none_kept true n ns h = (refl, h)
none_kept false n ns h = cc

pub none-undefined :
    (p : Text → Bool) (ns : List Text) → keep_if (λ n. not (p n)) ns ≡ [] → All (λ n. p n ≡ true) ns
none-undefined p [] h = tt
none-undefined p (n ∷ ns) h =
    let both = none_kept (p n) n (keep_if (λ m. not (p m)) ns) h in
    (both.0, none-undefined p ns (both.1))

dropped :
    (b : Bool) (n : ℕ) (ns : List ℕ)
    → (length (elim b as (λ b. List ℕ) [ true ↦ n ∷ ns | false ↦ ns ]) == 0) ≡ false
    → b ≡ false
    → (length ns == 0) ≡ false
dropped true n ns h e = cc
dropped false n ns h e = h

-- An item that passes a test.
pub first_kept :
    (p : ℕ → Bool) (ns : List ℕ)
    → (length (keep_if p ns) == 0) ≡ false
    → (n : ℕ) × (any_of (λ m. m == n) ns ≡ true) × (p n ≡ true)
first_kept p [] h = cc
first_kept p (n ∷ ns) h = elim (Bool-cases (p n)) [
  | inl e ↦ (n, ground arith, e)
  | inr e ↦
      let rest : (length (keep_if p ns) == 0) ≡ false = dropped (p n) n (keep_if p ns) h e in
      let (m, there, passes) = first_kept p ns rest in (m, ground (arith, there), passes)
]
