-- ===== src/Sets/Outcomes.antt =====
-- internal/store/prefixsets.go and assets.go: what a statement on the tables leaves, and whether it fails.
use birdy.Common.{Bool, true, false, ◌≡◌, refl, ap, if◌then◌else◌}
use birdy.Sets.{
  Db, Faults, Result, ok, err, Failure, M, bound, exec, exec_on, exec_one, query, next_fault, guard,
  not_found,
}

-- What holds of the result and of the tables after success, and of the tables after failure.
abbrev pub Post : {A : Type 0} → (A → Db → Type 0) → (Db → Type 0) → Result A × Db × Faults → Type 0
Post P E (ok x, db, fs) = P x db
Post P E (err e, db, fs) = E db

pub bound-Post :
    {A B : Type 0} (P : A → Db → Type 0) (Q : B → Db → Type 0) (E : Db → Type 0) (f : A → M B)
    (r : Result A × Db × Faults)
    → Post P E r
    → ((x : A) (d : Db) (fs : Faults) → P x d → Post Q E (f x d fs))
    → Post Q E (bound f r)
bound-Post P Q E f (ok x, d, fs) p h = h x d fs p
bound-Post P Q E f (err e, d, fs) p h = p

-- The tables are still these.
abbrev pub Still : Db → Db → Type 0
Still db d = d ≡ db

pub query-Post :
    {A : Type 0} (read : Db → A) (db d : Db) (fs : Faults)
    → d ≡ db
    → Post (λ x d'. (x ≡ read db) × (d' ≡ db)) (Still db) (query read d fs)
unfolding query exec
query-Post read db d fs e = on_fault (next_fault fs)
  where
    on_fault :
        (n : Bool × Faults)
        → Post
            (λ x d'. (x ≡ read db) × (d' ≡ db))
            (Still db)
            (bound (λ _ d' fs'. (ok (read d'), d', fs')) (exec_on (λ d'. d') d n))
    on_fault (true, fs') = e
    on_fault (false, fs') = (ap read e, e)

pub guard-Post :
    (b : Bool) (f : Failure) (db d : Db) (fs : Faults)
    → d ≡ db
    → Post (λ u d'. (b ≡ true) × (d' ≡ db)) (Still db) (guard b f d fs)
guard-Post true f db d fs e = (refl, e)
guard-Post false f db d fs e = e

pub exec_one-Post :
    (found : Db → Bool) (change : Db → Db) (db d : Db) (fs : Faults)
    → d ≡ db
    → Post (λ u d'. d' ≡ change db) (Still db) (exec_one found change d fs)
unfolding exec_one exec
exec_one-Post found change db d fs e = on_fault (found d) refl (next_fault fs)
  where
    on_fault :
        (b : Bool)
        → found d ≡ b
        → (n : Bool × Faults)
        → Post {A = Unit {0}}
            (λ u d'. d' ≡ change db)
            (Still db)
            (bound
              (λ _ d' fs'. if found d then (ok tt, d', fs') else (err not_found, d', fs'))
              (exec_on (λ d'. if found d' then change d' else d') d n))
    on_fault b h (true, fs') = e
    on_fault true h (false, fs') = rw h (ap change e)
    on_fault false h (false, fs') = rw h e
