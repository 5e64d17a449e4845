-- ===== src/Sets/Commits.antt =====
-- internal/store: what is left in the tables when calls of the database fail.
use birdy.Common.{Bool, true, false, List, [], ◌∷◌, ◌≡◌, refl, ap, Bool-cases, inl, inr}
use birdy.Sets.{
  Db, Faults, Result, ok, err, M, ◌>>◌, bound, exec, exec_on, next_fault, rolled_back, transaction,
  update_where, insert_all,
}

-- After success the tables are d.
abbrev OkIs : Db → Result (Unit {0}) × Db × Faults → Type 0
OkIs d (ok u, db, fs) = db ≡ d
OkIs d (err e, db, fs) = Unit

-- The tables are the one after success, the other after failure.
abbrev pub EndsIn : Db → Db → Result (Unit {0}) × Db × Faults → Type 0
EndsIn d old (ok u, db, fs) = db ≡ d
EndsIn d old (err e, db, fs) = db ≡ old

-- Success makes this change.
abbrev Does : (Db → Db) → M (Unit {0}) → Type 0
Does change m = (db : Db) (fs : Faults) → OkIs (change db) (m db fs)

-- Success makes this change, failure none.
abbrev pub AllOrNone : (Db → Db) → M (Unit {0}) → Type 0
AllOrNone change m = (db : Db) (fs : Faults) → EndsIn (change db) db (m db fs)

exec_on-ends :
    (change : Db → Db) (db : Db) (n : Bool × Faults) → EndsIn (change db) db (exec_on change db n)
exec_on-ends change db (true, fs) = refl
exec_on-ends change db (false, fs) = refl

pub exec-AllOrNone : (change : Db → Db) → AllOrNone change (exec change)
unfolding exec
exec-AllOrNone change db fs = exec_on-ends change db (next_fault fs)

exec_on-does :
    (change : Db → Db) (db : Db) (n : Bool × Faults) → OkIs (change db) (exec_on change db n)
exec_on-does change db (true, fs) = tt
exec_on-does change db (false, fs) = refl

pub exec-Does : (change : Db → Db) → Does change (exec change)
unfolding exec
exec-Does change db fs = exec_on-does change db (next_fault fs)

bound-OkIs :
    (k : M (Unit {0})) (change : Db → Db) (d : Db) (r : Result (Unit {0}) × Db × Faults)
    → Does change k
    → OkIs d r
    → OkIs (change d) (bound (λ _. k) r)
bound-OkIs k change d (ok u, db, fs) h e = rw (← e) (h db fs)
bound-OkIs k change d (err f, db, fs) h e = tt

pub then-Does :
    (m k : M (Unit {0})) (f g : Db → Db) → Does f m → Does g k → Does (λ db. g (f db)) (m >> k)
then-Does m k f g h i db fs = bound-OkIs k g (f db) (m db fs) i (h db fs)

rolled_back-EndsIn :
    (d db : Db) (r : Result (Unit {0}) × Db × Faults) → OkIs d r → EndsIn d db (rolled_back db r)
rolled_back-EndsIn d db (ok u, db', fs) h = h
rolled_back-EndsIn d db (err e, db', fs) h = refl

pub transaction-AllOrNone :
    (m : M (Unit {0})) (change : Db → Db) → Does change m → AllOrNone change (transaction m)
unfolding transaction
transaction-AllOrNone m change h db fs =
    rolled_back-EndsIn (change db) db ((exec (λ d. d) >> (m >> exec (λ d. d))) db fs) (
      then-Does (exec (λ d. d)) (m >> exec (λ d. d)) (λ d. d) change (exec-Does (λ d. d))
        (then-Does m (exec (λ d. d)) change (λ d. d) h (exec-Does (λ d. d))) db fs)

-- Rows added one after the other.
abbrev pub added : {A : Type 0} → (A → Db → Db) → List A → Db → Db
added add [] db = db
added add (x ∷ xs) db = added add xs (add x db)

pub insert_all-Does :
    {A : Type 0} (add : A → Db → Db) (xs : List A) → Does (added add xs) (insert_all add xs)
unfolding insert_all
insert_all-Does add [] db fs = refl
insert_all-Does add (x ∷ xs) db fs =
    then-Does (exec (add x)) (insert_all add xs) (add x) (added add xs) (exec-Does (add x))
      (insert_all-Does add xs) db fs

pub update_where-twice :
    {A : Type 0} (p : A → Bool) (f g : A → A) (xs : List A)
    → ((x : A) → p (f x) ≡ p x)
    → update_where p g (update_where p f xs) ≡ update_where p (λ x. g (f x)) xs
unfolding update_where
update_where-twice p f g [] h = refl
update_where-twice p f g (x ∷ xs) h = elim (Bool-cases (p x)) [
  | inl e ↦ rw (e, h x, e) (ap (λ ys. g (f x) ∷ ys) (update_where-twice p f g xs h))
  | inr e ↦ rw (e, e) (ap (λ ys. x ∷ ys) (update_where-twice p f g xs h))
]
