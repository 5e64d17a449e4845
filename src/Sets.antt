-- ===== src/Sets.antt =====
-- internal/store/prefixsets.go and assets.go: the tables of prefix sets and AS sets, and the calls of the
-- database as steps that may fail. A table's rows stand in the order of their names, and a set's row
-- holds its entries in their order; the entries' own numbers are left out.
use birdy.Common.{
  ℕ, Bool, true, false, not, ◌&&◌, List, [], ◌∷◌, Option, none, some, Text, if◌then◌else◌, ◌==◌,
  leb, any_of,
}
pub mod Prefixes
pub mod Asns
pub mod Commits
pub mod Rows
pub mod Outcomes
pub mod Named
pub mod Dangling

pub record PrefixEntry : Type 0 where
  pub prefix : Text
  pub modifier : Text

pub record PrefixSet : Type 0 where
  pub id : ℕ
  pub name : Text
  pub description : Text
  pub family : Text
  pub originate : Bool
  pub originate_action : Text
  pub builtin : Bool
  pub system : Bool
  pub disabled : Bool
  pub source : Text
  pub auto_refresh : Bool
  pub last_refreshed : Text
  pub refresh_error : Text
  pub entries : List PrefixEntry

pub record AsnRange : Type 0 where
  pub low : ℕ
  pub high : ℕ
  pub note : Text

pub record AsSet : Type 0 where
  pub id : ℕ
  pub name : Text
  pub description : Text
  pub source : Text
  pub auto_refresh : Bool
  pub last_refreshed : Text
  pub refresh_error : Text
  pub entries : List AsnRange

-- What a policy names: the sets that it announces, that which it accepts, and the AS set of its origins.
pub record PolicyRow : Type 0 where
  pub set_ids : List ℕ
  pub accept_only : Option ℕ
  pub origin_as : Option ℕ

pub record Event : Type 0 where
  pub kind : Text
  pub protocol : Text
  pub message : Text

-- The tables, the timeline, the alerts handed to the notifier, and the time.
pub record Db : Type 0 where
  pub prefix_sets : List PrefixSet
  pub as_sets : List AsSet
  pub policies : List PolicyRow
  pub timeline : List Event
  pub alerts : List Event
  pub now : Text

pub data Failure : Type 0 where
  failed not_found in_use system_set : Failure

pub data Result {ℓ} (A : Type ℓ) : Type ℓ where
  ok : A → Result A
  err : Failure → Result A

-- Whether each call of the database fails, the next one first.
abbrev pub Faults : Type 0
Faults = List Bool

abbrev pub M : Type 0 → Type 0
M A = Db → Faults → Result A × Db × Faults

abbrev pub bound : {A B : Type 0} → (A → M B) → Result A × Db × Faults → Result B × Db × Faults
bound f (ok a, db, fs) = f a db fs
bound f (err e, db, fs) = (err e, db, fs)

infixl 5 ◌>>=◌ ◌>>◌
abbrev pub ◌>>=◌ : {A B : Type 0} → M A → (A → M B) → M B
◌>>=◌ m f db fs = bound f (m db fs)

abbrev pub ◌>>◌ : {B : Type 0} → M (Unit {0}) → M B → M B
m >> k = m >>= λ _. k

abbrev pub return : {A : Type 0} → A → M A
return a db fs = (ok a, db, fs)

abbrev pub next_fault : Faults → Bool × Faults
next_fault [] = (false, [])
next_fault (f ∷ fs) = (f, fs)

-- A statement that changes the tables.
abbrev pub exec_on : (Db → Db) → Db → Bool × Faults → Result (Unit {0}) × Db × Faults
exec_on change db (true, fs) = (err failed, db, fs)
exec_on change db (false, fs) = (ok tt, change db, fs)

unfoldable pub exec : (Db → Db) → M (Unit {0})
exec change db fs = exec_on change db (next_fault fs)

-- A statement and `affectedOne`: it has to find a row.
pub exec_one : (Db → Bool) → (Db → Db) → M (Unit {0})
unfolding exec
exec_one found change db fs =
    bound (λ _ db' fs'. if found db then (ok tt, db', fs') else (err not_found, db', fs'))
      (exec (λ d. if found d then change d else d) db fs)

unfoldable pub query : {A : Type 0} → (Db → A) → M A
unfolding exec
query read db fs = bound (λ _ db' fs'. (ok (read db'), db', fs')) (exec (λ d. d) db fs)

abbrev pub guard : Bool → Failure → M (Unit {0})
guard true e db fs = (ok tt, db, fs)
guard false e db fs = (err e, db, fs)

-- `defer tx.Rollback()`
abbrev pub rolled_back : {A : Type 0} → Db → Result A × Db × Faults → Result A × Db × Faults
rolled_back db (ok a, db', fs) = (ok a, db', fs)
rolled_back db (err e, db', fs) = (err e, db, fs)

-- From `Begin` to `Commit`.
pub transaction : M (Unit {0}) → M (Unit {0})
unfolding exec
transaction body db fs = rolled_back db ((do exec (λ d. d); body; exec (λ d. d)) db fs)

-- The rows of a list that pass a test, changed.
unfoldable pub update_where : {A : Type 0} → (A → Bool) → (A → A) → List A → List A
update_where p f [] = []
update_where p f (x ∷ xs) = (if p x then f x else x) ∷ update_where p f xs

-- The loop that inserts rows one by one.
pub insert_all : {A : Type 0} → (A → Db → Db) → List A → M (Unit {0})
unfolding exec
insert_all add [] = return tt
insert_all add (x ∷ xs) = do exec (add x); insert_all add xs

-- `emitEvent`, of internal/web/apply.go: the timeline if it can be written, and the alert in any case.
unfoldable pub emit_event : Event → Db → Faults → Db × Faults
unfolding exec
emit_event e db fs =
    let (r, db', fs') = exec (λ d. record d { timeline = e ∷ d.timeline }) db fs in
    (record db' { alerts = e ∷ db'.alerts }, fs')
