-- ===== src/Irr/Rounds.antt =====
-- internal/web/irr_refresh.go, `refreshIRRSets`: what a round leaves of the sets.
use birdy.Common.{
  ℕ, ◌<◌, Bool, true, false, not, ◌&&◌, List, [], ◌∷◌, Text, ◌≡◌, refl, length, All, All-keep_if,
  All-map, keep_if, is_empty,
}
use mathlib.Core.Path.{subst}
use birdy.Sets.{
  PrefixSet, AsSet, PolicyRow, Db, Faults, Result, ok, err, M, query, exec, exec_on, next_fault,
  bound,
}
use birdy.Sets.Prefixes
use birdy.Sets.Prefixes.{
  change_set, stamp_refresh, read_entries, list_prefix_sets, list_auto_refresh_prefix_sets,
}
use birdy.Sets.Asns.{read_members, list_as_sets, list_auto_refresh_as_sets}
use birdy.Irr.Answers.{Answer, Item}
use birdy.Irr.{refresh_sets, refresh_as_sets, listed, refresh_irr_sets}
use birdy.Irr.Kept.{
  All2-same, KeptSet, KeptAsSet, Kept, Read, refresh_sets-Kept, refresh_as_sets-Kept,
}

-- A reading of the tables that gives this, if it succeeds.
abbrev Reads : {A : Type 0} → A → Db → Result A × Db × Faults → Type 0
Reads a old (ok x, db, fs) = (x ≡ a) × (db ≡ old)
Reads a old (err e, db, fs) = db ≡ old

query-Reads :
    {A : Type 0} (read : Db → A) (db : Db) (fs : Faults) → Reads (read db) db (query read db fs)
unfolding query exec
query-Reads read db fs = on_fault (next_fault fs)
  where
    on_fault :
        (n : Bool × Faults)
        → Reads
            (read db)
            db
            (bound (λ _ db' fs'. (ok (read db'), db', fs')) (exec_on (λ d. d) db n))
    on_fault (true, fs') = refl
    on_fault (false, fs') = (refl, refl)

bound-Reads :
    {A B : Type 0} (a : A) (b : B) (db : Db) (f : A → M B) (r : Result A × Db × Faults)
    → ((fs : Faults) → Reads b db (f a db fs))
    → Reads a db r
    → Reads b db (bound f r)
bound-Reads a b db f (ok x, db', fs) h (e, e') = rw (e, e') (h fs)
bound-Reads a b db f (err e, db', fs) h e' = e'

read_entries-Reads :
    (ss : List PrefixSet) (db : Db) (fs : Faults) → Reads ss db (read_entries ss db fs)
unfolding read_entries
read_entries-Reads [] db fs = (refl, refl)
read_entries-Reads (s ∷ ss) db fs =
    bound-Reads s (s ∷ ss) db _ (query (λ d. s) db fs)
      (λ fs'.
        bound-Reads ss (s ∷ ss) db _ (read_entries ss db fs') (λ fs''. (refl, refl))
          (read_entries-Reads ss db fs'))
      (query-Reads (λ d. s) db fs)

abbrev refreshes : PrefixSet → Bool
refreshes s = s.auto_refresh && not (is_empty s.source)

list_auto_refresh-Reads :
    (db : Db) (fs : Faults)
    → Reads (keep_if refreshes db.prefix_sets) db (list_auto_refresh_prefix_sets db fs)
unfolding list_auto_refresh_prefix_sets list_prefix_sets
list_auto_refresh-Reads db fs =
    bound-Reads db.prefix_sets (keep_if refreshes db.prefix_sets) db _ (list_prefix_sets db fs)
      (λ fs'. (refl, refl))
      (bound-Reads db.prefix_sets db.prefix_sets db read_entries (query (λ d. d.prefix_sets) db fs)
        (λ fs'. read_entries-Reads db.prefix_sets db fs') (query-Reads (λ d. d.prefix_sets) db fs))

read_members-Reads : (ss : List AsSet) (db : Db) (fs : Faults) → Reads ss db (read_members ss db fs)
unfolding read_members
read_members-Reads [] db fs = (refl, refl)
read_members-Reads (s ∷ ss) db fs =
    bound-Reads s (s ∷ ss) db _ (query (λ d. s) db fs)
      (λ fs'.
        bound-Reads ss (s ∷ ss) db _ (read_members ss db fs') (λ fs''. (refl, refl))
          (read_members-Reads ss db fs'))
      (query-Reads (λ d. s) db fs)

abbrev refreshes_as : AsSet → Bool
refreshes_as s = s.auto_refresh && not (is_empty s.source)

list_auto_refresh_as-Reads :
    (db : Db) (fs : Faults)
    → Reads (keep_if refreshes_as db.as_sets) db (list_auto_refresh_as_sets db fs)
unfolding list_auto_refresh_as_sets list_as_sets
list_auto_refresh_as-Reads db fs =
    bound-Reads db.as_sets (keep_if refreshes_as db.as_sets) db _ (list_as_sets db fs)
      (λ fs'. (refl, refl))
      (bound-Reads db.as_sets db.as_sets db read_members (query (λ d. d.as_sets) db fs)
        (λ fs'. read_members-Reads db.as_sets db fs') (query-Reads (λ d. d.as_sets) db fs))

-- A number stands for one set.
abbrev pub UniqueIds : List PrefixSet → Type 0
UniqueIds rows = All (λ s. All (λ r. Prefixes.at_id s.id r ≡ true → r ≡ s) rows) rows

module _ (rows : List PrefixSet) (as_rows : List AsSet) (policies : List PolicyRow) where
  Read-listed : UniqueIds rows → All (Read rows as_rows policies) (keep_if refreshes rows)
  Read-listed unique =
      All-map (λ s. All (λ r. Prefixes.at_id s.id r ≡ true → r ≡ s) rows)
        (Read rows as_rows policies) (keep_if refreshes rows)
        (λ s h.
          All-map (λ r. Prefixes.at_id s.id r ≡ true → r ≡ s)
            (λ r. Prefixes.at_id s.id r ≡ true → 0 < length r.entries → 0 < length s.entries) rows
            (λ r same e some_entries. subst (λ t. 0 < length t.entries) (same e) some_entries) h)
        (All-keep_if (λ s. All (λ r. Prefixes.at_id s.id r ≡ true → r ≡ s) rows) refreshes rows
          unique)

  listed-Kept :
      (run : Text → Bool → Answer Item) (db : Db) (xs : List PrefixSet)
      (r : Result (List PrefixSet) × Db × Faults)
      → All (Read rows as_rows policies) xs
      → Kept rows as_rows policies db
      → Reads xs db r
      → Kept rows as_rows policies ((listed (refresh_sets run) r).0)
  listed-Kept run db xs (ok ys, db', fs) h k (e, e') =
      rw (e, e') (refresh_sets-Kept rows as_rows policies run xs db fs h k)
  listed-Kept run db xs (err e, db', fs) h k e' = rw e' k

  listed_as-Kept :
      (run : Text → Answer ℕ) (db : Db) (xs : List AsSet) (r : Result (List AsSet) × Db × Faults)
      → Kept rows as_rows policies db
      → Reads xs db r
      → Kept rows as_rows policies ((listed (refresh_as_sets run) r).0)
  listed_as-Kept run db xs (ok ys, db', fs) k (e, e') =
      rw (e, e') (refresh_as_sets-Kept rows as_rows policies run xs db fs k)
  listed_as-Kept run db xs (err e, db', fs) k e' = rw e' k

-- Whatever bgpq4 answers and whatever call fails, a round of refreshes leaves every set, in its place,
-- with all that the operator edits as it was, and with entries if it had some; it leaves the policies as
-- they are. No two prefix sets have the same number.
pub refresh_irr_sets-Kept :
    (run : Text → Bool → Answer Item) (run_asns : Text → Answer ℕ) (db : Db) (fs : Faults)
    → UniqueIds db.prefix_sets
    → Kept db.prefix_sets db.as_sets db.policies ((refresh_irr_sets run run_asns db fs).0)
unfolding refresh_irr_sets
refresh_irr_sets-Kept run run_asns db fs unique =
    let start : Kept db.prefix_sets db.as_sets db.policies db = record {
      sets = All2-same KeptSet db.prefix_sets (λ s. record { same = refl; populated = λ h. h });
      as_sets = All2-same KeptAsSet db.as_sets (λ s. record { same = refl; populated = λ h. h });
      policies_same = refl;
    } in
    let first = listed (refresh_sets run) (list_auto_refresh_prefix_sets db fs) in
    listed_as-Kept db.prefix_sets db.as_sets db.policies run_asns (first.0)
      (keep_if refreshes_as (first.0).as_sets) (list_auto_refresh_as_sets (first.0) (first.1))
      (listed-Kept db.prefix_sets db.as_sets db.policies run db _ _
        (Read-listed db.prefix_sets db.as_sets db.policies unique) start
        (list_auto_refresh-Reads db fs))
      (list_auto_refresh_as-Reads (first.0) (first.1))
