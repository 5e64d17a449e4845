-- ===== src/Irr/Kept.antt =====
-- internal/web/irr_refresh.go: what the refresh of one set after the other leaves of the tables.
use birdy.Common.{
  ℕ, ◌<◌, Bool, true, List, [], ◌∷◌, Text, codes, ◌≡◌, refl, ◌∙◌, ap, sym, inl, inr, arith, length,
  Bool-cases, ◌==◌, All, text_eq,
}
use birdy.Sets.{PrefixEntry, PrefixSet, AsnRange, AsSet, PolicyRow, Db, Faults, update_where}
use birdy.Sets.Prefixes
use birdy.Sets.Prefixes.{
  change_set, stamp_refresh, read_entries, list_prefix_sets, list_auto_refresh_prefix_sets,
}
use birdy.Sets.Asns
use birdy.Sets.Asns.{
  change_as_set, stamp_as_refresh, mark_as_set_refresh_error, mark_as_set_refreshed,
  refresh_as_set_entries, read_members, list_as_sets, list_auto_refresh_as_sets,
}
use birdy.Sets.Commits.{exec-AllOrNone}
use birdy.Sets.Rows.{refreshed, refreshed_as, refresh_as_set_entries-AllOrNone}
use birdy.Irr.Answers.{Answer, got, no_answer, Item, prefixes, asns}
use birdy.Irr.{
  ipv6, diff_asns, no_change, refresh_event, ignored, announced, fresh_members, refresh_one_as_set,
  refresh_sets, refresh_as_sets,
}
use birdy.Irr.Guarded.{
  announced-ends, ignored-ends, Ends, unchanged, noted, stamped, replaced, refresh_one_set-Ends,
}

-- The rows of two tables, one by one.
abbrev All2 : {A : Type 0} → (A → A → Type 0) → List A → List A → Type 0
All2 K [] [] = Unit
All2 K [] (y ∷ ys) = ⊥
All2 K (x ∷ xs) [] = ⊥
All2 K (x ∷ xs) (y ∷ ys) = K x y × All2 K xs ys

pub All2-same : {A : Type 0} (K : A → A → Type 0) (xs : List A) → ((x : A) → K x x) → All2 K xs xs
All2-same K [] h = tt
All2-same K (x ∷ xs) h = (h x, All2-same K xs h)

module _ {A : Type 0} (K : A → A → Type 0) (p : A → Bool) (f : A → A) (C : A → Type 0)
    (step : (x y : A) → K x y → C x → p y ≡ true → K x (f y)) where
  All2-update : (xs ys : List A) → All2 K xs ys → All C xs → All2 K xs (update_where p f ys)
  unfolding update_where
  All2-update [] [] h c = tt
  All2-update [] (y ∷ ys) h c = h
  All2-update (x ∷ xs) [] h c = h
  All2-update (x ∷ xs) (y ∷ ys) (h, hs) (c, cs) = elim (Bool-cases (p y)) [
    | inl e ↦ rw e (step x y h c e, All2-update xs ys hs cs)
    | inr e ↦ rw e (h, All2-update xs ys hs cs)
  ]

-- What the form edits, without the entries and the bookkeeping of the refresh.
abbrev operator_part : PrefixSet → PrefixSet
operator_part s = record s { last_refreshed = []; refresh_error = []; entries = [] }

-- A set is the operator's as before, and has entries if it had.
pub record KeptSet (s t : PrefixSet) : Type 0 where
  pub same : operator_part t ≡ operator_part s
  pub populated : 0 < length s.entries → 0 < length t.entries

abbrev operator_part_as : AsSet → AsSet
operator_part_as s = record s { last_refreshed = []; refresh_error = []; entries = [] }

pub record KeptAsSet (s t : AsSet) : Type 0 where
  pub same : operator_part_as t ≡ operator_part_as s
  pub populated : 0 < length s.entries → 0 < length t.entries

module _ (rows : List PrefixSet) (as_rows : List AsSet) (policies : List PolicyRow) where
  -- The tables against those at the start.
  pub record Kept (db : Db) : Type 0 where
    pub sets : All2 KeptSet rows db.prefix_sets
    pub as_sets : All2 KeptAsSet as_rows db.as_sets
    pub policies_same : db.policies ≡ policies

  -- A set that was read has entries if its row had some at the start.
  abbrev pub Read : PrefixSet → Type 0
  Read set =
      All (λ r. Prefixes.at_id set.id r ≡ true → 0 < length r.entries → 0 < length set.entries) rows

  module _ (set : PrefixSet) (read : Read set) (db : Db) (k : Kept db) where
    change-Kept :
        (f : PrefixSet → PrefixSet)
        → ((s : PrefixSet) → operator_part (f s) ≡ operator_part s)
        → ((s : PrefixSet)
            → 0 < length s.entries
            → 0 < length set.entries
            → 0 < length ((f s).entries))
        → Kept (change_set set.id f db)
    change-Kept f same full = record {
      sets =
          All2-update KeptSet (Prefixes.at_id set.id) f
            (λ r. Prefixes.at_id set.id r ≡ true → 0 < length r.entries → 0 < length set.entries)
            (λ r s h c e. record {
              same = same s ∙ h.same;
              populated = λ some_entries.
                  full s (h.populated some_entries)
                    (c (ap (Prefixes.at_id set.id) (sym h.same) ∙ e) some_entries);
            })
            rows db.prefix_sets k.sets read;
      as_sets = k.as_sets;
      policies_same = k.policies_same;
    }

    Ends-Kept : (a : Answer PrefixEntry) {db' : Db} → Ends set a db db' → Kept db'
    Ends-Kept a (unchanged e) = rw e k
    Ends-Kept a (noted msg e) =
        rw e (change-Kept (λ s. record s { refresh_error = msg }) (λ s. refl) (λ s h i. h))
    Ends-Kept a (stamped fresh e f g) = rw g (
        change-Kept (λ s. record s { last_refreshed = db.now; refresh_error = [] }) (λ s. refl)
          (λ s h i. h))
    Ends-Kept a (replaced fresh e f full h) =
        let kept : Kept (refreshed set.id fresh db) =
          change-Kept
            (λ s. record s { entries = fresh; last_refreshed = db.now; refresh_error = [] })
            (λ s. refl) (λ s i j. full j) in
        rw h.result
          (record { sets = kept.sets; as_sets = kept.as_sets; policies_same = kept.policies_same })

  pub refresh_sets-Kept :
      (run : Text → Bool → Answer Item) (sets : List PrefixSet) (db : Db) (fs : Faults)
      → All Read sets
      → Kept db
      → Kept ((refresh_sets run sets db fs).0)
  unfolding refresh_sets
  refresh_sets-Kept run [] db fs h k = k
  refresh_sets-Kept run (s ∷ sets) db fs (h, hs) k = refresh_sets-Kept run sets _ _ hs (
      Ends-Kept s h db k (prefixes run s.source (text_eq s.family ipv6))
        (refresh_one_set-Ends s db fs _))

  module _ (set : AsSet) (db : Db) (fs : Faults) (k : Kept db) where
    change_as-Kept :
        (f : AsSet → AsSet)
        → ((s : AsSet) → operator_part_as (f s) ≡ operator_part_as s)
        → ((s : AsSet) → 0 < length s.entries → 0 < length ((f s).entries))
        → Kept (change_as_set set.id f db)
    change_as-Kept f same full = record {
      sets = k.sets;
      as_sets =
          All2-update KeptAsSet (Asns.at_id set.id) f (λ r. Unit {0})
            (λ r s h c e. record {
              same = same s ∙ h.same;
              populated = λ some_entries. full s (h.populated some_entries);
            })
            as_rows db.as_sets k.as_sets (all_unit as_rows);
      policies_same = k.policies_same;
    }
      where
        all_unit : (xs : List AsSet) → All (λ x. Unit {0}) xs
        all_unit [] = tt
        all_unit (x ∷ xs) = (tt, all_unit xs)

    error-Kept : (msg : Text) → Kept ((ignored (mark_as_set_refresh_error set.id msg db fs)).0)
    unfolding mark_as_set_refresh_error
    error-Kept msg =
        elim (ignored-ends _ db _
          (exec-AllOrNone (change_as_set set.id (λ s. record s { refresh_error = msg })) db fs)) [
            | inl e ↦ rw e k
            | inr e ↦
                rw e (change_as-Kept (λ s. record s { refresh_error = msg }) (λ s. refl) (λ s h. h))
          ]

    stamp-Kept : Kept ((ignored (mark_as_set_refreshed set.id db fs)).0)
    unfolding mark_as_set_refreshed
    stamp-Kept = elim (ignored-ends _ db _ (exec-AllOrNone (stamp_as_refresh set.id) db fs)) [
      | inl e ↦ rw e k
      | inr e ↦ rw e (
          change_as-Kept (λ s. record s { last_refreshed = db.now; refresh_error = [] }) (λ s. refl)
            (λ s h. h))
    ]

    replace-Kept :
        (fresh : List AsnRange)
        → 0 < length fresh
        → Kept (
            (announced
              (refresh_event (codes "AS set ") set.name set.source (diff_asns set.entries fresh))
              (refresh_as_set_entries set.id fresh db fs)).0)
    replace-Kept fresh some_members =
        elim (announced-ends
          (refresh_event (codes "AS set ") set.name set.source (diff_asns set.entries fresh))
          (refreshed_as set.id fresh db) db _
          (refresh_as_set_entries-AllOrNone set.id fresh db fs)) [
            | inl e ↦ rw e k
            | inr h ↦
                let kept : Kept (refreshed_as set.id fresh db) =
                  change_as-Kept
                    (λ s. record s { entries = fresh; last_refreshed = db.now; refresh_error = [] })
                    (λ s. refl) (λ s i. some_members) in
                rw h.result (record {
                  sets = kept.sets;
                  as_sets = kept.as_sets;
                  policies_same = kept.policies_same;
                })
          ]

    length-fresh_members :
        (old : List AsnRange) (found : List ℕ) → length (fresh_members old found) ≡ length found
    unfolding fresh_members
    length-fresh_members old [] = refl
    length-fresh_members old (n ∷ found) = omega (arith, length-fresh_members old found)

    refresh_one_as_set-Kept : (a : Answer ℕ) → Kept ((refresh_one_as_set a set db fs).0)
    unfolding refresh_one_as_set
    refresh_one_as_set-Kept (no_answer e) = error-Kept e
    refresh_one_as_set-Kept (got found) = elim (Bool-cases (length found == 0)) [
      | inl none_found ↦ rw none_found (error-Kept _)
      | inr some_found ↦
          elim (Bool-cases (no_change (diff_asns set.entries (fresh_members set.entries found)))) [
            | inl same ↦ rw (some_found, same) stamp-Kept
            | inr new ↦
                rw (some_found, new)
                  (replace-Kept (fresh_members set.entries found)
                    (ground (arith, some_found, length-fresh_members set.entries found)))
          ]
    ]

  pub refresh_as_sets-Kept :
      (run : Text → Answer ℕ) (sets : List AsSet) (db : Db) (fs : Faults)
      → Kept db
      → Kept ((refresh_as_sets run sets db fs).0)
  unfolding refresh_as_sets
  refresh_as_sets-Kept run [] db fs k = k
  refresh_as_sets-Kept run (s ∷ sets) db fs k =
      refresh_as_sets-Kept run sets _ _ (refresh_one_as_set-Kept s db fs k (asns run s.source))
