-- ===== src/Irr/Guarded.antt =====
-- internal/web/irr_refresh.go: how the refresh of one set ends, whatever fails.
use birdy.Common.{
  ◌<◌, Bool, true, false, ◌&&◌, List, ◌∷◌, Text, codes, ◌≡◌, refl, ◌⊎◌, inl, inr, arith, length,
  ltb, Bool-cases, ◌==◌,
}
use birdy.Sets.{
  PrefixEntry, PrefixSet, Db, Faults, Result, ok, err, Event, emit_event, exec, exec_on, next_fault,
}
use birdy.Sets.Prefixes.{
  change_set, stamp_refresh, refresh_prefix_set_entries, mark_prefix_set_refreshed,
  mark_prefix_set_refresh_error,
}
use birdy.Sets.Commits.{EndsIn, exec-AllOrNone}
use birdy.Sets.Rows.{refreshed, refresh_prefix_set_entries-AllOrNone}
use birdy.Irr.Answers.{Answer, got, no_answer}
use birdy.Irr.{diff_entries, no_change, refresh_event, ignored, announced, refresh_one_set}

-- The alert goes out, and the timeline has it if it could be written.
pub record Announced (e : Event) (db db' : Db) : Type 0 where
  pub timeline : List Event
  pub recorded : (timeline ≡ db.timeline) ⊎ (timeline ≡ e ∷ db.timeline)
  pub result : db' ≡ record db { timeline = timeline; alerts = e ∷ db.alerts }

emitted :
    (e : Event) (db : Db) (n : Bool × Faults)
    → Announced e db (record ((exec_on (λ d. record d { timeline = e ∷ d.timeline }) db n).1) {
      alerts = e ∷ ((exec_on (λ d. record d { timeline = e ∷ d.timeline }) db n).1).alerts;
    })
emitted e db (true, fs) = record { timeline = db.timeline; recorded = inl refl; result = refl }
emitted e db (false, fs) = record { timeline = e ∷ db.timeline; recorded = inr refl; result = refl }

emit_event-Announced : (e : Event) (db : Db) (fs : Faults) → Announced e db ((emit_event e db fs).0)
unfolding emit_event exec
emit_event-Announced e db fs = emitted e db (next_fault fs)

-- Either the change is made and announced, or nothing happens.
pub announced-ends :
    (e : Event) (d db : Db) (r : Result (Unit {0}) × Db × Faults)
    → EndsIn d db r
    → ((announced e r).0 ≡ db) ⊎ Announced e d ((announced e r).0)
announced-ends e d db (ok u, db', fs) h = inr (rw (← h) (emit_event-Announced e db' fs))
announced-ends e d db (err f, db', fs) h = inl h

pub ignored-ends :
    (d db : Db) (r : Result (Unit {0}) × Db × Faults)
    → EndsIn d db r
    → ((ignored r).0 ≡ db) ⊎ ((ignored r).0 ≡ d)
ignored-ends d db (ok u, db', fs) h = inr h
ignored-ends d db (err f, db', fs) h = inl h

-- How a refresh of a set ends: nothing happens; or an error is noted; or the expansion is what the set
-- has, and the time is; or the set gets the expansion, which is empty only if the set was, an alert
-- goes out, and the timeline has it if it could be written.
pub data Ends (set : PrefixSet) (a : Answer PrefixEntry) (db : Db) : Db → Type 0 where
  unchanged : {db' : Db} → db' ≡ db → Ends set a db db'
  noted :
      {db' : Db} (msg : Text)
      → db' ≡ change_set set.id (λ s. record s { refresh_error = msg }) db
      → Ends set a db db'
  stamped :
      {db' : Db} (fresh : List PrefixEntry)
      → a ≡ got fresh
      → no_change (diff_entries set.entries fresh) ≡ true
      → db' ≡ stamp_refresh set.id db
      → Ends set a db db'
  replaced :
      {db' : Db} (fresh : List PrefixEntry)
      → a ≡ got fresh
      → no_change (diff_entries set.entries fresh) ≡ false
      → (0 < length set.entries → 0 < length fresh)
      → Announced
          (refresh_event (codes "Prefix set ") set.name set.source (diff_entries set.entries fresh))
          (refreshed set.id fresh db)
          db'
      → Ends set a db db'

module _ (set : PrefixSet) (db : Db) (fs : Faults) where
  error-Ends :
      (a : Answer PrefixEntry) (msg : Text)
      → Ends set a db ((ignored (mark_prefix_set_refresh_error set.id msg db fs)).0)
  unfolding mark_prefix_set_refresh_error
  error-Ends a msg =
      elim (ignored-ends _ db _
        (exec-AllOrNone (change_set set.id (λ s. record s { refresh_error = msg })) db fs)) [
          | inl e ↦ unchanged e
          | inr e ↦ noted msg e
        ]

  stamp-Ends :
      (fresh : List PrefixEntry)
      → no_change (diff_entries set.entries fresh) ≡ true
      → Ends set (got fresh) db ((ignored (mark_prefix_set_refreshed set.id db fs)).0)
  unfolding mark_prefix_set_refreshed
  stamp-Ends fresh h = elim (ignored-ends _ db _ (exec-AllOrNone (stamp_refresh set.id) db fs)) [
    | inl e ↦ unchanged e
    | inr e ↦ stamped fresh refl h e
  ]

  replace-Ends :
      (fresh : List PrefixEntry)
      → no_change (diff_entries set.entries fresh) ≡ false
      → (0 < length set.entries → 0 < length fresh)
      → Ends set (got fresh) db (
          (announced
            (refresh_event
              (codes "Prefix set ")
              set.name
              set.source
              (diff_entries set.entries fresh))
            (refresh_prefix_set_entries set.id fresh db fs)).0)
  replace-Ends fresh h full =
      elim (announced-ends _ (refreshed set.id fresh db) db _
        (refresh_prefix_set_entries-AllOrNone set.id fresh db fs)) [
          | inl e ↦ unchanged e
          | inr e ↦ replaced fresh refl h full e
        ]

  -- Whatever bgpq4 answers and whatever call fails, the refresh of a set ends so.
  pub refresh_one_set-Ends :
      (a : Answer PrefixEntry) → Ends set a db ((refresh_one_set a set db fs).0)
  unfolding refresh_one_set
  refresh_one_set-Ends (no_answer e) = error-Ends (no_answer e) e
  refresh_one_set-Ends (got fresh) =
      elim (Bool-cases (length fresh == 0 && ltb 0 (length set.entries))) [
        | inl wipes ↦ rw wipes (error-Ends (got fresh) _)
        | inr safe ↦ elim (Bool-cases (no_change (diff_entries set.entries fresh))) [
          | inl same ↦ rw (safe, same) (stamp-Ends fresh same)
          | inr new ↦ rw (safe, new) (replace-Ends fresh new (λ h. ground (arith, safe, h)))
        ]
      ]
