-- ===== src/Sets/Rows.antt =====
-- internal/store/prefixsets.go and assets.go: what a refresh does to the row of its set.
use birdy.Common.{ℕ, List, [], ◌∷◌, ◌++◌, ◌≡◌, refl, ◌∙◌, ap, sym, append_assoc, append-nil}
use mathlib.Core.Path.{subst, fun_ext}
use birdy.Sets.{PrefixEntry, PrefixSet, AsnRange, AsSet, Db, exec, insert_all}
use birdy.Sets.Prefixes.{
  change_set, clear_entries, add_entry, replace_entries, stamp_refresh, refresh_prefix_set_entries,
}
use birdy.Sets.Prefixes
use birdy.Sets.Asns
use birdy.Sets.Asns.{
  change_as_set, clear_members, add_member, replace_as_set_entries, stamp_as_refresh,
  refresh_as_set_entries,
}
use birdy.Sets.Commits.{
  AllOrNone, exec-Does, then-Does, transaction-AllOrNone, added, insert_all-Does,
  update_where-twice,
}

module _ (id : ℕ) where
  -- The set with these entries, refreshed at this time.
  abbrev pub refreshed : List PrefixEntry → Db → Db
  refreshed entries db =
      change_set id
        (λ s. record s { entries = entries; last_refreshed = db.now; refresh_error = [] }) db

  change_set-twice :
      (f g : PrefixSet → PrefixSet) (db : Db)
      → ((s : PrefixSet) → Prefixes.at_id id (f s) ≡ Prefixes.at_id id s)
      → change_set id g (change_set id f db) ≡ change_set id (λ s. g (f s)) db
  change_set-twice f g db h =
      ap (λ ss. record db { prefix_sets = ss })
        (update_where-twice (Prefixes.at_id id) f g db.prefix_sets h)

  add_entries :
      (es before : List PrefixEntry) (db : Db)
      → added (add_entry id) es (change_set id (λ s. record s { entries = before }) db)
        ≡ change_set id (λ s. record s { entries = before ++ es }) db
  add_entries [] before db =
      ap (λ es. change_set id (λ s. record s { entries = es }) db) (sym (append-nil before))
  add_entries (e ∷ es) before db =
      ap (added (add_entry id) es) (
        change_set-twice (λ s. record s { entries = before })
          (λ s. record s { entries = s.entries ++ e ∷ [] }) db (λ s. refl))
      ∙ (add_entries es (before ++ e ∷ []) db
          ∙ ap (λ es'. change_set id (λ s. record s { entries = es' }) db)
              (append_assoc before (e ∷ []) es))

  replaced :
      (es : List PrefixEntry) (db : Db)
      → stamp_refresh id (added (add_entry id) es (clear_entries id db)) ≡ refreshed es db
  replaced es db =
      ap (stamp_refresh id) (add_entries es [] db)
      ∙ change_set-twice (λ s. record s { entries = es })
          (λ s. record s { last_refreshed = db.now; refresh_error = [] }) db (λ s. refl)

  -- A refresh of the set gives it these entries and the time, or changes nothing.
  pub refresh_prefix_set_entries-AllOrNone :
      (es : List PrefixEntry) → AllOrNone (refreshed es) (refresh_prefix_set_entries id es)
  unfolding refresh_prefix_set_entries replace_entries
  refresh_prefix_set_entries-AllOrNone es =
      subst (λ change. AllOrNone change (refresh_prefix_set_entries id es)) (fun_ext (replaced es))
        (transaction-AllOrNone _ _ (
          then-Does _ (exec (stamp_refresh id)) _ (stamp_refresh id)
            (then-Does (exec (clear_entries id)) (insert_all (add_entry id) es) (clear_entries id)
              (added (add_entry id) es) (exec-Does (clear_entries id))
              (insert_all-Does (add_entry id) es))
            (exec-Does (stamp_refresh id))))

  -- The AS set with these members, refreshed at this time.
  abbrev pub refreshed_as : List AsnRange → Db → Db
  refreshed_as entries db =
      change_as_set id
        (λ s. record s { entries = entries; last_refreshed = db.now; refresh_error = [] }) db

  change_as_set-twice :
      (f g : AsSet → AsSet) (db : Db)
      → ((s : AsSet) → Asns.at_id id (f s) ≡ Asns.at_id id s)
      → change_as_set id g (change_as_set id f db) ≡ change_as_set id (λ s. g (f s)) db
  change_as_set-twice f g db h =
      ap (λ ss. record db { as_sets = ss }) (update_where-twice (Asns.at_id id) f g db.as_sets h)

  add_members :
      (es before : List AsnRange) (db : Db)
      → added (add_member id) es (change_as_set id (λ s. record s { entries = before }) db)
        ≡ change_as_set id (λ s. record s { entries = before ++ es }) db
  add_members [] before db =
      ap (λ es. change_as_set id (λ s. record s { entries = es }) db) (sym (append-nil before))
  add_members (e ∷ es) before db =
      ap (added (add_member id) es) (
        change_as_set-twice (λ s. record s { entries = before })
          (λ s. record s { entries = s.entries ++ e ∷ [] }) db (λ s. refl))
      ∙ (add_members es (before ++ e ∷ []) db
          ∙ ap (λ es'. change_as_set id (λ s. record s { entries = es' }) db)
              (append_assoc before (e ∷ []) es))

  replaced_as :
      (es : List AsnRange) (db : Db)
      → stamp_as_refresh id (added (add_member id) es (clear_members id db)) ≡ refreshed_as es db
  replaced_as es db =
      ap (stamp_as_refresh id) (add_members es [] db)
      ∙ change_as_set-twice (λ s. record s { entries = es })
          (λ s. record s { last_refreshed = db.now; refresh_error = [] }) db (λ s. refl)

  -- A refresh of the AS set gives it these members and the time, or changes nothing.
  pub refresh_as_set_entries-AllOrNone :
      (es : List AsnRange) → AllOrNone (refreshed_as es) (refresh_as_set_entries id es)
  unfolding refresh_as_set_entries replace_as_set_entries
  refresh_as_set_entries-AllOrNone es =
      subst (λ change. AllOrNone change (refresh_as_set_entries id es)) (fun_ext (replaced_as es))
        (transaction-AllOrNone _ _ (
          then-Does _ (exec (stamp_as_refresh id)) _ (stamp_as_refresh id)
            (then-Does (exec (clear_members id)) (insert_all (add_member id) es) (clear_members id)
              (added (add_member id) es) (exec-Does (clear_members id))
              (insert_all-Does (add_member id) es))
            (exec-Does (stamp_as_refresh id))))
