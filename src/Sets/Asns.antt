-- ===== src/Sets/Asns.antt =====
-- internal/store/assets.go; AS numbers are natural numbers.
use birdy.Common.{
  ℕ, Bool, not, ◌&&◌, List, [], ◌∷◌, ◌++◌, Text, is_empty, ◌==◌, ltb, leb, any_of, keep_if, length,
}
use birdy.Sets.{
  AsnRange, AsSet, PolicyRow, Db, M, ◌>>=◌, ◌>>◌, return, exec, exec_one, query, guard, transaction,
  update_where, insert_all, in_use,
}
use birdy.Sets.Prefixes.{is_some_of}

-- `Contains`
unfoldable pub contains : AsSet → ℕ → Bool
contains as_set asn = any_of (λ (e : AsnRange). leb e.low asn && leb asn e.high) as_set.entries

abbrev pub at_id : ℕ → AsSet → Bool
at_id id s = s.id == id

abbrev pub change_as_set : ℕ → (AsSet → AsSet) → Db → Db
change_as_set id f db = record db { as_sets = update_where (at_id id) f db.as_sets }

abbrev pub clear_members : ℕ → Db → Db
clear_members id = change_as_set id (λ s. record s { entries = [] })

abbrev pub add_member : ℕ → AsnRange → Db → Db
add_member id e = change_as_set id (λ s. record s { entries = s.entries ++ e ∷ [] })

unfoldable pub replace_as_set_entries : ℕ → List AsnRange → M (Unit {0})
unfolding exec insert_all update_where
replace_as_set_entries id entries = do exec (clear_members id); insert_all (add_member id) entries

abbrev pub stamp_as_refresh : ℕ → Db → Db
stamp_as_refresh id db =
    change_as_set id (λ s. record s { last_refreshed = db.now; refresh_error = [] }) db

unfoldable pub refresh_as_set_entries : ℕ → List AsnRange → M (Unit {0})
unfolding transaction replace_as_set_entries exec update_where
refresh_as_set_entries id entries =
    transaction (do replace_as_set_entries id entries; exec (stamp_as_refresh id))

unfoldable pub mark_as_set_refreshed : ℕ → M (Unit {0})
unfolding exec update_where
mark_as_set_refreshed id = exec (stamp_as_refresh id)

unfoldable pub mark_as_set_refresh_error : ℕ → Text → M (Unit {0})
unfolding exec update_where
mark_as_set_refresh_error id msg = exec (change_as_set id (λ s. record s { refresh_error = msg }))

-- The fields that the form edits.
abbrev edited_as : AsSet → AsSet → AsSet
edited_as as_set s = record s {
  name = as_set.name;
  description = as_set.description;
  source = as_set.source;
  auto_refresh = as_set.auto_refresh;
}

update_as_set : AsSet → M (Unit {0})
unfolding transaction exec_one replace_as_set_entries update_where
update_as_set as_set = transaction (do
  exec_one (λ db. any_of (at_id as_set.id) db.as_sets) (change_as_set as_set.id (edited_as as_set))
  replace_as_set_entries as_set.id as_set.entries)

-- `asSetEntries`, one query for each set.
unfoldable pub read_members : List AsSet → M (List AsSet)
unfolding query
read_members [] = return []
read_members (s ∷ ss) = do x ← query (λ db. s); rest ← read_members ss; return (x ∷ rest)

unfoldable pub list_as_sets : M (List AsSet)
unfolding query read_members
list_as_sets = do sets ← query (λ db. db.as_sets); read_members sets

unfoldable pub list_auto_refresh_as_sets : M (List AsSet)
unfolding list_as_sets
list_auto_refresh_as_sets = do
  all ← list_as_sets
  return (keep_if (λ (s : AsSet). s.auto_refresh && not (is_empty s.source)) all)

unfoldable pub as_set_usage : ℕ → M ℕ
unfolding query
as_set_usage id =
    query (λ db. length (keep_if (λ (p : PolicyRow). is_some_of id p.origin_as) db.policies))

unfoldable pub delete_as_set : ℕ → M (Unit {0})
unfolding as_set_usage exec_one
delete_as_set id = do
  uses ← as_set_usage id
  guard (not (ltb 0 uses)) in_use
  exec_one (λ db. any_of (at_id id) db.as_sets)
      (λ db. record db { as_sets = keep_if (λ s. not (at_id id s)) db.as_sets })
