-- ===== src/Sets/Prefixes.antt =====
-- internal/store/prefixsets.go
use birdy.Common.{
  ℕ, ◌+◌, Bool, false, not, ◌&&◌, List, [], ◌∷◌, ◌++◌, Option, none, some, Text, is_empty, ◌==◌,
  ltb, any_of, keep_if, length,
}
use birdy.Sets.{
  PrefixEntry, PrefixSet, PolicyRow, Db, Result, M, ◌>>=◌, ◌>>◌, return, exec, exec_one, query,
  guard, transaction, update_where, insert_all, not_found, in_use, system_set,
}

-- `Pattern`
abbrev pub pattern : PrefixEntry → Text
pattern e = e.prefix ++ e.modifier

abbrev pub at_id : ℕ → PrefixSet → Bool
at_id id s = s.id == id

abbrev pub change_set : ℕ → (PrefixSet → PrefixSet) → Db → Db
change_set id f db = record db { prefix_sets = update_where (at_id id) f db.prefix_sets }

abbrev has_set : ℕ → Db → Bool
has_set id db = any_of (at_id id) db.prefix_sets

abbrev pub clear_entries : ℕ → Db → Db
clear_entries id = change_set id (λ s. record s { entries = [] })

abbrev pub add_entry : ℕ → PrefixEntry → Db → Db
add_entry id e = change_set id (λ s. record s { entries = s.entries ++ e ∷ [] })

unfoldable pub replace_entries : ℕ → List PrefixEntry → M (Unit {0})
unfolding exec insert_all update_where
replace_entries id entries = do exec (clear_entries id); insert_all (add_entry id) entries

abbrev pub stamp_refresh : ℕ → Db → Db
stamp_refresh id db =
    change_set id (λ s. record s { last_refreshed = db.now; refresh_error = [] }) db

unfoldable pub refresh_prefix_set_entries : ℕ → List PrefixEntry → M (Unit {0})
unfolding transaction replace_entries exec update_where
refresh_prefix_set_entries id entries =
    transaction (do replace_entries id entries; exec (stamp_refresh id))

unfoldable pub mark_prefix_set_refreshed : ℕ → M (Unit {0})
unfolding exec update_where
mark_prefix_set_refreshed id = exec (stamp_refresh id)

unfoldable pub mark_prefix_set_refresh_error : ℕ → Text → M (Unit {0})
unfolding exec update_where
mark_prefix_set_refresh_error id msg = exec (change_set id (λ s. record s { refresh_error = msg }))

-- The fields that the form edits.
abbrev pub edited : PrefixSet → PrefixSet → PrefixSet
edited ps s = record s {
  name = ps.name;
  description = ps.description;
  family = ps.family;
  originate = ps.originate;
  originate_action = ps.originate_action;
  source = ps.source;
  auto_refresh = ps.auto_refresh;
}

update_prefix_set : PrefixSet → M (Unit {0})
unfolding transaction exec_one replace_entries update_where
update_prefix_set ps =
    transaction
      (do exec_one (has_set ps.id) (change_set ps.id (edited ps)); replace_entries ps.id ps.entries)

set_prefix_set_disabled : ℕ → Bool → M (Unit {0})
unfolding exec_one update_where
set_prefix_set_disabled id disabled =
    exec_one (λ db. any_of (λ s. at_id id s && not s.system) db.prefix_sets)
      (λ db. record db {
        prefix_sets =
            update_where (λ s. at_id id s && not s.system) (λ s. record s { disabled = disabled })
              db.prefix_sets;
      })

-- Reading a set's entries, one query for each set.
unfoldable pub read_entries : List PrefixSet → M (List PrefixSet)
unfolding query
read_entries [] = return []
read_entries (s ∷ ss) = do x ← query (λ db. s); rest ← read_entries ss; return (x ∷ rest)

unfoldable pub list_prefix_sets : M (List PrefixSet)
unfolding query read_entries
list_prefix_sets = do sets ← query (λ db. db.prefix_sets); read_entries sets

unfoldable pub list_auto_refresh_prefix_sets : M (List PrefixSet)
unfolding list_prefix_sets
list_auto_refresh_prefix_sets = do
  all ← list_prefix_sets
  return (keep_if (λ (s : PrefixSet). s.auto_refresh && not (is_empty s.source)) all)

abbrev pub first_of : List PrefixSet → M PrefixSet
first_of [] = λ db fs. (Result.err not_found, db, fs)
first_of (s ∷ ss) = return s

unfoldable pub get_prefix_set : ℕ → M PrefixSet
unfolding query
get_prefix_set id = do
  s ← query (λ db. keep_if (at_id id) db.prefix_sets) >>= first_of
  query (λ db. s)

abbrev pub is_some_of : ℕ → Option ℕ → Bool
is_some_of id none = false
is_some_of id (some n) = n == id

abbrev pub rows_of : ℕ → List PolicyRow → ℕ
rows_of id [] = 0
rows_of id (p ∷ ps) = length (keep_if (λ n. n == id) p.set_ids) + rows_of id ps

-- `PrefixSetUsage`, of internal/store/policies.go
unfoldable pub prefix_set_usage : ℕ → M ℕ
unfolding query
prefix_set_usage id = do
  n ← query (λ db. rows_of id db.policies)
  m ← query (λ db. length (keep_if (λ (p : PolicyRow). is_some_of id p.accept_only) db.policies))
  return (n + m)

unfoldable pub delete_prefix_set : ℕ → M (Unit {0})
unfolding get_prefix_set prefix_set_usage exec_one
delete_prefix_set id = do
  ps ← get_prefix_set id
  guard (not ps.system) system_set
  uses ← prefix_set_usage id
  guard (not (ltb 0 uses)) in_use
  exec_one (has_set id)
      (λ db. record db { prefix_sets = keep_if (λ s. not (at_id id s)) db.prefix_sets })
