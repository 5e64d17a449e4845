-- ===== src/Apply/Versions.antt =====
-- internal/store/configversions.go: the rows of applied configs. The list holds the newest first, as
-- `ORDER BY id DESC` does; a statement fails as a whole or not at all.
use birdy.Common.{
  ℕ, ◌+◌, Bool, true, false, ◌&&◌, List, [], ◌∷◌, Option, none, some, Text, if◌then◌else◌, ◌==◌,
  ltb, any_of,
}
use birdy.Apply.World.{
  Status, pending, ConfigVersion, done, stop, Io, ◌>>◌, Err, io_error, may_fail,
}

abbrev pub is_pending : Status → Bool
is_pending pending = true
is_pending _ = false

abbrev passed : Option ℕ → ℕ → Bool
passed none now = false
passed (some d) now = ltb d now

-- `ConfigVersion.Expired`
unfoldable pub expired : ConfigVersion → ℕ → Bool
expired v now = is_pending v.status && passed v.deadline now

unfoldable pub first_pending : List ConfigVersion → Option ConfigVersion
first_pending [] = none
first_pending (v ∷ vs) = if is_pending v.status then some v else first_pending vs

-- `PendingConfigVersion`
unfoldable pub pending_config_version : Io Err (Option ConfigVersion)
unfolding may_fail first_pending
pending_config_version = do may_fail; (λ w. (done (first_pending w.versions), w))

pub next_id : List ConfigVersion → ℕ
next_id [] = 1
next_id (v ∷ vs) = v.id + 1

-- `CreateConfigVersion`; the row's id is given by the database.
unfoldable pub create_config_version : ConfigVersion → Io Err ℕ
unfolding may_fail next_id
create_config_version v = do
  may_fail
  (λ w. (
    done (next_id w.versions),
    record w { versions = record v { id = next_id w.versions } ∷ w.versions },
  ))

abbrev resolved : Status → ConfigVersion → ConfigVersion
resolved s v = record v { status = s; deadline = none }

-- `UPDATE config_versions SET … WHERE id = ?`
unfoldable pub update_status : ℕ → Status → List ConfigVersion → List ConfigVersion
update_status id s [] = []
update_status id s (v ∷ vs) =
    let rest = update_status id s vs in (if v.id == id then resolved s v else v) ∷ rest

pub has_id : ℕ → List ConfigVersion → Bool
has_id id vs = any_of (λ (v : ConfigVersion). v.id == id) vs

-- `ResolveConfigVersion`: an error if there is no such row.
unfoldable pub resolve_config_version : ℕ → Status → Io Err (Unit {0})
unfolding may_fail update_status has_id
resolve_config_version id s = do
  may_fail
  (λ w.
      if has_id id w.versions
      then (done tt, record w { versions = update_status id s w.versions })
      else (stop io_error, w))

-- `ConfirmAppliedVersion`, one transaction.
unfoldable pub confirm_applied_version : ℕ → Text → Status → Io Err (Unit {0})
unfolding may_fail update_status has_id
confirm_applied_version id hash s = do
  may_fail
  (λ w.
      if has_id id w.versions
      then (done tt, record w { versions = update_status id s w.versions; applied_hash = hash })
      else (stop io_error, w))

-- `SetAppliedConfigHash`
unfoldable pub set_applied_config_hash : Text → Io Err (Unit {0})
unfolding may_fail
set_applied_config_hash hash = do may_fail; (λ w. (done tt, record w { applied_hash = hash }))

-- The one setting that the pipeline reads.
unfoldable pub get_applied_hash : Io Err Text
unfolding may_fail
get_applied_hash = do may_fail; (λ w. (done w.applied_hash, w))
