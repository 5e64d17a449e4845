-- ===== src/Apply/Requests.antt =====
-- internal/web/apply.go: the four endpoints, each under the apply lock.
use birdy.Common.{ℕ, Bool, true, false, not, ◌&&◌, ◌||◌, [], Option, none, some, if◌then◌else◌, ltb}
use birdy.Files.{FileSet, logical}
use birdy.Apply.World.{
  confirmed, reverted, ConfigVersion, World, Res, done, stop, ◌>>=◌, ◌>>◌, return, throw, orelse,
  configure_confirm, configure_undo, Reply, answer, apply_confirmed, rolled_back, adopted, send,
}
use birdy.Apply.Disk.{
  is_empty, read_logical_config, write_file_set, snapshot_config, rollback_config,
}
use birdy.Apply.Versions.{
  pending_config_version, resolve_config_version, confirm_applied_version, set_applied_config_hash,
}
use birdy.Apply.Handlers.{
  Env, cannot_render, acknowledge_risks, nothing_to_confirm, confirmed_now, nothing_to_roll_back,
  adopted_now, rolled_back_now, confirm_rejected, Response, bad_form, server_error, flash, Handler,
  write_guard, emit_event, on_disk_hash, reload_filters, reconcile_pending, can_start_apply,
  apply_config,
}

-- What the model renders to, made by code outside the pipeline: `renderInput`, `Lint`,
-- `sessionsWouldRemove` and `Files`.
pub data Plan : Type 0 where
  input_error no_config : Plan
  rendered : (dangers would_remove : ℕ) (set : Option FileSet) → Plan

pub record ApplyForm : Type 0 where
  pub parses : Bool
  pub ack_risks : Bool
  pub soft : Bool

abbrev pub apply_set : Env → Bool → Option FileSet → Handler Response
apply_set env soft none = throw (flash cannot_render)
apply_set env soft (some set) = apply_config env (logical set) set soft

unfoldable pub apply_plan : Env → ApplyForm → Plan → Handler Response
apply_plan env form input_error = throw server_error
apply_plan env form no_config = throw (flash cannot_render)
apply_plan env form (rendered dangers would_remove set) =
    if (ltb 0 dangers || ltb 0 would_remove) && not form.ack_risks
    then throw (flash acknowledge_risks)
    else apply_set env form.soft set

abbrev pub respond : Res Response Response × World → Response × World
respond (done r, w) = (r, w)
respond (stop r, w) = (r, w)

-- `handleApply`
unfoldable pub handle_apply : Env → ApplyForm → Plan → World → Response × World
handle_apply env form plan w = respond (
    (do
      can_start_apply env
      (if form.parses then return tt else throw bad_form)
      apply_plan env form plan)
      w)

-- `fileSetFor`
unfoldable pub file_set_for : Env → ConfigVersion → Option FileSet
file_set_for env v =
    if is_empty v.config_files
    then some (record { entry = v.config_text; includes = [] })
    else env.decode v.config_files

abbrev pub after_confirm : ConfigVersion → Reply → Handler (Unit {0})
after_confirm v (answer true) = return tt
after_confirm v r = do warn ← rollback_config v.backup_path; throw (flash (confirm_rejected warn))

abbrev pub confirm_set : ConfigVersion → Option FileSet → Handler Response
confirm_set v none = throw server_error
confirm_set v (some set) = do
  orelse (write_file_set set) server_error
  r ← send configure_confirm
  after_confirm v r
  orelse (confirm_applied_version v.id v.sha256 confirmed) server_error
  emit_event apply_confirmed
  return (flash confirmed_now)

abbrev confirm_found : Env → Option ConfigVersion → Handler Response
confirm_found env none = throw (flash nothing_to_confirm)
confirm_found env (some v) = confirm_set v (file_set_for env v)

-- `handleApplyConfirm`
unfoldable pub handle_apply_confirm : Env → World → Response × World
handle_apply_confirm env w = respond (
    (do
      write_guard env
      reconcile_pending env
      found ← orelse pending_config_version server_error
      confirm_found env found)
      w)

abbrev is_clean : Reply → Bool
is_clean (answer true) = true
is_clean _ = false

abbrev pub rollback_found : Option ConfigVersion → Handler Response
rollback_found none = throw (flash nothing_to_roll_back)
rollback_found (some v) = do
  r ← send configure_undo
  reload_filters
  orelse (resolve_config_version v.id reverted) server_error
  emit_event rolled_back
  return (flash (rolled_back_now (is_clean r)))

-- `handleApplyRollback`
unfoldable pub handle_apply_rollback : Env → World → Response × World
handle_apply_rollback env w = respond (
    (do write_guard env; found ← orelse pending_config_version server_error; rollback_found found)
      w)

-- `handleAdopt`
unfoldable pub handle_adopt : Env → World → Response × World
handle_adopt env w = respond (
    (do
      write_guard env
      backup ← orelse (snapshot_config env.stamp) server_error
      text ← orelse (read_logical_config env.config_dir) server_error
      orelse (set_applied_config_hash (on_disk_hash env text)) server_error
      emit_event adopted
      return (flash adopted_now))
      w)
