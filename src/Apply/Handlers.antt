-- ===== src/Apply/Handlers.antt =====
-- internal/web/apply.go: the gates of a request and the apply itself. Requests run under the apply
-- lock, so that they come one after another. What a handler is given by code outside the pipeline (settings of the server, SHA-256,
-- JSON, `bird -p`) is an Env.
use birdy.Common.{
  ℕ, ◌+◌, Bool, true, false, [], ◌∷◌, Option, none, some, Text, text_eq, if◌then◌else◌,
}
use birdy.Files.{FileSet}
use birdy.Apply.World.{
  pending, reverted, ConfigVersion, Res, done, stop, Io, ◌>>=◌, ◌>>◌, return, throw, Err, may_fail,
  attempt, orelse, configure_check, configure_timeout, reload_all, Reply, no_reply, answer, Event,
  applied, auto_reverted, send,
}
use birdy.Apply.Disk.{
  is_empty, read_logical_config, write_file_set, snapshot_config, restore_config, rollback_config,
}
use birdy.Apply.Versions.{
  expired, pending_config_version, create_config_version, resolve_config_version, get_applied_hash,
}

pub data Precheck : Type 0 where
  skipped passed rejected : Precheck

pub record Env : Type 0 where
  pub read_only : Bool
  pub apply_timeout : ℕ
  pub hash : Text → Text
  pub config_dir : Text  -- the directory of bird.conf
  pub stamp : ℕ → Text
  pub bird_p : Text → Precheck
  pub encode : FileSet → Text
  pub decode : Text → Option FileSet

-- `authorship`
pub data Authorship : Type 0 where
  owned absent foreign edited : Authorship

abbrev pub can_apply : Authorship → Bool
can_apply owned = true
can_apply absent = true
can_apply _ = false

-- What the operator is told; the last argument says whether the warning about a failed rollback is
-- appended.
pub data Notice : Type 0 where
  pending_apply cannot_render acknowledge_risks not_adopted already_applied bird_p_rejected : Notice
  no_backup armed nothing_to_confirm confirmed_now nothing_to_roll_back : Notice
  adopted_now : Notice
  rolled_back_now : Bool → Notice
  cannot_write check_rejected apply_rejected confirm_rejected : Bool → Notice

pub data Response : Type 0 where
  forbidden bad_form : Response
  server_error : Response
  flash : Notice → Response

abbrev pub Handler : Type 0 → Type 0
Handler = Io Response

-- `writeGuard`
unfoldable pub write_guard : Env → Handler (Unit {0})
write_guard env = if env.read_only then throw forbidden else return tt

abbrev log_event : {E : Type 0} → Event → Io E (Unit {0})
log_event e w = (done tt, record w { events = e ∷ w.events })

-- `emitEvent`: a failure to record the event is only logged.
unfoldable pub emit_event : Event → Handler (Unit {0})
emit_event e = do r ← attempt (may_fail >> log_event e); return tt

-- `birdConfState`, from the logical config on disk.
unfoldable pub authorship_of : Env → Text → Option Text → Authorship
authorship_of env stored none = if is_empty stored then absent else edited
authorship_of env stored (some text) =
    if is_empty stored then foreign else if text_eq (env.hash text) stored then owned else edited

-- The hash that `birdConfState` returns: empty if there is no config.
abbrev pub on_disk_hash : Env → Option Text → Text
on_disk_hash env none = []
on_disk_hash env (some text) = env.hash text

unfoldable pub bird_conf_state : Env → Text → Io Err (Authorship × Text)
bird_conf_state env stored = do
  text ← read_logical_config env.config_dir
  return (authorship_of env stored text, on_disk_hash env text)

-- `reloadFilters` with the note for the operator left out.
unfoldable pub reload_filters : Handler (Unit {0})
reload_filters = do r ← send reload_all; return tt

unfoldable pub revert_expired : Env → ConfigVersion → Handler (Unit {0})
revert_expired env v = do
  orelse (resolve_config_version v.id reverted) server_error
  emit_event auto_reverted
  reload_filters

abbrev pub reconcile_found : Env → Option ConfigVersion → Handler (Unit {0})
reconcile_found env none = return tt
reconcile_found env (some v) = λ w. if expired v w.now then revert_expired env v w else (done tt, w)

-- `reconcilePending`
unfoldable pub reconcile_pending : Env → Handler (Unit {0})
reconcile_pending env = do
  found ← orelse pending_config_version server_error
  reconcile_found env found

abbrev pub no_pending : Option ConfigVersion → Handler (Unit {0})
no_pending none = return tt
no_pending (some v) = throw (flash pending_apply)

-- `canStartApply`
unfoldable pub can_start_apply : Env → Handler (Unit {0})
can_start_apply env = do
  write_guard env
  reconcile_pending env
  found ← orelse pending_config_version server_error
  no_pending found

-- `applyConfig`

abbrev pub refuse_rejected : Precheck → Handler (Unit {0})
refuse_rejected rejected = throw (flash bird_p_rejected)
refuse_rejected _ = return tt

abbrev pub after_write : Text → Res Err (Unit {0}) → Handler (Unit {0})
after_write backup (done a) = return tt
after_write backup (stop e) = do warn ← rollback_config backup; throw (flash (cannot_write warn))

abbrev pub after_check : Text → Reply → Handler (Unit {0})
after_check backup no_reply = do warn ← rollback_config backup; throw server_error
after_check backup (answer false) = do
  warn ← rollback_config backup
  throw (flash (check_rejected warn))
after_check backup (answer true) = return tt

abbrev pub after_timeout : Text → Reply → Handler (Unit {0})
after_timeout backup no_reply = do warn ← rollback_config backup; throw server_error
after_timeout backup (answer false) = do
  warn ← rollback_config backup
  throw (flash (apply_rejected warn))
after_timeout backup (answer true) = return tt

-- The gates of `applyConfig`, before anything is touched.
unfoldable pub pre_apply : Env → Text → Handler (Unit {0})
pre_apply env cfg = do
  stored ← orelse get_applied_hash server_error
  (auth, on_disk) ← orelse (bird_conf_state env stored) server_error
  (if can_apply auth then return tt else throw (flash not_adopted))
  (if text_eq on_disk (env.hash cfg) then throw (flash already_applied) else return tt)
  refuse_rejected (env.bird_p cfg)

unfoldable pub write_or_undo : Text → FileSet → Handler (Unit {0})
write_or_undo backup set = do written ← attempt (write_file_set set); after_write backup written

unfoldable pub check_or_undo : Text → Handler (Unit {0})
check_or_undo backup = do r ← send configure_check; after_check backup r

unfoldable pub timeout_or_undo : Env → Text → Bool → Handler (Unit {0})
timeout_or_undo env backup soft = do
  r ← send (configure_timeout env.apply_timeout soft)
  after_timeout backup r

unfoldable pub reload_if : Bool → Handler (Unit {0})
reload_if true = reload_filters
reload_if false = return tt

-- The write and the commands.
unfoldable pub arm : Env → Text → FileSet → Bool → Handler (Unit {0})
arm env backup set soft = do
  write_or_undo backup set
  check_or_undo backup
  timeout_or_undo env backup soft
  reload_if soft

abbrev pub new_version : Env → Text → Text → FileSet → ℕ → ConfigVersion
new_version env backup cfg set now = record {
  id = 0;
  sha256 = env.hash cfg;
  config_text = cfg;
  backup_path = backup;
  status = pending;
  deadline = some (now + env.apply_timeout);
  config_files = env.encode set;
}

-- The previous config goes back on disk, and the new one into a pending version.
unfoldable pub settle : Env → Text → Text → FileSet → Handler Response
settle env backup cfg set = do
  orelse (restore_config backup) server_error
  orelse may_fail server_error
  id ← orelse (λ w. create_config_version (new_version env backup cfg set w.now) w) server_error
  emit_event applied
  return (flash armed)

-- `applyConfig`
unfoldable pub apply_config : Env → Text → FileSet → Bool → Handler Response
apply_config env cfg set soft = do
  pre_apply env cfg
  backup ← orelse (snapshot_config env.stamp) (flash no_backup)
  arm env backup set soft
  settle env backup cfg set
