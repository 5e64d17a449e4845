-- ===== src/Drift.antt =====
-- internal/web/drift.go: the watcher that alerts when the config on disk is no longer the one birdy
-- applied. It acts on the World of the apply pipeline, between two requests.
use birdy.Common.{
  ℕ, zero, suc, Bool, true, false, List, [], ◌∷◌, Option, none, some, Text, codes, text_eq,
  if◌then◌else◌,
}
use birdy.Apply.World.{World, ConfigVersion, Res, done, stop, Err, Event, drift_changed, drift_gone}
use birdy.Apply.Disk.{is_empty, read_logical_config}
use birdy.Apply.Versions.{pending_config_version, get_applied_hash}
use birdy.Apply.Handlers.{Env, emit_event}
pub mod Alarms
pub mod Once

-- The state on disk that was last alerted about, and the world.
abbrev pub Watch : Type 0
Watch = Text × World

-- One alert for each distinct drift.
abbrev pub alert_once : Text → Text → Event → World → Watch
alert_once last on_disk e w =
    if text_eq on_disk last then (last, w) else (on_disk, (emit_event e w).1)

abbrev pub compare_disk : Env → Text → Text → Res Err (Option Text) × World → Watch
compare_disk env last stored (stop e, w) = (last, w)
compare_disk env last stored (done none, w) = alert_once last (codes "<missing>") drift_gone w
compare_disk env last stored (done (some text), w) =
    if text_eq (env.hash text) stored
    then ([], w)
    else alert_once last (env.hash text) drift_changed w

-- A query of the pending version that fails does not end the check.
abbrev pub unless_pending : Env → Text → Text → Res Err (Option ConfigVersion) × World → Watch
unless_pending env last stored (done (some v), w) = (last, w)
unless_pending env last stored (done none, w) =
    compare_disk env last stored (read_logical_config env.config_dir w)
unless_pending env last stored (stop e, w) =
    compare_disk env last stored (read_logical_config env.config_dir w)

abbrev pub with_hash : Env → Text → Res Err Text × World → Watch
with_hash env last (stop e, w) = ([], w)
with_hash env last (done stored, w) =
    if is_empty stored then ([], w) else unless_pending env last stored (pending_config_version w)

pub check_drift : Env → Watch → Watch
check_drift env (last, w) = with_hash env last (get_applied_hash w)

-- `WatchDrift`: the ticks of the clock, with nothing in between.
pub watch_drift : Env → ℕ → Watch → Watch
unfolding check_drift
watch_drift env zero s = s
watch_drift env (suc n) s = watch_drift env n (check_drift env s)
