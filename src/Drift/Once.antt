-- ===== src/Drift/Once.antt =====
-- internal/web/drift.go with internal/web/apply.go: a drift is reported, and once.
use birdy.Common.{
  ℕ, zero, suc, false, [], ◌∷◌, Option, none, some, Text, codes, text_eq, text_eq_self,
  text_eq_sound, ◌≡◌, ◌≢◌, refl, ap, ◌∙◌, arith, inl, inr, Bool-cases,
}
use birdy.Apply.World.{World, Event, done, drift_changed, drift_gone, may_fail}
use birdy.Apply.Disk.{is_empty, read_logical_config}
use birdy.Apply.Versions.{pending_config_version, get_applied_hash, first_pending}
use birdy.Apply.Handlers.{Env, edited, authorship_of, emit_event}
use birdy.Apply.Steps.{logical_disk}
use birdy.Drift.{Watch, compare_disk, check_drift, watch_drift, alert_once}

abbrev logged : Event → World → World
logged e w = record w { events = e ∷ w.events; faults = [] }

-- What an edit is reported as, and how it is remembered.
abbrev pub kind_of : Option Text → Event
kind_of none = drift_gone
kind_of (some text) = drift_changed

abbrev mark : Env → Option Text → Text
mark env none = codes "<missing>"
mark env (some text) = env.hash text

-- No call of the file system or the database is to fail.
abbrev clear : World → World
clear w = record w { faults = [] }

nonempty_hash :
    (env : Env) (stored : Text) (found : Option Text)
    → authorship_of env stored found ≡ edited
    → is_empty stored ≡ false
unfolding authorship_of
nonempty_hash env stored none e = ground (arith, e)
nonempty_hash env stored (some text) e = ground (arith, e)

compare_disk-edited :
    (env : Env) (last stored : Text) (found : Option Text) (w : World)
    → authorship_of env stored found ≡ edited
    → compare_disk env last stored (done found, w)
      ≡ alert_once last (mark env found) (kind_of found) w
unfolding authorship_of
compare_disk-edited env last stored none w e = refl
compare_disk-edited env last stored (some text) w e = rw (text_other env stored text e) refl
  where
    text_other :
        (env : Env) (stored text : Text)
        → authorship_of env stored (some text) ≡ edited
        → text_eq (env.hash text) stored ≡ false
    text_other env stored text e = ground (arith, e)

check_drift-edited :
    (env : Env) (last : Text) (w : World)
    → first_pending w.versions ≡ none
    → authorship_of env w.applied_hash (logical_disk env w) ≡ edited
    → check_drift env (last, clear w)
      ≡ alert_once last (mark env (logical_disk env w)) (kind_of (logical_disk env w)) (clear w)
unfolding check_drift get_applied_hash may_fail pending_config_version read_logical_config
check_drift-edited env last w none_pending e =
    rw (nonempty_hash env w.applied_hash (logical_disk env w) e, none_pending)
      (compare_disk-edited env last w.applied_hash (logical_disk env w) (clear w) e)

emit_event-clear : (e : Event) (w : World) → (emit_event e (clear w)).1 ≡ logged e w
unfolding emit_event may_fail
emit_event-clear e w = refl

-- A drift that was alerted about is not alerted about again.
again :
    (env : Env) (n : ℕ) (w : World)
    → first_pending w.versions ≡ none
    → authorship_of env w.applied_hash (logical_disk env w) ≡ edited
    → watch_drift env n (mark env (logical_disk env w), clear w)
      ≡ (mark env (logical_disk env w), clear w)
unfolding watch_drift
again env zero w p e = refl
again env (suc n) w p e =
    let m = mark env (logical_disk env w) in
    ap (watch_drift env n)
      (check_drift-edited env m w p e ∙ known m (kind_of (logical_disk env w)) (clear w))
    ∙ again env n w p e
  where
    known : (m : Text) (k : Event) (w : World) → alert_once m m k w ≡ (m, w)
    known m k w = rw (text_eq_self m) refl

mark_not_empty :
    (env : Env) (found : Option Text)
    → ((text : Text) → env.hash text ≢ [])
    → text_eq (mark env found) [] ≡ false
unfolding text_eq
mark_not_empty env none h = refl
mark_not_empty env (some text) h = elim (Bool-cases (text_eq (env.hash text) [])) [
  | inl e ↦ absurd (h text (text_eq_sound (env.hash text) [] e))
  | inr e ↦ e
]

first_alert :
    (m : Text) (k : Event) (w : World)
    → text_eq m [] ≡ false
    → alert_once [] m k (clear w) ≡ (m, clear (logged k w))
first_alert m k w h = rw h (ap (λ (v : World). (m, v)) (emit_event-clear k w))

-- When the config on disk is not the one birdy applied, no apply is armed and no read fails, the
-- watcher records exactly one event, that of the edit or of the missing file, whatever number of times
-- it looks (at least once) while this lasts. No hash is the empty text.
pub watch_drift-once :
    (env : Env) (n : ℕ) (w : World)
    → w.faults ≡ []
    → first_pending w.versions ≡ none
    → authorship_of env w.applied_hash (logical_disk env w) ≡ edited
    → ((text : Text) → env.hash text ≢ [])
    → (watch_drift env (suc n) ([], w)).1.events ≡ kind_of (logical_disk env w) ∷ w.events
unfolding watch_drift
watch_drift-once env n w clean p e nonempty =
    let found = logical_disk env w in
    ap (λ s. (watch_drift env (suc n) ([], s)).1.events) (λ i. record w { faults = clean i })
    ∙ ap (λ s. (watch_drift env n s).1.events)
        (check_drift-edited env [] w p e
          ∙ first_alert (mark env found) (kind_of found) w (mark_not_empty env found nonempty))
    ∙ ap (λ (s : Watch). s.1.events) (again env n (logged (kind_of found) w) p e)
