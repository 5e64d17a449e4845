-- ===== src/Drift/Alarms.antt =====
-- internal/web/drift.go with internal/web/apply.go: no alarm without a drift.
use birdy.Common.{
  ℕ, zero, suc, false, Option, none, some, Text, text_eq, ◌≡◌, ◌≢◌, sym, ap, ◌∙◌, arith, inl, inr,
  Bool-cases,
}
use mathlib.Core.Path.{subst}
use birdy.Apply.World.{World, ConfigVersion, Res, done, Err, Ends, ends_done, ends_stop, Ends-map}
use birdy.Apply.Disk.{is_empty, read_logical_config}
use birdy.Apply.Versions.{pending_config_version, get_applied_hash, first_pending}
use birdy.Apply.Handlers.{Env, edited, authorship_of}
use birdy.Apply.Effects.{Same}
use birdy.Apply.Steps.{
  Same-trans, logical_disk, logical_disk-Same, get_applied_hash-Ends, read_logical_config-Ends,
  Reads, Reads-Ends,
}
use birdy.Drift.{Watch, compare_disk, unless_pending, with_hash, check_drift, watch_drift}

-- A check that changes nothing but the failures to come.
abbrev Quiet : World → Watch → Type 0
Quiet v (last, w) = Same v w

-- What is on disk is not an edit of the config of this hash.
abbrev Calm : Env → Text → Option Text → Type 0
Calm env stored found = authorship_of env stored found ≢ edited

Quiet-compare_disk :
    (env : Env) (last stored : Text) (found : Option Text) (v w : World)
    → is_empty stored ≡ false
    → Calm env stored found
    → Same v w
    → Quiet v (compare_disk env last stored (done found, w))
unfolding authorship_of
Quiet-compare_disk env last stored none v w h calm s = absurd (calm (ground (arith, h)))
Quiet-compare_disk env last stored (some text) v w h calm s =
    elim (Bool-cases (text_eq (env.hash text) stored)) [
      | inl e ↦ rw e s
      | inr e ↦ absurd (calm (ground (arith, h, e)))
    ]

module _ (env : Env) (last stored : Text) (v : World) (full : is_empty stored ≡ false)
    (calm : Calm env stored (logical_disk env v)) where
  Quiet-read :
      (w : World) (r : Res Err (Option Text) × World)
      → Same v w
      → Ends (Reads (logical_disk env w) w) (λ _ x. Same w x) r
      → Quiet v (compare_disk env last stored r)
  Quiet-read w _ s (ends_stop t) = Same-trans s t
  Quiet-read w _ s (ends_done {a = a} {w = x} (t, e)) =
      Quiet-compare_disk env last stored a v x full
        (subst (Calm env stored) (sym (e ∙ logical_disk-Same env s)) calm) (Same-trans s t)

  Quiet-unless_pending :
      (w : World) (r : Res Err (Option ConfigVersion) × World)
      → Same v w
      → Ends (λ _ x. Same w x) (λ _ x. Same w x) r
      → Quiet v (unless_pending env last stored r)
  Quiet-unless_pending w _ s (ends_stop {w = x} t) =
      Quiet-read x (read_logical_config env.config_dir x) (Same-trans s t)
        (read_logical_config-Ends env x)
  Quiet-unless_pending w _ s (ends_done {a = none} {w = x} t) =
      Quiet-read x (read_logical_config env.config_dir x) (Same-trans s t)
        (read_logical_config-Ends env x)
  Quiet-unless_pending w _ s (ends_done {a = some u} {w = x} t) = Same-trans s t

pending-Ends : (v : World) → Ends (λ _ w. Same v w) (λ _ w. Same v w) (pending_config_version v)
unfolding pending_config_version
pending-Ends v =
    Ends-map (Reads-Ends (λ w. first_pending w.versions) v (λ w s. ap first_pending (s.0.versions)))
      (λ _ _ r. r.0) (λ _ _ s. s)

Quiet-with_hash :
    (env : Env) (last : Text) (v : World) (r : Res Err Text × World)
    → Calm env v.applied_hash (logical_disk env v)
    → Ends (Reads v.applied_hash v) (λ _ w. Same v w) r
    → Quiet v (with_hash env last r)
Quiet-with_hash env last v _ calm (ends_stop t) = t
Quiet-with_hash env last v _ calm (ends_done {a = stored} {w = w} (t, e)) =
    elim (Bool-cases (is_empty stored)) [
      | inl q ↦ rw q t
      | inr q ↦ rw q (
          Quiet-unless_pending env last stored v q
            (subst (λ h. Calm env h (logical_disk env v)) (sym e) calm) w (pending_config_version w)
            t (pending-Ends w))
    ]

Quiet-check_drift :
    (env : Env) (last : Text) (v : World)
    → Calm env v.applied_hash (logical_disk env v)
    → Quiet v (check_drift env (last, v))
unfolding check_drift
Quiet-check_drift env last v calm =
    Quiet-with_hash env last v (get_applied_hash v) calm (get_applied_hash-Ends v)

Calm-Same :
    (env : Env) (v w : World)
    → Same v w
    → Calm env v.applied_hash (logical_disk env v)
    → Calm env w.applied_hash (logical_disk env w)
Calm-Same env v w s calm e = calm (
    ap (λ h. authorship_of env h (logical_disk env v)) (sym (s.0.applied_hash))
    ∙ ap (authorship_of env w.applied_hash) (sym (logical_disk-Same env s))
    ∙ e)

events_run :
    (env : Env) (n : ℕ) (v : World) (s : Watch)
    → Calm env v.applied_hash (logical_disk env v)
    → Quiet v s
    → (watch_drift env n s).1.events ≡ v.events
unfolding watch_drift
events_run env zero v (last, w) calm q = q.0.events
events_run env (suc n) v (last, w) calm q =
    let calm' = Calm-Same env v w q calm in
    events_run env n w (check_drift env (last, w)) calm' (Quiet-check_drift env last w calm')
    ∙ q.0.events

-- While what is on disk is not an edit of the config that birdy applied (it is that config, or birdy
-- owns none), the watcher records no event, however often it looks and whichever reads fail.
pub watch_drift-quiet :
    (env : Env) (n : ℕ) (last : Text) (w : World)
    → authorship_of env w.applied_hash (logical_disk env w) ≢ edited
    → (watch_drift env n (last, w)).1.events ≡ w.events
watch_drift-quiet env n last w calm = events_run env n w (last, w) calm (ground arith)
