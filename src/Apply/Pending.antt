-- ===== src/Apply/Pending.antt =====
-- internal/web/apply.go and internal/store/configversions.go: at most one apply is ever pending.
use birdy.Common.{
  ℕ, ◌+◌, ◌≤◌, false, List, [], ◌∷◌, Option, none, some, if◌then◌else◌, ◌≡◌, refl, ap, ◌∙◌, sym,
  arith, inl, inr, Bool-cases,
}
use birdy.Apply.World.{
  Status, reverted, ConfigVersion, World, reload_all, auto_reverted, Ends, ends_done, ends_stop,
  Ends-bind, Ends-map, Ends-orelse,
}
use birdy.Apply.Effects.{Same, may_fail-Ends}
use birdy.Apply.Versions.{
  is_pending, expired, first_pending, pending_config_version, resolve_config_version, update_status,
  has_id,
}
use birdy.Apply.Handlers.{
  Env, server_error, write_guard, reconcile_pending, reconcile_found, revert_expired,
  can_start_apply, no_pending, reload_filters,
}
use birdy.Apply.Steps.{Reads, Reads-Ends, Quiet, send-Ends, emit_event-Ends}

-- How many versions are pending.
unfoldable pub pendings : List ConfigVersion → ℕ
pendings [] = 0
pendings (v ∷ vs) = (if is_pending v.status then 1 else 0) + pendings vs

first_pending-none : (vs : List ConfigVersion) → first_pending vs ≡ none → pendings vs ≡ 0
unfolding first_pending pendings
first_pending-none [] h = refl
first_pending-none (v ∷ vs) h = ground (arith, first_pending-none vs)

update_status-le :
    (id : ℕ) (s : Status) (vs : List ConfigVersion)
    → is_pending s ≡ false
    → pendings (update_status id s vs) ≤ pendings vs
unfolding update_status pendings
update_status-le id s [] h = omega arith
update_status-le id s (v ∷ vs) h = ground (arith, update_status-le id s vs)

-- Giving the pending version that a query found a status that is not pending leaves at least one
-- version fewer pending.
pub update_status-found :
    (s : Status) (v : ConfigVersion) (vs : List ConfigVersion)
    → is_pending s ≡ false
    → first_pending vs ≡ some v
    → pendings (update_status v.id s vs) + 1 ≤ pendings vs
unfolding update_status pendings first_pending
update_status-found s v [] h e = cc
update_status-found s v (x ∷ vs) h e = elim (Bool-cases (is_pending x.status)) [
  | inl p ↦ ground (arith, update_status-le v.id s vs, p)
  | inr p ↦ ground (arith, update_status-found s v vs, p)
]

abbrev Resolved : ℕ → Status → World → World → Type 0
Resolved id s v w =
    (w.disk ≡ v.disk)
    × (w.backups ≡ v.backups)
    × (w.now ≡ v.now)
    × (w.versions ≡ update_status id s v.versions)
    × (w.sent ≡ v.sent)

pub resolve-Ends :
    (id : ℕ) (s : Status) (v : World)
    → Ends (λ _ w. Resolved id s v w) (λ _ w. Same v w) (resolve_config_version id s v)
unfolding resolve_config_version
resolve-Ends id s v = Ends-bind (may_fail-Ends v) λ _ w t.
    elim (Bool-cases (has_id id w.versions)) [
      | inl e ↦
          rw e
            (ends_done (t.1, t.0.backups, t.0.now, ap (update_status id s) t.0.versions, t.0.sent))
      | inr e ↦ rw e (ends_stop t)
    ]

-- The files, the backups and the clock stay, and no version becomes pending.
pub record Kept (v w : World) : Type 0 where
  pub disk : w.disk ≡ v.disk
  pub backups : w.backups ≡ v.backups
  pub now : w.now ≡ v.now
  pub fewer : pendings w.versions ≤ pendings v.versions

Kept-refl : (v : World) → Kept v v
Kept-refl v = record { disk = refl; backups = refl; now = refl; fewer = omega arith }

Kept-trans : {u v w : World} → Kept u v → Kept v w → Kept u w
Kept-trans f g = record {
  disk = g.disk ∙ f.disk;
  backups = g.backups ∙ f.backups;
  now = g.now ∙ f.now;
  fewer = omega arith;
}

Kept-Same : {v w : World} → Same v w → Kept v w
Kept-Same s = record {
  disk = s.1;
  backups = s.0.backups;
  now = s.0.now;
  fewer = omega (arith, ap pendings s.0.versions);
}

Kept-Quiet : {v w : World} → Quiet v w → Kept v w
Kept-Quiet s = record {
  disk = s.disk;
  backups = s.backups;
  now = s.now;
  fewer = omega (arith, ap pendings s.versions);
}

Kept-Resolved :
    (id : ℕ) (s : Status) {v w : World} → is_pending s ≡ false → Resolved id s v w → Kept v w
Kept-Resolved id s {v} h r = record {
  disk = r.0;
  backups = r.1;
  now = r.2;
  fewer = omega (arith, ap pendings r.3, update_status-le id s v.versions h);
}

module _ (env : Env) where
  revert_expired-Ends :
      (c : ConfigVersion) (v : World)
      → Ends (λ _ w. Kept v w) (λ _ w. Kept v w) (revert_expired env c v)
  unfolding revert_expired reload_filters
  revert_expired-Ends c v =
      Ends-bind
        (Ends-orelse server_error
          (Ends-map (resolve-Ends c.id reverted v) (λ _ w r. Kept-Resolved c.id reverted refl r)
            (λ _ w s. Kept-Same s))
          (λ _ w s. s))
        λ _ w k.
          Ends-bind (Ends-map (emit_event-Ends auto_reverted w) (λ _ x q. q) (λ _ x h. absurd h))
            λ _ x q.
              Ends-bind (Ends-map (send-Ends reload_all x) (λ _ y r. r) (λ _ y h. absurd h))
                λ _ y r. ends_done (Kept-trans k (Kept-trans (Kept-Quiet q.0) (Kept-Quiet r.0)))

  pub pending_config_version-Ends :
      (v : World)
      → Ends (Reads (first_pending v.versions) v) (λ _ w. Same v w) (pending_config_version v)
  unfolding pending_config_version
  pending_config_version-Ends v =
      Reads-Ends (λ w. first_pending w.versions) v (λ w s. ap first_pending s.0.versions)

  reconcile_found-Ends :
      (found : Option ConfigVersion) (w : World)
      → Ends (λ _ x. Kept w x) (λ _ x. Kept w x) (reconcile_found env found w)
  reconcile_found-Ends none w = ends_done (Kept-refl w)
  reconcile_found-Ends (some c) w = elim (Bool-cases (expired c w.now)) [
    | inl e ↦ rw e (revert_expired-Ends c w)
    | inr e ↦ rw e (ends_done (Kept-refl w))
  ]

  pub reconcile_pending-Ends :
      (v : World) → Ends (λ _ w. Kept v w) (λ _ w. Kept v w) (reconcile_pending env v)
  unfolding reconcile_pending
  reconcile_pending-Ends v =
      Ends-bind (Ends-orelse server_error (pending_config_version-Ends v) (λ _ w s. Kept-Same s))
        λ found w k.
          Ends-map (reconcile_found-Ends found w) (λ _ x l. Kept-trans (Kept-Same k.0) l)
            (λ _ x l. Kept-trans (Kept-Same k.0) l)

  pub write_guard-Ends : (v : World) → Ends (λ _ w. w ≡ v) (λ _ w. w ≡ v) (write_guard env v)
  unfolding write_guard
  write_guard-Ends v = elim (Bool-cases env.read_only) [
    | inl e ↦ rw e (ends_stop refl)
    | inr e ↦ rw e (ends_done refl)
  ]

  no_pending-Ends :
      (found : Option ConfigVersion) (v : World)
      → Ends (λ _ w. (w ≡ v) × (found ≡ none)) (λ _ w. w ≡ v) (no_pending found v)
  no_pending-Ends none v = ends_done (refl, refl)
  no_pending-Ends (some c) v = ends_stop refl

  -- The gate of an apply passes only when no version is pending. In either case, whatever fails, the
  -- files, the backups and the clock stay as they are, and no more versions are pending than before.
  pub can_start_apply-Ends :
      (v : World)
      → Ends (λ _ w. Kept v w × (pendings w.versions ≡ 0)) (λ _ w. Kept v w) (can_start_apply env v)
  unfolding can_start_apply
  can_start_apply-Ends v =
      Ends-bind (Ends-map (write_guard-Ends v) (λ _ w e. e) (λ _ w e. rw e (Kept-refl v))) λ _ w e.
        Ends-bind (Ends-map (reconcile_pending-Ends w) (λ _ x k. k) (λ _ x k. rw e at k)) λ _ x k.
          Ends-bind
            (Ends-orelse server_error (pending_config_version-Ends x)
              (λ _ y s. Kept-trans (rw e at k) (Kept-Same s)))
            λ found y s.
              Ends-map (no_pending-Ends found y)
                (λ _ z f. rw f.0 (
                  Kept-trans (rw e at k) (Kept-Same s.0),
                  ap pendings s.0.0.versions ∙ first_pending-none x.versions (sym s.1 ∙ f.1),
                ))
                (λ _ z f. rw f (Kept-trans (rw e at k) (Kept-Same s.0)))
