-- ===== src/Apply/Lock.antt =====
-- internal/web/apply.go: how many versions are pending after a request, and what a rollback leaves.
use birdy.Common.{
  ℕ, ◌+◌, ◌≤◌, Bool, true, false, not, ◌&&◌, ◌||◌, ◌∷◌, Option, none, some, Text, if◌then◌else◌,
  ◌≡◌, refl, ap, ◌∙◌, sym, arith, ◌⊎◌, inl, inr, Bool-cases, ltb,
}
use birdy.Files.{FileSet, logical}
use birdy.Apply.World.{
  Disk, World, Res, return, throw, reverted, ConfigVersion, Ends, ends_done, ends_stop, Ends-bind,
  Ends-map, Ends-orelse, reload_all, rolled_back, configure_undo,
}
use birdy.Apply.Disk.{find_backup, is_empty}
use birdy.Apply.Dirs.{IsUnique}
use birdy.Apply.Backup.{IsFresh}
use birdy.Apply.Safety.{apply_config-Ends}
use birdy.Apply.Versions.{update_status, first_pending}
use birdy.Apply.Pending.{
  pendings, Kept, can_start_apply-Ends, write_guard-Ends, update_status-found, resolve-Ends,
  pending_config_version-Ends,
}
use birdy.Apply.Steps.{Quiet, send-Ends, emit_event-Ends}
use birdy.Apply.Handlers.{Env, Response, server_error, bad_form, apply_config, reload_filters}
use birdy.Apply.Requests.{
  respond, ApplyForm, Plan, input_error, no_config, rendered, apply_plan, apply_set, handle_apply,
  handle_apply_rollback, rollback_found,
}

respond-Ends :
    {P : World → Type 0} {Q R : Response → World → Type 0} {r : Res Response Response × World}
    → Ends Q R r
    → ((a : Response) (w : World) → Q a w → P w)
    → ((a : Response) (w : World) → R a w → P w)
    → P (respond r).1
respond-Ends (ends_done q) k l = k _ _ q
respond-Ends (ends_stop e) k l = l _ _ e

IsFresh-Kept : {stamp : ℕ → Text} {v w : World} → Kept v w → IsFresh stamp v → IsFresh stamp w
IsFresh-Kept {stamp} {v} {w} k f = record {
  some_path = ap (λ n. is_empty (stamp n)) k.now ∙ f.some_path;
  unused =
      ap (λ n. find_backup (stamp n) w.backups) k.now
      ∙ ap (find_backup (stamp v.now)) k.backups
      ∙ f.unused;
}

abbrev AtMostOne : World → Type 0
AtMostOne w = pendings w.versions ≤ 1

parses-Ends :
    (b : Bool) (v : World)
    → Ends
        (λ _ w. w ≡ v)
        (λ _ w. w ≡ v)
        ((if b then return tt else throw {A = Unit {0}} bad_form) v)
parses-Ends true v = ends_done refl
parses-Ends false v = ends_stop refl

module _ (env : Env) where
  apply_config-AtMostOne :
      (cfg : Text) (set : FileSet) (soft : Bool) (v : World)
      → IsFresh env.stamp v
      → IsUnique v.disk.confs
      → pendings v.versions ≡ 0
      → Ends (λ _ w. AtMostOne w) (λ _ w. AtMostOne w) (apply_config env cfg set soft v)
  unfolding pendings
  apply_config-AtMostOne cfg set soft v f u e =
      Ends-map (apply_config-Ends env cfg set soft v f u)
        (λ _ w q. omega (arith, ap pendings q.1.versions, e))
        (λ _ w q. omega (arith, ap pendings q.versions, e))

  apply_plan-AtMostOne :
      (form : ApplyForm) (plan : Plan) (v : World)
      → IsFresh env.stamp v
      → IsUnique v.disk.confs
      → pendings v.versions ≡ 0
      → Ends (λ _ w. AtMostOne w) (λ _ w. AtMostOne w) (apply_plan env form plan v)
  unfolding apply_plan
  apply_plan-AtMostOne form input_error v f u e = ends_stop (omega (arith, e))
  apply_plan-AtMostOne form no_config v f u e = ends_stop (omega (arith, e))
  apply_plan-AtMostOne form (rendered dangers would_remove set) v f u e =
      elim (Bool-cases ((ltb 0 dangers || ltb 0 would_remove) && not form.ack_risks)) [
        | inl t ↦ rw t (ends_stop (omega (arith, e)))
        | inr t ↦ rw t (go set)
      ]
    where
      go :
          (o : Option FileSet)
          → Ends (λ _ w. AtMostOne w) (λ _ w. AtMostOne w) (apply_set env form.soft o v)
      go none = ends_stop (omega (arith, e))
      go (some s) = apply_config-AtMostOne (logical s) s form.soft v f u e

  -- An apply, whatever fails, leaves at most one version pending if there was at most one, when the
  -- backup's path is new and no file name stands twice on disk.
  pub handle_apply-AtMostOne :
      (form : ApplyForm) (plan : Plan) (v : World)
      → IsFresh env.stamp v
      → IsUnique v.disk.confs
      → pendings v.versions ≤ 1
      → pendings (handle_apply env form plan v).1.versions ≤ 1
  unfolding handle_apply
  handle_apply-AtMostOne form plan v f u e =
      respond-Ends {P = AtMostOne}
        (Ends-bind
          (Ends-map (can_start_apply-Ends env v) (λ _ w k. k) (λ _ w k. omega (arith, k.fewer, e)))
          λ _ w k.
            Ends-bind
              (Ends-map (parses-Ends form.parses w) (λ _ x e'. e')
                (λ _ x e'. omega (arith, ap (λ (t : World). pendings t.versions) e', k.1)))
              λ _ x e'. rw e' (
                apply_plan-AtMostOne form plan w (IsFresh-Kept k.0 f)
                  (rw (ap (λ (d : Disk). d.confs) k.0.disk) u) k.1))
        (λ _ w q. q) (λ _ w q. q)

-- A rollback of version `c` went through: BIRD was told to undo and to reload, and the version is
-- resolved.
record RolledBack (c : ConfigVersion) (v w : World) : Type 0 where
  pub disk : w.disk ≡ v.disk
  pub versions : w.versions ≡ update_status c.id reverted v.versions
  pub sent : w.sent ≡ reload_all ∷ configure_undo ∷ v.sent

reload_filters-Ends :
    (v : World)
    → Ends (λ _ w. Quiet v w × (w.sent ≡ reload_all ∷ v.sent)) (λ _ w. ⊥) (reload_filters v)
unfolding reload_filters
reload_filters-Ends v = Ends-bind (send-Ends reload_all v) λ _ w q. ends_done (q.0, q.1)

rollback_found-Ends :
    (c : ConfigVersion) (v : World)
    → Ends
        (λ _ w. RolledBack c v w)
        (λ _ w. (w.disk ≡ v.disk) × (w.versions ≡ v.versions))
        (rollback_found (some c) v)
rollback_found-Ends c v =
    Ends-bind (Ends-map (send-Ends configure_undo v) (λ _ w q. q) (λ _ w h. absurd h)) λ r w q.
      Ends-bind (Ends-map (reload_filters-Ends w) (λ _ x k. k) (λ _ x h. absurd h)) λ _ x k.
        Ends-bind
          (Ends-orelse server_error (resolve-Ends c.id reverted x)
            (λ _ y s. (s.1 ∙ k.0.disk ∙ q.0.disk, s.0.versions ∙ k.0.versions ∙ q.0.versions)))
          λ _ y s.
            Ends-bind (Ends-map (emit_event-Ends rolled_back y) (λ _ z t. t) (λ _ z h. absurd h))
              λ _ z t. ends_done (record {
                disk = t.0.disk ∙ s.0 ∙ k.0.disk ∙ q.0.disk;
                versions =
                    t.0.versions
                    ∙ s.3
                    ∙ ap (update_status c.id reverted) (k.0.versions ∙ q.0.versions);
                sent = t.1 ∙ s.4 ∙ k.1 ∙ ap (λ l. reload_all ∷ l) q.1;
              })

-- A rollback leaves the files as they are, as the previous config is on disk already. It ends with
-- one version less pending, or, if something stopped it, with the same versions.
handle_apply_rollback-resolves :
    (env : Env) (v : World)
    → let w = (handle_apply_rollback env v).1 in
      (w.disk ≡ v.disk)
      × ((pendings w.versions + 1 ≤ pendings v.versions) ⊎ (w.versions ≡ v.versions))
unfolding handle_apply_rollback
handle_apply_rollback-resolves env v =
    respond-Ends {P = Outcome}
      (Ends-bind
        (Ends-map (write_guard-Ends env v) (λ _ w e. e)
          (λ _ w e. (ap (λ (t : World). t.disk) e, inr (ap (λ (t : World). t.versions) e))))
        λ _ w e.
          Ends-bind
            (Ends-orelse server_error (pending_config_version-Ends env w) (λ _ x s. (
              s.1 ∙ ap (λ (t : World). t.disk) e,
              inr (s.0.versions ∙ ap (λ (t : World). t.versions) e),
            )))
            λ found x s.
              go found x (s.0.1 ∙ ap (λ (t : World). t.disk) e)
                (s.0.0.versions ∙ ap (λ (t : World). t.versions) e)
                (s.1 ∙ ap (λ (t : World). first_pending t.versions) e))
      (λ _ w q. q) (λ _ w q. q)
  where
    Outcome : World → Type 0
    Outcome w =
        (w.disk ≡ v.disk)
        × ((pendings w.versions + 1 ≤ pendings v.versions) ⊎ (w.versions ≡ v.versions))

    go :
        (found : Option ConfigVersion) (x : World)
        → x.disk ≡ v.disk
        → x.versions ≡ v.versions
        → found ≡ first_pending v.versions
        → Ends (λ _ w. Outcome w) (λ _ w. Outcome w) (rollback_found found x)
    go none x d e f = ends_stop (d, inr e)
    go (some c) x d e f =
        Ends-map (rollback_found-Ends c x)
          (λ _ w q. (
            q.disk ∙ d,
            inl (
                omega (
                  arith,
                  ap pendings q.versions,
                  ap pendings e,
                  update_status-found reverted c x.versions refl (ap first_pending e ∙ sym f),
                )),
          ))
          (λ _ w q. (q.0 ∙ d, inr (q.1 ∙ e)))
