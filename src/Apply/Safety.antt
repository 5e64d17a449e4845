-- ===== src/Apply/Safety.antt =====
-- internal/web/apply.go, `applyConfig`: what an apply leaves on disk, in the store and at BIRD.
use birdy.Common.{Bool, ◌∷◌, Text, ◌≡◌, refl, ap, ◌∙◌, inl, inr}
use mathlib.Core.Path.{ap₂}
use birdy.Files.{FileSet}
use birdy.Apply.World.{
  look, Disk, World, ◌>>=◌, ◌>>◌, orelse, applied, ConfigVersion, Ends, ends_done, Ends-bind,
  Ends-map, Ends-orelse,
}
use birdy.Apply.Disk.{find_backup, is_empty, snapshot_config}
use birdy.Apply.Dirs.{IsUnique}
use birdy.Apply.Effects.{Same, may_fail-Ends}
use birdy.Apply.Backup.{
  Saved, Backed, Backed-later, Backed-same, IsFresh, SameConfig, snapshot_config-Ends,
  restore_config-Ends,
}
use birdy.Apply.Versions.{create_config_version, next_id}
use birdy.Apply.Handlers.{
  Env, Response, server_error, no_backup, armed, flash, arm, settle, apply_config, new_version,
}
use birdy.Apply.Steps.{Gates, Same-trans, pre_apply-Ends, emit_event-Ends}
use birdy.Apply.Midway.{Midway, Accepted, arm-Ends, Refused, sent_when_armed}

SameConfig-disk : {u w x : World} → x.disk ≡ w.disk → SameConfig u w → SameConfig u x
SameConfig-disk {x} e c = record {
  conf = ap (λ (d : Disk). d.conf) e ∙ c.conf;
  confs = elim c.confs [
    | inl no_conf ↦ inl no_conf
    | inr same ↦ inr (λ n. ap (λ (d : Disk). look n d.confs) e ∙ same n)
  ];
}

-- An apply went through: the config passed the gates, BIRD was asked to check it and then to load it
-- with the timeout (and to reload, if soft), the previous config is back on disk, and the new one is
-- a pending version whose deadline is the timeout from now and whose backup is the config of `u`.
pub record Armed (env : Env) (cfg : Text) (set : FileSet) (soft : Bool) (u w : World) : Type 0 where
  pub gates : Gates env cfg u
  pub accepted : Accepted u
  pub config : SameConfig u w
  pub backup : Text
  pub backed : Backed backup u w
  pub versions :
      w.versions
      ≡ record (new_version env backup cfg set u.now) { id = next_id u.versions } ∷ u.versions
  pub applied_hash : w.applied_hash ≡ u.applied_hash
  pub rollback_errors : w.rollback_errors ≡ u.rollback_errors
  pub sent : w.sent ≡ sent_when_armed u env soft

record Created (row : ConfigVersion) (v w : World) : Type 0 where
  disk : w.disk ≡ v.disk
  backups : w.backups ≡ v.backups
  versions : w.versions ≡ record row { id = next_id v.versions } ∷ v.versions
  applied_hash : w.applied_hash ≡ v.applied_hash
  rollback_errors : w.rollback_errors ≡ v.rollback_errors
  sent : w.sent ≡ v.sent

create-Ends :
    (row : ConfigVersion) (v : World)
    → Ends (λ _ w. Created row v w) (λ _ w. Same v w) (create_config_version row v)
unfolding create_config_version
create-Ends row v = Ends-bind (may_fail-Ends v) λ _ w s. ends_done (record {
  disk = s.1;
  backups = s.0.backups;
  versions = ap (λ vs. record row { id = next_id vs } ∷ vs) s.0.versions;
  applied_hash = s.0.applied_hash;
  rollback_errors = s.0.rollback_errors;
  sent = s.0.sent;
})

module _ (env : Env) (cfg : Text) (set : FileSet) (soft : Bool) (u : World)
    (gates : Gates env cfg u) where
  abbrev IsArmed : Response → World → Type 0
  IsArmed r w = (r ≡ flash armed) × Armed env cfg set soft u w

  settle-Ends :
      (p : Text) (v : World)
      → Midway u p v
      → v.sent ≡ sent_when_armed u env soft
      → Accepted u
      → Ends IsArmed (Refused u) (settle env p cfg set v)
  unfolding settle
  settle-Ends p v m e acc =
      Ends-bind
        (Ends-orelse server_error (restore_config-Ends m.backed) λ _ w f. record {
          versions = f.versions ∙ m.versions;
          applied_hash = f.applied_hash ∙ m.applied_hash;
          config = λ _ h. absurd (h refl acc);
        })
        λ _ w q.
          let refuse : (r : Response) (x : World) → Same w x → Refused u r x = λ r x s. record {
            versions = s.0.versions ∙ q.0.versions ∙ m.versions;
            applied_hash = s.0.applied_hash ∙ q.0.applied_hash ∙ m.applied_hash;
            config = λ _ _. SameConfig-disk s.1 q.1;
          } in
          Ends-bind (Ends-orelse server_error (may_fail-Ends w) (λ _ x s. refuse server_error x s))
            λ _ x s.
              Ends-bind
                (Ends-orelse server_error (create-Ends (new_version env p cfg set x.now) x)
                  (λ _ y t. refuse server_error y (Same-trans s t)))
                λ _ y t.
                  Ends-bind (Ends-map (emit_event-Ends applied y) (λ _ z k. k) (λ _ z h. absurd h))
                    λ _ z k. ends_done (
                      refl,
                      record {
                        gates = gates;
                        accepted = acc;
                        config = SameConfig-disk (k.0.disk ∙ t.disk ∙ s.1) q.1;
                        backup = p;
                        backed =
                            Backed-later m.backed
                              (k.0.backups ∙ t.backups ∙ s.0.backups ∙ q.0.backups);
                        versions =
                            k.0.versions
                            ∙ t.versions
                            ∙ ap₂
                                (λ n vs.
                                  record (new_version env p cfg set n) { id = next_id vs } ∷ vs)
                                (s.0.now ∙ q.0.now ∙ m.now)
                                (s.0.versions ∙ q.0.versions ∙ m.versions);
                        applied_hash =
                            k.0.applied_hash ∙ t.applied_hash ∙ s.0.applied_hash ∙ q.0.applied_hash
                            ∙ m.applied_hash;
                        rollback_errors =
                            k.0.rollback_errors ∙ t.rollback_errors ∙ s.0.rollback_errors
                            ∙ q.0.rollback_errors ∙ m.rollback_errors;
                        sent = k.1 ∙ t.sent ∙ s.0.sent ∙ q.0.sent ∙ e;
                      },
                    )

  refuse-Saved : {v w : World} (r : Response) → Same u v → Saved v w → Refused u r w
  refuse-Saved r s t = record {
    versions = t.versions ∙ s.0.versions;
    applied_hash = t.applied_hash ∙ s.0.applied_hash;
    config = λ _ _. record {
      conf = ap (λ (d : Disk). d.conf) (t.disk ∙ s.1);
      confs = inr (λ n. ap (λ (d : Disk). look n d.confs) (t.disk ∙ s.1));
    };
  }

  after_gates-Ends :
      (v : World)
      → Same u v
      → IsFresh env.stamp u
      → IsUnique u.disk.confs
      → Ends IsArmed (Refused u) (
          (orelse (snapshot_config env.stamp) (flash no_backup) >>= λ backup.
          arm env backup set soft >> settle env backup cfg set)
            v)
  after_gates-Ends v s fresh unique =
      Ends-bind
        (Ends-orelse (flash no_backup)
          (snapshot_config-Ends env.stamp v
            (record {
              some_path = ap (λ n. is_empty (env.stamp n)) s.0.now ∙ fresh.some_path;
              unused =
                  ap (λ n. find_backup (env.stamp n) v.backups) s.0.now
                  ∙ ap (find_backup (env.stamp u.now)) s.0.backups
                  ∙ fresh.unused;
            })
            (rw (ap (λ (d : Disk). d.confs) s.1) unique))
          (λ _ w t. refuse-Saved (flash no_backup) s t))
        λ p w t.
          let m : Midway u p w = record {
            backed = Backed-same s.1 t.1;
            versions = t.0.versions ∙ s.0.versions;
            applied_hash = t.0.applied_hash ∙ s.0.applied_hash;
            rollback_errors = t.0.rollback_errors ∙ s.0.rollback_errors;
            now = t.0.now ∙ s.0.now;
          } in
          Ends-bind
            (arm-Ends u p env set soft w m (t.0.sent ∙ s.0.sent) (t.0.replies ∙ s.0.replies))
            λ _ x q. settle-Ends p x q.0 q.1 q.2

refuse-Same : {u w : World} (r : Response) → Same u w → Refused u r w
refuse-Same r s = record {
  versions = s.0.versions;
  applied_hash = s.0.applied_hash;
  config = λ _ _. record {
    conf = ap (λ (d : Disk). d.conf) s.1;
    confs = inr (λ n. ap (λ (d : Disk). look n d.confs) s.1);
  };
}

pub apply_config-Ends :
    (env : Env) (cfg : Text) (set : FileSet) (soft : Bool) (u : World)
    → IsFresh env.stamp u
    → IsUnique u.disk.confs
    → Ends
        (λ r w. (r ≡ flash armed) × Armed env cfg set soft u w)
        (Refused u)
        (apply_config env cfg set soft u)
unfolding apply_config
apply_config-Ends env cfg set soft u fresh unique =
    Ends-bind (Ends-map (pre_apply-Ends env cfg u) (λ _ w s. s) (λ r w s. refuse-Same r s))
      λ _ w s. after_gates-Ends env cfg set soft u s.1 w s.0 fresh unique
