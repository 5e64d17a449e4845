-- ===== src/Apply/Steps.antt =====
-- internal/web/apply.go: what the parts of `applyConfig` leave unchanged.
use birdy.Common.{
  Bool, true, false, ◌∷◌, Option, some, Text, text_eq, if◌then◌else◌, ◌≡◌, ◌≢◌, refl, ap, ◌∙◌, sym,
  arith, inl, inr, Bool-cases, map,
}
use birdy.Files.{File, FileSet}
use birdy.Apply.World.{
  Disk, World, done, ◌>>◌, return, throw, may_fail, next_fault, next_reply, Command, send, Event,
  Ends, ends_done, ends_stop, Ends-bind, Ends-map, Ends-orelse,
}
use birdy.Apply.Disk.{base_name, write_file_set, read_logical_config, logical_of}
use birdy.Apply.Effects.{
  Frame, Frame-refl, Frame-trans, Same, Stopped, may_fail-Ends, change-Ends, write_includes-Ends,
}
use birdy.Apply.Restore.{prune-Ends}
use birdy.Apply.Versions.{get_applied_hash}
use birdy.Apply.Handlers.{
  Env, Authorship, not_adopted, already_applied, Precheck, rejected, skipped, passed, Response,
  server_error, flash, can_apply, authorship_of, on_disk_hash, bird_conf_state, refuse_rejected,
  pre_apply, emit_event,
}

pub Same-trans : {u v w : World} → Same u v → Same v w → Same u w
Same-trans s t = ground arith

-- What a step that reads gives back, and that it changes nothing.
abbrev pub Reads : {A : Type 0} → A → World → A → World → Type 0
Reads x v a w = Same v w × (a ≡ x)

pub Reads-Ends :
    {A : Type 0} (f : World → A) (v : World)
    → ((w : World) → Same v w → f w ≡ f v)
    → Ends (Reads (f v) v) (λ _ w. Same v w) ((may_fail >> λ w. (done (f w), w)) v)
Reads-Ends f v h = Ends-bind (may_fail-Ends v) λ _ w s. ends_done (s, h w s)

pub get_applied_hash-Ends :
    (v : World) → Ends (Reads v.applied_hash v) (λ _ w. Same v w) (get_applied_hash v)
unfolding get_applied_hash
get_applied_hash-Ends v = Reads-Ends (λ w. w.applied_hash) v (λ w s. s.0.applied_hash)

abbrev pub logical_disk : Env → World → Option Text
logical_disk env v = logical_of env.config_dir v.disk.conf v.disk.confs

pub read_logical_config-Ends :
    (env : Env) (v : World)
    → Ends (Reads (logical_disk env v) v) (λ _ w. Same v w) (read_logical_config env.config_dir v)
unfolding read_logical_config
read_logical_config-Ends env v =
    Reads-Ends (logical_disk env) v
      (λ w s. ap (λ (d : Disk). logical_of env.config_dir d.conf d.confs) s.1)

-- The gates that a config has passed: birdy owns what is on disk or there is nothing, the config is
-- new, and `bird -p` did not reject it.
pub record Gates (env : Env) (cfg : Text) (v : World) : Type 0 where
  pub ours : can_apply (authorship_of env v.applied_hash (logical_disk env v)) ≡ true
  pub new : text_eq (on_disk_hash env (logical_disk env v)) (env.hash cfg) ≡ false
  pub parses : env.bird_p cfg ≢ rejected

test-Ends :
    (b : Bool) (r : Response) (v : World)
    → Ends
        (λ _ w. (w ≡ v) × (b ≡ true))
        (λ _ w. w ≡ v)
        ((if b then return tt else throw {A = Unit {0}} r) v)
test-Ends true r v = ends_done (refl, refl)
test-Ends false r v = ends_stop refl

test_not-Ends :
    (b : Bool) (r : Response) (v : World)
    → Ends
        (λ _ w. (w ≡ v) × (b ≡ false))
        (λ _ w. w ≡ v)
        ((if b then throw {A = Unit {0}} r else return tt) v)
test_not-Ends true r v = ends_stop refl
test_not-Ends false r v = ends_done (refl, refl)

refuse_rejected-Ends :
    (p : Precheck) (v : World)
    → Ends (λ _ w. (w ≡ v) × (p ≢ rejected)) (λ _ w. w ≡ v) (refuse_rejected p v)
refuse_rejected-Ends rejected v = ends_stop refl
refuse_rejected-Ends skipped v = ends_done (refl, λ e. cc)
refuse_rejected-Ends passed v = ends_done (refl, λ e. cc)

Same-of-eq : {v w : World} → w ≡ v → Same v w
Same-of-eq {v} e = rw e (Frame-refl v, refl)

abbrev state_of : Env → Text → World → Authorship × Text
state_of env stored v =
    (authorship_of env stored (logical_disk env v), on_disk_hash env (logical_disk env v))

bird_conf_state-Ends :
    (env : Env) (stored : Text) (v : World)
    → Ends (Reads (state_of env stored v) v) (λ _ w. Same v w) (bird_conf_state env stored v)
unfolding bird_conf_state
bird_conf_state-Ends env stored v =
    Ends-bind (read_logical_config-Ends env v)
      λ text w t. ends_done (t.0, ap (λ l. (authorship_of env stored l, on_disk_hash env l)) t.1)

pub logical_disk-Same :
    (env : Env) {v w : World} → Same v w → logical_disk env w ≡ logical_disk env v
logical_disk-Same env s = ap (λ (d : Disk). logical_of env.config_dir d.conf d.confs) s.1

-- The gates change nothing.
pub pre_apply-Ends :
    (env : Env) (cfg : Text) (v : World)
    → Ends (λ _ w. Same v w × Gates env cfg v) (λ _ w. Same v w) (pre_apply env cfg v)
unfolding pre_apply
pre_apply-Ends env cfg v =
    Ends-bind (Ends-orelse server_error (get_applied_hash-Ends v) (λ _ w s. s)) λ stored w s.
      Ends-bind
        (Ends-orelse server_error (bird_conf_state-Ends env stored w) (λ _ x t. Same-trans s.0 t))
        λ a x t.
          Ends-bind
            (Ends-map (test-Ends (can_apply a.0) (flash not_adopted) x) (λ _ y e. e)
              (λ _ y e. Same-trans s.0 (Same-trans t.0 (Same-of-eq e))))
            λ _ y e.
              Ends-bind
                (Ends-map (test_not-Ends (text_eq a.1 (env.hash cfg)) (flash already_applied) y)
                  (λ _ z f. f) (λ _ z f. Same-trans s.0 (Same-trans t.0 (Same-of-eq (f ∙ e.0)))))
                λ _ z f.
                  Ends-map (refuse_rejected-Ends (env.bird_p cfg) z)
                    (λ _ u g. (
                      Same-trans s.0 (Same-trans t.0 (Same-of-eq (g.0 ∙ f.0 ∙ e.0))),
                      record {
                        ours = sym (ap can_apply (auth s.0 s.1 t.1)) ∙ e.1;
                        new =
                            sym (ap (λ h. text_eq h (env.hash cfg)) (disk_hash stored s.0 t.1))
                            ∙ f.1;
                        parses = g.1;
                      },
                    ))
                    (λ _ u g. Same-trans s.0 (Same-trans t.0 (Same-of-eq (g ∙ f.0 ∙ e.0))))
  where
    auth :
        {w : World} {stored : Text} {a : Authorship × Text}
        → Same v w
        → stored ≡ v.applied_hash
        → a ≡ state_of env stored w
        → a.0 ≡ authorship_of env v.applied_hash (logical_disk env v)
    auth {w} s e t =
        ap (λ (p : Authorship × Text). p.0) t
        ∙ ap (λ h. authorship_of env h (logical_disk env w)) e
        ∙ ap (authorship_of env v.applied_hash) (logical_disk-Same env s)

    disk_hash :
        (stored : Text) {w : World} {a : Authorship × Text}
        → Same v w
        → a ≡ state_of env stored w
        → a.1 ≡ on_disk_hash env (logical_disk env v)
    disk_hash stored s t =
        ap (λ (p : Authorship × Text). p.1) t ∙ ap (on_disk_hash env) (logical_disk-Same env s)

-- Whatever happens, a write touches only the files.
pub write_file_set-Frame :
    (set : FileSet) (v : World) → Ends (λ _ w. Frame v w) (Stopped v) (write_file_set set v)
unfolding write_file_set
write_file_set-Frame set v = Ends-bind (write_includes-Ends set.includes v) λ _ w s.
    Ends-bind
      (Ends-map (change-Ends (λ d. record d { conf = some set.entry }) w) (λ _ x t. t)
        (λ _ x t. Frame-trans s.0 t))
      λ _ x t.
        Ends-map (prune-Ends (map (λ (f : File). base_name f.name) set.includes) x)
          (λ _ y p. Frame-trans s.0 (Frame-trans t.0 p.0))
          (λ _ y p. Frame-trans s.0 (Frame-trans t.0 p))

-- What the whole pipeline may read of a world besides the commands.
pub record Quiet (v w : World) : Type 0 where
  pub disk : w.disk ≡ v.disk
  pub backups : w.backups ≡ v.backups
  pub versions : w.versions ≡ v.versions
  pub applied_hash : w.applied_hash ≡ v.applied_hash
  pub rollback_errors : w.rollback_errors ≡ v.rollback_errors
  pub now : w.now ≡ v.now

pub send-Ends :
    {E : Type 0} (c : Command) (v : World)
    → Ends {E = E}
        (λ r w.
          Quiet v w
          × (w.sent ≡ c ∷ v.sent)
          × (r ≡ (next_reply v.replies).0)
          × (w.replies ≡ (next_reply v.replies).1))
        (λ _ w. ⊥)
        (send c v)
unfolding send
send-Ends c v = ends_done (ground arith, refl, refl, refl)

-- Recording an event never stops a handler.
pub emit_event-Ends :
    (e : Event) (v : World)
    → Ends (λ _ w. Quiet v w × (w.sent ≡ v.sent)) (λ _ w. ⊥) (emit_event e v)
unfolding emit_event may_fail
emit_event-Ends e v = elim (Bool-cases (next_fault v.faults).0) [
  | inl f ↦ rw f (ends_done (ground arith))
  | inr f ↦ rw f (ends_done (ground arith))
]
