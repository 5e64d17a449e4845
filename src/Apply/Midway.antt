-- ===== src/Apply/Midway.antt =====
-- internal/web/apply.go, `applyConfig`: what holds between the backup and the arming, and that every
-- failure on the way restores the previous config.
use birdy.Common.{
  Bool, true, false, List, ◌∷◌, Text, if◌then◌else◌, ◌≡◌, refl, ap, sym, ◌∙◌, arith, inl, inr,
}
use birdy.Files.{FileSet}
use birdy.Apply.World.{
  World, Res, stop, bind_res, ◌>>=◌, Err, caught, Command, configure_check, configure_timeout,
  reload_all, Reply, no_reply, answer, Ends, next_reply, ends_done, ends_stop, Ends-bind, Ends-map,
}
use birdy.Apply.Disk.{rollback_config}
use birdy.Apply.Effects.{Frame, Stopped}
use birdy.Apply.Backup.{Backed, Backed-later, SameConfig, Undone, rollback_config-Ends}
use birdy.Apply.Handlers.{
  Env, Response, server_error, cannot_write, check_rejected, apply_rejected, flash, arm,
  after_write, after_check, after_timeout, reload_filters, write_or_undo, check_or_undo,
  timeout_or_undo, reload_if,
}
use birdy.Apply.Steps.{write_file_set-Frame, Quiet, send-Ends}

-- BIRD's answers to the two commands to come accept them.
abbrev pub Accepted : World → Type 0
Accepted u =
    ((next_reply u.replies).0 ≡ answer true)
    × ((next_reply (next_reply u.replies).1).0 ≡ answer true)

-- If the response is `r` in world `w`: nothing is recorded, and the config of `u` is on disk unless a
-- rollback failed, which is logged, or the response is "internal error" after BIRD accepted both
-- commands.
pub record Refused (u : World) (r : Response) (w : World) : Type 0 where
  pub versions : w.versions ≡ u.versions
  pub applied_hash : w.applied_hash ≡ u.applied_hash
  pub config :
      w.rollback_errors ≡ u.rollback_errors → (r ≡ server_error → Accepted u → ⊥) → SameConfig u w

-- The commands that an armed apply has sent, the newest first.
abbrev pub sent_when_armed : World → Env → Bool → List Command
sent_when_armed u env soft =
    let two = configure_timeout env.apply_timeout soft ∷ configure_check ∷ u.sent in
    if soft then reload_all ∷ two else two

-- Between the backup and its restoration.
pub record Midway (u : World) (p : Text) (w : World) : Type 0 where
  pub backed : Backed p u w
  pub versions : w.versions ≡ u.versions
  pub applied_hash : w.applied_hash ≡ u.applied_hash
  pub rollback_errors : w.rollback_errors ≡ u.rollback_errors
  pub now : w.now ≡ u.now

module _ (u : World) (p : Text) where
  pub Midway-Frame : {v w : World} → Midway u p v → Frame v w → Midway u p w
  Midway-Frame m f = record {
    backed = Backed-later m.backed f.backups;
    versions = f.versions ∙ m.versions;
    applied_hash = f.applied_hash ∙ m.applied_hash;
    rollback_errors = f.rollback_errors ∙ m.rollback_errors;
    now = f.now ∙ m.now;
  }

  pub Midway-Quiet : {v w : World} → Midway u p v → Quiet v w → Midway u p w
  Midway-Quiet m f = record {
    backed = Backed-later m.backed f.backups;
    versions = f.versions ∙ m.versions;
    applied_hash = f.applied_hash ∙ m.applied_hash;
    rollback_errors = f.rollback_errors ∙ m.rollback_errors;
    now = f.now ∙ m.now;
  }

  pub Undone-Refused : {v w : World} (r : Response) → Midway u p v → Undone u v w → Refused u r w
  Undone-Refused r m n = record {
    versions = n.0.versions ∙ m.versions;
    applied_hash = n.0.applied_hash ∙ m.applied_hash;
    config = λ e _. elim n.1 [
      | inl same ↦ same.0
      | inr worse ↦ absurd (omega (arith, worse, m.rollback_errors, e))
    ];
  }

  -- A rollback, then a response.
  pub undo-Ends :
      (k : Bool → Response) (v : World)
      → Midway u p v
      → Ends {E = Response} {A = Unit {0}}
          (λ _ w. ⊥)
          (Refused u)
          ((rollback_config p >>= λ warn. λ w. (stop (k warn), w)) v)
  undo-Ends k v m =
      Ends-bind (Ends-map (rollback_config-Ends m.backed) (λ _ w n. n) (λ _ w n. absurd n))
        λ warn w n. ends_stop (Undone-Refused (k warn) m n)

  pub write-Ends :
      (set : FileSet) (v : World)
      → Midway u p v
      → Ends
          (λ _ w. Midway u p w × (w.sent ≡ v.sent) × (w.replies ≡ v.replies))
          (Refused u)
          (write_or_undo p set v)
  unfolding write_or_undo
  write-Ends set v m = go (write_file_set-Frame set v)
    where
      go :
          {r : Res Err (Unit {0}) × World}
          → Ends (λ _ w. Frame v w) (Stopped v) r
          → Ends
              (λ _ w. Midway u p w × (w.sent ≡ v.sent) × (w.replies ≡ v.replies))
              (Refused u)
              (bind_res (after_write p) (caught r))
      go (ends_done {w} f) = ends_done (Midway-Frame m f, f.sent, f.replies)
      go (ends_stop {w} f) =
          Ends-map (undo-Ends (λ warn. flash (cannot_write warn)) w (Midway-Frame m f))
            (λ _ x h. absurd h) (λ _ x h. h)

  pub after_check-Ends :
      (r : Reply) (v : World)
      → Midway u p v
      → Ends (λ _ w. (w ≡ v) × (r ≡ answer true)) (Refused u) (after_check p r v)
  after_check-Ends no_reply v m =
      Ends-map (undo-Ends (λ warn. server_error) v m) (λ _ x h. absurd h) (λ _ x h. h)
  after_check-Ends (answer false) v m =
      Ends-map (undo-Ends (λ warn. flash (check_rejected warn)) v m) (λ _ x h. absurd h)
        (λ _ x h. h)
  after_check-Ends (answer true) v m = ends_done (refl, refl)

  pub after_timeout-Ends :
      (r : Reply) (v : World)
      → Midway u p v
      → Ends (λ _ w. (w ≡ v) × (r ≡ answer true)) (Refused u) (after_timeout p r v)
  after_timeout-Ends no_reply v m =
      Ends-map (undo-Ends (λ warn. server_error) v m) (λ _ x h. absurd h) (λ _ x h. h)
  after_timeout-Ends (answer false) v m =
      Ends-map (undo-Ends (λ warn. flash (apply_rejected warn)) v m) (λ _ x h. absurd h)
        (λ _ x h. h)
  after_timeout-Ends (answer true) v m = ends_done (refl, refl)

  pub check-Ends :
      (v : World)
      → Midway u p v
      → Ends
          (λ _ w.
            Midway u p w
            × (w.sent ≡ configure_check ∷ v.sent)
            × ((next_reply v.replies).0 ≡ answer true)
            × (w.replies ≡ (next_reply v.replies).1))
          (Refused u)
          (check_or_undo p v)
  unfolding check_or_undo
  check-Ends v m =
      Ends-bind (Ends-map (send-Ends configure_check v) (λ _ w q. q) (λ _ w h. absurd h)) λ r w q.
        Ends-map (after_check-Ends r w (Midway-Quiet m q.0))
          (λ _ x e. rw (e.0) (Midway-Quiet m q.0, q.1, sym (q.2) ∙ e.1, q.3)) (λ _ x h. h)

  pub timeout-Ends :
      (env : Env) (soft : Bool) (v : World)
      → Midway u p v
      → Ends
          (λ _ w.
            Midway u p w
            × (w.sent ≡ configure_timeout env.apply_timeout soft ∷ v.sent)
            × ((next_reply v.replies).0 ≡ answer true))
          (Refused u)
          (timeout_or_undo env p soft v)
  unfolding timeout_or_undo
  timeout-Ends env soft v m =
      Ends-bind
        (Ends-map (send-Ends (configure_timeout env.apply_timeout soft) v) (λ _ w q. q)
          (λ _ w h. absurd h))
        λ r w q.
          Ends-map (after_timeout-Ends r w (Midway-Quiet m q.0))
            (λ _ x e. rw (e.0) (Midway-Quiet m q.0, q.1, sym (q.2) ∙ e.1)) (λ _ x h. h)

  pub reload-Ends :
      (soft : Bool) (v : World)
      → Midway u p v
      → Ends
          (λ _ w. Midway u p w × (w.sent ≡ (if soft then reload_all ∷ v.sent else v.sent)))
          (Refused u)
          (reload_if soft v)
  unfolding reload_if reload_filters
  reload-Ends true v m =
      Ends-bind (Ends-map (send-Ends reload_all v) (λ _ w q. q) (λ _ w h. absurd h))
        λ r w q. ends_done (Midway-Quiet m q.0, q.1)
  reload-Ends false v m = ends_done (m, refl)

  pub arm-Ends :
      (env : Env) (set : FileSet) (soft : Bool) (v : World)
      → Midway u p v
      → v.sent ≡ u.sent
      → v.replies ≡ u.replies
      → Ends
          (λ _ w. Midway u p w × (w.sent ≡ sent_when_armed u env soft) × Accepted u)
          (Refused u)
          (arm env p set soft v)
  unfolding arm
  arm-Ends env set soft v m e given = Ends-bind (write-Ends set v m) λ _ w q.
      Ends-bind (check-Ends w q.0) λ _ x r. Ends-bind (timeout-Ends env soft x r.0) λ _ y s.
        Ends-map (reload-Ends soft y s.0)
          (λ _ z t. (
            t.0,
            t.1
                ∙ ap (λ l. if soft then reload_all ∷ l else l)
                    (s.1
                      ∙ ap (λ l. configure_timeout env.apply_timeout soft ∷ l)
                          (r.1 ∙ ap (λ l. configure_check ∷ l) (q.1 ∙ e))),
            let same = q.2 ∙ given in
                (
                  ap (λ l. (next_reply l).0) (sym same) ∙ r.2,
                  ap (λ l. (next_reply (next_reply l).1).0) (sym same)
                      ∙ ap (λ l. (next_reply l).0) (sym (r.3))
                      ∙ s.2,
                ),
          ))
          (λ _ z h. h)
