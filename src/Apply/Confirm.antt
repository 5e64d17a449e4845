-- ===== src/Apply/Confirm.antt =====
-- internal/web/apply.go, `handleApplyConfirm`: what a confirmed apply leaves, and what a refused one.
use birdy.Common.{true, false, ◌∷◌, some, Text, ◌≡◌, ◌≢◌, refl, ap, sym, ◌∙◌, inl, inr, Bool-cases}
use birdy.Files.{FileSet}
use birdy.Apply.World.{
  Dir, look, Disk, snapshot, confirmed, ConfigVersion, World, Res, stop, bind_res, ◌>>=◌, Err,
  configure_confirm, Reply, no_reply, answer, apply_confirmed, Ends, ends_done, ends_stop,
  next_reply, Ends-bind, Ends-map, Ends-orelse,
}
use birdy.Apply.Disk.{restore_config, rollback_config, rolled, find_backup, is_empty}
use birdy.Apply.Dirs.{IsUnique}
use birdy.Apply.Effects.{Frame, Same, Stopped, may_fail-Ends, set_dir}
use birdy.Apply.Restore.{Holds, write_file_set-Ends, restore_backup-Ends}
use birdy.Apply.Versions.{update_status, has_id, confirm_applied_version}
use birdy.Apply.Handlers.{Response, server_error, flash, confirm_rejected, confirmed_now}
use birdy.Apply.Requests.{confirm_set, after_confirm}
use birdy.Apply.Steps.{send-Ends, emit_event-Ends}

-- The set is on disk and BIRD has confirmed it; the version is resolved and its hash stamped.
pub record Confirmed (c : ConfigVersion) (set : FileSet) (v w : World) : Type 0 where
  pub files : Holds set.entry (set_dir set.includes) w
  pub applied_hash : w.applied_hash ≡ c.sha256
  pub versions : w.versions ≡ update_status c.id confirmed v.versions
  pub sent : w.sent ≡ configure_confirm ∷ v.sent
  pub accepted : (next_reply v.replies).0 ≡ answer true

-- The store is as before. If the response is a refusal without a warning, the files of the backup
-- are on disk.
pub record Unconfirmed (text : Text) (dir : Dir) (v : World) (r : Response) (w : World)
    : Type 0 where
  pub applied_hash : w.applied_hash ≡ v.applied_hash
  pub versions : w.versions ≡ v.versions
  pub files : r ≡ flash (confirm_rejected false) → Holds text dir w

Holds-disk :
    {text : Text} {dir : Dir} {v w : World} → w.disk ≡ v.disk → Holds text dir v → Holds text dir w
Holds-disk e h = record {
  conf = ap (λ (d : Disk). d.conf) e ∙ h.conf;
  confs = λ n. ap (λ (d : Disk). look n d.confs) e ∙ h.confs n;
}

module _ (c : ConfigVersion) where
  confirm_row-Ends :
      (w : World)
      → Ends
          (λ _ x.
            (x.disk ≡ w.disk)
            × (x.applied_hash ≡ c.sha256)
            × (x.versions ≡ update_status c.id confirmed w.versions)
            × (x.sent ≡ w.sent))
          (λ _ x. Same w x)
          (confirm_applied_version c.id c.sha256 confirmed w)
  unfolding confirm_applied_version
  confirm_row-Ends w = Ends-bind (may_fail-Ends w) λ _ x t.
      elim (Bool-cases (has_id c.id x.versions)) [
        | inl e ↦
            rw e (ends_done (t.1, refl, ap (update_status c.id confirmed) t.0.versions, t.0.sent))
        | inr e ↦ rw e (ends_stop t)
      ]

module _ (c : ConfigVersion) (set : FileSet) (text : Text) (dir : Dir) (v : World)
    (path : is_empty c.backup_path ≡ false)
    (saved : find_backup c.backup_path v.backups ≡ some (snapshot text dir))
    (unique : IsUnique dir) where
  refuse :
      {w : World} (r : Response)
      → r ≢ flash (confirm_rejected false)
      → w.applied_hash ≡ v.applied_hash
      → w.versions ≡ v.versions
      → Unconfirmed text dir v r w
  refuse r h a e = record { applied_hash = a; versions = e; files = λ k. absurd (h k) }

  undo-Ends :
      (w : World)
      → w.backups ≡ v.backups
      → w.applied_hash ≡ v.applied_hash
      → w.versions ≡ v.versions
      → Ends {E = Response} {A = Unit {0}}
          (λ _ x. ⊥)
          (Unconfirmed text dir v)
          ((rollback_config c.backup_path >>= λ warn.
              λ x. (stop (flash (confirm_rejected warn)), x))
            w)
  unfolding rollback_config restore_config
  undo-Ends w b a e =
      rw (path, ap (find_backup c.backup_path) b ∙ saved)
        (go (restore_backup-Ends text dir unique w))
    where
      go :
          {r : Res Err (Unit {0}) × World}
          → Ends (λ _ x. Frame w x × Holds text dir x) (Stopped w) r
          → Ends {E = Response} {A = Unit {0}}
              (λ _ x. ⊥)
              (Unconfirmed text dir v)
              (bind_res (λ warn. λ x. (stop (flash (confirm_rejected warn)), x)) (rolled r))
      go (ends_done q) = ends_stop (record {
        applied_hash = q.0.applied_hash ∙ a;
        versions = q.0.versions ∙ e;
        files = λ _. q.1;
      })
      go (ends_stop f) =
          ends_stop
            (refuse (flash (confirm_rejected true)) (λ k. cc) (f.applied_hash ∙ a) (f.versions ∙ e))

  after_confirm-Ends :
      (r : Reply) (w : World)
      → w.backups ≡ v.backups
      → w.applied_hash ≡ v.applied_hash
      → w.versions ≡ v.versions
      → Ends (λ _ x. (x ≡ w) × (r ≡ answer true)) (Unconfirmed text dir v) (after_confirm c r w)
  after_confirm-Ends (answer true) w b a e = ends_done (refl, refl)
  after_confirm-Ends (answer false) w b a e =
      Ends-map (undo-Ends w b a e) (λ _ x h. absurd h) (λ _ x h. h)
  after_confirm-Ends no_reply w b a e =
      Ends-map (undo-Ends w b a e) (λ _ x h. absurd h) (λ _ x h. h)

  -- Whatever fails, confirming a version whose set names no file twice and whose backup is a
  -- directory of unique names ends in one of two ways. It answers "confirmed": then BIRD was told to
  -- confirm and accepted, the files of the set, and no others, are on disk, the version is resolved and
  -- its hash is the applied one. Or the versions and the applied hash are as before, and if the answer is
  -- that confirming was refused, without a warning about the undo, exactly the files of the backup are on
  -- disk.
  pub confirm_set-Ends :
      IsUnique (set_dir set.includes)
      → Ends
          (λ r w. (r ≡ flash confirmed_now) × Confirmed c set v w)
          (Unconfirmed text dir v)
          (confirm_set c (some set) v)
  confirm_set-Ends u =
      Ends-bind
        (Ends-orelse server_error (write_file_set-Ends set u v)
          (λ _ w f. refuse server_error (λ k. cc) f.applied_hash f.versions))
        λ _ w f.
          Ends-bind (Ends-map (send-Ends configure_confirm w) (λ _ x q. q) (λ _ x h. absurd h))
            λ r x q.
              Ends-bind
                (after_confirm-Ends r x (q.0.backups ∙ f.0.backups)
                  (q.0.applied_hash ∙ f.0.applied_hash) (q.0.versions ∙ f.0.versions))
                λ _ y e.
                  Ends-bind
                    (Ends-orelse server_error (confirm_row-Ends c y) (λ _ z s.
                      refuse server_error (λ k. cc)
                        (s.0.applied_hash
                          ∙ ap (λ (t : World). t.applied_hash) (e.0)
                          ∙ q.0.applied_hash
                          ∙ f.0.applied_hash)
                        (s.0.versions
                          ∙ ap (λ (t : World). t.versions) (e.0)
                          ∙ q.0.versions
                          ∙ f.0.versions)))
                    λ _ z s.
                      Ends-bind
                        (Ends-map (emit_event-Ends apply_confirmed z) (λ _ t k. k)
                          (λ _ t h. absurd h))
                        λ _ t k. ends_done (
                          refl,
                          record {
                            files =
                                Holds-disk
                                  (k.0.disk ∙ s.0 ∙ ap (λ (a : World). a.disk) (e.0) ∙ q.0.disk)
                                  f.1;
                            applied_hash = k.0.applied_hash ∙ s.1;
                            versions =
                                k.0.versions
                                ∙ s.2
                                ∙ ap (λ (a : World). update_status c.id confirmed a.versions) (e.0)
                                ∙ ap (update_status c.id confirmed) (q.0.versions ∙ f.0.versions);
                            sent =
                                k.1
                                ∙ s.3
                                ∙ ap (λ (a : World). a.sent) (e.0)
                                ∙ q.1
                                ∙ ap (λ l. configure_confirm ∷ l) f.0.sent;
                            accepted =
                                ap (λ l. (next_reply l).0) (sym f.0.replies) ∙ sym (q.2) ∙ e.1;
                          },
                        )
