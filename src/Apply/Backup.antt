-- ===== src/Apply/Backup.antt =====
-- internal/web/apply.go: `snapshotConfig` followed, however much later, by `restoreConfig` or
-- `rollbackConfig`.
use birdy.Common.{
  ℕ, ◌+◌, true, false, [], ◌∷◌, Option, none, some, Text, text_eq_self, ◌≡◌, refl, ap, ◌∙◌, sym,
  arith, ◌⊎◌, inl, inr,
}
use birdy.Apply.World.{
  Dir, look, put, Disk, snapshot, World, Res, Err, Ends, ends_done, ends_stop, Ends-bind, Ends-map,
}
use birdy.Apply.Disk.{
  restore_config, rollback_config, find_backup, put_backup, copy_confs, copy_config,
  snapshot_config, snapshot_conf, is_empty, rolled,
}
use birdy.Apply.Dirs.{IsUnique, over, put_all, look-put_all, put_all-IsUnique}
use birdy.Apply.Effects.{Frame, Frame-trans, Same, Stopped, may_fail-Ends, change-Ends}
use birdy.Apply.Restore.{restore_backup-Ends, prune-Ends}

-- `w` differs from `v` at most in the backups and in the failures to come.
pub record Saved (v w : World) : Type 0 where
  pub disk : w.disk ≡ v.disk
  pub versions : w.versions ≡ v.versions
  pub applied_hash : w.applied_hash ≡ v.applied_hash
  pub sent : w.sent ≡ v.sent
  pub events : w.events ≡ v.events
  pub rollback_errors : w.rollback_errors ≡ v.rollback_errors
  pub now : w.now ≡ v.now
  pub replies : w.replies ≡ v.replies

Saved-trans : {u v w : World} → Saved u v → Saved v w → Saved u w
Saved-trans f g = ground arith

Saved-Same : {v w : World} → Same v w → Saved v w
Saved-Same s = ground arith

-- The backup at a path holds `text` and `dir`.
abbrev IsSaved : Text → Text → Dir → World → Type 0
IsSaved dest text dir w = find_backup dest w.backups ≡ some (snapshot text dir)

module _ (dest text : Text) where
  save : Dir → World → World
  save dir w = record w { backups = put_backup dest (snapshot text dir) w.backups }

  save-IsSaved : (dir : Dir) (w : World) → Saved w (save dir w) × IsSaved dest text dir (save dir w)
  unfolding save put_backup find_backup
  save-IsSaved dir w = (ground arith, rw (text_eq_self dest))

  copy_confs-Ends :
      (m dir : Dir) (v : World)
      → IsSaved dest text dir v
      → Ends
          (λ _ w. Saved v w × IsSaved dest text (put_all m dir) w)
          (λ _ w. Saved v w)
          (copy_confs dest text dir m v)
  unfolding copy_confs put_all save
  copy_confs-Ends [] dir v h = ends_done (ground arith, h)
  copy_confs-Ends ((n, b) ∷ m) dir v h =
      Ends-bind (Ends-map (may_fail-Ends v) (λ _ w s. Saved-Same s) (λ _ w s. Saved-Same s))
        λ _ w s.
          let (t, i) = save-IsSaved (put n b dir) w in
          Ends-map (copy_confs-Ends m (put n b dir) (save (put n b dir) w) i)
            (λ _ x r. (Saved-trans s (Saved-trans t r.0), r.1))
            (λ _ x r. Saved-trans s (Saved-trans t r))

-- The path `p`, read in `w`, stands for the config that `v` has on disk.
pub data Backed (p : Text) (v w : World) : Type 0 where
  nothing : is_empty p ≡ true → v.disk.conf ≡ none → Backed p v w
  copied :
      (text : Text) (dir : Dir)
      → is_empty p ≡ false
      → v.disk.conf ≡ some text
      → find_backup p w.backups ≡ some (snapshot text dir)
      → IsUnique dir
      → ((n : Text) → look n dir ≡ look n v.disk.confs)
      → Backed p v w

pub Backed-later : {p : Text} {v w x : World} → Backed p v w → x.backups ≡ w.backups → Backed p v x
Backed-later (nothing e c) h = nothing e c
Backed-later (copied text dir e c f u l) h = copied text dir e c (ap (find_backup _) h ∙ f) u l

-- What the path of a new backup meets: it is not empty, and no backup has it yet.
pub record IsFresh (stamp : ℕ → Text) (v : World) : Type 0 where
  pub some_path : is_empty (stamp v.now) ≡ false
  pub unused : find_backup (stamp v.now) v.backups ≡ none

-- It depends only on the files of the first world.
pub Backed-same : {p : Text} {v v' w : World} → v'.disk ≡ v.disk → Backed p v' w → Backed p v w
Backed-same h (nothing e c) = nothing e (sym (ap (λ (d : Disk). d.conf) h) ∙ c)
Backed-same h (copied text dir e c f u l) =
    copied text dir e (sym (ap (λ (d : Disk). d.conf) h) ∙ c) f u
      (λ n. l n ∙ ap (λ (d : Disk). look n d.confs) h)

over-none : (o : Option Text) → over o none ≡ o
over-none none = refl
over-none (some b) = refl

module _ (dest text : Text) where
  copy_config-Ends :
      (v : World)
      → is_empty dest ≡ false
      → v.disk.conf ≡ some text
      → IsUnique v.disk.confs
      → Ends (λ p w. Saved v w × Backed p v w) (λ _ w. Saved v w) (copy_config dest text [] v)
  unfolding copy_config save look
  copy_config-Ends v e c u =
      let (s0, i0) = save-IsSaved dest text [] v in
      Ends-bind
        (Ends-map (may_fail-Ends (save dest text [] v)) (λ _ w s. s)
          (λ _ w s. Saved-trans s0 (Saved-Same s)))
        λ _ w s.
          Ends-bind
            (Ends-map
              (copy_confs-Ends dest text w.disk.confs [] w (ap (find_backup dest) s.0.backups ∙ i0))
              (λ _ x r. r) (λ _ x r. Saved-trans s0 (Saved-trans (Saved-Same s) r)))
            λ _ x r. ends_done (
              Saved-trans s0 (Saved-trans (Saved-Same s) r.0),
              copied text (put_all w.disk.confs []) e c r.1 (put_all-IsUnique w.disk.confs [] tt)
                  (λ n.
                    look-put_all n w.disk.confs [] (rw (ap (λ (d : Disk). d.confs) s.1) u)
                    ∙ over-none (look n w.disk.confs)
                    ∙ ap (λ (d : Disk). look n d.confs) s.1),
            )

  snapshot_conf-Ends :
      (v : World)
      → is_empty dest ≡ false
      → find_backup dest v.backups ≡ none
      → v.disk.conf ≡ some text
      → IsUnique v.disk.confs
      → Ends (λ p w. Saved v w × Backed p v w) (λ _ w. Saved v w) (snapshot_conf dest (some text) v)
  unfolding snapshot_conf
  snapshot_conf-Ends v e f c u =
      Ends-bind (Ends-map (may_fail-Ends v) (λ _ w s. s) (λ _ w s. Saved-Same s)) λ _ w s.
        rw (ap (find_backup dest) s.0.backups ∙ f) (
          Ends-map
            (copy_config-Ends w e (ap (λ (d : Disk). d.conf) s.1 ∙ c)
              (rw (ap (λ (d : Disk). d.confs) s.1) u))
            (λ p x r. (Saved-trans (Saved-Same s) r.0, Backed-same s.1 r.1))
            (λ _ x r. Saved-trans (Saved-Same s) r))

snapshot_conf-any :
    (dest : Text) (c : Option Text) (v : World)
    → v.disk.conf ≡ c
    → is_empty dest ≡ false
    → find_backup dest v.backups ≡ none
    → IsUnique v.disk.confs
    → Ends (λ p w. Saved v w × Backed p v w) (λ _ w. Saved v w) (snapshot_conf dest c v)
unfolding snapshot_conf
snapshot_conf-any dest none v c e f u = ends_done (ground arith, nothing refl c)
snapshot_conf-any dest (some text) v c e f u = snapshot_conf-Ends dest text v e f c u

-- Backing up, if the path is new and no file name stands twice on disk, changes nothing but the
-- backups, whatever fails; if it succeeds, it gives a path that stands for what is on disk.
pub snapshot_config-Ends :
    (stamp : ℕ → Text) (v : World)
    → IsFresh stamp v
    → IsUnique v.disk.confs
    → Ends (λ p w. Saved v w × Backed p v w) (λ _ w. Saved v w) (snapshot_config stamp v)
unfolding snapshot_config
snapshot_config-Ends stamp v fresh u =
    Ends-bind (Ends-map (may_fail-Ends v) (λ _ w s. s) (λ _ w s. Saved-Same s)) λ _ w s.
      Ends-map
        (snapshot_conf-any (stamp w.now) w.disk.conf w refl
          (ap (λ n. is_empty (stamp n)) s.0.now ∙ fresh.some_path)
          (ap (λ n. find_backup (stamp n) w.backups) s.0.now
            ∙ ap (find_backup (stamp v.now)) s.0.backups
            ∙ fresh.unused)
          (rw (ap (λ (d : Disk). d.confs) s.1) u))
        (λ p x r. (Saved-trans (Saved-Same s) r.0, Backed-same s.1 r.1))
        (λ _ x r. Saved-trans (Saved-Same s) r)

-- The disk of `w` has the config of `v`: the same bird.conf and, where there is one, the same files
-- beside it.
pub record SameConfig (v w : World) : Type 0 where
  pub conf : w.disk.conf ≡ v.disk.conf
  pub confs : (v.disk.conf ≡ none) ⊎ ((n : Text) → look n w.disk.confs ≡ look n v.disk.confs)

-- Restoring a backup, if no call fails, brings back the config that was backed up.
pub restore_config-Ends :
    {p : Text} {u v : World}
    → Backed p u v
    → Ends (λ _ w. Frame v w × SameConfig u w) (Stopped v) (restore_config p v)
unfolding restore_config
restore_config-Ends {v} (nothing e c) = rw e (
    Ends-bind (change-Ends (λ d. record d { conf = none }) v) λ _ w t.
      Ends-map (prune-Ends [] w)
        (λ _ x q. (
          Frame-trans t.0 q.0,
          record { conf = q.1 ∙ ap (λ (d : Disk). d.conf) t.1 ∙ sym c; confs = inl c },
        ))
        (λ _ x q. Frame-trans t.0 q))
restore_config-Ends {v} (copied text dir e c f un l) =
    rw (e, f)
      (Ends-map (restore_backup-Ends text dir un v)
        (λ _ w q. (q.0, record { conf = q.1.conf ∙ sym c; confs = inr (λ n. q.1.confs n ∙ l n) }))
        (λ _ w q. q))

-- What a rollback leaves alone: all but the files, the log and the failures to come.
pub record Rolled (v w : World) : Type 0 where
  pub versions : w.versions ≡ v.versions
  pub applied_hash : w.applied_hash ≡ v.applied_hash
  pub sent : w.sent ≡ v.sent

abbrev pub Undone : World → World → World → Type 0
Undone u v w =
    Rolled v w
    × ((SameConfig u w × (w.rollback_errors ≡ v.rollback_errors))
        ⊎ (w.rollback_errors ≡ v.rollback_errors + 1))

rolled-Ends :
    {E : Type 0} {u v : World} {r : Res Err (Unit {0}) × World}
    → Ends (λ _ w. Frame v w × SameConfig u w) (Stopped v) r
    → Ends {E = E} (λ _ w. Undone u v w) (λ _ w. ⊥) (rolled r)
rolled-Ends (ends_done q) = ends_done (ground arith, inl (q.1, q.0.rollback_errors))
rolled-Ends (ends_stop f) = ends_done (ground arith, inr (ap (λ n. n + 1) f.rollback_errors))

-- As a handler sees it: a failure is logged, and the handler goes on.
pub rollback_config-Ends :
    {E : Type 0} {p : Text} {u v : World}
    → Backed p u v
    → Ends {E = E} (λ _ w. Undone u v w) (λ _ w. ⊥) (rollback_config p v)
unfolding rollback_config
rollback_config-Ends b = rolled-Ends (restore_config-Ends b)
