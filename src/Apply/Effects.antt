-- ===== src/Apply/Effects.antt =====
-- internal/web/apply.go: what the file operations of Disk do, with any failures.
use birdy.Common.{
  not, ◌&&◌, List, [], ◌∷◌, none, Text, text_eq_iff, if◌then◌else◌, ◌≡◌, refl, ◌∙◌, arith, inl, inr,
  Bool-cases,
}
use birdy.Files.{File}
use birdy.Apply.World.{
  Dir, look, put, remove, Disk, World, done, Io, Err, ◌>>◌, next_fault, may_fail, Ends, ends_done,
  ends_stop, Ends-bind, Ends-map,
}
use birdy.Apply.Disk.{base_name, kept_name, prune_loop, write_includes, restore_confs}
use birdy.Apply.Dirs.{look-remove, has, put_all}

-- `w` differs from `v` at most in the files and in the failures to come.
pub record Frame (v w : World) : Type 0 where
  pub backups : w.backups ≡ v.backups
  pub versions : w.versions ≡ v.versions
  pub applied_hash : w.applied_hash ≡ v.applied_hash
  pub sent : w.sent ≡ v.sent
  pub events : w.events ≡ v.events
  pub rollback_errors : w.rollback_errors ≡ v.rollback_errors
  pub now : w.now ≡ v.now
  pub replies : w.replies ≡ v.replies

pub Frame-refl : (v : World) → Frame v v
Frame-refl v = ground arith

pub Frame-trans : {u v w : World} → Frame u v → Frame v w → Frame u w
Frame-trans f g = ground arith

-- Nor in the files.
abbrev pub Same : World → World → Type 0
Same v w = Frame v w × (w.disk ≡ v.disk)

pub may_fail-Ends : (v : World) → Ends (λ _ w. Same v w) (λ _ w. Same v w) (may_fail v)
unfolding may_fail
may_fail-Ends v = elim (Bool-cases (next_fault v.faults).0) [
  | inl e ↦ rw e (ends_stop (ground arith))
  | inr e ↦ rw e (ends_done (ground arith))
]

-- `w` is reached with the files `d`.
abbrev pub With : World → Disk → World → Type 0
With v d w = Frame v w × (w.disk ≡ d)

module _ (f : Disk → Disk) where
  abbrev change : Io Err (Unit {0})
  change w = (done tt, record w { disk = f w.disk })

  pub change-Ends :
      (v : World) → Ends (λ _ w. With v (f v.disk) w) (λ _ w. Frame v w) ((may_fail >> change) v)
  change-Ends v =
      Ends-bind (Ends-map (may_fail-Ends v) (λ _ w s. s) (λ _ w s. s.0))
        λ _ w s. ends_done (ground arith)

-- A step that stops has still changed nothing but files.
abbrev pub Stopped : World → Err → World → Type 0
Stopped v e w = Frame v w

pub restore_confs-Ends :
    (m : Dir) (v : World)
    → Ends
        (λ _ w. With v (record v.disk { confs = put_all m v.disk.confs }) w)
        (Stopped v)
        (restore_confs m v)
unfolding restore_confs put_all
restore_confs-Ends [] v = ends_done (Frame-refl v, refl)
restore_confs-Ends ((n, b) ∷ m) v =
    Ends-bind (Ends-map (may_fail-Ends v) (λ _ w s. s) (λ _ w s. s.0)) λ _ w s.
      Ends-bind
        (Ends-map (change-Ends (λ d. record d { confs = put n b d.confs }) w) (λ _ x t. t)
          (λ _ x t. Frame-trans s.0 t))
        λ _ x t.
          Ends-map (restore_confs-Ends m x)
            (λ _ y r. (Frame-trans s.0 (Frame-trans t.0 r.0), ground (arith, r.1, t.1, s.1)))
            (λ _ y r. Frame-trans s.0 (Frame-trans t.0 r))

-- The include files as a directory.
abbrev pub set_dir : List File → Dir
set_dir [] = []
set_dir (f ∷ fs) = (base_name f.name, f.body) ∷ set_dir fs

pub write_includes-Ends :
    (fs : List File) (v : World)
    → Ends
        (λ _ w. With v (record v.disk { confs = put_all (set_dir fs) v.disk.confs }) w)
        (Stopped v)
        (write_includes fs v)
unfolding write_includes put_all
write_includes-Ends [] v = ends_done (Frame-refl v, refl)
write_includes-Ends (f ∷ fs) v =
    Ends-bind (Ends-map (may_fail-Ends v) (λ _ w s. s) (λ _ w s. s.0)) λ _ w s.
      Ends-bind
        (Ends-map (change-Ends (λ d. record d { confs = put (base_name f.name) f.body d.confs }) w)
          (λ _ x t. t) (λ _ x t. Frame-trans s.0 t))
        λ _ x t.
          Ends-map (write_includes-Ends fs x)
            (λ _ y r. (Frame-trans s.0 (Frame-trans t.0 r.0), ground (arith, r.1, t.1, s.1)))
            (λ _ y r. Frame-trans s.0 (Frame-trans t.0 r))

-- What pruning leaves of the entries it has seen.
abbrev Pruned : List Text → Dir → World → World → Type 0
Pruned keep entries v w =
    Frame v w
    × (w.disk.conf ≡ v.disk.conf)
    × ((n : Text)
        → look n w.disk.confs
          ≡ (if has n entries && not (kept_name n keep) then none else look n v.disk.confs))

pub prune_loop-Ends :
    (keep : List Text) (m : Dir) (v : World)
    → Ends (λ _ w. Pruned keep m v w) (Stopped v) (prune_loop keep m v)
unfolding prune_loop has
prune_loop-Ends keep [] v = ends_done (Frame-refl v, refl, λ n. refl)
prune_loop-Ends keep ((j, b) ∷ m) v = elim (Bool-cases (kept_name j keep)) [
  | inl e ↦ rw e (
      Ends-map (prune_loop-Ends keep m v)
        (λ _ w p. (p.0, p.1, λ n. p.2 n ∙ ground (arith, text_eq_iff j n, e))) (λ _ w p. p))
  | inr e ↦ rw e (
      Ends-bind (change-Ends (λ d. record d { confs = remove j d.confs }) v) λ _ x t.
        Ends-map (prune_loop-Ends keep m x)
          (λ _ w p. (
            Frame-trans t.0 p.0,
            ground (arith, p.1, t.1),
            λ n. p.2 n ∙ ground (arith, t.1, look-remove j n v.disk.confs, text_eq_iff j n, e),
          ))
          (λ _ w p. Frame-trans t.0 p))
]
