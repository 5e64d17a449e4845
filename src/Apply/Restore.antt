-- ===== src/Apply/Restore.antt =====
-- internal/web/apply.go: `writeFileSet` leaves exactly the set on disk, and `restoreConfig` exactly
-- what `snapshotConfig` saw.
use birdy.Common.{
  Bool, true, List, [], ◌∷◌, Option, none, some, Text, if◌then◌else◌, ◌≡◌, refl, ◌∙◌, arith, map,
}
use birdy.Files.{File, FileSet}
use birdy.Apply.World.{Dir, look, snapshot, World, Ends, Ends-bind, Ends-map}
use birdy.Apply.Disk.{base_name, kept_name, prune, write_file_set, restore_backup}
use birdy.Apply.Dirs.{look-has, has, IsUnique, over, put_all, look-put_all}
use birdy.Apply.Effects.{
  Frame, Frame-trans, Stopped, may_fail-Ends, change-Ends, restore_confs-Ends, set_dir,
  write_includes-Ends, prune_loop-Ends,
}

abbrev PrunedTo : List Text → World → World → Type 0
PrunedTo keep v w =
    Frame v w
    × (w.disk.conf ≡ v.disk.conf)
    × ((n : Text) → look n w.disk.confs ≡ (if kept_name n keep then look n v.disk.confs else none))

pub prune-Ends :
    (keep : List Text) (v : World) → Ends (λ _ w. PrunedTo keep v w) (Stopped v) (prune keep v)
unfolding prune
prune-Ends keep v = Ends-bind (Ends-map (may_fail-Ends v) (λ _ w s. s) (λ _ w s. s.0)) λ _ w s.
    Ends-map (prune_loop-Ends keep w.disk.confs w)
      (λ _ x p. (
        Frame-trans s.0 p.0,
        ground (arith, p.1, s.1),
        λ n. p.2 n ∙ ground (arith, s.1, look-has n w.disk.confs),
      ))
      (λ _ x p. Frame-trans s.0 p)

-- The files on disk are `text` and those of `dir`.
pub record Holds (text : Text) (dir : Dir) (w : World) : Type 0 where
  pub conf : w.disk.conf ≡ some text
  pub confs : (n : Text) → look n w.disk.confs ≡ look n dir

over-has : (n : Text) (m : Dir) (d : Option Text) → has n m ≡ true → over (look n m) d ≡ look n m
unfolding has look
over-has n [] d h = cc
over-has n ((j, b) ∷ m) d h = ground (arith, over-has n m d)

-- Writing `dir` and pruning what is not in it.
replaced :
    (n : Text) (dir old new : Dir) (kept : Bool)
    → IsUnique dir
    → kept ≡ has n dir
    → look n new ≡ (if kept then look n (put_all dir old) else none)
    → look n new ≡ look n dir
replaced n dir old new kept u k e =
    ground (arith, look-put_all n dir old u, over-has n dir (look n old), look-has n dir)

kept_name-names : (n : Text) (m : Dir) → kept_name n (map (λ (e : Text × Text). e.0) m) ≡ has n m
unfolding has
kept_name-names n [] = refl
kept_name-names n ((j, b) ∷ m) = ground (arith, kept_name-names n m)

kept_name-set :
    (n : Text) (fs : List File)
    → kept_name n (map (λ (f : File). base_name f.name) fs) ≡ has n (set_dir fs)
unfolding has
kept_name-set n [] = refl
kept_name-set n (f ∷ fs) = ground (arith, kept_name-set n fs)

module _ (set : FileSet) (u : IsUnique (set_dir set.includes)) where
  -- If every call succeeds, exactly the set is on disk, whatever was there.
  pub write_file_set-Ends :
      (v : World)
      → Ends
          (λ _ w. Frame v w × Holds set.entry (set_dir set.includes) w)
          (Stopped v)
          (write_file_set set v)
  unfolding write_file_set
  write_file_set-Ends v = Ends-bind (write_includes-Ends set.includes v) λ _ w s.
      Ends-bind
        (Ends-map (change-Ends (λ d. record d { conf = some set.entry }) w) (λ _ x t. t)
          (λ _ x t. Frame-trans s.0 t))
        λ _ x t.
          Ends-map (prune-Ends (map (λ (f : File). base_name f.name) set.includes) x)
            (λ _ y p. (
              Frame-trans s.0 (Frame-trans t.0 p.0),
              record {
                conf = ground (arith, p.1, t.1);
                confs = λ n.
                    replaced n (set_dir set.includes) v.disk.confs y.disk.confs _ u
                      (kept_name-set n set.includes) (p.2 n ∙ ground (arith, t.1, s.1));
              },
            ))
            (λ _ y p. Frame-trans s.0 (Frame-trans t.0 p))

module _ (text : Text) (dir : Dir) (u : IsUnique dir) where
  pub restore_backup-Ends :
      (v : World)
      → Ends
          (λ _ w. Frame v w × Holds text dir w)
          (Stopped v)
          (restore_backup (some (snapshot text dir)) v)
  unfolding restore_backup
  restore_backup-Ends v =
      Ends-bind (Ends-map (may_fail-Ends v) (λ _ w s. s) (λ _ w s. s.0)) λ _ v1 s.
        Ends-bind
          (Ends-map (change-Ends (λ d. record d { conf = some text }) v1) (λ _ x t. t)
            (λ _ x t. Frame-trans s.0 t))
          λ _ v2 t.
            Ends-bind
              (Ends-map (may_fail-Ends v2) (λ _ x r. r)
                (λ _ x r. Frame-trans s.0 (Frame-trans t.0 r.0)))
              λ _ v3 r.
                Ends-bind
                  (Ends-map (restore_confs-Ends dir v3) (λ _ x q. q)
                    (λ _ x q. Frame-trans s.0 (Frame-trans t.0 (Frame-trans r.0 q))))
                  λ _ v4 q.
                    Ends-map (prune-Ends (map (λ (e : Text × Text). e.0) dir) v4)
                      (λ _ y p. (
                        Frame-trans s.0 (Frame-trans t.0 (Frame-trans r.0 (Frame-trans q.0 p.0))),
                        record {
                          conf = ground (arith, p.1, q.1, r.1, t.1);
                          confs = λ n.
                              replaced n dir v3.disk.confs y.disk.confs _ u (kept_name-names n dir)
                                (p.2 n ∙ ground (arith, q.1));
                        },
                      ))
                      (λ _ y p.
                        Frame-trans s.0 (Frame-trans t.0 (Frame-trans r.0 (Frame-trans q.0 p))))
