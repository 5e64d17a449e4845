-- ===== src/Apply/Disk.antt =====
-- internal/web/apply.go: `writeFileSet`, `pruneIncludeDir`, `snapshotConfig`, `restoreConfig`,
-- `rollbackConfig`, `readLogicalConfig`. A write goes through a temporary file and a rename, so it
-- happens whole or not at all.
pub use birdy.Common.{is_empty}
use birdy.Common.{
  ℕ, ◌+◌, Bool, true, false, List, [], ◌∷◌, ◌++◌, Option, none, some, Text, text_eq, if◌then◌else◌,
  ◌==◌, map, any_of,
}
use birdy.Files.{File, FileSet}
use birdy.Apply.Includes.{birdy_includes}
use birdy.Apply.World.{
  Dir, look, put, remove, Disk, Backup, snapshot, legacy, World, Res, done, stop, Io, ◌>>◌, return,
  throw, Err, io_error, may_fail,
}

-- `filepath.Base` of a name below the config directory.
unfoldable pub base_name : Text → Text
base_name [] = []
base_name (c ∷ s) =
    let rest = base_name s in
    if any_of (λ d. d == b'/') s then rest else if c == b'/' then s else c ∷ s

abbrev with_disk : (Disk → Disk) → Io Err (Unit {0})
with_disk f w = (done tt, record w { disk = f w.disk })

abbrev write_conf : Text → Io Err (Unit {0})
write_conf text = do may_fail; with_disk (λ d. record d { conf = some text })

abbrev write_include : Text → Text → Io Err (Unit {0})
write_include name body = do may_fail; with_disk (λ d. record d { confs = put name body d.confs })

abbrev remove_conf : Io Err (Unit {0})
remove_conf = do may_fail; with_disk (λ d. record d { conf = none })

abbrev remove_include : Text → Io Err (Unit {0})
remove_include name = do may_fail; with_disk (λ d. record d { confs = remove name d.confs })

abbrev pub kept_name : Text → List Text → Bool
kept_name name keep = any_of (λ k. text_eq k name) keep

-- The loop of `pruneIncludeDir` over the directory's entries.
unfoldable pub prune_loop : List Text → Dir → Io Err (Unit {0})
unfolding may_fail
prune_loop keep [] = return tt
prune_loop keep ((name, body) ∷ entries) =
    let rest = prune_loop keep entries in
    if kept_name name keep then rest else (remove_include name >> rest)

unfoldable pub prune : List Text → Io Err (Unit {0})
unfolding prune_loop
prune keep = do may_fail; (λ w. prune_loop keep w.disk.confs w)

-- The loop of `writeFileSet`: each include, its directory made first.
unfoldable pub write_includes : List File → Io Err (Unit {0})
unfolding base_name may_fail
write_includes [] = return tt
write_includes (f ∷ fs) = do may_fail; write_include (base_name f.name) f.body; write_includes fs

unfoldable pub write_file_set : FileSet → Io Err (Unit {0})
unfolding write_includes prune
write_file_set set = do
  write_includes set.includes
  write_conf set.entry
  prune (map (λ (f : File). base_name f.name) set.includes)

-- Backups.

unfoldable pub find_backup : Text → List (Text × Backup) → Option Backup
find_backup k [] = none
find_backup k ((j, b) ∷ m) = if text_eq j k then some b else find_backup k m

unfoldable pub put_backup : Text → Backup → List (Text × Backup) → List (Text × Backup)
put_backup k b m = (k, b) ∷ m

abbrev confs_of : Option Backup → Dir
confs_of none = []
confs_of (some (snapshot text dir)) = dir
confs_of (some (legacy text)) = []

abbrev save_backup : Text → Text → Dir → Io Err (Unit {0})
save_backup dest text dir w =
    (done tt, record w { backups = put_backup dest (snapshot text dir) w.backups })

-- Copies each entry into the backup, which holds `dir` so far.
unfoldable pub copy_confs : Text → Text → Dir → Dir → Io Err (Unit {0})
unfolding may_fail put_backup put
copy_confs dest text dir [] = return tt
copy_confs dest text dir ((name, body) ∷ entries) = do
  may_fail
  save_backup dest text (put name body dir)
  copy_confs dest text (put name body dir) entries

-- The copy into a directory that holds `old` before.
unfoldable pub copy_config : Text → Text → Dir → Io Err Text
copy_config dest text old = do
  save_backup dest text old
  may_fail
  (λ w. copy_confs dest text old w.disk.confs w)
  return dest

-- The empty path stands for "there was no bird.conf". Files that an older backup of the same name
-- holds stay in it.
unfoldable pub snapshot_conf : Text → Option Text → Io Err Text
snapshot_conf dest none = return []
snapshot_conf dest (some text) = do
  may_fail
  (λ w. copy_config dest text (confs_of (find_backup dest w.backups)) w)

unfoldable pub snapshot_config : (ℕ → Text) → Io Err Text
snapshot_config stamp = do may_fail; (λ w. snapshot_conf (stamp w.now) w.disk.conf w)

-- The loop of `restoreConfig` over a backup's `*.conf` files.
unfoldable pub restore_confs : Dir → Io Err (Unit {0})
unfolding may_fail
restore_confs [] = return tt
restore_confs ((name, body) ∷ entries) = do may_fail; write_include name body; restore_confs entries

unfoldable pub restore_backup : Option Backup → Io Err (Unit {0})
unfolding restore_confs prune may_fail
restore_backup none = throw io_error
restore_backup (some (legacy text)) = do may_fail; write_conf text; prune []
restore_backup (some (snapshot text dir)) = do
  may_fail
  write_conf text
  may_fail
  restore_confs dir
  prune (map (λ (e : Text × Text). e.0) dir)

-- `restoreConfig`
unfoldable pub restore_config : Text → Io Err (Unit {0})
unfolding restore_backup find_backup prune may_fail
restore_config path w =
    if is_empty path
    then (remove_conf >> prune []) w
    else restore_backup (find_backup path w.backups) w

abbrev pub rolled : {E : Type 0} → Res Err (Unit {0}) × World → Res E Bool × World
rolled (done a, w) = (done false, w)
rolled (stop e, w) = (done true, record w { rollback_errors = w.rollback_errors + 1 })

-- `rollbackConfig`; the result says whether the warning is appended.
unfoldable pub rollback_config : {E : Type 0} → Text → Io E Bool
unfolding restore_config
rollback_config path w = rolled (restore_config path w)

-- `readLogicalConfig`

-- The bodies of the included files, those that are missing left out.
unfoldable pub join_includes : Dir → List Text → Text
unfolding look
join_includes confs [] = []
join_includes confs (n ∷ ns) = body_of (look n confs) ++ join_includes confs ns
  where
    body_of : Option Text → Text
    body_of none = []
    body_of (some body) = body

abbrev pub no_names : List Text → Bool
no_names [] = true
no_names (n ∷ ns) = false

-- The logical config of the files on disk, with bird.conf in the directory `dir`; `none` when there is no bird.conf.
unfoldable pub logical_of : Text → Option Text → Dir → Option Text
unfolding join_includes birdy_includes
logical_of dir none confs = none
logical_of dir (some text) confs =
    let includes = birdy_includes dir text in
    some (if no_names includes then text else join_includes confs includes)

unfoldable pub read_logical_config : Text → Io Err (Option Text)
unfolding may_fail logical_of
read_logical_config dir = do may_fail; (λ w. (done (logical_of dir w.disk.conf w.disk.confs), w))
