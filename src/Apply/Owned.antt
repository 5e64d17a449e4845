-- ===== src/Apply/Owned.antt =====
-- internal/web/apply.go, `readLogicalConfig`, on the files that `Files` of internal/render/files.go lays out.
use birdy.Common.{
  false, List, [], ◌∷◌, ◌++◌, some, Text, text_eq_self, text_eq_iff, if◌then◌else◌, ◌≡◌, ◌≢◌, refl,
  ap, ◌∙◌, arith, map, concat, All,
}
use birdy.Files.{Section, File, FileSet, logical, files, base_dir}
use birdy.Files.Logical.{logical-files}
use birdy.Files.Entry.{IsOneLine, IsOwn, birdy_includes-files, files-some}
use birdy.Apply.World.{Dir, look, World}
use birdy.Apply.Disk.{base_name, join_includes, logical_of, no_names}
use birdy.Apply.Includes.{birdy_includes}
use birdy.Apply.Dirs.{IsUnique, has}
use birdy.Apply.Effects.{set_dir}
use birdy.Apply.Restore.{Holds}
use birdy.Apply.Handlers.{Env}
use birdy.Apply.Steps.{logical_disk}

abbrev pub include_names : List File → List Text
include_names fs = map (λ (f : File). base_name f.name) fs

abbrev Found : Dir → List File → Type 0
Found d = All (λ (f : File). look (base_name f.name) d ≡ some f.body)

Found-cons :
    (n b : Text) (d : Dir) (fs : List File)
    → has n (set_dir fs) ≡ false
    → Found d fs
    → Found ((n, b) ∷ d) fs
unfolding has look
Found-cons n b d [] h p = tt
Found-cons n b d (f ∷ fs) h p = (
  ground (arith, text_eq_iff n (base_name f.name), text_eq_iff (base_name f.name) n, p.0),
  Found-cons n b d fs (ground arith) p.1,
)

Found-self : (fs : List File) → IsUnique (set_dir fs) → Found (set_dir fs) fs
unfolding look
Found-self [] u = tt
Found-self (f ∷ fs) u = (
  rw (text_eq_self (base_name f.name)),
  Found-cons (base_name f.name) f.body (set_dir fs) fs u.0 (Found-self fs u.1),
)

join_includes-Found :
    (confs d : Dir) (fs : List File)
    → ((n : Text) → look n confs ≡ look n d)
    → Found d fs
    → join_includes confs (include_names fs) ≡ concat (map (λ (f : File). f.body) fs)
unfolding join_includes
join_includes-Found confs d [] h p = refl
join_includes-Found confs d (f ∷ fs) h p =
    rw (h (base_name f.name), p.0) (ap (λ t. f.body ++ t) (join_includes-Found confs d fs h p.1))

logical_disk-read :
    (env : Env) (set : FileSet) (w : World)
    → IsUnique (set_dir set.includes)
    → birdy_includes env.config_dir set.entry ≡ include_names set.includes
    → set.includes ≢ []
    → Holds set.entry (set_dir set.includes) w
    → logical_disk env w ≡ some (logical set)
unfolding logical_of logical
logical_disk-read env set w u e ne h =
    rw (h.conf, e)
      (ap some (go set.includes ne ∙ join_includes-Found w.disk.confs _ _ h.confs (Found-self _ u)))
  where
    go :
        (fs : List File)
        → fs ≢ []
        → (if no_names (include_names fs)
            then set.entry
            else join_includes w.disk.confs (include_names fs))
          ≡ join_includes w.disk.confs (include_names fs)
    go [] n = absurd (n refl)
    go (f ∷ fs) n = refl

-- With the files of sections on disk, as `Files` lays them out (at least one section, no two of the same
-- file name), what is read back as the logical config is the sections' bodies, one behind the other. The
-- version is one line, the directory of bird.conf ends in no slash and has no backslash, and each include
-- path, cleaned, lies in birdy's directory and has no quote.
pub logical_disk-files :
    (env : Env) (version : Text) (s : Section) (secs : List Section) (w : World)
    → let set = files (s ∷ secs) version env.config_dir in
      IsOneLine version
      → base_dir env.config_dir ≡ env.config_dir
      → All (IsOwn env.config_dir) (s ∷ secs)
      → IsUnique (set_dir set.includes)
      → Holds set.entry (set_dir set.includes) w
      → logical_disk env w ≡ some (concat (map (λ (t : Section). t.body) (s ∷ secs)))
logical_disk-files env version s secs w line plain own unique holds =
    logical_disk-read env (files (s ∷ secs) version env.config_dir) w unique
      (birdy_includes-files version env.config_dir s secs line plain own)
      (files-some version env.config_dir s secs) holds
    ∙ ap some (logical-files (s ∷ secs) version env.config_dir)
