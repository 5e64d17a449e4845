-- ===== src/Examples/Requests.antt =====
-- internal/web/apply.go on a server with a config of two files on disk, a set of one include file to
-- put in its place, and a backup. The environment's hash puts a byte in front of the text.
use birdy.Common.{
  ◌≤◌, ◌≡◌, Bool, true, false, [], ◌∷◌, none, some, codes, refl, arith, text_eq, All, map, concat,
}
use birdy.Files.{Section, FileSet, files, base_dir, include_file_name}
use birdy.Apply.World.{Dir, snapshot, pending, confirmed, ConfigVersion, World, answer, Ends}
use birdy.Apply.Disk.{find_backup, base_name}
use birdy.Apply.Dirs.{IsUnique, has}
use birdy.Apply.Effects.{set_dir}
use birdy.Apply.Restore.{Holds}
use birdy.Apply.Backup.{IsFresh}
use birdy.Apply.Steps.{logical_disk}
use birdy.Apply.Handlers.{Env, passed, flash, confirmed_now}
use birdy.Apply.Requests.{ApplyForm, rendered, handle_apply, confirm_set}
use birdy.Apply.Confirm.{Confirmed, Unconfirmed, confirm_set-Ends}
use birdy.Apply.Pending.{pendings}
use birdy.Files.Entry.{IsOwn, IsOneLine}
use birdy.Apply.Includes.{own_include}
use birdy.Apply.Owned.{logical_disk-files}
use birdy.Apply.Lock.{handle_apply-AtMostOne}

abbrev env_of : Bool → Env
env_of read_only = record {
  read_only = read_only;
  apply_timeout = 300;
  hash = λ t. 1 ∷ t;
  config_dir = codes "/etc/bird";
  stamp = λ _. codes "new.bak";
  bird_p = λ _. passed;
  encode = λ _. codes "set";
  decode = λ _. none;
}

abbrev live : Dir
live = (codes "b.conf", codes "old include") ∷ []

abbrev set : FileSet
set = record {
  entry = codes "entry";
  includes = record { name = codes "birdy.d/a.conf"; body = codes "new include" } ∷ [];
}

abbrev version : ConfigVersion
version = record {
  id = 7;
  sha256 = codes "sum";
  config_text = codes "entry";
  backup_path = codes "old.bak";
  status = pending;
  deadline = some 400;
  config_files = codes "set";
}

abbrev server : World
server = record {
  disk = record { conf = some (codes "old"); confs = live };
  backups = (codes "old.bak", snapshot (codes "old") live) ∷ [];
  versions = version ∷ [];
  applied_hash = codes "sum";
  sent = [];
  events = [];
  rollback_errors = 0;
  now = 100;
  faults = false ∷ true ∷ [];
  replies = answer true ∷ answer false ∷ [];
}

live-IsUnique : IsUnique live
unfolding has
live-IsUnique = (refl, tt)

set-IsUnique : IsUnique (set_dir set.includes)
unfolding has base_name
set-IsUnique = (refl, tt)

saved_backup : find_backup (codes "old.bak") server.backups ≡ some (snapshot (codes "old") live)
unfolding find_backup text_eq
saved_backup = refl

confirm_set-Ends_example :
    Ends
      (λ r w. (r ≡ flash confirmed_now) × Confirmed version set server w)
      (Unconfirmed (codes "old") live server)
      (confirm_set version (some set) server)
confirm_set-Ends_example =
    confirm_set-Ends version set (codes "old") live server refl saved_backup live-IsUnique
      set-IsUnique

abbrev form : ApplyForm
form = record { parses = true; ack_risks = true; soft = false }

-- The same server with no apply pending.
abbrev idle : World
idle = record server { versions = record version { status = confirmed } ∷ []; faults = [] }

idle-IsFresh : IsFresh ((env_of false).stamp) idle
unfolding find_backup text_eq
idle-IsFresh = record { some_path = refl; unused = refl }

none_pending : pendings idle.versions ≤ 1
unfolding pendings
none_pending = omega arith

handle_apply-AtMostOne_example :
    pendings (handle_apply (env_of false) form (rendered 0 0 (some set)) idle).1.versions ≤ 1
handle_apply-AtMostOne_example =
    handle_apply-AtMostOne (env_of false) form (rendered 0 0 (some set)) idle idle-IsFresh
      live-IsUnique none_pending

-- A server with the files of two sections on disk.
abbrev header : Section
header = record {
  path = codes "header";
  title = codes "Header";
  body = codes "router id 192.0.2.1;";
}

abbrev edge : Section
edge = record { path = codes "peers/edge"; title = codes "Edge"; body = codes "protocol bgp edge;" }

abbrev laid_out : FileSet
laid_out = files (header ∷ edge ∷ []) (codes "0.4.2") (codes "/etc/bird")

abbrev installed : World
installed = record server {
  disk = record { conf = some laid_out.entry; confs = set_dir laid_out.includes };
}

sections-IsOwn : All (IsOwn (codes "/etc/bird")) (header ∷ edge ∷ [])
unfolding include_file_name own_include base_name
sections-IsOwn = (((ground arith, refl), refl), (((ground arith, refl), refl), tt))

version-IsOneLine : IsOneLine (codes "0.4.2")
version-IsOneLine = ground arith

dir-plain : base_dir (codes "/etc/bird") ≡ codes "/etc/bird"
unfolding base_dir
dir-plain = refl

laid_out-IsUnique : IsUnique (set_dir laid_out.includes)
unfolding files include_file_name base_name has text_eq
laid_out-IsUnique = ground arith

installed-Holds : Holds laid_out.entry (set_dir laid_out.includes) installed
installed-Holds = record { conf = refl; confs = λ n. refl }

logical_disk-files_example :
    logical_disk (env_of false) installed
    ≡ some (concat (map (λ (s : Section). s.body) (header ∷ edge ∷ [])))
logical_disk-files_example =
    logical_disk-files (env_of false) (codes "0.4.2") header (edge ∷ []) installed version-IsOneLine
      dir-plain sections-IsOwn laid_out-IsUnique installed-Holds
