-- ===== src/Examples/Watching.antt =====
-- internal/web/drift.go, the folding of internal/render/lint.go and internal/web/pagination.go on short
-- inputs.
use birdy.Common.{
  ◌-◌, ◌*◌, true, false, List, [], ◌∷◌, some, none, Text, codes, ◌≡◌, ◌≢◌, refl, arith, text_eq,
  any_of,
}
use birdy.Apply.World.{World}
use birdy.Apply.Versions.{first_pending}
use birdy.Apply.Disk.{logical_of, join_includes}
use birdy.Apply.Steps.{logical_disk}
use birdy.Apply.Handlers.{Env, passed, owned, edited, authorship_of}
use birdy.Drift.{watch_drift}
use birdy.Drift.Alarms.{watch_drift-quiet}
use birdy.Drift.Once.{kind_of, watch_drift-once}
use birdy.Lint.{Warning, Peer, fold_by_template}
use birdy.Lint.Kept.{says, fold_by_template-says}
use birdy.Pages.{Pager, link, parse_page_params_named}
use birdy.Pages.Urls.{offset_param, parse_page_params_named-link}

-- Its hash puts a byte in front of the text, and it finds no include.
abbrev env : Env
env = record {
  read_only = false;
  apply_timeout = 300;
  hash = λ t. 1 ∷ t;
  config_dir = codes "/etc/bird";
  stamp = λ _. codes "new.bak";
  bird_p = λ _. passed;
  encode = λ _. codes "set";
  decode = λ _. none;
}

abbrev world : Text → World
world conf = record {
  disk = record { conf = some conf; confs = [] };
  backups = [];
  versions = [];
  applied_hash = 1 ∷ codes "router id";
  sent = [];
  events = [];
  rollback_errors = 0;
  now = 1000;
  faults = [];
  replies = [];
}

ours :
    authorship_of env (1 ∷ codes "router id") (logical_disk env (world (codes "router id"))) ≡ owned
unfolding authorship_of logical_of join_includes text_eq
ours = refl

ours-calm :
    authorship_of env (1 ∷ codes "router id") (logical_disk env (world (codes "router id")))
    ≢ edited
ours-calm e = cc (ours)

watch_drift-quiet_example : (watch_drift env 3 ([], world (codes "router id"))).1.events ≡ []
watch_drift-quiet_example = watch_drift-quiet env 3 [] (world (codes "router id")) ours-calm

theirs :
    authorship_of env (1 ∷ codes "router id") (logical_disk env (world (codes "by hand"))) ≡ edited
unfolding authorship_of logical_of join_includes text_eq
theirs = refl

no_pending : first_pending [] ≡ none
unfolding first_pending
no_pending = refl

hash-nonempty : (t : Text) → env.hash t ≢ []
hash-nonempty t e = cc

watch_drift-once_example :
    (watch_drift env 3 ([], world (codes "by hand"))).1.events
    ≡ kind_of (logical_disk env (world (codes "by hand"))) ∷ []
watch_drift-once_example =
    watch_drift-once env 2 (world (codes "by hand")) refl no_pending theirs hash-nonempty

abbrev finding : Text → Warning
finding peer = record { severity = codes "danger"; peer = peer; message = codes "open" }

abbrev findings : List Warning
findings = finding (codes "a") ∷ finding (codes "b") ∷ []

abbrev peers : List Peer
peers =
    record { name = codes "a"; template_name = codes "ix" }
    ∷ record { name = codes "b"; template_name = codes "ix" }
    ∷ []

fold_by_template-says_example :
    any_of (says (codes "danger") (codes "open")) (fold_by_template findings peers)
    ≡ any_of (says (codes "danger") (codes "open")) findings
fold_by_template-says_example = fold_by_template-says (codes "danger") (codes "open") findings peers

abbrev pager : Pager
pager = record {
  offset = 0;
  limit = 50;
  shown = 50;
  total = some 120;
  has_more = true;
  path = codes "/events";
  param = codes "offset";
  query = (codes "kind", codes "flap" ∷ []) ∷ [];
}

other_param : text_eq (codes "limit") (offset_param pager) ≡ false
unfolding text_eq
other_param = refl

parse_page_params_named-link_example :
    parse_page_params_named ((link pager 2).1) (offset_param pager) ≡ ((2 - 1) * 50, 50)
parse_page_params_named-link_example =
    parse_page_params_named-link pager 2 (omega arith) (omega arith) (omega arith) other_param
