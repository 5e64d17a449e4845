-- ===== src/Examples/Releases.antt =====
-- internal/updatecheck/updatecheck.go on two builds.
use birdy.Common.{
  false, true, [], ◌∷◌, ◌++◌, some, none, Text, codes, ◌≡◌, refl, pos, inr, arith, text_eq, look,
  put,
}
use birdy.Updates.{Client, Result, check, check_cached, valid_channel}
use birdy.Updates.Kept.{IsTtl, check_cached-again}

abbrev release : Text
release = codes "v0.4.2"

abbrev build : Text
build = codes "0.4.2-dev"

abbrev client : Client
client = record { ttl = pos 0; cache = [] }

abbrev failure : Result
failure = record {
  channel = codes "stable";
  current_version = build;
  current_commit = codes "abc";
  latest_version = [];
  latest_commit = [];
  url = [];
  is_available = false;
  checked_at = 100;
  succeeded = false;
}

abbrev client_after : Client
client_after = record {
  ttl = pos 0;
  cache = (codes "stable" ++ (0 ∷ (build ++ (0 ∷ codes "abc"))), failure) ∷ [];
}

failed :
    check_cached client (codes "stable") build (codes "abc") 100 none
    ≡ some (failure, client_after, true)
unfolding check_cached check valid_channel look put text_eq
failed = refl

unset : IsTtl client 900000000000
unset = (ground arith, inr (refl, refl))

check_cached-again_example :
    check_cached client_after
      (codes "stable")
      build
      (codes "abc")
      200
      (some (release, codes "page"))
    ≡ some (failure, client_after, false)
check_cached-again_example =
    check_cached-again client client_after (codes "stable") build (codes "abc") 100 200 900000000000
      none (some (release, codes "page")) failure true failed unset
