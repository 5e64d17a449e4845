-- ===== src/Updates.antt =====
-- internal/updatecheck/updatecheck.go: whether a newer build is offered, and for how long the answer is
-- kept. GitHub's answer is a parameter: a tag or a commit with its page, or `none` for any failure.
-- Times are numbers of nanoseconds.
use birdy.Common.{
  ℕ, ◌+◌, ◌-◌, ◌*◌, Bool, true, false, not, ◌&&◌, ◌||◌, List, [], ◌∷◌, ◌++◌, Option, none, some,
  Text, codes, text_eq, if◌then◌else◌, ◌==◌, ltb, any_of, ℤ, pos, negsuc, atoi, trim_space,
  trim_prefix, has_prefix, cut, split_on, look, put, is_empty,
}
pub mod Newer
pub mod Kept

abbrev Version : Type 0
Version = ℤ × ℤ × ℤ

abbrev number_of : ℤ × Bool → Option ℤ
number_of (n, false) = none
number_of (n, true) = some n

abbrev three : Option ℤ → Option ℤ → Option ℤ → Option Version
three (some a) (some b) (some c) = some (a, b, c)
three a b c = none

abbrev parts_version : List Text → Option Version
parts_version (a ∷ b ∷ c ∷ []) =
    three (number_of (atoi a)) (number_of (atoi b)) (number_of (atoi c))
parts_version parts = none

-- `semverTuple`
pub semver_tuple : Text → Option Version
unfolding atoi trim_space trim_prefix cut split_on
semver_tuple version =
    parts_version (split_on 46 ((cut 45 (trim_prefix (trim_space version) (codes "v"))).0))

-- `isPrerelease`
pub is_prerelease : Text → Bool
unfolding trim_space
is_prerelease version = any_of (λ c. c == 45) (trim_space version)

abbrev pub int_lt : ℤ → ℤ → Bool
int_lt (pos a) (pos b) = ltb a b
int_lt (pos a) (negsuc b) = false
int_lt (negsuc a) (pos b) = true
int_lt (negsuc a) (negsuc b) = ltb b a

-- One round of the loop over the parts, with the answer of those behind.
abbrev pub newer_part : ℤ → ℤ → Bool → Bool
newer_part cur next rest =
    if int_lt cur next then true else (if int_lt next cur then false else rest)

abbrev newer_version : Version → Version → Bool → Bool
newer_version (a, b, c) (x, y, z) last = newer_part a x (newer_part b y (newer_part c z last))

abbrev pub available : Text → Text → Option Version → Option Version → Bool
available current latest (some cur) (some next) =
    newer_version cur next (is_prerelease current && not (is_prerelease latest))
available current latest cur next =
    not (text_eq (trim_prefix current (codes "v")) (trim_prefix latest (codes "v")))

-- `stableAvailable`
pub stable_available : Text → Text → Bool
unfolding semver_tuple is_prerelease trim_prefix
stable_available current latest =
    available current latest (semver_tuple current) (semver_tuple latest)

-- `Result`, with whether it came without an error.
pub record Result : Type 0 where
  pub channel : Text
  pub current_version : Text
  pub current_commit : Text
  pub latest_version : Text
  pub latest_commit : Text
  pub url : Text
  pub is_available : Bool
  pub checked_at : ℕ
  pub succeeded : Bool

abbrev started : Text → Text → Text → ℕ → Result
started channel version commit now = record {
  channel = channel;
  current_version = version;
  current_commit = commit;
  latest_version = [];
  latest_commit = [];
  url = [];
  is_available = false;
  checked_at = now;
  succeeded = false;
}

abbrev development_available : Text → Text → Bool
development_available commit sha =
    is_empty commit || text_eq commit (codes "unknown") || not (has_prefix sha commit)

-- `check`: its channel is one of the two.
unfoldable pub check : Text → Text → Text → ℕ → Option (Text × Text) → Result
unfolding stable_available trim_prefix has_prefix
check channel version commit now none = started channel version commit now
check channel version commit now (some (name, page)) =
    if text_eq channel (codes "stable")
    then record (started channel version commit now) {
      latest_version = trim_prefix name (codes "v");
      url = page;
      is_available = stable_available version (trim_prefix name (codes "v"));
      succeeded = true;
    }
    else record (started channel version commit now) {
      latest_commit = name;
      url = page;
      is_available = development_available commit name;
      succeeded = true;
    }

abbrev minutes : ℕ → ℕ
minutes n = n * 60000000000

-- The client: its TTL and its cache.
pub record Client : Type 0 where
  pub ttl : ℤ
  pub cache : List (Text × Result)

-- `ttl`
unfoldable pub ttl_of : Client → ℕ
ttl_of c = elim c.ttl [ pos n ↦ if n == 0 then minutes 15 else n | negsuc n ↦ minutes 15 ]

-- `negativeTTL`
unfoldable pub negative_ttl : Client → ℕ
unfolding ttl_of
negative_ttl c = if ltb (ttl_of c) (minutes 2) then ttl_of c else minutes 2

unfoldable pub valid_channel : Text → Bool
valid_channel channel = text_eq channel (codes "stable") || text_eq channel (codes "development")

abbrev pub cache_key : Text → Text → Text → Text
cache_key channel version commit = channel ++ (0 ∷ (version ++ (0 ∷ commit)))

unfoldable pub is_current : Client → ℕ → Result → Bool
unfolding ttl_of negative_ttl
is_current c now r = ltb (now - r.checked_at) (if r.succeeded then ttl_of c else negative_ttl c)

-- What a check gives, the client after it, and whether it asked GitHub.
abbrev pub fetched : Client → Text → Result → Result × Client × Bool
fetched c key r = (r, record c { cache = put key r c.cache }, true)

abbrev pub from_cache : Client → ℕ → Text → Result → Option Result → Result × Client × Bool
from_cache c now key r none = fetched c key r
from_cache c now key r (some cached) =
    if is_current c now cached then (cached, c, false) else fetched c key r

-- `Check`; `none` is the error on the channel.
unfoldable pub check_cached :
    Client → Text → Text → Text → ℕ → Option (Text × Text) → Option (Result × Client × Bool)
unfolding check valid_channel is_current look put
check_cached c channel version commit now reply =
    if not (valid_channel channel)
    then none
    else some (
        from_cache c now (cache_key channel version commit) (check channel version commit now reply)
          (look (cache_key channel version commit) c.cache))
