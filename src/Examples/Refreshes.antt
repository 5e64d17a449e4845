-- ===== src/Examples/Refreshes.antt =====
-- internal/store/prefixsets.go and internal/web/irr_refresh.go on a table of two prefix sets.
use birdy.Common.{
  ℕ, Bool, true, false, List, [], ◌∷◌, none, Text, codes, ◌≡◌, refl, ◌↔◌, is_in, text_eq, map,
}
use birdy.Sets.{PrefixEntry, PrefixSet, Db}
use birdy.Sets.Prefixes.{delete_prefix_set}
use birdy.Sets.Asns.{delete_as_set}
use birdy.Sets.Named.{NoDangling}
use birdy.Sets.Dangling.{delete-NoDangling}
use birdy.Irr.Answers.{Answer, got, no_answer, Item}
use birdy.Irr.{patterns, diff_entries, no_change, refresh_one_set, refresh_irr_sets}
use birdy.Irr.Diffs.{diff_entries-same}
use birdy.Irr.Guarded.{Ends, refresh_one_set-Ends}
use birdy.Irr.Kept.{Kept}
use birdy.Irr.Rounds.{UniqueIds, refresh_irr_sets-Kept}

abbrev entry : Text → PrefixEntry
entry p = record { prefix = p; modifier = [] }

abbrev set : ℕ → Bool → List PrefixEntry → PrefixSet
set id auto entries = record {
  id = id;
  name = codes "CUSTOMER";
  description = [];
  family = codes "ipv4";
  originate = false;
  originate_action = codes "blackhole";
  builtin = false;
  system = false;
  disabled = false;
  source = codes "AS-CUSTOMER";
  auto_refresh = auto;
  last_refreshed = [];
  refresh_error = [];
  entries = entries;
}

abbrev customer : PrefixSet
customer = set 1 true (entry (codes "192.0.2.0/24") ∷ [])

abbrev db : Db
db = record {
  prefix_sets = customer ∷ set 2 false [] ∷ [];
  as_sets = [];
  policies = record { set_ids = 1 ∷ []; accept_only = none; origin_as = none } ∷ [];
  timeline = [];
  alerts = [];
  now = codes "now";
}

-- bgpq4 knows one more prefix.
abbrev run : Text → Bool → Answer Item
run source v6 = got (
    record { prefix = codes "192.0.2.0/24"; exact = true; greater_equal = 0; less_equal = 0 }
    ∷ record { prefix = codes "198.51.100.0/23"; exact = false; greater_equal = 24; less_equal = 0 }
    ∷ [])

abbrev run_asns : Text → Answer ℕ
run_asns source = no_answer (codes "timeout")

unique : UniqueIds db.prefix_sets
unique = ((λ e. refl, (λ e. cc, tt)), ((λ e. cc, (λ e. refl, tt)), tt))

refresh_irr_sets-Kept_example :
    Kept db.prefix_sets db.as_sets db.policies ((refresh_irr_sets run run_asns db []).0)
refresh_irr_sets-Kept_example = refresh_irr_sets-Kept run run_asns db [] unique

-- The range is written as BIRD wants it.
refreshed_customer :
    map
      (λ (s : PrefixSet). patterns s.entries)
      (Db.prefix_sets ((refresh_irr_sets run run_asns db []).0))
    ≡ (codes "192.0.2.0/24" ∷ codes "198.51.100.0/23{24,32}" ∷ []) ∷ [] ∷ []
unfolding refresh_irr_sets text_eq
refreshed_customer = refl

abbrev fresh : List PrefixEntry
fresh = entry (codes "192.0.2.0/24") ∷ entry (codes "203.0.113.0/24") ∷ []

refresh_one_set-Ends_example :
    Ends customer (got fresh) db ((refresh_one_set (got fresh) customer db []).0)
refresh_one_set-Ends_example = refresh_one_set-Ends customer db [] (got fresh)

diff_entries-same_example :
    (no_change (diff_entries customer.entries fresh) ≡ true)
    ↔ ((k : Text) → is_in text_eq k (patterns customer.entries) ≡ is_in text_eq k (patterns fresh))
diff_entries-same_example = diff_entries-same customer.entries fresh

named : NoDangling db
named = (((refl, tt), λ n e. cc, λ n e. cc), tt)

delete-NoDangling_example :
    NoDangling ((delete_prefix_set 2 db []).1) × NoDangling ((delete_as_set 2 db []).1)
delete-NoDangling_example = delete-NoDangling 2 db [] named
