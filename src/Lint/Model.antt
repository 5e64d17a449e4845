-- ===== src/Lint/Model.antt =====
-- internal/render/render.go, `Input`: the model that Lint reads, with the fields that it uses, and the
-- findings that it can make. The text of a finding is the argument `say` of the rules.
use birdy.Common.{
  ℕ, Bool, true, false, ◌&&◌, List, [], ◌∷◌, ◌++◌, Option, none, some, Text, codes, text_eq,
  if◌then◌else◌, ◌==◌, leb, any_of,
}
use birdy.Lint
use birdy.Lint.{Warning}
use birdy.Sets.{PrefixSet, PrefixEntry, AsSet}

-- `Policy`, of internal/store/policies.go
pub record Policy : Type 0 where
  pub name : Text
  pub direction : Text
  pub match_community : Text
  pub set_ids : List ℕ
  pub accept_only : Option ℕ
  pub bogon_asns : Text
  pub default_route : Text
  pub origin_as : Option ℕ
  pub rov : Text
  pub announce_everything : Bool
  pub announce_default : Bool
  pub announce_from_upstream : Bool
  pub announce_from_ix : Bool
  pub announce_from_customer : Bool

-- `Peer`, of internal/store/peers.go
pub record Peer : Type 0 where
  pub name : Text
  pub role : Text
  pub neighbor_ip : Text
  pub interface : Text
  pub remote_asn : ℕ
  pub next_hop_self : Bool
  pub drained : Bool
  pub rr_client : Bool
  pub import_communities : Text
  pub export_communities : Text
  pub origin_peer_only : Bool
  pub import_limit : ℕ
  pub import_policies : List Policy
  pub export_policies : List Policy
  pub template_name : Text

pub record StaticRoute : Type 0 where
  pub prefix : Text
  pub enabled : Bool

pub record BogonAsn : Type 0 where
  pub low : ℕ
  pub high : ℕ
  pub is_private : Bool

-- Of a community the name, of an RPKI server whether it is enabled.
pub record Input : Type 0 where
  pub router_id : Text
  pub local_asn : ℕ
  pub prefix_sets : List PrefixSet
  pub as_sets : List AsSet
  pub policies : List Policy
  pub peers : List Peer
  pub communities : List Text
  pub rpki_servers : List Bool
  pub bogon_asns : List BogonAsn
  pub static_routes : List StaticRoute
  pub rr_cluster_id : Text
  pub raw_config : Text

abbrev pub upstream : Text
upstream = codes "upstream"

abbrev pub ix_peer : Text
ix_peer = codes "ix_peer"

unfoldable pub is_ibgp : Peer → Bool
is_ibgp p = text_eq p.role (codes "ibgp")

-- One for each text of `Lint`, with what the text names.
pub data Message : Type 0 where
  undefined_community : Text → Text → Message
  undefined_match : Text → Text → Message
  ibgp_to_other_asn : ℕ → ℕ → Message
  own_asn_not_ibgp : ℕ → Message
  link_local_no_interface no_next_hop_self draining unused_cluster_id raw_block : Message
  static_and_originated : Text → Text → Message
  announces_specifics : Text → PrefixEntry → Message
  accepts_disabled : Text → Text → Message
  announces_disabled : Text → Text → Message
  rejects_own_private : ℕ → Text → Message
  default_vetoed : Text → Text → Message
  nothing_but_default_vetoed : Text → Text → Message
  origin_only_upstream : Message
  origin_set_upstream : Text → Message
  not_in_origin_set : ℕ → Text → Message
  no_import_policy no_import_limit : Message
  permits_nothing : Text → Bool → Message
  full_table : Text → Text → Message
  upstream_to_upstream : Text → Message
  rpki_ignored : Message
  rpki_log_only : List Text → Message
  no_router_id : Message

abbrev pub danger : Text
danger = codes "danger"

abbrev pub warn : Text
warn = codes "warn"

-- A finding if a condition holds.
abbrev pub when : Bool → Text → Text → Text → List Warning
when b severity peer message =
    if b then record { severity = severity; peer = peer; message = message } ∷ [] else []

-- The findings on each item, in order.
unfoldable pub each {ℓ} : {A : Type ℓ} → (A → List Warning) → List A → List Warning
each f [] = []
each f (x ∷ xs) = f x ++ each f xs

-- `prefixSets[id]`: of sets with one number the last.
unfoldable pub set_at : List PrefixSet → ℕ → Option PrefixSet
set_at [] id = none
set_at (s ∷ sets) id =
    let later = set_at sets id in
    let here = if s.id == id then some s else none in elim later [ none ↦ here | some t ↦ some t ]

unfoldable pub as_set_at : List AsSet → ℕ → Option AsSet
as_set_at [] id = none
as_set_at (s ∷ sets) id =
    let later = as_set_at sets id in
    let here = if s.id == id then some s else none in elim later [ none ↦ here | some t ↦ some t ]

-- `DefaultBogonASNs`, of internal/store/bogons.go, without the notes.
abbrev default_bogon_asns : List BogonAsn
default_bogon_asns =
    record { low = 0; high = 0; is_private = false }
    ∷ record { low = 23456; high = 23456; is_private = false }
    ∷ record { low = 64496; high = 64511; is_private = false }
    ∷ record { low = 64512; high = 65534; is_private = true }
    ∷ record { low = 65535; high = 65535; is_private = false }
    ∷ record { low = 65536; high = 65551; is_private = false }
    ∷ record { low = 65552; high = 131071; is_private = false }
    ∷ record { low = 4200000000; high = 4294967294; is_private = true }
    ∷ record { low = 4294967295; high = 4294967295; is_private = false }
    ∷ []

abbrev or_shipped : List BogonAsn → List BogonAsn
or_shipped [] = default_bogon_asns
or_shipped (b ∷ bs) = b ∷ bs

-- `IsPrivateASN`, of internal/render/render.go
unfoldable pub is_private_asn : List BogonAsn → ℕ → Bool
is_private_asn list asn =
    any_of (λ (r : BogonAsn). r.is_private && (leb r.low asn && leb asn r.high)) (or_shipped list)

-- A peer as `foldByTemplate` sees it.
abbrev pub fold_peer : Peer → Lint.Peer
fold_peer p = record { name = p.name; template_name = p.template_name }
