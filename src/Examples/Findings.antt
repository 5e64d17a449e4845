-- ===== src/Examples/Findings.antt =====
-- internal/render/lint.go and internal/store/communities.go on a model with one upstream.
use birdy.Common.{Bool, true, false, [], ◌∷◌, none, Text, codes, refl, All, text_eq}
use birdy.Communities.{parse_community_refs}
use birdy.Communities.Ranges.{IsSafe, parse_community_refs-IsSafe}
use birdy.Lint.Model.{Policy, Peer, Input, Message}
use birdy.Lint.Rules.{lint}
use birdy.Lint.Quiet.{Quiet}
use birdy.Lint.Clean.{CleanPeer, lint-Clean}

parse_community_refs-IsSafe_example :
    All IsSafe (parse_community_refs (codes "65000:666, BLACKHOLE # of the customer"))
parse_community_refs-IsSafe_example =
    parse_community_refs-IsSafe (codes "65000:666, BLACKHOLE # of the customer")

abbrev policy : Text → Bool → Policy
policy direction announces = record {
  name = codes "P";
  direction = direction;
  match_community = [];
  set_ids = [];
  accept_only = none;
  bogon_asns = codes "all";
  default_route = codes "reject";
  origin_as = none;
  rov = codes "reject";
  announce_everything = false;
  announce_default = false;
  announce_from_upstream = false;
  announce_from_ix = false;
  announce_from_customer = announces;
}

abbrev upstream_peer : Peer
upstream_peer = record {
  name = codes "edge1";
  role = codes "upstream";
  neighbor_ip = codes "198.51.100.1";
  interface = [];
  remote_asn = 3356;
  next_hop_self = false;
  drained = false;
  rr_client = false;
  import_communities = codes "BLACKHOLE";
  export_communities = [];
  origin_peer_only = false;
  import_limit = 0;
  import_policies = policy (codes "import") false ∷ [];
  export_policies = policy (codes "export") true ∷ [];
  template_name = [];
}

abbrev input : Input
input = record {
  router_id = codes "192.0.2.1";
  local_asn = 65000;
  prefix_sets = [];
  as_sets = [];
  policies = policy (codes "import") false ∷ policy (codes "export") true ∷ [];
  peers = upstream_peer ∷ [];
  communities = codes "BLACKHOLE" ∷ [];
  rpki_servers = [];
  bogon_asns = [];
  static_routes = [];
  rr_cluster_id = [];
  raw_config = [];
}

abbrev say : Message → Text
say m = codes "finding"

abbrev is_link_local : Text → Bool
is_link_local s = false

-- There is a finding, that no import limit is set, but no danger.
quiet : Quiet (lint say is_link_local input)
unfolding lint text_eq
quiet = refl

lint-Clean_example : All (CleanPeer input) input.peers
lint-Clean_example = lint-Clean input say is_link_local quiet
