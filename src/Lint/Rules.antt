-- ===== src/Lint/Rules.antt =====
-- internal/render/lint.go, `Lint`: the rules on the model as a whole. `say` gives a finding's text,
-- `is_link_local` says which texts `netip` takes for link-local addresses. The order in which a map is
-- walked is that of its list.
use birdy.Common.{
  ℕ, Bool, true, false, not, ◌&&◌, ◌||◌, List, [], ◌∷◌, ◌++◌, Option, none, some, Text, codes,
  text_eq, is_empty, if◌then◌else◌, ◌==◌, any_of, keep_if, map, is_in, trim_space,
}
use birdy.Communities.{named_community_refs}
use birdy.Sets.{PrefixSet, PrefixEntry}
use birdy.Lint.{Warning, fold_by_template}
use birdy.Lint.Model.{
  Policy, Peer, StaticRoute, Input, is_ibgp, Message, undefined_community, undefined_match,
  ibgp_to_other_asn, own_asn_not_ibgp, link_local_no_interface, no_next_hop_self, draining,
  unused_cluster_id, raw_block, static_and_originated, announces_specifics, accepts_disabled,
  announces_disabled, rpki_ignored, rpki_log_only, no_router_id, danger, warn, when, each, set_at,
  fold_peer,
}
use birdy.Lint.Sessions.{session_rules}

module _ (say : Message → Text) (is_link_local : Text → Bool) (i : Input) where
  abbrev pub undefined_names : Text → List Text
  undefined_names refs =
      keep_if (λ n. not (is_in text_eq n i.communities)) (named_community_refs refs)

  abbrev pub direction_refs : Text → Text → Text → List Warning
  direction_refs peer direction refs =
      map
        (λ n. record {
          severity = danger;
          peer = peer;
          message = say (undefined_community direction n);
        })
        (undefined_names refs)

  unfoldable pub peer_refs : Peer → List Warning
  unfolding named_community_refs
  peer_refs p =
      direction_refs p.name (codes "Import") p.import_communities
      ++ direction_refs p.name (codes "Export") p.export_communities

  pub policy_refs : Policy → List Warning
  unfolding named_community_refs
  policy_refs pol =
      map (λ n. record { severity = danger; peer = []; message = say (undefined_match pol.name n) })
        (undefined_names pol.match_community)

  unfoldable pub identity_rules : Peer → List Warning
  unfolding is_ibgp
  identity_rules p =
      when (is_ibgp p && not (p.remote_asn == i.local_asn)) danger p.name
        (say (ibgp_to_other_asn p.remote_asn i.local_asn))
      ++ (when (not (is_ibgp p) && p.remote_asn == i.local_asn) danger p.name
            (say (own_asn_not_ibgp i.local_asn))
          ++ (when (is_link_local p.neighbor_ip && is_empty p.interface) danger p.name
                (say link_local_no_interface)
              ++ (when (is_ibgp p && not p.next_hop_self) warn p.name (say no_next_hop_self)
                  ++ when p.drained warn p.name (say draining))))

  abbrev pub cluster_rule : List Warning
  cluster_rule =
      when (not (is_empty i.rr_cluster_id) && not (any_of (λ (p : Peer). p.rr_client) i.peers)) warn
        [] (say unused_cluster_id)

  abbrev pub raw_rule : List Warning
  raw_rule = when (not (is_empty (trim_space i.raw_config))) warn [] (say raw_block)

  -- `originated[prefix]`: the last set that originates it.
  pub originated : List PrefixSet → Text → Option Text
  originated [] prefix = none
  originated (s ∷ sets) prefix =
      let later = originated sets prefix in
      let here =
        if s.originate && any_of (λ (e : PrefixEntry). text_eq e.prefix prefix) s.entries
        then some s.name
        else none in
      elim later [ none ↦ here | some n ↦ some n ]

  abbrev clash : Text → Option Text → List Warning
  clash prefix none = []
  clash prefix (some set) =
      record { severity = danger; peer = []; message = say (static_and_originated prefix set) } ∷ []

  pub static_rule : StaticRoute → List Warning
  unfolding originated
  static_rule r = if r.enabled then clash r.prefix (originated i.prefix_sets r.prefix) else []

  abbrev specifics : Policy → Option PrefixSet → List Warning
  specifics pol none = []
  specifics pol (some s) =
      each
        (λ (e : PrefixEntry).
          when (not (is_empty e.modifier)) warn [] (say (announces_specifics pol.name e)))
        s.entries

  pub specifics_rule : Policy → List Warning
  unfolding each set_at
  specifics_rule pol =
      if text_eq pol.direction (codes "export")
      then each (λ id. specifics pol (set_at i.prefix_sets id)) pol.set_ids
      else []

  abbrev disabled_set : Text → Message → Option PrefixSet → List Warning
  disabled_set severity m none = []
  disabled_set severity m (some s) = when s.disabled severity [] (say m)

  abbrev name_at : Option PrefixSet → Text
  name_at none = []
  name_at (some s) = s.name

  abbrev accepted_disabled : Policy → Option ℕ → List Warning
  accepted_disabled pol none = []
  accepted_disabled pol (some id) =
      disabled_set danger (accepts_disabled pol.name (name_at (set_at i.prefix_sets id)))
        (set_at i.prefix_sets id)

  pub disabled_rule : Policy → List Warning
  unfolding each set_at
  disabled_rule pol =
      accepted_disabled pol pol.accept_only
      ++ each
          (λ id.
            disabled_set warn (announces_disabled pol.name (name_at (set_at i.prefix_sets id)))
              (set_at i.prefix_sets id))
          pol.set_ids

  abbrev with_rov : Text → List Text
  with_rov mode =
      map (λ (p : Policy). p.name) (keep_if (λ (p : Policy). text_eq p.rov mode) i.policies)

  abbrev no_names : List Text → Bool
  no_names [] = true
  no_names (n ∷ ns) = false

  pub rpki_rule : List Warning
  rpki_rule =
      let validating = with_rov (codes "reject") in
      let logging = with_rov (codes "log") in
      if any_of (λ b. b) i.rpki_servers && (no_names validating && no_names logging)
      then record { severity = warn; peer = []; message = say rpki_ignored } ∷ []
      else when (not (no_names logging) && no_names validating) warn []
          (say (rpki_log_only logging))

  abbrev pub router_rule : List Warning
  router_rule = when (i.local_asn == 0 || is_empty i.router_id) warn [] (say no_router_id)

  -- All findings, in the order in which they are made.
  unfoldable pub findings : List Warning
  unfolding each peer_refs policy_refs identity_rules static_rule specifics_rule disabled_rule
      rpki_rule session_rules trim_space
  findings =
      each peer_refs i.peers
      ++ (each policy_refs i.policies
          ++ (each identity_rules i.peers
              ++ (cluster_rule
                  ++ (raw_rule
                      ++ (each static_rule i.static_routes
                          ++ (each specifics_rule i.policies
                              ++ (each disabled_rule i.policies
                                  ++ (each (session_rules say i) i.peers
                                      ++ (rpki_rule ++ router_rule)))))))))

  -- `Lint`
  unfoldable pub lint : List Warning
  unfolding findings fold_by_template
  lint = fold_by_template findings (map fold_peer i.peers)
