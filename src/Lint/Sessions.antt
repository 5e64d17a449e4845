-- ===== src/Lint/Sessions.antt =====
-- internal/render/lint.go, `Lint`: the rules on one eBGP session.
use birdy.Common.{
  ℕ, Bool, true, false, not, ◌&&◌, ◌||◌, List, [], ◌∷◌, ◌++◌, Option, none, some, Text, codes,
  text_eq, is_empty, if◌then◌else◌, ◌==◌, ltb, keep_if, length,
}
use birdy.Sets.{PrefixSet, AsSet}
use birdy.Sets.Asns.{contains}
use birdy.Lint.{Warning}
use birdy.Lint.Model.{
  Policy, Peer, Input, upstream, ix_peer, is_ibgp, Message, rejects_own_private, default_vetoed,
  nothing_but_default_vetoed, origin_only_upstream, origin_set_upstream, not_in_origin_set,
  no_import_policy, no_import_limit, permits_nothing, full_table, upstream_to_upstream, danger,
  warn, when, each, set_at, as_set_at, is_private_asn,
}

abbrev pub no_policies : List Policy → Bool
no_policies [] = true
no_policies (pol ∷ pols) = false

abbrev pub counts : Option PrefixSet → Bool
counts none = false
counts (some s) = not s.disabled && ltb 0 (length s.entries)

abbrev pub has_origin : Policy → Bool
has_origin pol = elim pol.origin_as [ none ↦ false | some id ↦ true ]

-- The first policy that rejects the default route and has a name.
rejects_default : List Policy → Text
rejects_default [] = []
rejects_default (pol ∷ pols) =
    let later = rejects_default pols in
    if text_eq pol.default_route (codes "reject") && not (is_empty pol.name)
    then pol.name
    else later

module _ (say : Message → Text) (i : Input) where
  pub private_rule : Peer → List Warning
  unfolding is_private_asn each
  private_rule p =
      if is_private_asn i.bogon_asns p.remote_asn
      then each
          (λ (pol : Policy).
            when (text_eq pol.bogon_asns (codes "all")) danger p.name
              (say (rejects_own_private p.remote_asn pol.name)))
          p.import_policies
      else []

  abbrev veto : Text → Peer → Policy → List Warning
  veto first p pol =
      if text_eq pol.default_route (codes "accept")
      then record {
        severity = danger;
        peer = p.name;
        message = say (default_vetoed first pol.name);
      }
        ∷ []
      else when (text_eq pol.default_route (codes "only")) danger p.name
          (say (nothing_but_default_vetoed first pol.name))

  pub default_rule : Peer → List Warning
  unfolding rejects_default each
  default_rule p =
      if is_empty (rejects_default p.import_policies)
      then []
      else each (veto (rejects_default p.import_policies) p) p.import_policies

  unfoldable pub upstream_rule : Peer → List Warning
  unfolding each
  upstream_rule p =
      if text_eq p.role upstream
      then when p.origin_peer_only danger p.name (say origin_only_upstream)
        ++ each
            (λ (pol : Policy).
              when (has_origin pol) danger p.name (say (origin_set_upstream pol.name)))
            p.import_policies
      else []

  abbrev outside : Peer → Option AsSet → List Warning
  outside p none = []
  outside p (some s) =
      when (not (contains s p.remote_asn)) danger p.name
        (say (not_in_origin_set p.remote_asn s.name))

  abbrev origin_of : Peer → Option ℕ → List Warning
  origin_of p none = []
  origin_of p (some id) = outside p (as_set_at i.as_sets id)

  pub origin_rule : Peer → List Warning
  unfolding each as_set_at contains
  origin_rule p =
      if p.origin_peer_only
      then each (λ (pol : Policy). origin_of p pol.origin_as) p.import_policies
      else []

  unfoldable pub import_rule : Peer → List Warning
  import_rule p =
      when (no_policies p.import_policies) danger p.name (say no_import_policy)
      ++ when (p.import_limit == 0) warn p.name (say no_import_limit)

  -- No source of routes is ticked, and every set is missing, disabled or empty.
  unfoldable pub permits_none : Policy → Bool
  unfolding set_at
  permits_none pol =
      not pol.announce_everything
      && (not pol.announce_default
          && (not pol.announce_from_upstream
              && (not pol.announce_from_ix
                  && (not pol.announce_from_customer
                      && length (keep_if (λ id. counts (set_at i.prefix_sets id)) pol.set_ids)
                        == 0))))

  unfoldable pub empty_rule : Peer → List Warning
  unfolding permits_none each
  empty_rule p =
      each
        (λ (pol : Policy).
          when (permits_none pol) danger p.name
            (say (permits_nothing pol.name (ltb 0 (length pol.set_ids)))))
        p.export_policies

  abbrev pub leak : Peer → Policy → List Warning
  leak p pol =
      when pol.announce_everything danger p.name (say (full_table pol.name p.role))
      ++ when (pol.announce_from_upstream && text_eq p.role upstream) danger p.name
          (say (upstream_to_upstream pol.name))

  unfoldable pub leak_rule : Peer → List Warning
  unfolding each
  leak_rule p =
      if text_eq p.role upstream || text_eq p.role ix_peer
      then each (leak p) p.export_policies
      else []

  unfoldable pub session_rules : Peer → List Warning
  unfolding is_ibgp private_rule default_rule upstream_rule origin_rule import_rule empty_rule
      leak_rule
  session_rules p =
      if is_ibgp p
      then []
      else private_rule p
        ++ (default_rule p
            ++ (upstream_rule p
                ++ (origin_rule p ++ (import_rule p ++ (empty_rule p ++ leak_rule p)))))
