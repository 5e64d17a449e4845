-- ===== src/Lint/Clean.antt =====
-- internal/render/lint.go: what a model is like if Lint shows no danger.
use birdy.Common.{
  Bool, true, false, not, ◌&&◌, List, [], ◌∷◌, Text, text_eq, codes, ◌≡◌, refl, sym, All, map,
  is_in, ◌==◌,
}
use birdy.Communities.{named_community_refs}
use birdy.Lint.Model.{Peer, Input, is_ibgp, Message, danger, when, each, fold_peer}
use birdy.Lint.Sessions.{session_rules}
use birdy.Lint.Rules.{
  undefined_names, direction_refs, peer_refs, policy_refs, identity_rules, findings, lint,
  cluster_rule, raw_rule, static_rule, specifics_rule, disabled_rule,
}
use birdy.Lint.Quiet.{
  Quiet, Quiet-append, Quiet-each, Quiet-when, Quiet-map, Quiet-fold, none-undefined,
}
use birdy.Lint.External.{CleanSession, session-clean}

module _ (i : Input) where
  -- What no danger means for a peer: it is internal exactly if it is in our own AS, its communities are
  -- defined, and an external session is as above.
  pub record CleanPeer (p : Peer) : Type 0 where
    pub internal : is_ibgp p ≡ (p.remote_asn == i.local_asn)
    pub import_names :
        All (λ n. is_in text_eq n i.communities ≡ true) (named_community_refs p.import_communities)
    pub export_names :
        All (λ n. is_in text_eq n i.communities ≡ true) (named_community_refs p.export_communities)
    pub session : is_ibgp p ≡ false → CleanSession i p

  module _ (say : Message → Text) (is_link_local : Text → Bool) where
    names-clean :
        (peer direction refs : Text)
        → Quiet (direction_refs say is_link_local i peer direction refs)
        → All (λ n. is_in text_eq n i.communities ≡ true) (named_community_refs refs)
    names-clean peer direction refs h =
        none-undefined (λ n. is_in text_eq n i.communities) (named_community_refs refs)
          (Quiet-map _ (undefined_names say is_link_local i refs) (λ n. refl) h)

    peer-clean :
        (p : Peer)
        → Quiet (peer_refs say is_link_local i p)
        → Quiet (identity_rules say is_link_local i p)
        → Quiet (session_rules say i p)
        → CleanPeer p
    unfolding peer_refs identity_rules
    peer-clean p names identity session =
        let both =
          Quiet-append
            (direction_refs say is_link_local i p.name (codes "Import") p.import_communities) _
            names in
        let a =
          Quiet-append (when (is_ibgp p && not (p.remote_asn == i.local_asn)) danger p.name _) _
            identity in
        let b =
          Quiet-append (when (not (is_ibgp p) && p.remote_asn == i.local_asn) danger p.name _) _
            (a.1) in
        record {
          internal =
              same_test (is_ibgp p) (p.remote_asn == i.local_asn)
                (Quiet-when (is_ibgp p && not (p.remote_asn == i.local_asn)) p.name _ (a.0))
                (Quiet-when (not (is_ibgp p) && p.remote_asn == i.local_asn) p.name _ (b.0));
          import_names = names-clean p.name (codes "Import") p.import_communities (both.0);
          export_names = names-clean p.name (codes "Export") p.export_communities (both.1);
          session = session-clean i say p session;
        }
      where
        same_test : (b c : Bool) → (b && not c) ≡ false → (not b && c) ≡ false → b ≡ c
        same_test true true h k = refl
        same_test true false h k = h
        same_test false true h k = sym k
        same_test false false h k = refl

    peers-clean :
        (ps : List Peer)
        → All (λ p. Quiet (peer_refs say is_link_local i p)) ps
        → All (λ p. Quiet (identity_rules say is_link_local i p)) ps
        → All (λ p. Quiet (session_rules say i p)) ps
        → All CleanPeer ps
    peers-clean [] a b c = tt
    peers-clean (p ∷ ps) (a, as') (b, bs) (c, cs) = (peer-clean p a b c, peers-clean ps as' bs cs)

    -- If Lint shows no danger, then each peer is internal exactly if its AS is our own, its named
    -- communities are defined, and if it is external: it has an import policy; each of its export
    -- policies has a source of routes; towards an upstream or an IX peer none announces everything;
    -- towards an upstream none announces routes of upstreams, and no origin filter stands at its import.
    pub lint-Clean : Quiet (lint say is_link_local i) → All CleanPeer i.peers
    unfolding lint findings
    lint-Clean h =
        let all = Quiet-fold (findings say is_link_local i) (map fold_peer i.peers) h in
        let a = Quiet-append (each (peer_refs say is_link_local i) i.peers) _ all in
        let b = Quiet-append (each (policy_refs say is_link_local i) i.policies) _ (a.1) in
        let c = Quiet-append (each (identity_rules say is_link_local i) i.peers) _ (b.1) in
        let d = Quiet-append (cluster_rule say is_link_local i) _ (c.1) in
        let e = Quiet-append (raw_rule say is_link_local i) _ (d.1) in
        let f = Quiet-append (each (static_rule say is_link_local i) i.static_routes) _ (e.1) in
        let g = Quiet-append (each (specifics_rule say is_link_local i) i.policies) _ (f.1) in
        let k = Quiet-append (each (disabled_rule say is_link_local i) i.policies) _ (g.1) in
        let l = Quiet-append (each (session_rules say i) i.peers) _ (k.1) in
        peers-clean i.peers (Quiet-each _ i.peers (a.0)) (Quiet-each _ i.peers (c.0))
          (Quiet-each _ i.peers (l.0))
