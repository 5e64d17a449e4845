-- ===== src/Lint/External.antt =====
-- internal/render/lint.go: what an external session is like if its rules show no danger.
use birdy.Common.{
  ℕ, ◌<◌, Bool, true, false, ◌&&◌, ◌||◌, List, [], ◌∷◌, Option, none, some, Text, text_eq, ◌≡◌,
  refl, inl, inr, arith, Bool-cases, All, All-map, any_of, ◌==◌, length,
}
use birdy.Sets.{PrefixSet}
use birdy.Lint.Model.{
  Policy, Peer, Input, upstream, ix_peer, is_ibgp, Message, danger, when, set_at,
}
use birdy.Lint.Sessions.{
  private_rule, default_rule, upstream_rule, origin_rule, import_rule, no_policies, counts,
  permits_none, empty_rule, leak, leak_rule, session_rules, has_origin,
}
use birdy.Lint.Quiet.{
  Quiet, Quiet-append, Quiet-each, Quiet-when, Quiet-if_then, Quiet-unless, first_kept,
}

module _ (i : Input) where
  -- An export policy has a source of routes: one that is ticked, or a set that is there, enabled and
  -- not empty.
  pub data Permits (pol : Policy) : Type 0 where
    everything : pol.announce_everything ≡ true → Permits pol
    a_default : pol.announce_default ≡ true → Permits pol
    from_upstream : pol.announce_from_upstream ≡ true → Permits pol
    from_ix : pol.announce_from_ix ≡ true → Permits pol
    from_customer : pol.announce_from_customer ≡ true → Permits pol
    a_set :
        (id : ℕ) (s : PrefixSet)
        → any_of (λ n. n == id) pol.set_ids ≡ true
        → set_at i.prefix_sets id ≡ some s
        → s.disabled ≡ false
        → 0 < length s.entries
        → Permits pol

  -- What no danger means for an eBGP session.
  pub record CleanSession (p : Peer) : Type 0 where
    pub imports : 0 < length p.import_policies
    pub exports : All Permits p.export_policies
    pub no_full_table :
        text_eq p.role upstream || text_eq p.role ix_peer ≡ true
        → All (λ (pol : Policy). pol.announce_everything ≡ false) p.export_policies
    pub no_upstream_routes :
        text_eq p.role upstream ≡ true
        → All (λ (pol : Policy). pol.announce_from_upstream ≡ false) p.export_policies
    pub no_origin_filter :
        text_eq p.role upstream ≡ true
        → (p.origin_peer_only ≡ false)
          × All (λ (pol : Policy). pol.origin_as ≡ none) p.import_policies

  counts-some :
      (o : Option PrefixSet)
      → counts o ≡ true
      → (s : PrefixSet) × (o ≡ some s) × (s.disabled ≡ false) × (0 < length s.entries)
  counts-some none h = cc
  counts-some (some s) h = (s, refl, ground (arith, h), ground (arith, h))

  Permits-none :
      (say : Message → Text) (pol : Policy) → permits_none say i pol ≡ false → Permits pol
  unfolding permits_none
  Permits-none say pol h = elim (Bool-cases pol.announce_everything) [
    | inl e ↦ everything e
    | inr e1 ↦ elim (Bool-cases pol.announce_default) [
      | inl e ↦ a_default e
      | inr e2 ↦ elim (Bool-cases pol.announce_from_upstream) [
        | inl e ↦ from_upstream e
        | inr e3 ↦ elim (Bool-cases pol.announce_from_ix) [
          | inl e ↦ from_ix e
          | inr e4 ↦ elim (Bool-cases pol.announce_from_customer) [
            | inl e ↦ from_customer e
            | inr e5 ↦
                let some_set =
                  first_kept (λ id. counts (set_at i.prefix_sets id)) pol.set_ids
                    (ground (arith, h, e1, e2, e3, e4, e5)) in
                let (s, there, enabled, full) =
                  counts-some (set_at i.prefix_sets (some_set.0)) (some_set.2) in
                a_set (some_set.0) s (some_set.1) there enabled full
          ]
        ]
      ]
    ]
  ]

  policies-some : (pols : List Policy) → no_policies pols ≡ false → 0 < length pols
  policies-some [] h = cc
  policies-some (pol ∷ pols) h = omega arith

  origin-none :
      (o : Option ℕ) → elim o as (λ o. Bool) [ none ↦ false | some id ↦ true ] ≡ false → o ≡ none
  origin-none none h = refl
  origin-none (some id) h = cc

  module _ (say : Message → Text) (p : Peer) where
    imports-clean : Quiet (import_rule say i p) → 0 < length p.import_policies
    unfolding import_rule
    imports-clean h =
        policies-some p.import_policies
          (Quiet-when (no_policies p.import_policies) p.name _ ((Quiet-append _ _ h).0))

    exports-clean : Quiet (empty_rule say i p) → All Permits p.export_policies
    unfolding empty_rule
    exports-clean h =
        All-map _ Permits p.export_policies
          (λ pol k. Permits-none say pol (Quiet-when (permits_none say i pol) p.name _ k))
          (Quiet-each _ p.export_policies h)

    leak-clean :
        (pol : Policy)
        → Quiet (leak say i p pol)
        → (pol.announce_everything ≡ false)
          × ((pol.announce_from_upstream && text_eq p.role upstream) ≡ false)
    leak-clean pol h =
        let both = Quiet-append (when pol.announce_everything danger p.name _) _ h in
        (Quiet-when pol.announce_everything p.name _ (both.0), Quiet-when _ p.name _ (both.1))

    leaks-clean :
        Quiet (leak_rule say i p)
        → (text_eq p.role upstream || text_eq p.role ix_peer) ≡ true
        → All
            (λ (pol : Policy).
              (pol.announce_everything ≡ false)
              × ((pol.announce_from_upstream && text_eq p.role upstream) ≡ false))
            p.export_policies
    unfolding leak_rule
    leaks-clean h e =
        All-map _ _ p.export_policies (λ pol k. leak-clean pol k)
          (Quiet-each (leak say i p) p.export_policies (Quiet-if_then _ _ h e))

    upstream-clean :
        Quiet (upstream_rule say i p)
        → text_eq p.role upstream ≡ true
        → (p.origin_peer_only ≡ false)
          × All (λ (pol : Policy). pol.origin_as ≡ none) p.import_policies
    unfolding upstream_rule
    upstream-clean h e =
        let both =
          Quiet-append (when p.origin_peer_only danger p.name _) _ (Quiet-if_then _ _ h e) in
        (
          Quiet-when p.origin_peer_only p.name _ (both.0),
          All-map _ _ p.import_policies
              (λ pol k. origin-none pol.origin_as (Quiet-when (has_origin pol) p.name _ k))
              (Quiet-each _ p.import_policies (both.1)),
        )

    pub session-clean : Quiet (session_rules say i p) → is_ibgp p ≡ false → CleanSession p
    unfolding session_rules
    session-clean h e =
        let all = Quiet-unless (is_ibgp p) _ h e in
        let a = Quiet-append (private_rule say i p) _ all in
        let b = Quiet-append (default_rule say i p) _ (a.1) in
        let c = Quiet-append (upstream_rule say i p) _ (b.1) in
        let d = Quiet-append (origin_rule say i p) _ (c.1) in
        let f = Quiet-append (import_rule say i p) _ (d.1) in
        let g = Quiet-append (empty_rule say i p) (leak_rule say i p) (f.1) in
        record {
          imports = imports-clean (f.0);
          exports = exports-clean (g.0);
          no_full_table = λ r. All-map _ _ p.export_policies (λ pol k. k.0) (leaks-clean (g.1) r);
          no_upstream_routes = λ r.
              All-map _ _ p.export_policies (λ pol k. ground (arith, k, r))
                (leaks-clean (g.1) (ground (arith, r)));
          no_origin_filter = λ r. upstream-clean (c.0) r;
        }
