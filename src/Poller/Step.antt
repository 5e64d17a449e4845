-- ===== src/Poller/Step.antt =====
-- internal/poller/poller.go, `poll`. One time stands for the readings of the clock during a poll, and the
-- names of BIRD's protocols differ.
use birdy.Common.{
  ◌⊎◌, inl, inr, ℕ, ◌+◌, Bool, true, false, not, ◌&&◌, List, [], ◌∷◌, ◌++◌, Option, none, some,
  Text, codes, text_eq, if◌then◌else◌, any_of,
}
use birdy.Notify.{bird_unreachable, bird_reachable}
use birdy.Birdc.Types.{ProtocolSummary, RouteCountEntry, Status}
use birdy.Poller.{
  ProtoState, Event, Ratio, is_up, is_roa_table, state_of, check_prefix_drop, record_transition,
  update_import_limits, route_count_interval, status_interval,
}
use birdy.Poller.State.{Poller, Answers, due, is_bgp}
use birdy.Poller.Sampling.{maybe_sample}

abbrev initial_state : ProtocolSummary → Bool → ℕ → Option ProtoState → ProtoState
initial_state proto disabled now none = record {
  summary = proto;
  up = is_up proto;
  last_change = now;
  limits_hit = [];
  channels = [];
  imported = 0;
  disabled = disabled;
}
initial_state proto disabled now (some prior) = record {
  summary = proto;
  up = is_up proto;
  last_change = prior.last_change;
  limits_hit = prior.limits_hit;
  channels = [];
  imported = 0;
  disabled = disabled;
}

pub bool_eq : Bool → Bool → Bool
bool_eq true b = b
bool_eq false b = not b

pub changed : Option ProtoState → Bool → Bool
unfolding bool_eq
changed none up = true
changed (some prior) up = not (bool_eq prior.up up)

-- A failed detail carries the last counts forward.
abbrev carry : Option ProtoState → ProtoState → ProtoState
carry none state = state
carry (some prior) state = record state { imported = prior.imported; channels = prior.channels }

abbrev pub with_detail :
    Ratio
    → ProtocolSummary
    → Option ProtoState
    → Bool
    → ProtoState
    → Option (List Event × ProtoState)
    → List Event × ProtoState
with_detail ratio proto prior first state none = ([], carry prior state)
with_detail ratio proto prior first state (some (events, state')) =
    (events ++ check_prefix_drop ratio proto prior first state', state')

-- One round of the loop over the protocols: the events and the protocol's next state.
unfoldable pub poll_protocol :
    Ratio → Answers → Bool → Bool → Option ProtoState → ProtocolSummary → List Event × ProtoState
unfolding changed
poll_protocol ratio a first disabled prior proto =
    let up = is_up proto in
    let fresh = initial_state proto disabled a.now prior in
    let moved = not first && changed prior up in
    let state = if moved then record fresh { last_change = a.now } else fresh in
    let transition =
      if moved && is_bgp proto && not disabled
      then record_transition a.duration proto a.now prior up ∷ []
      else [] in
    let (events, next) =
      if is_bgp proto && up
      then with_detail ratio proto prior first state
          (update_import_limits proto (a.detail proto.name) state)
      else ([], state) in
    (transition ++ events, next)

abbrev pub named : Option (List Text) → Text → Bool
named none name = false
named (some names) name = any_of (λ n. text_eq n name) names

unfoldable pub poll_protocols :
    Ratio → Answers → Bool → List ProtoState → List ProtocolSummary → List Event × List ProtoState
unfolding poll_protocol state_of
poll_protocols ratio a first states [] = ([], [])
poll_protocols ratio a first states (proto ∷ protos) =
    let (events, next) =
      poll_protocol ratio a first (named a.disabled proto.name) (state_of states proto.name)
        proto in
    let (more, rest) = poll_protocols ratio a first states protos in (events ++ more, next ∷ rest)

unfoldable pub sum_routes : List RouteCountEntry → ℕ
unfolding is_roa_table
sum_routes [] = 0
sum_routes (c ∷ counts) =
    let rest = sum_routes counts in if is_roa_table c.table then rest else c.routes + rest

abbrev pub refresh_status : Poller → Answers → Option Status → Poller
refresh_status p a none = p
refresh_status p a (some fresh) = record p { last_status = some fresh; last_status_at = some a.now }

unfoldable pub poll_status : Poller → Answers → Poller
unfolding due
poll_status p a =
    if due a.now status_interval p.last_status_at then refresh_status p a a.status else p

abbrev count_of : ℕ → Option (List RouteCountEntry) → ℕ
count_of total none = total
count_of total (some counts) = sum_routes counts

unfoldable pub count_routes : Poller → Answers → Poller
unfolding due
count_routes p a =
    if due a.now route_count_interval p.last_route_count
    then record p {
      last_route_count = some a.now;
      snapshot = record p.snapshot {
        total_routes = count_of p.snapshot.total_routes a.route_count;
      };
    }
    else p

abbrev pub emit : Poller → List Event → Poller
emit p events = record p { timeline = p.timeline ++ events }

abbrev pub unreachable_event : Text → Event
unreachable_event message = (bird_unreachable, [], codes "BIRD is unreachable: " ++ message)

abbrev reachable_event : Event
reachable_event = (bird_reachable, [], codes "BIRD is reachable again")

abbrev pub after_failure : Poller → Text → Poller
after_failure p message =
    let told =
      if p.reachable_known && p.bird_reachable
      then emit p (unreachable_event message ∷ [])
      else p in
    record told {
      bird_reachable = false;
      reachable_known = true;
      snapshot = record told.snapshot { failure = some message };
    }

abbrev after_protocols : Poller → Answers → List ProtocolSummary → Poller
after_protocols p a protos =
    let told =
      if p.reachable_known && not p.bird_reachable then emit p (reachable_event ∷ []) else p in
    let (events, next) =
      poll_protocols p.drop_ratio a (not p.initialized) p.snapshot.states protos in
    let published = record (emit told events) {
      bird_reachable = true;
      reachable_known = true;
      initialized = true;
      snapshot = record {
        status = p.last_status;
        protocols = protos;
        states = next;
        total_routes = p.snapshot.total_routes;
        failure = none;
      };
    } in
    maybe_sample (count_routes published a) next a.now

abbrev pub poll_with : Poller → Answers → Text ⊎ List ProtocolSummary → Poller
poll_with p a (inl message) = after_failure p message
poll_with p a (inr protos) = after_protocols p a protos

unfoldable pub poll : Poller → Answers → Poller
unfolding poll_status
poll p a = poll_with (poll_status p a) a a.protocols
