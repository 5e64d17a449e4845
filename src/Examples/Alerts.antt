-- ===== src/Examples/Alerts.antt =====
-- internal/notify/notify.go and internal/poller/poller.go on short runs.
use birdy.Common.{
  text_eq, ℕ, ◌<◌, ◌≡◌, inl, true, List, [], ◌∷◌, ◌++◌, none, some, codes, refl, arith,
}
use birdy.Notify.{
  Key, flap, session_up, Notification, Dispatcher, notify, deliver_next, find_last, key_eq,
}
use birdy.Notify.Queue.{queued, delivered, Reach, here, next, InOrder, Reach-InOrder}
use birdy.Notify.Throttle.{throttle_run, Silent, Within, throttle_run-Silent}
use birdy.Birdc.Types.{ProtocolSummary}
use birdy.Poller.State.{Poller, Answers}
use birdy.Poller.Step.{unreachable_event}
use birdy.Poller.Edges.{Fails, no_more, also, polls, polls-outage}

abbrev alert : Notification
alert = record { kind = flap; protocol = codes "edge1"; message = codes "flapped" }

abbrev empty_queue : Dispatcher
empty_queue = record { queue = []; accepted = []; handled = [] }

empty_queue-InOrder : InOrder empty_queue
empty_queue-InOrder = record { order = refl; bounded = omega arith }

abbrev one_round : Reach empty_queue (deliver_next (notify empty_queue alert))
one_round = next (next here (queued empty_queue alert)) (delivered (notify empty_queue alert))

Reach-InOrder_example : InOrder (deliver_next (notify empty_queue alert))
Reach-InOrder_example = Reach-InOrder one_round empty_queue-InOrder

abbrev key : Key
key = (flap, codes "edge1")

abbrev calls : List (ℕ × Key)
calls = (12, key) ∷ (14, (session_up, codes "edge1")) ∷ (59, key) ∷ []

calls-Within : Within 10 60 calls
unfolding Within
calls-Within =
    (omega arith, omega arith, (omega arith, omega arith, (omega arith, omega arith, tt)))

remembered : find_last key ((key, 10) ∷ []) ≡ some 10
unfolding find_last key_eq text_eq
remembered = refl

positive : 0 < 60
positive = omega arith

throttle_run-Silent_example : Silent key ((throttle_run 60 ((key, 10) ∷ []) calls).0)
throttle_run-Silent_example =
    throttle_run-Silent 60 10 ((key, 10) ∷ []) key calls positive refl remembered calls-Within

abbrev poller : Poller
poller = record {
  drop_ratio = (1, 2);
  sample_interval = 0;
  sample_retain = 0;
  last_sample = none;
  last_route_count = none;
  snapshot = record {
    status = none;
    protocols = [];
    states = [];
    total_routes = 0;
    failure = none;
  };
  initialized = true;
  bird_reachable = true;
  reachable_known = true;
  last_status = none;
  last_status_at = none;
  timeline = [];
  samples = [];
}

abbrev failing : Answers
failing = record {
  now = 5;
  status = none;
  protocols = inl (codes "no socket");
  detail = λ _. none;
  route_count = none;
  disabled = none;
  duration = λ _. [];
}

failing-Fails : Fails (codes "no socket") failing
unfolding Fails
failing-Fails = refl

polls-outage_example :
    (polls poller (failing ∷ failing ∷ [])).timeline
    ≡ [] ++ (unreachable_event (codes "no socket") ∷ [])
polls-outage_example =
    polls-outage poller failing (failing ∷ []) (codes "no socket") failing-Fails
      (also (codes "no socket") failing-Fails no_more)

abbrev session : ProtocolSummary
session = record {
  name = codes "edge1";
  proto = codes "BGP";
  table = [];
  state = codes "start";
  since = [];
  info = codes "Active";
}
