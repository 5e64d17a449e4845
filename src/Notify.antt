-- ===== src/Notify.antt =====
-- internal/notify/notify.go and the event filter of internal/store/alerts.go: which alerts reach which
-- destination. An event kind is one of the constants of internal/store/events.go, or the kind "test".
-- The key "kind|protocol" of the throttle is the pair of its parts: no kind holds a "|".
use birdy.Common.{
  trim_space, split_on, ℕ, zero, suc, ◌+◌, ◌-◌, ◌*◌, ◌≤◌, ◌<◌, Bool, true, false, not, ◌&&◌, ◌||◌,
  List, [], ◌∷◌, ◌++◌, Option, none, some, Text, text_eq, codes, if◌then◌else◌, ◌==◌, leb, ltb,
  any_of, keep_if, length,
}
pub mod Throttle
pub mod Queue
pub mod Delivery

pub data Kind : Type 0 where
  session_up session_down flap limit_hit config_apply config_revert : Kind
  bird_unreachable bird_reachable prefix_drop config_drift irr_refresh : Kind
  model_change instance_down instance_up test : Kind

abbrev pub kind_name : Kind → Text
kind_name session_up = codes "session_up"
kind_name session_down = codes "session_down"
kind_name flap = codes "flap"
kind_name limit_hit = codes "limit_hit"
kind_name config_apply = codes "config_apply"
kind_name config_revert = codes "config_revert"
kind_name bird_unreachable = codes "bird_unreachable"
kind_name bird_reachable = codes "bird_reachable"
kind_name prefix_drop = codes "prefix_drop"
kind_name config_drift = codes "config_drift"
kind_name irr_refresh = codes "irr_refresh"
kind_name model_change = codes "model_change"
kind_name instance_down = codes "instance_down"
kind_name instance_up = codes "instance_up"
kind_name test = codes "test"

-- `throttled`
abbrev pub throttled : Kind → Bool
throttled session_down = true
throttled session_up = true
throttled flap = true
throttled limit_hit = true
throttled prefix_drop = true
throttled _ = false

pub data Severity : Type 0 where
  danger good warning info : Severity

pub severity : Kind → Severity
severity session_down = danger
severity limit_hit = danger
severity bird_unreachable = danger
severity prefix_drop = danger
severity session_up = good
severity bird_reachable = good
severity flap = warning
severity config_drift = warning
severity config_revert = warning
severity _ = info

hex_color : Kind → Text
unfolding severity
hex_color k = elim (severity k) [
  | danger ↦ codes "#d64545"
  | good ↦ codes "#2e9e6b"
  | warning ↦ codes "#d9a441"
  | info ↦ codes "#3b7dd8"
]

int_color : Kind → ℕ
unfolding severity
int_color k = elim (severity k) [
  | danger ↦ 0xd64545
  | good ↦ 0x2e9e6b
  | warning ↦ 0xd9a441
  | info ↦ 0x3b7dd8
]

pub title : Kind → Text → Text
title session_down protocol = codes "Session down: " ++ protocol
title session_up protocol = codes "Session recovered: " ++ protocol
title flap protocol = codes "Session flapping: " ++ protocol
title limit_hit protocol = codes "Import limit reached: " ++ protocol
title prefix_drop protocol = codes "Prefix count dropped: " ++ protocol
title bird_unreachable protocol = codes "BIRD is unreachable"
title bird_reachable protocol = codes "BIRD is reachable again"
title config_apply protocol = codes "Config applied"
title config_revert protocol = codes "Config reverted"
title config_drift protocol = codes "Config changed outside birdy"
title irr_refresh protocol = codes "Prefix set refreshed from IRR"
title _ protocol = codes "birdy alert"

-- The event filter of a destination.

pub record Destination : Type 0 where
  pub name : Text
  pub enabled : Bool
  pub events : Text

-- `Destination.Wants`
unfoldable pub wants : Destination → Kind → Bool
unfolding trim_space split_on
wants d kind =
    text_eq (trim_space d.events) []
    || any_of (λ k. text_eq (trim_space k) (kind_name kind)) (split_on b',' d.events)

-- The dispatcher. Times are counted from some start, in the unit of the cooldown.

pub record Notification : Type 0 where
  pub kind : Kind
  pub protocol : Text
  pub message : Text

abbrev pub Key : Type 0
Key = Kind × Text

pub kind_eq : Kind → Kind → Bool
kind_eq a b = text_eq (kind_name a) (kind_name b)

unfoldable pub key_eq : Key → Key → Bool
unfolding kind_eq
key_eq (a, s) (b, t) = kind_eq a b && text_eq s t

unfoldable pub find_last : Key → List (Key × ℕ) → Option ℕ
find_last k [] = none
find_last k ((j, t) ∷ m) = if key_eq j k then some t else find_last k m

abbrev too_soon : ℕ → ℕ → Option ℕ → Bool
too_soon cooldown now none = false
too_soon cooldown now (some t) = ltb (now - t) cooldown

-- `throttle`: whether to suppress, and the deliveries remembered afterwards.
pub throttle : ℕ → List (Key × ℕ) → ℕ → Key → Bool × List (Key × ℕ)
throttle cooldown last now key =
    if cooldown == 0 || not (throttled key.0)
    then (false, last)
    else if too_soon cooldown now (find_last key last)
    then (true, last)
    else (false, (key, now) ∷ last)

-- A recovery follows its outage's subscription.
abbrev pub filter_kind : Kind → Kind
filter_kind bird_reachable = bird_unreachable
filter_kind k = k

abbrev wanting : List Destination → Kind → List Destination
wanting dests kind = keep_if (λ (d : Destination). wants d (filter_kind kind)) dests

-- `EnabledAlertDestinations`; `none` is a failed query.
pub enabled_destinations : Option (List Destination) → Option (List Destination)
enabled_destinations none = none
enabled_destinations (some all) = some (keep_if (λ (d : Destination). d.enabled) all)

abbrev dests_of : Option (List Destination) → List Destination
dests_of none = []
dests_of (some dests) = dests

-- `deliverAllSync`: the destinations to which the notification goes, in order; a failed delivery is
-- only logged.
pub deliver_all_sync :
    ℕ
    → List (Key × ℕ)
    → ℕ
    → Option (List Destination)
    → Notification
    → List Destination × List (Key × ℕ)
unfolding throttle enabled_destinations
deliver_all_sync cooldown last now all n =
    let (suppressed, last') = throttle cooldown last now (n.kind, n.protocol) in
    if suppressed
    then ([], last')
    else (wanting (dests_of (enabled_destinations all)) n.kind, last')

-- The queue between `Notify` and the delivery loop.
pub record Dispatcher : Type 0 where
  pub queue : List Notification
  pub accepted : List Notification  -- what `Notify` was given and did not drop, the oldest first
  pub handled : List Notification  -- what the delivery loop took, the oldest first

abbrev pub capacity : ℕ
capacity = 256

-- `Notify`: a full queue drops the notification.
pub notify : Dispatcher → Notification → Dispatcher
notify d n =
    if ltb (length d.queue) capacity
    then record d { queue = d.queue ++ n ∷ []; accepted = d.accepted ++ n ∷ [] }
    else d

abbrev pub take_first : Dispatcher → List Notification → Dispatcher
take_first d [] = d
take_first d (n ∷ q) = record d { queue = q; handled = d.handled ++ n ∷ [] }

-- One round of `deliverLoop`; with an empty queue it waits.
pub deliver_next : Dispatcher → Dispatcher
deliver_next d = take_first d d.queue
