-- ===== src/Poller/State.antt =====
-- internal/poller/poller.go, the poller's state, with the timeline of the events emitted, whether or not
-- their insertion fails, and with the samples taken; and the answers that one poll gets. A time that was
-- never set is `none`. `UpdatedAt` is left out.
use birdy.Common.{◌⊎◌, ℕ, ◌-◌, Bool, true, not, List, Option, none, some, Text, codes, text_eq, ltb}
use birdy.Birdc.Types.{ProtocolSummary, ChannelDetail, RouteCountEntry, Status}
use birdy.Poller.{ProtoState, Event, Ratio}

pub record Snapshot : Type 0 where
  pub status : Option Status
  pub protocols : List ProtocolSummary
  pub states : List ProtoState
  pub total_routes : ℕ
  pub failure : Option Text

pub record Sample : Type 0 where
  pub at : ℕ
  pub protocol : Text
  pub imported : ℕ
  pub exported : ℕ

-- The timeline and the samples have the oldest first.
pub record Poller : Type 0 where
  pub drop_ratio : Ratio
  pub sample_interval : ℕ
  pub sample_retain : ℕ
  pub last_sample : Option ℕ
  pub last_route_count : Option ℕ
  pub snapshot : Snapshot
  pub initialized : Bool
  pub bird_reachable : Bool
  pub reachable_known : Bool
  pub last_status : Option Status
  pub last_status_at : Option ℕ
  pub timeline : List Event
  pub samples : List Sample

-- What BIRD and the store answer during one poll; `none` is an error.
pub record Answers : Type 0 where
  pub now : ℕ
  pub status : Option Status
  pub protocols : Text ⊎ List ProtocolSummary
  pub detail : Text → Option (List ChannelDetail)
  pub route_count : Option (List RouteCountEntry)
  pub disabled : Option (List Text)
  pub duration : ℕ → Text

-- Whether a time lies at least an interval back, or was never set.
unfoldable pub due : ℕ → ℕ → Option ℕ → Bool
due now interval none = true
due now interval (some t) = not (ltb (now - t) interval)

abbrev pub is_bgp : ProtocolSummary → Bool
is_bgp proto = text_eq proto.proto (codes "BGP")
