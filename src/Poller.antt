-- ===== src/Poller.antt =====
-- internal/poller/poller.go: what a poll of BIRD records on the timeline and shows on the dashboard.
-- A poll runs on one goroutine and publishes its snapshot at the end, so it is one step on the
-- poller's state, for the answers that the control socket and the store give. Times are nanoseconds.
use birdy.Common.{
  trim_space, to_lower, has_prefix, ℕ, zero, suc, ◌+◌, ◌-◌, ◌*◌, ◌≤◌, ◌<◌, Bool, true, false, not,
  ◌&&◌, ◌||◌, List, [], ◌∷◌, ◌++◌, Option, none, some, Text, codes, text_eq, if◌then◌else◌, ◌==◌,
  leb, ltb, any_of, map, ℤ, pos, negsuc, itoa, atoi,
}
use birdy.Notify.{
  Kind, session_up, session_down, flap, limit_hit, bird_unreachable, bird_reachable, prefix_drop,
}
use birdy.Birdc.Types.{ProtocolSummary, ChannelDetail, RouteCountEntry}
pub mod State
pub mod Sampling
pub mod Step
pub mod Edges

abbrev pub second : ℕ
second = 1000000000

abbrev pub flap_window : ℕ
flap_window = 3 * 60 * second

abbrev pub route_count_interval : ℕ
route_count_interval = 60 * second

abbrev pub status_interval : ℕ
status_interval = 30 * second

abbrev pub drop_baseline : ℕ
drop_baseline = 1000

-- A Go map with Boolean values, the newest entry first.
pub limit_at : List (Text × Bool) → Text → Bool
limit_at [] key = false
limit_at ((k, v) ∷ m) key = if text_eq k key then v else limit_at m key

pub record ProtoState : Type 0 where
  pub summary : ProtocolSummary
  pub up : Bool
  pub last_change : ℕ
  pub limits_hit : List (Text × Bool)
  pub channels : List ChannelDetail
  pub imported : ℕ
  pub disabled : Bool

-- An event of the timeline: its kind, protocol and message.
abbrev pub Event : Type 0
Event = Kind × Text × Text

-- `p.dropRatio` is a fraction; a sharp drop is one to at most `ratio.0 / ratio.1` of the count before.
abbrev pub Ratio : Type 0
Ratio = ℕ × ℕ

unfoldable pub is_up : ProtocolSummary → Bool
unfolding trim_space
is_up p =
    if text_eq p.proto (codes "BGP")
    then text_eq (trim_space p.info) (codes "Established")
    else text_eq p.state (codes "up")

pub is_roa_table : Text → Bool
unfolding has_prefix trim_space
is_roa_table name = has_prefix (to_lower (trim_space name)) (codes "rpki")

pub state_of : List ProtoState → Text → Option ProtoState
state_of [] name = none
state_of (s ∷ states) name = if text_eq s.summary.name name then some s else state_of states name

-- `checkPrefixDrop`; the prior state is `none` for a protocol not seen before.
abbrev pub dropped : Ratio → ProtocolSummary → ℕ → ProtoState → List Event
dropped (num, den) proto imported prior =
    if not prior.up || ltb prior.imported drop_baseline
    then []
    else if leb (imported * den) (prior.imported * num)
    then ((
      prefix_drop,
      proto.name,
      proto.name
          ++ codes ": imported routes dropped from "
          ++ itoa prior.imported
          ++ codes " to "
          ++ itoa imported,
    )
        ∷ [])
    else []

pub check_prefix_drop : Ratio → ProtocolSummary → Option ProtoState → Bool → ProtoState → List Event
check_prefix_drop ratio proto none first state = []
check_prefix_drop ratio proto (some prior) first state =
    if first || ratio.0 == 0 then [] else dropped ratio proto state.imported prior

abbrev transition_message : ProtocolSummary → Text → Text
transition_message proto what = proto.name ++ codes " (" ++ proto.proto ++ codes ") " ++ what

abbrev established : (ℕ → Text) → ProtocolSummary → ℕ → Option ProtoState → Event
established duration proto now none =
    (session_up, proto.name, transition_message proto (codes "established"))
established duration proto now (some prior) =
    if ltb (now - prior.last_change) flap_window
    then (
      flap,
      proto.name,
      transition_message proto
          (codes "flapped (down for " ++ duration (now - prior.last_change) ++ codes ")"),
    )
    else (session_up, proto.name, transition_message proto (codes "established"))

-- `recordTransition`; a state that was seen has a time of its last change. `duration` prints a `time.Duration` rounded to seconds.
unfoldable pub record_transition :
    (ℕ → Text) → ProtocolSummary → ℕ → Option ProtoState → Bool → Event
record_transition duration proto now prior false =
    (session_down, proto.name, transition_message proto (codes "went down"))
record_transition duration proto now prior true = established duration proto now prior

-- A channel's import limit, `none` where there is none to check.
abbrev limit_value : ℤ × Bool → Option ℕ
limit_value (pos zero, ok) = none
limit_value (pos (suc n), true) = some (suc n)
limit_value (pos (suc n), false) = none
limit_value (negsuc n, ok) = none

pub channel_limit : ChannelDetail → Option ℕ
unfolding atoi trim_space
channel_limit ch = limit_value (atoi (trim_space ch.import_limit))

abbrev pub limit_event : ProtocolSummary → ChannelDetail → ℕ → Event
limit_event proto ch limit = (
  limit_hit,
  proto.name,
  proto.name
      ++ codes " ("
      ++ ch.afi
      ++ codes "): import limit reached ("
      ++ itoa ch.routes_imported
      ++ codes "/"
      ++ itoa limit
      ++ codes ")",
)

abbrev pub note_limit :
    ProtocolSummary
    → ChannelDetail
    → List (Text × Bool)
    → Option ℕ
    → List Event × List (Text × Bool)
note_limit proto ch hits none = ([], hits)
note_limit proto ch hits (some limit) =
    let hit = leb limit ch.routes_imported in
    (
      if hit && not (limit_at hits ch.afi) then limit_event proto ch limit ∷ [] else [],
      (ch.afi, hit) ∷ hits,
    )

-- The loop of `updateImportLimits`: the events, the limits hit and the sum of the imported routes.
pub import_limits :
    ProtocolSummary
    → List ChannelDetail
    → List (Text × Bool)
    → ℕ
    → List Event × List (Text × Bool) × ℕ
unfolding channel_limit limit_at
import_limits proto [] hits imported = ([], hits, imported)
import_limits proto (ch ∷ chs) hits imported =
    let (events, hits') = note_limit proto ch hits (channel_limit ch) in
    let (more, hits'', total) = import_limits proto chs hits' (imported + ch.routes_imported) in
    (events ++ more, hits'', total)

-- `updateImportLimits`; `none` is a failed fetch of the detail, which leaves the state as it is.
pub update_import_limits :
    ProtocolSummary → Option (List ChannelDetail) → ProtoState → Option (List Event × ProtoState)
unfolding import_limits
update_import_limits proto none state = none
update_import_limits proto (some detail) state =
    let (events, hits, imported) = import_limits proto detail state.limits_hit state.imported in
    some (events, record state { channels = detail; limits_hit = hits; imported = imported })
