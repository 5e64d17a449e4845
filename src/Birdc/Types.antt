-- ===== src/Birdc/Types.antt =====
-- internal/birdc/types.go
use birdy.Common.{ℕ, Bool, List, Text, ℤ}

pub record Status : Type 0 where
  pub version : Text
  pub router_id : Text
  pub hostname : Text
  pub current_time : Text
  pub last_reboot : Text
  pub last_reconfig : Text
  pub message : Text

pub record ProtocolSummary : Type 0 where
  pub name : Text
  pub proto : Text
  pub table : Text
  pub state : Text
  pub since : Text
  pub info : Text

pub record ChannelDetail : Type 0 where
  pub afi : Text
  pub state : Text
  pub table : Text
  pub preference : Text
  pub import_filter : Text
  pub export_filter : Text
  pub import_limit : Text
  pub import_limit_action : Text
  pub routes_imported : ℕ
  pub routes_filtered : ℕ
  pub routes_exported : ℕ
  pub routes_preferred : ℕ

pub record ProtocolDetail : Type 0 where
  pub summary : ProtocolSummary
  pub bgp_state : Text
  pub neighbor_address : Text
  pub neighbor_as : Text
  pub local_as : Text
  pub neighbor_id : Text
  pub session_type : Text
  pub source_address : Text
  pub hold_timer : Text
  pub keepalive_timer : Text
  pub channels : List ChannelDetail
  pub raw_lines : List Text

-- The parts `A`, `B` and, in a large community, `C` are of 64 bits.
pub data Community : Type 0 where
  standard : ℤ → ℤ → Community
  large : ℤ → ℤ → ℤ → Community

pub record RouteEntry : Type 0 where
  pub network : Text
  pub kind : Text  -- the source's `Type`
  pub protocol : Text
  pub since : Text
  pub from : Text
  pub primary : Bool
  pub preference : ℤ
  pub as_path : Text
  pub next_hop : Text
  pub origin : Text
  pub local_pref : Text
  pub med : Text
  pub communities : List Community
  pub attrs : List Text

pub record RouteTable : Type 0 where
  pub name : Text
  pub routes : List RouteEntry

pub record RouteCountEntry : Type 0 where
  pub table : Text
  pub routes : ℕ
  pub networks : ℕ
