-- ===== src/Birdc/Stream.antt =====
-- internal/birdc/stream.go, `streamRoutes`: a listing of routes on a connection of its own, handed over
-- entry by entry until the callback stops it. The callback is a function on the state that it keeps;
-- with false it stops the reading. What the socket does is a Socket.
use birdy.Common.{
  Bool, true, false, not, ◌&&◌, List, [], ◌∷◌, Option, none, some, Text, codes, if◌then◌else◌, leb,
  ltb, is_empty, trim_space, trim_right_if, trim_prefix, has_prefix, ◌==◌,
}
use birdy.Birdc.{Reply, Coded, more, last, async, read_frame, parse_coded_line, trim_newlines}
use birdy.Birdc.Types.{RouteEntry}
use birdy.Birdc.Client.{has_newline}
use birdy.Birdc.Attributes.{attach_route_detail}
use birdy.Birdc.Routes.{parse_route_line, is_title, title_name, cut_suffix}
pub mod Collecting
pub mod Feeding
pub mod Tables
pub mod Held
pub mod Listing

-- One connection: what dialling gives, whether the deadline is set and the command written.
pub record Socket : Type 0 where
  pub dialled : Option (List Text)
  pub deadline_set : Bool
  pub command_written : Bool

pub data StreamFailure : Type 0 where
  newline_in_command no_connection no_deadline no_banner no_write no_line : StreamFailure
  says : Text → StreamFailure

-- The variables of the loop; `out` is the state of the callback.
pub record Loop (S : Type 0) : Type 0 where
  pub table : Text
  pub last_network : Text
  pub pending : Option RouteEntry
  pub pending_table : Text
  pub out : S

-- What a line does: the loop goes on, or it ends without or with an error.
pub data Next (S : Type 0) : Type 0 where
  goes : Loop S → Next S
  ends : S → Next S
  fails : StreamFailure → S → Next S

abbrev pub attach_pending : Text → Option RouteEntry → Option RouteEntry
attach_pending line none = none
attach_pending line (some e) = some (attach_route_detail line e)

module _ {S : Type 0} (fn : S → Text → RouteEntry → S × Bool) where
  -- `flush`: whether the callback wants more, and its state.
  abbrev pub flushed : S → Text → Option RouteEntry → S × Bool
  flushed out table none = (out, true)
  flushed out table (some e) = fn out table e

  abbrev pub new_table : Text → Loop S → S × Bool → Next S
  new_table line l (out, false) = ends out
  new_table line l (out, true) =
      goes (record l { table = title_name line; last_network = []; pending = none; out = out })

  abbrev pub new_entry : RouteEntry → Loop S → S × Bool → Next S
  new_entry e l (out, false) = ends out
  new_entry e l (out, true) =
      goes (record l {
        pending = some e;
        pending_table = l.table;
        last_network = e.network;
        out = out;
      })

  abbrev pub attach_line : Text → Loop S → Next S
  attach_line line l = goes (record l { pending = attach_pending line l.pending })

  abbrev pub entry_or_detail : Text → Loop S → Option RouteEntry → Next S
  entry_or_detail line l none = attach_line line l
  entry_or_detail line l (some e) = new_entry e l (flushed l.out l.pending_table l.pending)

  -- The switch over a line without its code and the spaces at its end.
  abbrev pub content_line : Loop S → Text → Next S
  content_line l line =
      if is_empty (trim_space line)
      then goes l
      else if is_title line
      then new_table line l (flushed l.out l.pending_table l.pending)
      else if has_prefix line (9 ∷ [])
      then attach_line line l
      else entry_or_detail line l (parse_route_line line l.last_network)

  abbrev pub content : Loop S → Text → Next S
  content l text = content_line l (trim_right_if (λ c. c == 32) text)

  abbrev pub coded_line : Loop S → Coded → Next S
  coded_line l (code, async, text) = goes l
  coded_line l (code, more, text) = content l text
  coded_line l (code, last, text) =
      if leb 8000 code && ltb code 10000
      then fails (says text) l.out
      else ends ((flushed l.out l.pending_table l.pending).0)

  abbrev pub line_of : Loop S → Text → Option Coded → Next S
  line_of l line none = content l (trim_prefix line (codes " "))
  line_of l line (some coded) = coded_line l coded

  pub stream_line : Loop S → Text → Next S
  unfolding parse_coded_line trim_newlines trim_space trim_right_if trim_prefix has_prefix
      cut_suffix parse_route_line attach_route_detail
  stream_line l raw = line_of l (trim_newlines raw) (parse_coded_line (trim_newlines raw))

  abbrev pub after_line : (Loop S → S × Option StreamFailure) → Next S → S × Option StreamFailure
  after_line rest (goes l) = rest l
  after_line rest (ends out) = (out, none)
  after_line rest (fails e out) = (out, some e)

  pub stream_lines : Loop S → List Text → S × Option StreamFailure
  unfolding stream_line
  stream_lines l [] = (l.out, some no_line)
  stream_lines l (line ∷ stream) = after_line (λ l'. stream_lines l' stream) (stream_line l line)

  abbrev pub start : S → Loop S
  start out = record {
    table = [];
    last_network = [];
    pending = none;
    pending_table = [];
    out = out;
  }

  abbrev pub after_banner : Bool → S → Option (Reply × List Text) → S × Option StreamFailure
  after_banner written out none = (out, some no_banner)
  after_banner true out (some (banner, stream)) = stream_lines (start out) stream
  after_banner false out (some (banner, stream)) = (out, some no_write)

  abbrev pub on_socket : Socket → S → Option (List Text) → S × Option StreamFailure
  on_socket c out none = (out, some no_connection)
  on_socket c out (some stream) =
      if not c.deadline_set
      then (out, some no_deadline)
      else after_banner c.command_written out (read_frame [] stream)

  -- `streamRoutes`: the last state of the callback, and the error.
  unfoldable pub stream_routes : Socket → Text → S → S × Option StreamFailure
  unfolding stream_lines has_newline read_frame
  stream_routes c cmd out =
      if has_newline cmd then (out, some newline_in_command) else on_socket c out c.dialled
