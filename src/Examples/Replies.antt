-- ===== src/Examples/Replies.antt =====
-- internal/birdc on a short reply to `show status`, a protocol's row and a list of communities.
use birdy.Common.{
  Bool, text_eq, text_eq_sound, ap, ◌∙◌, ◌++◌, true, false, List, [], ◌∷◌, some, Text, codes, ◌≡◌,
  refl, arith, join,
}
use birdy.Birdc.{Reply, read_frame, trim_newlines}
use birdy.Birdc.Framing.{write_reply, IsReply, read_frame-write_reply}
use birdy.Birdc.Async.{drop_async, dropped_rest, read_frame-drop_async}
use birdy.Birdc.Client.{Client, command, has_newline}
use birdy.Birdc.Retry.{AnsweredBy, command-Answered}
use birdy.Birdc.Rows.{parse_protocol_row, is_date, is_time}
use birdy.Birdc.Columns.{spread, IsWord, AreApart, date_and_time, parse_protocol_row-spread}
use birdy.Birdc.Queries.{ask, routes_for}
use birdy.Birdc.ReadOnly.{SentShows, ask-SentShows}
use birdy.Birdc.Attributes.{community_rounds, parse_community_list}
use birdy.Birdc.Communities.{community_rounds-enough}

abbrev status : Reply
status = record {
  blocks = (record { code = 1000; lines = codes "BIRD 2.17" ∷ codes "Router ID" ∷ [] }) ∷ [];
  terminal = record { code = 13; lines = codes "Daemon is up" ∷ [] };
}

clean :
    (trim_newlines (codes "BIRD 2.17") ≡ codes "BIRD 2.17")
    × (trim_newlines (codes "Router ID") ≡ codes "Router ID")
    × (trim_newlines (codes "Daemon is up") ≡ codes "Daemon is up")
unfolding trim_newlines
clean = (refl, refl, refl)

status-IsReply : IsReply status
status-IsReply = record {
  blocks = ((omega arith, tt, (clean.0, (clean.1, tt))), tt);
  code = omega arith;
  one = tt;
  clean = (clean.2, tt);
}

read_frame-write_reply_example : read_frame [] (write_reply status ++ []) ≡ some (status, [])
read_frame-write_reply_example = read_frame-write_reply status [] status-IsReply

abbrev stream : List Text
stream = codes "0001+log" ∷ codes "1000-BIRD" ∷ codes "0001+log" ∷ codes "0013 up" ∷ []

read_frame-drop_async_example :
    read_frame [] (drop_async stream) ≡ dropped_rest (read_frame [] stream)
read_frame-drop_async_example = read_frame-drop_async [] stream

abbrev client : Client
client = record {
  conn = some [];
  dials = some (codes "0001 ready" ∷ codes "0013 up" ∷ []) ∷ [];
  writes = [];
  deadlines = [];
  context = [];
  sent = [];
}

command-Answered_example :
    AnsweredBy client (codes "show status") (command client (codes "show status"))
command-Answered_example = command-Answered client (codes "show status")

abbrev gap : Text
gap = codes "  "

abbrev date : Text
date = codes "2026-07-08"

abbrev time : Text
time = codes "10:00:01"

abbrev columns : List (Text × Text)
columns =
    (gap, codes "BGP")
    ∷ (gap, codes "master4")
    ∷ (gap, codes "up")
    ∷ (gap, date)
    ∷ (gap, time)
    ∷ (gap, codes "Established")
    ∷ []

name-IsWord : IsWord (codes "edge1")
name-IsWord = ground arith

columns-AreApart : AreApart columns
columns-AreApart = ground arith

dated : (is_date date ≡ true) × (is_time time ≡ true)
unfolding is_date is_time
dated = (refl, refl)

parse_protocol_row-spread_example :
    parse_protocol_row (spread (codes "edge1") columns [])
    ≡ some (record {
      name = codes "edge1";
      proto = codes "BGP";
      table = codes "master4";
      state = codes "up";
      since = date ++ 32 ∷ time;
      info = codes "Established";
    })
unfolding join
parse_protocol_row-spread_example =
    parse_protocol_row-spread (codes "edge1") (gap, codes "BGP") (gap, codes "master4")
      (gap, codes "up") ((gap, date) ∷ (gap, time) ∷ (gap, codes "Established") ∷ []) []
      (date ∷ time ∷ []) (codes "Established" ∷ []) name-IsWord columns-AreApart tt
      (date_and_time date time (codes "Established" ∷ []) (dated.0) (dated.1))

community_rounds-enough_example :
    community_rounds 40 false (codes "(65000,100) (65000, 200)")
    ≡ parse_community_list (codes "(65000,100) (65000, 200)") false
community_rounds-enough_example =
    community_rounds-enough 40 (codes "(65000,100) (65000, 200)") false (omega arith)

-- The one text that is an address here.
abbrev is_address : Text → Bool
is_address s = text_eq s (codes "192.0.2.1")

one_line : (s : Text) → is_address s ≡ true → has_newline s ≡ false
unfolding has_newline
one_line s e = ap has_newline (text_eq_sound s (codes "192.0.2.1") e) ∙ refl

ask-SentShows_example :
    SentShows [] ((ask is_address client (routes_for (codes "192.0.2.1") true)).1.sent)
ask-SentShows_example =
    ask-SentShows is_address one_line client (routes_for (codes "192.0.2.1") true)
