-- ===== src/Birdc/Rows.antt =====
-- internal/birdc/parser.go, `ParseStatus`, `parseProtocolRow` and `ParseProtocols`, and
-- internal/birdc/configure.go, `configure` from the reply on.
use birdy.Common.{
  ℕ, Bool, true, false, ◌&&◌, ◌||◌, List, [], ◌∷◌, ◌++◌, Option, none, some, Text, codes,
  if◌then◌else◌, ◌==◌, trim_space, cut_prefix, fields, join, take, drop, length, ltb, has_prefix,
  text_eq,
}
use birdy.Birdc.{Reply, lines_of, is_error, is_digit}
use birdy.Birdc.Types.{Status, ProtocolSummary}

-- One line of "show status": the field that its prefix names is set.
abbrev status_line : Status → Text → Status
status_line st line = elim (cut_prefix line (codes "BIRD ")) [
  | some v ↦ record st { version = v }
  | none ↦ elim (cut_prefix line (codes "Router ID is ")) [
    | some v ↦ record st { router_id = v }
    | none ↦ elim (cut_prefix line (codes "Hostname is ")) [
      | some v ↦ record st { hostname = v }
      | none ↦ elim (cut_prefix line (codes "Current server time is ")) [
        | some v ↦ record st { current_time = v }
        | none ↦ elim (cut_prefix line (codes "Last reboot on ")) [
          | some v ↦ record st { last_reboot = v }
          | none ↦ elim (cut_prefix line (codes "Last reconfiguration on ")) [
            | some v ↦ record st { last_reconfig = v }
            | none ↦ st
          ]
        ]
      ]
    ]
  ]
]

status_lines : Status → List Text → Status
status_lines st [] = st
status_lines st (line ∷ lines) = status_lines (status_line st (trim_space line)) lines

abbrev first_line : List Text → Text
first_line [] = []
first_line (l ∷ ls) = l

-- `ParseStatus`; a terminal block has a line.
unfoldable pub parse_status : Reply → Status
unfolding lines_of status_lines trim_space
parse_status r =
    let empty : Status = record {
      version = [];
      router_id = [];
      hostname = [];
      current_time = [];
      last_reboot = [];
      last_reconfig = [];
      message = [];
    } in
    record (status_lines empty (lines_of r.blocks)) {
      message = trim_space (first_line r.terminal.lines);
    }

-- Whether a text has a shape: a `d` stands for a digit, any other byte for itself.
has_shape : Text → Text → Bool
has_shape [] [] = true
has_shape [] (c ∷ s) = false
has_shape (p ∷ ps) [] = false
has_shape (p ∷ ps) (c ∷ s) = (if p == b'd' then is_digit c else p == c) && has_shape ps s

all_digits : Text → Bool
all_digits [] = true
all_digits (c ∷ s) = is_digit c && all_digits s

-- `reProtoDate`
unfoldable pub is_date : Text → Bool
unfolding has_shape
is_date s = has_shape (codes "dddd-dd-dd") s

-- `reProtoTime`: minutes, seconds or fractions of seconds.
unfoldable pub is_time : Text → Bool
unfolding has_shape all_digits
is_time s =
    has_shape (codes "dd:dd") s
    || has_shape (codes "dd:dd:dd") s
    || (has_shape (codes "dd:dd:dd.") (take 9 s) && ltb 9 (length s) && all_digits (drop 9 s))

-- How many of the fields are the time since which the state holds.
unfoldable pub since_fields : List Text → ℕ
since_fields [] = 0
since_fields (s ∷ []) = if is_date s || is_time s then 1 else 0
since_fields (s ∷ t ∷ rest) =
    if is_date s then (if is_time t then 2 else 1) else (if is_time s then 1 else 0)

abbrev pub row_of : List Text → Option ProtocolSummary
row_of (name ∷ proto ∷ table ∷ state ∷ rest) = some (record {
  name = name;
  proto = proto;
  table = table;
  state = state;
  since = join (32 ∷ []) (take (since_fields rest) rest);
  info = join (32 ∷ []) (drop (since_fields rest) rest);
})
row_of _ = none

-- `parseProtocolRow`
unfoldable pub parse_protocol_row : Text → Option ProtocolSummary
unfolding fields since_fields join
parse_protocol_row row = row_of (fields row)

parse_rows : List Text → List ProtocolSummary
unfolding parse_protocol_row
parse_rows [] = []
parse_rows (row ∷ rows) = elim (parse_protocol_row row) [
  | none ↦ parse_rows rows
  | some s ↦ s ∷ parse_rows rows
]

-- `ParseProtocols`; `none` is the error on the shape.
unfoldable pub parse_protocols : Reply → Option (List ProtocolSummary)
unfolding parse_rows lines_of
parse_protocols r = elim r.blocks [
  | [] ↦ none
  | header ∷ bs ↦ elim bs [ [] ↦ none | b ∷ cs ↦ some (parse_rows (lines_of (b ∷ cs))) ]
]

-- What `configure` makes of a reply.

record ConfigureResult : Type 0 where
  pub ok : Bool
  pub message : Text

pub messages : List Text → List Text
messages [] = []
messages (l ∷ ls) =
    let line = trim_space l in
    let rest = messages ls in
    if text_eq line [] || has_prefix line (codes "Reading configuration from")
    then rest
    else line ∷ rest

abbrev or_ok : Text → Text
or_ok [] = codes "OK"
or_ok (c ∷ s) = c ∷ s

configure_result : Reply → ConfigureResult
unfolding messages lines_of is_error join
configure_result r =
    let text = join (codes "; ") (messages (lines_of r.blocks ++ r.terminal.lines)) in
    if is_error r
    then record { ok = false; message = text }
    else record { ok = true; message = or_ok text }
