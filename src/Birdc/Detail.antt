-- ===== src/Birdc/Detail.antt =====
-- internal/birdc/parser.go, `ParseProtocolDetail`. The white space of the regular
-- expressions is that of `is_space` without the vertical tab.
use birdy.Common.{
  ℕ, Bool, not, ◌||◌, List, [], ◌∷◌, ◌++◌, Option, none, some, Text, codes, if◌then◌else◌, ◌==◌,
  trim_space, trim_left_if, trim_right_if, cut_prefix, text_eq, pos, negsuc, atoi,
}
use birdy.Birdc.{Reply, lines_of, is_digit}
use birdy.Birdc.Types.{ProtocolSummary, ChannelDetail, ProtocolDetail}
use birdy.Birdc.Rows.{parse_protocol_row}

abbrev is_blank : ℕ → Bool
is_blank c = c == 32 || c == 9 || c == 10 || c == 12 || c == 13

-- `\s*`
skip_blanks : Text → Text
unfolding trim_left_if
skip_blanks s = trim_left_if is_blank s

-- The longest beginning whose bytes pass a test, and what follows it.
span : (ℕ → Bool) → Text → Text × Text
span p [] = ([], [])
span p (c ∷ s) = let (taken, rest) = span p s in if p c then (c ∷ taken, rest) else ([], c ∷ s)

abbrev some_of : Text × Text → Option (Text × Text)
some_of ([], rest) = none
some_of (c ∷ taken, rest) = some (c ∷ taken, rest)

-- `(\S+)`
unfoldable pub word : Text → Option (Text × Text)
unfolding span
word s = some_of (span (λ c. not (is_blank c)) s)

-- `(\d+)`
unfoldable pub number : Text → Option (Text × Text)
unfolding span
number s = some_of (span is_digit s)

infixl 5 ◌>>=◌
abbrev pub ◌>>=◌ {ℓ κ} : {A : Type ℓ} {B : Type κ} → Option A → (A → Option B) → Option B
none >>= f = none
some a >>= f = f a

-- `reHold`, `reKeepalive`: the word behind the label and maybe blanks.
timer : Text → Text → Option Text
unfolding skip_blanks word
timer label s = do rest ← cut_prefix s label; p ← word (skip_blanks rest); some (p.0)

-- `reChannel`
channel_name : Text → Option Text
unfolding word
channel_name s = do rest ← cut_prefix s (codes "Channel "); p ← word rest; some (p.0)

-- A decimal number of no sign, as `Atoi` reads it.
unfoldable pub atoi_digits : Text → ℕ
unfolding atoi
atoi_digits s = elim ((atoi s).0) [ pos n ↦ n | negsuc n ↦ 0 ]

abbrev filtered_part : Text → Option (ℕ × Text)
filtered_part s = do
  a ← cut_prefix s (codes ",")
  n ← number (skip_blanks a)
  b ← cut_prefix (n.1) (codes " filtered")
  some (atoi_digits (n.0), b)

abbrev or_none : Text → Option (ℕ × Text) → ℕ × Text
or_none s none = (0, s)
or_none s (some p) = p

-- `reRoutes`: the routes imported, filtered (0 if BIRD does not say), exported and preferred.
routes_counts : Text → Option (ℕ × ℕ × ℕ × ℕ)
unfolding skip_blanks number atoi_digits
routes_counts s = do
  a ← cut_prefix s (codes "Routes:")
  imported ← number (skip_blanks a)
  b ← cut_prefix (imported.1) (codes " imported")
  let filtered = or_none b (filtered_part b)
  c ← cut_prefix (filtered.1) (codes ",")
  exported ← number (skip_blanks c)
  d ← cut_prefix (exported.1) (codes " exported,")
  preferred ← number (skip_blanks d)
  rest ← cut_prefix (preferred.1) (codes " preferred")
  some (atoi_digits (imported.0), filtered.0, atoi_digits (exported.0), atoi_digits (preferred.0))

abbrev no_channel : Text → ChannelDetail
no_channel afi = record {
  afi = afi;
  state = [];
  table = [];
  preference = [];
  import_filter = [];
  export_filter = [];
  import_limit = [];
  import_limit_action = [];
  routes_imported = 0;
  routes_filtered = 0;
  routes_exported = 0;
  routes_preferred = 0;
}

-- The fields of a channel, each by its label.
abbrev channel_fields : List (Text × (Text → ChannelDetail → ChannelDetail))
channel_fields =
    (codes "State:", λ v c. record c { state = v })
    ∷ (codes "Table:", λ v c. record c { table = v })
    ∷ (codes "Preference:", λ v c. record c { preference = v })
    ∷ (codes "Input filter:", λ v c. record c { import_filter = v })
    ∷ (codes "Output filter:", λ v c. record c { export_filter = v })
    ∷ (codes "Import limit:", λ v c. record c { import_limit = v })
    ∷ (codes "Action:", λ v c. record c { import_limit_action = v })
    ∷ []

abbrev detail_fields : List (Text × (Text → ProtocolDetail → ProtocolDetail))
detail_fields =
    (codes "BGP state:", λ v d. record d { bgp_state = v })
    ∷ (codes "Neighbor address:", λ v d. record d { neighbor_address = v })
    ∷ (codes "Neighbor AS:", λ v d. record d { neighbor_as = v })
    ∷ (codes "Local AS:", λ v d. record d { local_as = v })
    ∷ (codes "Neighbor ID:", λ v d. record d { neighbor_id = v })
    ∷ (codes "Session:", λ v d. record d { session_type = v })
    ∷ (codes "Source address:", λ v d. record d { source_address = v })
    ∷ []

-- The first label that begins the line, with the trimmed text behind it put in its field.
set_field {ℓ} : {A : Type ℓ} → List (Text × (Text → A → A)) → Text → Option (A → A)
set_field [] line = none
set_field ((label, set) ∷ fs) line = elim (cut_prefix line label) [
  | some v ↦ some (set (trim_space v))
  | none ↦ set_field fs line
]

abbrev counted : ChannelDetail → Option (ℕ × ℕ × ℕ × ℕ) → ChannelDetail
counted c none = c
counted c (some (i, f, e, p)) = record c {
  routes_imported = i;
  routes_filtered = f;
  routes_exported = e;
  routes_preferred = p;
}

channel_line : ChannelDetail → Text → ChannelDetail
unfolding set_field routes_counts
channel_line c line = elim (set_field channel_fields line) [
  | some set ↦ set c
  | none ↦ counted c (routes_counts line)
]

-- The state of the loop: the detail, and the channel that is open.
abbrev Loop : Type 0
Loop = ProtocolDetail × Option ChannelDetail

-- `flush`
abbrev flush : Loop → ProtocolDetail
flush (d, none) = d
flush (d, some c) = record d { channels = d.channels ++ c ∷ [] }

abbrev in_channel : Loop → Text → Loop
in_channel (d, none) line = (d, none)
in_channel (d, some c) line = (d, some (channel_line c line))

abbrev on_timer : Loop → Text → Loop
on_timer (d, open_channel) line = elim (timer (codes "Hold timer:") line) [
  | some v ↦ (record d { hold_timer = v }, open_channel)
  | none ↦ elim (timer (codes "Keepalive timer:") line) [
    | some v ↦ (record d { keepalive_timer = v }, open_channel)
    | none ↦ elim (channel_name line) [
      | some afi ↦ (flush (d, open_channel), some (no_channel afi))
      | none ↦ in_channel (d, open_channel) line
    ]
  ]
]

-- The switch on one line that is not blank.
detail_line : Loop → Text → Loop
unfolding set_field timer channel_name channel_line
detail_line (d, open_channel) line = elim (set_field detail_fields line) [
  | some set ↦ (set d, open_channel)
  | none ↦ on_timer (d, open_channel) line
]

abbrev keep_raw : Loop → Text → Loop
keep_raw (d, open_channel) raw = (record d { raw_lines = d.raw_lines ++ raw ∷ [] }, open_channel)

detail_lines : Loop → List Text → Loop
unfolding detail_line
detail_lines l [] = l
detail_lines l (raw ∷ lines) =
    let line = trim_space (trim_right_if (λ c. c == 32) raw) in
    detail_lines (if text_eq line [] then l else detail_line (keep_raw l raw) line) lines

abbrev or_empty : Option ProtocolSummary → ProtocolSummary
or_empty none = record { name = []; proto = []; table = []; state = []; since = []; info = [] }
or_empty (some s) = s

abbrev empty_detail : ProtocolSummary → ProtocolDetail
empty_detail s = record {
  summary = s;
  bgp_state = [];
  neighbor_address = [];
  neighbor_as = [];
  local_as = [];
  neighbor_id = [];
  session_type = [];
  source_address = [];
  hold_timer = [];
  keepalive_timer = [];
  channels = [];
  raw_lines = [];
}

abbrev first_line : List Text → Text
first_line [] = []
first_line (l ∷ ls) = l

-- `ParseProtocolDetail`; `none` is the error on the shape. A block has a line.
unfoldable pub parse_protocol_detail : Reply → Option ProtocolDetail
unfolding detail_lines lines_of
parse_protocol_detail r = elim r.blocks [
  | [] ↦ none
  | header ∷ bs ↦ elim bs [
    | [] ↦ none
    | b ∷ cs ↦ some (
        flush (
          detail_lines (empty_detail (or_empty (parse_protocol_row (first_line b.lines))), none)
            (lines_of cs)))
  ]
]
