-- ===== src/Birdc/Stream/Listing.antt =====
-- internal/birdc/stream.go and parser.go: the two readers of a listing give the same entries.
use birdy.Common.{
  ℕ, Bool, true, false, List, [], ◌∷◌, ◌++◌, Option, none, some, Text, ◌≡◌, refl, ap, sym, ◌∙◌,
  append_assoc, append-nil, trim_prefix, leb, ltb, ◌&&◌,
}
use mathlib.Core.Path.{subst}
use birdy.Birdc
use birdy.Birdc.{
  Block, Reply, lines_of, is_error, Coded, more, last, async, parse_coded_line, trim_newlines,
  read_frame, add_line, line_effect,
}
use birdy.Birdc.Client.{has_newline}
use birdy.Birdc.Routes.{Parsing, route_line, route_lines, parse_routes}
use birdy.Birdc.Stream.{
  Socket, StreamFailure, Loop, Next, goes, ends, fails, flushed, content, line_of, after_line,
  stream_line, stream_lines, start, stream_routes,
}
use birdy.Birdc.Stream.Collecting.{Listed, collect, list_routes}
use birdy.Birdc.Stream.Tables.{routes_of}
use birdy.Birdc.Stream.Held.{entries, Held, GoesHeld, entries-flushed, content-Held}

route_lines-snoc :
    (lines : List Text) (p : Parsing) (line : Text)
    → route_lines p (lines ++ line ∷ []) ≡ route_line (route_lines p lines) line
unfolding route_lines
route_lines-snoc [] p line = refl
route_lines-snoc (l ∷ lines) p line = route_lines-snoc lines (route_line p l) line

lines_of-add_line :
    (b : Block) (bs : List Block) (text : Text)
    → lines_of (add_line (b ∷ bs) text) ≡ lines_of (b ∷ bs) ++ text ∷ []
unfolding lines_of add_line
lines_of-add_line b [] text = rw (append-nil b.lines) (append-nil (b.lines ++ text ∷ []))
lines_of-add_line b (b' ∷ bs) text =
    ap (λ ls. b.lines ++ ls) (lines_of-add_line b' bs text)
    ∙ sym (append_assoc b.lines (lines_of (b' ∷ bs)) (text ∷ []))

lines_of-block : (bs : List Block) (b : Block) → lines_of (bs ++ b ∷ []) ≡ lines_of bs ++ b.lines
unfolding lines_of
lines_of-block [] b = append-nil b.lines
lines_of-block (b' ∷ bs) b =
    ap (λ ls. b'.lines ++ ls) (lines_of-block bs b)
    ∙ sym (append_assoc b'.lines (lines_of bs) b.lines)

-- No line without a code comes before the first line that has one, but out of band.
abbrev coded_first : Option Coded → Bool → Bool
coded_first none rest = false
coded_first (some (code, async, text)) rest = rest
coded_first (some (code, more, text)) rest = true
coded_first (some (code, last, text)) rest = true

unfoldable pub begins_coded : List Text → Bool
unfolding parse_coded_line trim_newlines
begins_coded [] = true
begins_coded (line ∷ stream) =
    coded_first (parse_coded_line (trim_newlines line)) (begins_coded stream)

abbrev nothing_parsed : Parsing
nothing_parsed = record { tables = []; last_network = [] }

abbrev parsed : List Block → Parsing
parsed blocks = route_lines nothing_parsed (lines_of blocks)

abbrev Ready : List Block → List Text → Type 0
Ready [] stream = begins_coded stream ≡ true
Ready (b ∷ bs) stream = Unit

Ready-add_line :
    (b : Block) (bs : List Block) (text : Text) (stream : List Text)
    → Ready (add_line (b ∷ bs) text) stream
unfolding add_line
Ready-add_line b [] text stream = tt
Ready-add_line b (b' ∷ bs) text stream = tt

Ready-block : (bs : List Block) (b : Block) (stream : List Text) → Ready (bs ++ b ∷ []) stream
Ready-block [] b stream = tt
Ready-block (b' ∷ bs) b stream = tt

ready :
    (stream : List Text) (blocks : List Block)
    → (blocks ≡ [] → begins_coded stream ≡ true)
    → Ready blocks stream
ready stream [] h = h refl
ready stream (b ∷ bs) h = tt

Ready-first :
    (line : Text) (stream : List Text) (blocks : List Block)
    → Ready blocks (line ∷ stream)
    → blocks ≡ []
    → coded_first (parse_coded_line (trim_newlines line)) (begins_coded stream) ≡ true
unfolding begins_coded
Ready-first line stream [] h e = h
Ready-first line stream (b ∷ bs) h e = cc

parsed-add_line :
    (b : Block) (bs : List Block) (text : Text)
    → parsed (add_line (b ∷ bs) text) ≡ route_line (parsed (b ∷ bs)) text
parsed-add_line b bs text =
    ap (route_lines nothing_parsed) (lines_of-add_line b bs text)
    ∙ route_lines-snoc (lines_of (b ∷ bs)) nothing_parsed text

parsed-block :
    (bs : List Block) (code : ℕ) (text : Text)
    → parsed (bs ++ record { code = code; lines = text ∷ [] } ∷ []) ≡ route_line (parsed bs) text
parsed-block bs code text =
    ap (route_lines nothing_parsed) (lines_of-block bs (record { code = code; lines = text ∷ [] }))
    ∙ route_lines-snoc (lines_of bs) nothing_parsed text

module _ (r : Reply) (rest : List Text) (fine : is_error r ≡ false) where
  -- The listing ends well, with the entries that the parser finds in the reply.
  abbrev Listing : List Listed × Option StreamFailure → Type 0
  Listing (xs, e) = (entries xs ≡ routes_of (parsed r.blocks).tables) × (e ≡ none)

  module _ (stream : List Text)
      (next : (blocks : List Block) (c : Loop (List Listed))
        → Held (parsed blocks) c
        → Ready blocks stream
        → read_frame blocks stream ≡ some (r, rest)
        → Listing (stream_lines collect c stream)) where
    next-Listing :
        (blocks : List Block) (n : Next (List Listed))
        → GoesHeld (parsed blocks) n
        → Ready blocks stream
        → read_frame blocks stream ≡ some (r, rest)
        → Listing (after_line collect (λ c. stream_lines collect c stream) n)
    next-Listing blocks (goes c) h k e = next blocks c h k e
    next-Listing blocks (ends out) h k e = absurd h
    next-Listing blocks (fails f out) h k e = absurd h

    last-Listing :
        (blocks : List Block) (c : Loop (List Listed)) (b : Block)
        → Held (parsed blocks) c
        → r ≡ record { blocks = blocks; terminal = b }
        → Listing ((flushed collect c.out c.pending_table c.pending).0, none)
    last-Listing blocks c b h e =
        (entries-flushed c.out c.pending_table c.pending ∙ (sym h.routes ∙ rw e refl), refl)

    line-Listing :
        (blocks : List Block) (c : Loop (List Listed)) (line : Text) (o : Option Coded)
        → Held (parsed blocks) c
        → (blocks ≡ [] → coded_first o (begins_coded stream) ≡ true)
        → Birdc.after_line (λ blocks'. read_frame blocks' stream) stream (line_effect blocks line o)
          ≡ some (r, rest)
        → Listing
            (after_line collect (λ c'. stream_lines collect c' stream) (line_of collect c line o))
    unfolding is_error
    line-Listing [] c line none h k e = cc (k refl)
    line-Listing (b ∷ bs) c line none h k e =
        next-Listing (add_line (b ∷ bs) (trim_prefix line (32 ∷ []))) _
          (subst (λ p. GoesHeld p (content collect c (trim_prefix line (32 ∷ []))))
            (sym (parsed-add_line b bs (trim_prefix line (32 ∷ []))))
            (content-Held (parsed (b ∷ bs)) c h (trim_prefix line (32 ∷ []))))
          (Ready-add_line b bs _ stream) e
    line-Listing blocks c line (some (code, async, text)) h k e =
        next blocks c h (ready stream blocks k) e
    line-Listing blocks c line (some (code, more, text)) h k e =
        next-Listing (blocks ++ record { code = code; lines = text ∷ [] } ∷ []) _
          (subst (λ p. GoesHeld p (content collect c text)) (sym (parsed-block blocks code text))
            (content-Held (parsed blocks) c h text))
          (Ready-block blocks _ stream) e
    line-Listing blocks c line (some (code, last, text)) h k e =
        let b : Block = record { code = code; lines = text ∷ [] } in
        let e' : r ≡ record { blocks = blocks; terminal = b } = cc in
        let f : (leb 8000 code && ltb code 10000) ≡ false = sym (ap is_error e') ∙ fine in
        rw f (last-Listing blocks c b h e')

  stream_lines-Listing :
      (stream : List Text) (blocks : List Block) (c : Loop (List Listed))
      → Held (parsed blocks) c
      → Ready blocks stream
      → read_frame blocks stream ≡ some (r, rest)
      → Listing (stream_lines collect c stream)
  unfolding stream_lines stream_line read_frame
  stream_lines-Listing [] blocks c h k e = cc
  stream_lines-Listing (line ∷ stream) blocks c h k e =
      line-Listing stream (λ blocks' c' h' k' e'. stream_lines-Listing stream blocks' c' h' k' e')
        blocks c (trim_newlines line) (parse_coded_line (trim_newlines line)) h
        (Ready-first line stream blocks k) e

Held-start : Held (parsed []) (start collect [])
unfolding route_lines lines_of
Held-start = record { last_network = refl; routes = refl; open_entry = refl }

-- Streaming a listing gives the entries, in order, that ParseRoutes finds in the same reply read as a
-- whole, and no error, where the connection gives its banner and a reply that is no error and that has
-- no line in front of its first code.
pub list_routes-parse_routes :
    (c : Socket) (cmd : Text) (all stream rest : List Text) (banner r : Reply)
    → has_newline cmd ≡ false
    → c ≡ record { dialled = some all; deadline_set = true; command_written = true }
    → read_frame [] all ≡ some (banner, stream)
    → read_frame [] stream ≡ some (r, rest)
    → is_error r ≡ false
    → begins_coded stream ≡ true
    → (entries ((list_routes c cmd).0) ≡ routes_of (parse_routes r))
      × ((list_routes c cmd).1 ≡ none)
unfolding list_routes stream_routes parse_routes
list_routes-parse_routes c cmd all stream rest banner r line same welcome framed fine coded =
    rw (same, line, welcome)
      (stream_lines-Listing r rest fine stream [] (start collect []) Held-start coded framed)
