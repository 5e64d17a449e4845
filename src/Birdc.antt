-- ===== src/Birdc.antt =====
-- internal/birdc/client.go: the framing of the replies that BIRD sends over its control socket. A
-- stream is the list of the lines still to come, each without the line feed that ends it; at its end a
-- read fails (end of file, or the deadline).
use birdy.Common.{
  ℕ, ◌+◌, ◌-◌, ◌*◌, Bool, true, false, not, ◌&&◌, ◌||◌, List, [], ◌∷◌, ◌++◌, Option, none, some,
  Text, codes, if◌then◌else◌, ◌==◌, leb, ltb, trim_right_if, trim_prefix, any_of,
}
pub mod Types
pub mod Framing
pub mod Async
pub mod Client
pub mod Retry
pub mod Rows
pub mod Columns
pub mod Detail
pub mod Counts
pub mod Attributes
pub mod Routes
pub mod Communities
pub mod Queries
pub mod ReadOnly
pub mod Stream
pub mod Paging

pub record Block : Type 0 where
  pub code : ℕ
  pub lines : List Text

pub record Reply : Type 0 where
  pub blocks : List Block
  pub terminal : Block

-- `Reply.Lines`
pub lines_of : List Block → List Text
lines_of [] = []
lines_of (b ∷ bs) = b.lines ++ lines_of bs

-- `Reply.IsError`
unfoldable pub is_error : Reply → Bool
is_error r = leb 8000 r.terminal.code && ltb r.terminal.code 10000

-- The byte behind the code: more lines follow, the line ends the reply, or it is out of band.
pub data Separator : Type 0 where
  more last async : Separator

pub separator : ℕ → Option Separator
separator c =
    if c == b'-'
    then some more
    else if c == b' '
    then some last
    else if c == b'+'
    then some async
    else none

abbrev pub is_digit : ℕ → Bool
is_digit c = leb 48 c && leb c 57

abbrev pub Coded : Type 0
Coded = ℕ × Separator × Text

abbrev with_code : ℕ → Text → Option Separator → Option Coded
with_code code text none = none
with_code code text (some s) = some (code, s, text)

-- `parseCodedLine`
unfoldable pub parse_coded_line : Text → Option Coded
unfolding separator
parse_coded_line (a ∷ b ∷ c ∷ d ∷ s ∷ text) =
    if is_digit a && (is_digit b && (is_digit c && is_digit d))
    then with_code ((a - 48) * 1000 + (b - 48) * 100 + (c - 48) * 10 + (d - 48)) text (separator s)
    else none
parse_coded_line _ = none

-- `strings.TrimRight(line, "\r\n")`
unfoldable pub trim_newlines : Text → Text
unfolding trim_right_if
trim_newlines line = trim_right_if (λ c. c == 13 || c == 10) line

-- A continuation line goes to the last block, if there is one.
unfoldable pub add_line : List Block → Text → List Block
add_line [] text = []
add_line (b ∷ []) text = record b { lines = b.lines ++ text ∷ [] } ∷ []
add_line (b ∷ c ∷ bs) text = b ∷ add_line (c ∷ bs) text

-- What a line does: nothing, or another list of blocks, or the end of the reply.
pub data Effect : Type 0 where
  blocks_are : List Block → Effect
  replied : Reply → Effect

abbrev coded_effect : List Block → Coded → Effect
coded_effect blocks (code, async, text) = blocks_are blocks
coded_effect blocks (code, more, text) =
    blocks_are (blocks ++ record { code = code; lines = text ∷ [] } ∷ [])
coded_effect blocks (code, last, text) =
    replied (record { blocks = blocks; terminal = record { code = code; lines = text ∷ [] } })

abbrev pub line_effect : List Block → Text → Option Coded → Effect
line_effect blocks line none = blocks_are (add_line blocks (trim_prefix line (32 ∷ [])))
line_effect blocks line (some coded) = coded_effect blocks coded

abbrev pub after_line :
    (List Block → Option (Reply × List Text)) → List Text → Effect → Option (Reply × List Text)
after_line next stream (replied r) = some (r, stream)
after_line next stream (blocks_are blocks) = next blocks

-- `readFrame`: the reply and what is left of the stream, or `none` if the stream ends before.
unfoldable pub read_frame : List Block → List Text → Option (Reply × List Text)
read_frame blocks [] = none
read_frame blocks (line ∷ stream) =
    after_line (λ blocks'. read_frame blocks' stream) stream
      (line_effect blocks (trim_newlines line) (parse_coded_line (trim_newlines line)))
