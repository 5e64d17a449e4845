-- ===== src/Birdc/Async.antt =====
-- internal/birdc/client.go, `readFrame`: out-of-band lines do not matter.
use birdy.Common.{
  Bool, true, false, not, List, [], ◌∷◌, ◌++◌, Option, none, some, Text, ◌≡◌, refl, ap, ◌∙◌, sym,
  arith, keep_if, trim_prefix,
}
use birdy.Birdc.{
  after_line, Block, Reply, Coded, more, last, async, parse_coded_line, trim_newlines, add_line,
  line_effect, read_frame,
}

-- The out-of-band lines of a stream.
abbrev is_async_code : Option Coded → Bool
is_async_code none = false
is_async_code (some (code, async, text)) = true
is_async_code (some (code, more, text)) = false
is_async_code (some (code, last, text)) = false

pub is_async : Text → Bool
is_async line = is_async_code (parse_coded_line (trim_newlines line))

abbrev pub drop_async : List Text → List Text
drop_async stream = keep_if (λ (l : Text). not (is_async l)) stream

abbrev pub dropped_rest : Option (Reply × List Text) → Option (Reply × List Text)
dropped_rest none = none
dropped_rest (some (r, stream)) = some (r, drop_async stream)

read_frame-nil : (bs : List Block) → read_frame bs [] ≡ none
unfolding read_frame
read_frame-nil bs = refl

read_frame-cons :
    (bs : List Block) (l : Text) (stream : List Text) (o : Option Coded)
    → parse_coded_line (trim_newlines l) ≡ o
    → read_frame bs (l ∷ stream)
      ≡ after_line (λ b. read_frame b stream) stream (line_effect bs (trim_newlines l) o)
unfolding read_frame
read_frame-cons bs l stream o e =
    ap (λ p. after_line (λ b. read_frame b stream) stream (line_effect bs (trim_newlines l) p)) e

kept_line : Bool → Text → List Text → List Text
kept_line true l stream = l ∷ stream
kept_line false l stream = stream

drop_async-cons :
    (bs : List Block) (l : Text) (stream : List Text) (o : Option Coded)
    → parse_coded_line (trim_newlines l) ≡ o
    → ((b : List Block) → read_frame b (drop_async stream) ≡ dropped_rest (read_frame b stream))
    → read_frame bs (kept_line (not (is_async_code o)) l (drop_async stream))
      ≡ dropped_rest
          (after_line (λ b. read_frame b stream) stream (line_effect bs (trim_newlines l) o))
unfolding kept_line
drop_async-cons bs l stream none e ih =
    read_frame-cons bs l (drop_async stream) none e
    ∙ ih (add_line bs (trim_prefix (trim_newlines l) (32 ∷ [])))
drop_async-cons bs l stream (some (code, async, text)) e ih = ih bs
drop_async-cons bs l stream (some (code, more, text)) e ih =
    read_frame-cons bs l (drop_async stream) (some (code, more, text)) e
    ∙ ih (bs ++ record { code = code; lines = text ∷ [] } ∷ [])
drop_async-cons bs l stream (some (code, last, text)) e ih =
    read_frame-cons bs l (drop_async stream) (some (code, last, text)) e

drop_async-kept :
    (l : Text) (stream : List Text)
    → drop_async (l ∷ stream) ≡ kept_line (not (is_async l)) l (drop_async stream)
unfolding kept_line
drop_async-kept l stream = ground arith

-- A reply does not depend on the out-of-band lines around and within it: without them the same reply is
-- read, or as well none, and the rest of the stream is the same but for those.
pub read_frame-drop_async :
    (bs : List Block) (stream : List Text)
    → read_frame bs (drop_async stream) ≡ dropped_rest (read_frame bs stream)
unfolding is_async
read_frame-drop_async bs [] = read_frame-nil bs ∙ sym (ap dropped_rest (read_frame-nil bs))
read_frame-drop_async bs (l ∷ stream) =
    ap (read_frame bs) (drop_async-kept l stream)
    ∙ drop_async-cons bs l stream (parse_coded_line (trim_newlines l)) refl
        (λ b. read_frame-drop_async b stream)
    ∙ sym (ap dropped_rest (read_frame-cons bs l stream (parse_coded_line (trim_newlines l)) refl))
