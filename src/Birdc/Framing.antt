-- ===== src/Birdc/Framing.antt =====
-- internal/birdc/client.go, `readFrame`: what BIRD writes is what is read.
use birdy.Common.{
  ℕ, ◌+◌, ◌/◌, ◌%◌, ◌<◌, List, [], ◌∷◌, ◌++◌, Option, none, some, Text, ◌≡◌, refl, ap, ◌∙◌, arith,
  map, append_assoc, append-nil, All, trim_prefix,
}
use birdy.Birdc.{
  after_line, Block, Reply, Coded, Separator, more, last, separator, parse_coded_line,
  trim_newlines, add_line, line_effect, read_frame,
}

-- A code, below 10000, as four digits.
four_digits : ℕ → Text
four_digits n = (48 + n / 1000) ∷ (48 + n / 100 % 10) ∷ (48 + n / 10 % 10) ∷ (48 + n % 10) ∷ []

-- What BIRD writes for a block: its first line under the code, the others behind a space.
write_lines : ℕ → List Text → List Text
unfolding four_digits
write_lines code [] = []
write_lines code (l ∷ ls) = (four_digits code ++ 45 ∷ l) ∷ map (λ (t : Text). 32 ∷ t) ls

write_blocks : List Block → List Text
unfolding write_lines
write_blocks [] = []
write_blocks (b ∷ bs) = write_lines b.code b.lines ++ write_blocks bs

-- The line that ends a reply.
write_last : ℕ → List Text → List Text
unfolding four_digits
write_last code [] = []
write_last code (l ∷ ls) = (four_digits code ++ 32 ∷ l) ∷ []

pub write_reply : Reply → List Text
unfolding write_blocks write_last
write_reply r = write_blocks r.blocks ++ write_last r.terminal.code r.terminal.lines

-- A line with no line feed or carriage return at its end.
abbrev IsLine : Text → Type 0
IsLine l = trim_newlines l ≡ l

abbrev IsSome : List Text → Type 0
IsSome [] = ⊥
IsSome (l ∷ ls) = Unit

abbrev IsOne : List Text → Type 0
IsOne [] = ⊥
IsOne (l ∷ []) = Unit
IsOne (l ∷ m ∷ ls) = ⊥

-- A block that BIRD can write: a code of four digits, and at least one line.
abbrev IsBlock : Block → Type 0
IsBlock b = (b.code < 10000) × IsSome b.lines × All IsLine b.lines

-- A reply that BIRD can write: such blocks, and one line at the end.
pub record IsReply (r : Reply) : Type 0 where
  pub blocks : All IsBlock r.blocks
  pub code : r.terminal.code < 10000
  pub one : IsOne r.terminal.lines
  pub clean : All IsLine r.terminal.lines

parse-four_digits :
    (n c : ℕ) (sep : Separator) (text : Text)
    → n < 10000
    → separator c ≡ some sep
    → parse_coded_line (four_digits n ++ c ∷ text) ≡ some (n, sep, text)
unfolding parse_coded_line four_digits
parse-four_digits n c sep text h e = rw e (ground (arith, h))

parse-space : (text : Text) → parse_coded_line (32 ∷ text) ≡ none
unfolding parse_coded_line
parse-space text = ground arith

trim_newlines-cons : (c : ℕ) (s : Text) → 13 < c → IsLine s → IsLine (c ∷ s)
unfolding trim_newlines
trim_newlines-cons c s p h = ground (arith, h)

trim_newlines-four_digits :
    (n c : ℕ) (s : Text) → 13 < c → IsLine s → IsLine (four_digits n ++ c ∷ s)
unfolding four_digits
trim_newlines-four_digits n c s p h =
    let d = trim_newlines-cons in
    d _ _ (omega arith)
      (d _ _ (omega arith) (d _ _ (omega arith) (d _ _ (omega arith) (d c s p h))))

-- One round of the loop, from what the line is.
read_frame-step :
    (bs : List Block) (line : Text) (o : Option Coded) (stream : List Text)
    → IsLine line
    → parse_coded_line line ≡ o
    → read_frame bs (line ∷ stream)
      ≡ after_line (λ b. read_frame b stream) stream (line_effect bs line o)
unfolding read_frame
read_frame-step bs line o stream h e =
    ap (λ t. after_line (λ b. read_frame b stream) stream (line_effect bs t (parse_coded_line t))) h
    ∙ ap (λ p. after_line (λ b. read_frame b stream) stream (line_effect bs line p)) e

separator_more : separator 45 ≡ some more
unfolding separator
separator_more = refl

separator_last : separator 32 ≡ some last
unfolding separator
separator_last = refl

read-more :
    (bs : List Block) (code : ℕ) (l : Text) (stream : List Text)
    → code < 10000
    → IsLine l
    → read_frame bs ((four_digits code ++ 45 ∷ l) ∷ stream)
      ≡ read_frame (bs ++ record { code = code; lines = l ∷ [] } ∷ []) stream
read-more bs code l stream h c =
    read_frame-step bs (four_digits code ++ 45 ∷ l) (some (code, more, l)) stream
      (trim_newlines-four_digits code 45 l (omega arith) c)
      (parse-four_digits code 45 more l h separator_more)

read-last :
    (bs : List Block) (code : ℕ) (l : Text) (stream : List Text)
    → code < 10000
    → IsLine l
    → read_frame bs ((four_digits code ++ 32 ∷ l) ∷ stream)
      ≡ some (record { blocks = bs; terminal = record { code = code; lines = l ∷ [] } }, stream)
read-last bs code l stream h c =
    read_frame-step bs (four_digits code ++ 32 ∷ l) (some (code, last, l)) stream
      (trim_newlines-four_digits code 32 l (omega arith) c)
      (parse-four_digits code 32 last l h separator_last)

add_line-append :
    (bs : List Block) (b : Block) (l : Text)
    → add_line (bs ++ b ∷ []) l ≡ bs ++ record b { lines = b.lines ++ l ∷ [] } ∷ []
unfolding add_line
add_line-append [] b l = refl
add_line-append (c ∷ []) b l = refl
add_line-append (c ∷ d ∷ bs) b l = ap (λ t. c ∷ t) (add_line-append (d ∷ bs) b l)

trim_prefix-space : (s : Text) → trim_prefix (32 ∷ s) (32 ∷ []) ≡ s
unfolding trim_prefix
trim_prefix-space s = refl

read-others :
    (bs : List Block) (code : ℕ) (ls ms : List Text) (stream : List Text)
    → All IsLine ms
    → read_frame
        (bs ++ record { code = code; lines = ls } ∷ [])
        (map (λ (t : Text). 32 ∷ t) ms ++ stream)
      ≡ read_frame (bs ++ record { code = code; lines = ls ++ ms } ∷ []) stream
read-others bs code ls [] stream h = rw (append-nil ls) refl
read-others bs code ls (m ∷ ms) stream h =
    read_frame-step (bs ++ record { code = code; lines = ls } ∷ []) (32 ∷ m) none
      (map (λ (t : Text). 32 ∷ t) ms ++ stream) (trim_newlines-cons 32 m (omega arith) (h.0))
      (parse-space m)
    ∙ ap
        (λ t.
          read_frame (add_line (bs ++ record { code = code; lines = ls } ∷ []) t)
            (map (λ (t : Text). 32 ∷ t) ms ++ stream))
        (trim_prefix-space m)
    ∙ ap (λ b. read_frame b (map (λ (t : Text). 32 ∷ t) ms ++ stream))
        (add_line-append bs (record { code = code; lines = ls }) m)
    ∙ read-others bs code (ls ++ m ∷ []) ms stream (h.1)
    ∙ ap (λ l. read_frame (bs ++ record { code = code; lines = l } ∷ []) stream)
        (append_assoc ls (m ∷ []) ms)

read-lines :
    (bs : List Block) (code : ℕ) (ls : List Text) (stream : List Text)
    → code < 10000
    → IsSome ls
    → All IsLine ls
    → read_frame bs (write_lines code ls ++ stream)
      ≡ read_frame (bs ++ record { code = code; lines = ls } ∷ []) stream
unfolding write_lines
read-lines bs code [] stream h s c = absurd s
read-lines bs code (l ∷ ls) stream h s c =
    read-more bs code l (map (λ (t : Text). 32 ∷ t) ls ++ stream) h (c.0)
    ∙ read-others bs code (l ∷ []) ls stream (c.1)

read-blocks :
    (bs cs : List Block) (stream : List Text)
    → All IsBlock cs
    → read_frame bs (write_blocks cs ++ stream) ≡ read_frame (bs ++ cs) stream
unfolding write_blocks
read-blocks bs [] stream h = rw (append-nil bs) refl
read-blocks bs (c ∷ cs) stream h =
    ap (read_frame bs) (append_assoc (write_lines c.code c.lines) (write_blocks cs) stream)
    ∙ read-lines bs c.code c.lines (write_blocks cs ++ stream) (h.0.0) (h.0.1) (h.0.2)
    ∙ read-blocks (bs ++ c ∷ []) cs stream (h.1)
    ∙ ap (λ b. read_frame b stream) (append_assoc bs (c ∷ []) cs)

read-write_last :
    (bs : List Block) (code : ℕ) (ls : List Text) (stream : List Text)
    → code < 10000
    → IsOne ls
    → All IsLine ls
    → read_frame bs (write_last code ls ++ stream)
      ≡ some (record { blocks = bs; terminal = record { code = code; lines = ls } }, stream)
unfolding write_last
read-write_last bs code [] stream h o c = absurd o
read-write_last bs code (l ∷ []) stream h o c = read-last bs code l stream h (c.0)
read-write_last bs code (l ∷ m ∷ ls) stream h o c = absurd o

-- A reply that BIRD can write, whose lines do not end in line feeds or carriage returns, is read back as
-- it is from what BIRD writes for it, and the stream is left behind it.
pub read_frame-write_reply :
    (r : Reply) (stream : List Text)
    → IsReply r
    → read_frame [] (write_reply r ++ stream) ≡ some (r, stream)
unfolding write_reply
read_frame-write_reply r stream h =
    ap (read_frame [])
      (append_assoc (write_blocks r.blocks) (write_last r.terminal.code r.terminal.lines) stream)
    ∙ read-blocks [] r.blocks (write_last r.terminal.code r.terminal.lines ++ stream) h.blocks
    ∙ read-write_last r.blocks r.terminal.code r.terminal.lines stream h.code h.one h.clean
