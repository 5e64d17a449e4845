-- ===== src/Birdc/Stream/Collecting.antt =====
-- internal/birdc/stream.go, `streamRoutes`: the listing that a callback which keeps all gets.
use birdy.Common.{
  Bool, true, false, List, [], ◌∷◌, ◌++◌, Option, none, some, Text, if◌then◌else◌, ◌≡◌, refl,
  is_empty, trim_space, has_prefix, leb, ltb, ◌&&◌,
}
use birdy.Birdc.{Coded, more, last, async, parse_coded_line, trim_newlines}
use birdy.Birdc.Types.{RouteEntry}
use birdy.Birdc.Routes.{parse_route_line, is_title}
use birdy.Birdc.Stream.{
  Socket, StreamFailure, Loop, Next, goes, ends, fails, flushed, new_table, new_entry,
  entry_or_detail, content_line, line_of, stream_line, after_line, stream_lines, stream_routes,
}

-- An entry with the name of its table.
abbrev pub Listed : Type 0
Listed = Text × RouteEntry

-- The callback that keeps all entries.
abbrev pub collect : List Listed → Text → RouteEntry → List Listed × Bool
collect out table e = (out ++ (table, e) ∷ [], true)

-- The whole listing, and the error that ends it, if one does.
unfoldable pub list_routes : Socket → Text → List Listed × Option StreamFailure
unfolding stream_routes
list_routes c cmd = stream_routes collect c cmd []

abbrev pub with_out : {S : Type 0} → Loop (List Listed) → S → Loop S
with_out c s = record {
  table = c.table;
  last_network = c.last_network;
  pending = c.pending;
  pending_table = c.pending_table;
  out = s;
}

-- The listing never stops.
pub flushed-goes :
    (out : List Listed) (table : Text) (pending : Option RouteEntry)
    → flushed collect out table pending ≡ ((flushed collect out table pending).0, true)
flushed-goes out table none = refl
flushed-goes out table (some e) = refl

-- What holds of the entries kept so far, if each entry keeps it, holds at the end.
module _ {ℓ} (P : List Listed → Type ℓ)
    (snoc : (out : List Listed) (e : Listed) → P out → P (out ++ e ∷ [])) where
  abbrev Keeps : Next (List Listed) → Type ℓ
  Keeps (goes c) = P c.out
  Keeps (ends out) = P out
  Keeps (fails e out) = P out

  Keeps-if : (b : Bool) (n m : Next (List Listed)) → Keeps n → Keeps m → Keeps (if b then n else m)
  Keeps-if true n m h k = h
  Keeps-if false n m h k = k

  flushed-Keeps :
      (out : List Listed) (table : Text) (pending : Option RouteEntry)
      → P out
      → P ((flushed collect out table pending).0)
  flushed-Keeps out table none h = h
  flushed-Keeps out table (some e) h = snoc out (table, e) h

  new_table-Keeps :
      (line : Text) (c : Loop (List Listed)) (r : List Listed × Bool)
      → P (r.0)
      → Keeps (new_table collect line c r)
  new_table-Keeps line c (out, true) h = h
  new_table-Keeps line c (out, false) h = h

  new_entry-Keeps :
      (e : RouteEntry) (c : Loop (List Listed)) (r : List Listed × Bool)
      → P (r.0)
      → Keeps (new_entry collect e c r)
  new_entry-Keeps e c (out, true) h = h
  new_entry-Keeps e c (out, false) h = h

  entry_or_detail-Keeps :
      (line : Text) (c : Loop (List Listed)) (o : Option RouteEntry)
      → P c.out
      → Keeps (entry_or_detail collect line c o)
  entry_or_detail-Keeps line c none h = h
  entry_or_detail-Keeps line c (some e) h =
      new_entry-Keeps e c (flushed collect c.out c.pending_table c.pending)
        (flushed-Keeps c.out c.pending_table c.pending h)

  content_line-Keeps :
      (c : Loop (List Listed)) (line : Text) → P c.out → Keeps (content_line collect c line)
  content_line-Keeps c line h = Keeps-if (is_empty (trim_space line)) _ _ h (
      Keeps-if (is_title line) _ _
        (new_table-Keeps line c (flushed collect c.out c.pending_table c.pending)
          (flushed-Keeps c.out c.pending_table c.pending h))
        (Keeps-if (has_prefix line (9 ∷ [])) _ _ h
          (entry_or_detail-Keeps line c (parse_route_line line c.last_network) h)))

  line_of-Keeps :
      (c : Loop (List Listed)) (line : Text) (o : Option Coded)
      → P c.out
      → Keeps (line_of collect c line o)
  line_of-Keeps c line none h = content_line-Keeps c _ h
  line_of-Keeps c line (some (code, async, text)) h = h
  line_of-Keeps c line (some (code, more, text)) h = content_line-Keeps c _ h
  line_of-Keeps c line (some (code, last, text)) h =
      Keeps-if (leb 8000 code && ltb code 10000) _ _ h
        (flushed-Keeps c.out c.pending_table c.pending h)

  after_line-Keeps :
      (rest : Loop (List Listed) → List Listed × Option StreamFailure)
      → ((c : Loop (List Listed)) → P c.out → P ((rest c).0))
      → (n : Next (List Listed)) → Keeps n
      → P ((after_line collect rest n).0)
  after_line-Keeps rest k (goes c) h = k c h
  after_line-Keeps rest k (ends out) h = h
  after_line-Keeps rest k (fails e out) h = h

  pub stream_lines-keeps :
      (stream : List Text) (c : Loop (List Listed))
      → P c.out
      → P ((stream_lines collect c stream).0)
  unfolding stream_lines stream_line
  stream_lines-keeps [] c h = h
  stream_lines-keeps (line ∷ stream) c h =
      after_line-Keeps (λ c'. stream_lines collect c' stream)
        (λ c' h'. stream_lines-keeps stream c' h') (stream_line collect c line)
        (line_of-Keeps c (trim_newlines line) (parse_coded_line (trim_newlines line)) h)
