-- ===== src/Birdc/Stream/Feeding.antt =====
-- internal/birdc/stream.go, `streamRoutes`: what the callback gets, whatever it is.
use birdy.Common.{
  Bool, true, false, not, List, [], ◌∷◌, ◌++◌, Option, none, some, Text, if◌then◌else◌, ◌≡◌, refl,
  is_empty, trim_space, has_prefix, leb, ltb, ◌&&◌, sym, ◌∙◌, ap, Bool-cases, inl, inr,
}
use birdy.Birdc.{Reply, Coded, more, last, async, parse_coded_line, trim_newlines, read_frame}
use birdy.Birdc.Types.{RouteEntry}
use birdy.Birdc.Client.{has_newline}
use birdy.Birdc.Routes.{parse_route_line, is_title}
use birdy.Birdc.Stream.{
  Socket, StreamFailure, Loop, Next, goes, ends, fails, flushed, new_table, new_entry,
  entry_or_detail, content_line, line_of, stream_line, after_line, stream_lines, start,
  after_banner, on_socket, stream_routes,
}
use birdy.Birdc.Stream.Collecting.{
  Listed, collect, list_routes, with_out, flushed-goes, stream_lines-keeps,
}

module _ {S : Type 0} (fn : S → Text → RouteEntry → S × Bool) where
  abbrev pub feed_next : (S → S × Bool) → S × Bool → S × Bool
  feed_next rest (s, false) = (s, false)
  feed_next rest (s, true) = rest s

  -- The entries given to the callback one by one, until it wants no more.
  unfoldable pub feed : S → List Listed → S × Bool
  feed s [] = (s, true)
  feed s ((table, e) ∷ xs) = feed_next (λ s'. feed s' xs) (fn s table e)

  abbrev feed_last : Listed → S × Bool → S × Bool
  feed_last x r = feed_next (λ s. fn s (x.0) (x.1)) r

  feed_next-last :
      (x : Listed) (rest rest' : S → S × Bool)
      → ((s : S) → rest' s ≡ feed_last x (rest s))
      → (r : S × Bool) → feed_next rest' r ≡ feed_last x (feed_next rest r)
  feed_next-last x rest rest' h (s, false) = refl
  feed_next-last x rest rest' h (s, true) = h s

  feed_next-eta : (r : S × Bool) → feed_next (λ s. (s, true)) r ≡ r
  feed_next-eta (s, true) = refl
  feed_next-eta (s, false) = refl

  pub feed-snoc :
      (xs : List Listed) (s : S) (x : Listed) → feed s (xs ++ x ∷ []) ≡ feed_last x (feed s xs)
  unfolding feed
  feed-snoc [] s (table, e) = feed_next-eta (fn s table e)
  feed-snoc ((table', e') ∷ xs) s x =
      feed_next-last x (λ s'. feed s' xs) (λ s'. feed s' (xs ++ x ∷ [])) (λ s'. feed-snoc xs s' x)
        (fn s table' e')

  -- The error, unless the callback stopped before.
  abbrev pub settled : Option StreamFailure → S × Bool → S × Option StreamFailure
  settled e (s, true) = (s, e)
  settled e (s, false) = (s, none)

  module _ (s0 : S) where
    -- What a line does to the listing, and what it does with the callback fed by it.
    abbrev Matches : Next (List Listed) → Next S → Type 0
    Matches (goes c) (goes l) = (l ≡ with_out c l.out) × (feed s0 c.out ≡ (l.out, true))
    Matches (goes c) (ends s) = feed s0 c.out ≡ (s, false)
    Matches (ends out) (ends s) = (b : Bool) × (feed s0 out ≡ (s, b))
    Matches (fails e out) (fails e' s) = (e ≡ e') × (feed s0 out ≡ (s, true))
    Matches (goes c) (fails e s) = ⊥
    Matches (ends out) (goes l) = ⊥
    Matches (ends out) (fails e s) = ⊥
    Matches (fails e out) (goes l) = ⊥
    Matches (fails e out) (ends s) = ⊥

    Matches-if :
        (b : Bool) (n n' : Next (List Listed)) (m m' : Next S)
        → Matches n m
        → Matches n' m'
        → Matches (if b then n else n') (if b then m else m')
    Matches-if true n n' m m' h k = h
    Matches-if false n n' m m' h k = k

    feed-flushed :
        (out : List Listed) (table : Text) (pending : Option RouteEntry) (s : S)
        → feed s0 out ≡ (s, true)
        → feed s0 ((flushed collect out table pending).0) ≡ flushed fn s table pending
    feed-flushed out table none s h = h
    feed-flushed out table (some e) s h = feed-snoc out s0 (table, e) ∙ ap (feed_last (table, e)) h

    new_table-Matches :
        (line : Text) (c : Loop (List Listed)) (s : S) (out : List Listed) (r : S × Bool)
        → feed s0 out ≡ r
        → Matches (new_table collect line c (out, true)) (new_table fn line (with_out c s) r)
    new_table-Matches line c s out (s', true) h = (refl, h)
    new_table-Matches line c s out (s', false) h = h

    new_entry-Matches :
        (e : RouteEntry) (c : Loop (List Listed)) (s : S) (out : List Listed) (r : S × Bool)
        → feed s0 out ≡ r
        → Matches (new_entry collect e c (out, true)) (new_entry fn e (with_out c s) r)
    new_entry-Matches e c s out (s', true) h = (refl, h)
    new_entry-Matches e c s out (s', false) h = h

    module _ (c : Loop (List Listed)) (s : S) (fed : feed s0 c.out ≡ (s, true)) where
      fed-flushed :
          feed s0 ((flushed collect c.out c.pending_table c.pending).0)
          ≡ flushed fn s c.pending_table c.pending
      fed-flushed = feed-flushed c.out c.pending_table c.pending s fed

      entry_or_detail-Matches :
          (line : Text) (o : Option RouteEntry)
          → Matches (entry_or_detail collect line c o) (entry_or_detail fn line (with_out c s) o)
      entry_or_detail-Matches line none = (refl, fed)
      entry_or_detail-Matches line (some e) =
          rw (flushed-goes c.out c.pending_table c.pending)
            (new_entry-Matches e c s _ (flushed fn s c.pending_table c.pending) fed-flushed)

      title-Matches :
          (line : Text)
          → Matches
              (new_table collect line c (flushed collect c.out c.pending_table c.pending))
              (new_table fn line (with_out c s) (flushed fn s c.pending_table c.pending))
      title-Matches line =
          rw (flushed-goes c.out c.pending_table c.pending)
            (new_table-Matches line c s _ (flushed fn s c.pending_table c.pending) fed-flushed)

      content_line-Matches :
          (line : Text)
          → Matches (content_line collect c line) (content_line fn (with_out c s) line)
      content_line-Matches line =
          Matches-if (is_empty (trim_space line)) _ _ _ _ (refl, fed)
            (Matches-if (is_title line) _ _ _ _ (title-Matches line) (
              Matches-if (has_prefix line (9 ∷ [])) _ _ _ _ (refl, fed)
                (entry_or_detail-Matches line (parse_route_line line c.last_network))))

      line_of-Matches :
          (line : Text) (o : Option Coded)
          → Matches (line_of collect c line o) (line_of fn (with_out c s) line o)
      line_of-Matches line none = content_line-Matches _
      line_of-Matches line (some (code, async, text)) = (refl, fed)
      line_of-Matches line (some (code, more, text)) = content_line-Matches _
      line_of-Matches line (some (code, last, text)) =
          Matches-if (leb 8000 code && ltb code 10000) _ _ _ _ (refl, fed)
            ((flushed fn s c.pending_table c.pending).1, fed-flushed)

      stream_line-Matches :
          (line : Text) → Matches (stream_line collect c line) (stream_line fn (with_out c s) line)
      unfolding stream_line
      stream_line-Matches line =
          line_of-Matches (trim_newlines line) (parse_coded_line (trim_newlines line))

    feed-stopped :
        (c : Loop (List Listed)) (stream : List Text) (s : S)
        → feed s0 c.out ≡ (s, false)
        → feed s0 ((stream_lines collect c stream).0) ≡ (s, false)
    feed-stopped c stream s h =
        stream_lines-keeps (λ out. feed s0 out ≡ (s, false))
          (λ out x k. feed-snoc out s0 x ∙ ap (feed_last x) k) stream c h

    -- After a line that matches, and if so do the rest.
    after_line-settled :
        (stream : List Text) (n : Next (List Listed)) (m : Next S)
        → ((c : Loop (List Listed)) (s : S)
            → feed s0 c.out ≡ (s, true)
            → stream_lines fn (with_out c s) stream
              ≡ settled
                  ((stream_lines collect c stream).1)
                  (feed s0 ((stream_lines collect c stream).0)))
        → Matches n m
        → after_line fn (λ l. stream_lines fn l stream) m
          ≡ settled
              ((after_line collect (λ c. stream_lines collect c stream) n).1)
              (feed s0 ((after_line collect (λ c. stream_lines collect c stream) n).0))
    after_line-settled stream (goes c) (goes l) h (e, fed) =
        ap (λ l'. stream_lines fn l' stream) e ∙ h c l.out fed
    after_line-settled stream (goes c) (ends s) h stopped =
        sym (ap (settled ((stream_lines collect c stream).1)) (feed-stopped c stream s stopped))
    after_line-settled stream (ends out) (ends s) h (true, fed) = sym (ap (settled none) fed)
    after_line-settled stream (ends out) (ends s) h (false, fed) = sym (ap (settled none) fed)
    after_line-settled stream (fails e out) (fails e' s) h (same, fed) =
        ap (λ e''. (s, some e'')) (sym same) ∙ sym (ap (settled (some e)) fed)
    after_line-settled stream (goes c) (fails e s) h k = absurd k
    after_line-settled stream (ends out) (goes l) h k = absurd k
    after_line-settled stream (ends out) (fails e s) h k = absurd k
    after_line-settled stream (fails e out) (goes l) h k = absurd k
    after_line-settled stream (fails e out) (ends s) h k = absurd k

    stream_lines-settled :
        (stream : List Text) (c : Loop (List Listed)) (s : S)
        → feed s0 c.out ≡ (s, true)
        → stream_lines fn (with_out c s) stream
          ≡ settled
              ((stream_lines collect c stream).1)
              (feed s0 ((stream_lines collect c stream).0))
    unfolding stream_lines
    stream_lines-settled [] c s fed = sym (ap (settled _) fed)
    stream_lines-settled (line ∷ stream) c s fed =
        after_line-settled stream (stream_line collect c line) (stream_line fn (with_out c s) line)
          (λ c' s' fed'. stream_lines-settled stream c' s' fed') (stream_line-Matches c s fed line)

    after_banner-settled :
        (written : Bool) (o : Option (Reply × List Text))
        → after_banner fn written s0 o
          ≡ settled
              ((after_banner collect written [] o).1)
              (feed s0 ((after_banner collect written [] o).0))
    unfolding feed
    after_banner-settled written none = refl
    after_banner-settled true (some (banner, stream)) =
        stream_lines-settled stream (start collect []) s0 refl
    after_banner-settled false (some (banner, stream)) = refl

    on_socket-settled :
        (c : Socket) (o : Option (List Text))
        → on_socket fn c s0 o
          ≡ settled ((on_socket collect c [] o).1) (feed s0 ((on_socket collect c [] o).0))
    unfolding feed
    on_socket-settled c none = refl
    on_socket-settled c (some stream) = elim (Bool-cases (not c.deadline_set)) [
      | inl e ↦ rw e refl
      | inr e ↦ rw e (after_banner-settled c.command_written (read_frame [] stream))
    ]

    -- Whatever the callback, it is given the entries of the whole listing in order, up to the one at
    -- which it stops; the call then ends without error, and else as the whole listing does.
    pub stream_routes-list_routes :
        (c : Socket) (cmd : Text)
        → stream_routes fn c cmd s0
          ≡ settled ((list_routes c cmd).1) (feed s0 ((list_routes c cmd).0))
    unfolding stream_routes feed list_routes
    stream_routes-list_routes c cmd = elim (Bool-cases (has_newline cmd)) [
      | inl e ↦ rw e refl
      | inr e ↦ rw e (on_socket-settled c c.dialled)
    ]
