-- ===== src/Birdc/ReadOnly.antt =====
-- internal/birdc/queries.go: what the queries may write to BIRD.
use birdy.Common.{
  Bool, true, false, List, [], ◌∷◌, ◌++◌, Option, none, some, Text, codes, if◌then◌else◌, ◌≡◌, refl,
  ◌⊎◌, inl, inr, arith,
}
use birdy.Birdc.Client.{Client, has_newline, command}
use birdy.Birdc.Retry.{AnsweredBy, command-Answered}
use birdy.Birdc.Queries.{
  all_symbols, valid_ident, Query, status, protocols, route_count, protocol_detail,
  routes_by_protocol, routes_export, routes_no_export, routes_for, query_text, asked, ask,
}

-- One line that shows something.
record Shows (cmd : Text) : Type 0 where
  pub rest : Text
  pub shows : cmd ≡ codes "show " ++ rest
  pub line : has_newline cmd ≡ false

-- Nothing is written, or such a line, once or twice.
pub SentShows : List Text → List Text → Type 0
SentShows s t =
    (t ≡ s) ⊎ ((cmd : Text) × Shows cmd × ((t ≡ s ++ cmd ∷ []) ⊎ (t ≡ s ++ cmd ∷ cmd ∷ [])))

has_newline-symbols : (s : Text) → all_symbols s ≡ true → has_newline s ≡ false
unfolding has_newline all_symbols
has_newline-symbols [] h = refl
has_newline-symbols (c ∷ s) h = ground (arith, h, has_newline-symbols s (ground (arith, h)))

has_newline-ident : (s : Text) → valid_ident s ≡ true → has_newline s ≡ false
unfolding has_newline valid_ident all_symbols
has_newline-ident [] h = refl
has_newline-ident (c ∷ s) h = ground (arith, h, has_newline-symbols s (ground (arith, h)))

has_newline-append :
    (s t : Text) → has_newline s ≡ false → has_newline t ≡ false → has_newline (s ++ t) ≡ false
unfolding has_newline
has_newline-append [] t h k = k
has_newline-append (c ∷ s) t h k = ground (arith, h, has_newline-append s t (ground (arith, h)) k)

-- Of a command that may be refused: if there is one, it shows.
ShowsIf : Option Text → Type 0
ShowsIf none = Unit
ShowsIf (some cmd) = Shows cmd

ShowsIf-if :
    (b : Bool) (cmd : Text) → (b ≡ true → Shows cmd) → ShowsIf (if b then some cmd else none)
unfolding ShowsIf
ShowsIf-if true cmd h = h refl
ShowsIf-if false cmd h = tt

Shows-literal :
    (verb s : Text)
    → has_newline (codes "show " ++ verb) ≡ false
    → has_newline s ≡ false
    → Shows ((codes "show " ++ verb) ++ s)
Shows-literal verb s h k = record {
  rest = verb ++ s;
  shows = refl;
  line = has_newline-append (codes "show " ++ verb) s h k;
}

module _ (is_address : Text → Bool)
    (one_line : (s : Text) → is_address s ≡ true → has_newline s ≡ false) where
  ShowsIf-query_text : (q : Query) → ShowsIf (query_text is_address q)
  unfolding query_text ShowsIf has_newline
  ShowsIf-query_text status = record { rest = codes "status"; shows = refl; line = refl }
  ShowsIf-query_text protocols = record { rest = codes "protocols"; shows = refl; line = refl }
  ShowsIf-query_text route_count = record { rest = codes "route count"; shows = refl; line = refl }
  ShowsIf-query_text (protocol_detail n) =
      ShowsIf-if (valid_ident n) _
        (λ e. Shows-literal (codes "protocols all ") n refl (has_newline-ident n e))
  ShowsIf-query_text (routes_by_protocol n) =
      ShowsIf-if (valid_ident n) _
        (λ e. Shows-literal (codes "route protocol ") n refl (has_newline-ident n e))
  ShowsIf-query_text (routes_export n) =
      ShowsIf-if (valid_ident n) _
        (λ e. Shows-literal (codes "route export ") n refl (has_newline-ident n e))
  ShowsIf-query_text (routes_no_export n) =
      ShowsIf-if (valid_ident n) _
        (λ e. Shows-literal (codes "route noexport ") n refl (has_newline-ident n e))
  ShowsIf-query_text (routes_for s true) = ShowsIf-if (is_address s) _ (λ e.
      Shows-literal (codes "route for ") (s ++ codes " all") refl
        (has_newline-append s (codes " all") (one_line s e) refl))
  ShowsIf-query_text (routes_for s false) =
      ShowsIf-if (is_address s) _ (λ e. Shows-literal (codes "route for ") s refl (one_line s e))

  SentShows-asked :
      (c : Client) (q : Query) (o : Option Text)
      → ShowsIf o
      → SentShows c.sent ((asked q c o).1.sent)
  unfolding ShowsIf SentShows
  SentShows-asked c q none h = inl refl
  SentShows-asked c q (some cmd) h =
      let a : AnsweredBy c cmd (command c cmd) = command-Answered c cmd in
      elim a.sends [ inl e ↦ inl e | inr e ↦ inr (cmd, h, e) ]

  -- Whatever name or address a query is given, it writes to BIRD nothing, or one command once or
  -- twice; the command is a single line that begins with `show `. No address has a line break.
  pub ask-SentShows : (c : Client) (q : Query) → SentShows c.sent ((ask is_address c q).1.sent)
  unfolding ask
  ask-SentShows c q = SentShows-asked c q (query_text is_address q) (ShowsIf-query_text q)
