-- ===== src/Birdc/Stream/Held.antt =====
-- internal/birdc/stream.go and parser.go: what the two readers of a listing hold after the same lines.
use birdy.Common.{
  Bool, true, false, List, [], ◌∷◌, ◌++◌, Option, none, some, Text, if◌then◌else◌, ◌≡◌, refl, ap,
  sym, ◌∙◌, append-nil, map, is_empty, trim_space, trim_right_if, has_prefix, ◌==◌,
}
use mathlib.Core.List.{map-append}
use mathlib.Core.Path.{subst}
use birdy.Birdc.Types.{RouteEntry, RouteTable}
use birdy.Birdc.Attributes.{attach_route_detail}
use birdy.Birdc.Routes.{
  Parsing, attach_line, add_table, add_route, route_or_detail, route_line, is_title,
  parse_route_line, title_name,
}
use birdy.Birdc.Stream.{
  Loop, Next, goes, ends, fails, flushed, new_table, new_entry, attach_pending, entry_or_detail,
  content,
}
use birdy.Birdc.Stream.Collecting.{Listed, collect, flushed-goes}
use birdy.Birdc.Stream.Tables.{
  routes_of, between, change_last-snoc, between-change_last, routes_of-between,
  routes_of-change_last, routes_of-table, between-table, routes_of-entry, between-entry,
}

abbrev pub entries : List Listed → List RouteEntry
entries xs = map (λ (x : Listed). x.1) xs

abbrev pending_list : Option RouteEntry → List RouteEntry
pending_list none = []
pending_list (some e) = e ∷ []

abbrev pub is_none : Option RouteEntry → Bool
is_none none = true
is_none (some e) = false

-- The parser holds the entries that the loop has handed over and the one that is pending.
pub record Held (p : Parsing) (c : Loop (List Listed)) : Type 0 where
  pub last_network : p.last_network ≡ c.last_network
  pub routes : routes_of p.tables ≡ entries c.out ++ pending_list c.pending
  pub open_entry : between p.tables ≡ is_none c.pending

-- The loop goes on, and as much is held.
abbrev pub GoesHeld : Parsing → Next (List Listed) → Type 0
GoesHeld p (goes c) = Held p c
GoesHeld p (ends out) = ⊥
GoesHeld p (fails e out) = ⊥

GoesHeld-if :
    (b : Bool) (p q : Parsing) (n m : Next (List Listed))
    → GoesHeld p n
    → GoesHeld q m
    → GoesHeld (if b then p else q) (if b then n else m)
GoesHeld-if true p q n m h k = h
GoesHeld-if false p q n m h k = k

pub entries-flushed :
    (out : List Listed) (table : Text) (o : Option RouteEntry)
    → entries ((flushed collect out table o).0) ≡ entries out ++ pending_list o
entries-flushed out table none = sym (append-nil (entries out))
entries-flushed out table (some e) = map-append (λ (x : Listed). x.1) out ((table, e) ∷ [])

attach-routes :
    (line : Text) (ts : List RouteTable) (before : List RouteEntry) (o : Option RouteEntry)
    → routes_of ts ≡ before ++ pending_list o
    → between ts ≡ is_none o
    → (routes_of ((attach_line line (record { tables = ts; last_network = [] })).tables)
        ≡ before ++ pending_list (attach_pending line o))
      × (between ((attach_line line (record { tables = ts; last_network = [] })).tables)
          ≡ is_none (attach_pending line o))
unfolding attach_line
attach-routes line ts before none h k = (
  routes_of-between (attach_route_detail line) ts k ∙ h,
  between-change_last (attach_route_detail line) ts ∙ k,
)
attach-routes line ts before (some e) h k = (
  routes_of-change_last (attach_route_detail line) ts k
      ∙ (rw h (change_last-snoc (attach_route_detail line) before e)),
  between-change_last (attach_route_detail line) ts ∙ k,
)

module _ (p : Parsing) (c : Loop (List Listed)) (held : Held p c) where
  attach-Held :
      (line : Text)
      → GoesHeld (attach_line line p) (goes (record c { pending = attach_pending line c.pending }))
  unfolding attach_line
  attach-Held line = record {
    last_network = held.last_network;
    routes = (attach-routes line p.tables (entries c.out) c.pending held.routes held.open_entry).0;
    open_entry =
        (attach-routes line p.tables (entries c.out) c.pending held.routes held.open_entry).1;
  }

  table-Held :
      (line : Text)
      → GoesHeld
          (add_table line p)
          (new_table collect line c ((flushed collect c.out c.pending_table c.pending).0, true))
  unfolding add_table
  table-Held line = record {
    last_network = refl;
    routes =
        routes_of-table (title_name line) p.tables
        ∙ (held.routes
            ∙ (sym (entries-flushed c.out c.pending_table c.pending) ∙ sym (append-nil _)));
    open_entry = between-table (title_name line) p.tables;
  }

  entry-Held :
      (e : RouteEntry)
      → GoesHeld
          (add_route e p)
          (new_entry collect e c ((flushed collect c.out c.pending_table c.pending).0, true))
  unfolding add_route
  entry-Held e = record {
    last_network = refl;
    routes =
        routes_of-entry e p.tables
        ∙ ap (λ es. es ++ e ∷ [])
            (held.routes ∙ sym (entries-flushed c.out c.pending_table c.pending));
    open_entry = between-entry e p.tables;
  }

  entry_or_detail-Held :
      (line : Text) (o : Option RouteEntry)
      → GoesHeld (route_or_detail line o p) (entry_or_detail collect line c o)
  entry_or_detail-Held line none = attach-Held line
  entry_or_detail-Held line (some e) =
      rw (flushed-goes c.out c.pending_table c.pending) (entry-Held e)

  pub content-Held : (text : Text) → GoesHeld (route_line p text) (content collect c text)
  unfolding route_line
  content-Held text =
      let line = trim_right_if (λ ch. ch == 32) text in
      GoesHeld-if (is_empty (trim_space line)) _ _ _ _ held (
        GoesHeld-if (is_title line) _ _ _ _
          (rw (flushed-goes c.out c.pending_table c.pending) (table-Held line))
          (GoesHeld-if (has_prefix line (9 ∷ [])) _ _ _ _ (attach-Held line) (
            subst
              (λ n.
                GoesHeld (route_or_detail line (parse_route_line line p.last_network) p)
                  (entry_or_detail collect line c (parse_route_line line n)))
              held.last_network
              (entry_or_detail-Held line (parse_route_line line p.last_network)))))
