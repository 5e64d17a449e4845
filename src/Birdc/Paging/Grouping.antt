-- ===== src/Birdc/Paging/Grouping.antt =====
-- internal/birdc/stream.go, `paginate`: the grouping of a page's entries by table.
use birdy.Common.{
  is_in, distinct, is_in-snoc, distinct-snoc, eq_sym, All-distinct, All-is_in, keep_if-append, Bool,
  true, false, ◌||◌, List, [], ◌∷◌, ◌++◌, Option, none, some, Text, if◌then◌else◌, ◌≡◌, refl, sym,
  ◌∙◌, ap, arith, keep_if, map, append-nil, text_eq, text_eq_self, text_eq_sound, look, put,
  look-put_if, Bool-cases, inl, inr, All,
}
use mathlib.Core.List.{map-append}
use birdy.Birdc.Types.{RouteEntry, RouteTable}
use birdy.Birdc.Stream.Collecting.{Listed}
use birdy.Birdc.Paging.{Collected, add_to, ordered_tables}

abbrev routes_in : Text → List Listed → List RouteEntry
routes_in name xs = map (λ (x : Listed). x.1) (keep_if (λ (x : Listed). text_eq name (x.0)) xs)

abbrev table_in : List Listed → Text → RouteTable
table_in xs name = record { name = name; routes = routes_in name xs }

abbrev names_in : List Listed → List Text
names_in xs = distinct text_eq (map (λ (x : Listed). x.0) xs)

-- One table for each name, in the order in which the names come, with the entries of that name.
pub grouped : List Listed → List RouteTable
grouped xs = map (table_in xs) (names_in xs)

abbrev keys : List Listed → List Text
keys xs = map (λ (x : Listed). x.0) xs

-- The table of a name, if any entry has it.
pub table_if : List Listed → Text → Option RouteTable
table_if xs n = if is_in text_eq n (keys xs) then some (table_in xs n) else none

-- The map and the order hold the groups of the entries taken so far.
pub record Groups (xs : List Listed) (p : Collected) : Type 0 where
  pub order : p.order ≡ names_in xs
  pub tables : (n : Text) → look n p.tables ≡ table_if xs n

pub Groups-none : {p : Collected} → p.order ≡ [] → p.tables ≡ [] → Groups [] p
unfolding look table_if
Groups-none h k = record { order = h; tables = λ n. ap (look n) k }

routes_in-none :
    (n : Text) (xs : List Listed) → is_in text_eq n (keys xs) ≡ false → routes_in n xs ≡ []
routes_in-none n [] h = refl
routes_in-none n ((m, e) ∷ xs) h =
    let other : text_eq n m ≡ false = ground (arith, h) in
    rw (other, keep_if) (routes_in-none n xs (ground (arith, h)))

module _ (xs : List Listed) (name : Text) (e : RouteEntry) where
  abbrev after : List Listed
  after = xs ++ (name, e) ∷ []

  route_if :
      (b : Bool)
      → map
          (λ (x : Listed). x.1)
          (elim b as (λ b. List Listed) [ true ↦ (name, e) ∷ [] | false ↦ [] ])
        ≡ (if b then e ∷ [] else [])
  route_if true = refl
  route_if false = refl

  routes_in-after :
      (n : Text) → routes_in n after ≡ routes_in n xs ++ (if text_eq n name then e ∷ [] else [])
  routes_in-after n =
      ap (map (λ (x : Listed). x.1))
        (keep_if-append (λ (x : Listed). text_eq n (x.0)) xs ((name, e) ∷ []))
      ∙ map-append (λ (x : Listed). x.1) (keep_if (λ (x : Listed). text_eq n (x.0)) xs)
          (keep_if (λ (x : Listed). text_eq n (x.0)) ((name, e) ∷ []))
      ∙ ap (λ rs. routes_in n xs ++ rs) (route_if (text_eq n name))

  is_in-after :
      (n : Text) → is_in text_eq n (keys after) ≡ (is_in text_eq n (keys xs) || text_eq n name)
  is_in-after n =
      rw (map-append (λ (x : Listed). x.0) xs ((name, e) ∷ []))
        (is_in-snoc text_eq n name (keys xs))

  names_in-after :
      names_in after
      ≡ (if is_in text_eq name (keys xs) then names_in xs else names_in xs ++ name ∷ [])
  names_in-after =
      rw (map-append (λ (x : Listed). x.0) xs ((name, e) ∷ []))
        (distinct-snoc text_eq text_eq_sound text_eq_self (keys xs) name)

  table_if-after :
      (n : Text)
      → table_if after n ≡ (
          if text_eq name n
          then some (record { name = name; routes = routes_in name xs ++ e ∷ [] })
          else table_if xs n)
  unfolding table_if
  table_if-after n = elim (Bool-cases (text_eq name n)) [
    | inl same ↦ rw (← text_eq_sound name n same) (
        rw (is_in-after name, text_eq_self name, routes_in-after name)
          (ground (arith, text_eq_self name)))
    | inr other ↦
        let other' : text_eq n name ≡ false =
          eq_sym text_eq text_eq_sound text_eq_self n name ∙ other in
        rw (is_in-after n, routes_in-after n, other', other)
          (ground (arith, append-nil (routes_in n xs)))
  ]

  tables-after :
      (p : Collected)
      → Groups xs p
      → (t : RouteTable) → t ≡ record { name = name; routes = routes_in name xs ++ e ∷ [] }
      → (n : Text) → look n (put name t p.tables) ≡ table_if after n
  tables-after p g t same n =
      look-put_if name t p.tables n ∙ (rw (same, g.tables n) refl ∙ sym (table_if-after n))

  add_to-cases :
      (p : Collected)
      → Groups xs p
      → (b : Bool) → is_in text_eq name (keys xs) ≡ b
      → Groups after (add_to name e p (if b then some (table_in xs name) else none))
  add_to-cases p g true h = record {
    order = g.order ∙ sym (rw (names_in-after, h) refl);
    tables = tables-after p g _ refl;
  }
  add_to-cases p g false h = record {
    order = ap (λ ns. ns ++ name ∷ []) g.order ∙ sym (rw (names_in-after, h) refl);
    tables = tables-after p g _ (rw (routes_in-none name xs h) refl);
  }

  pub add_to-Groups :
      (p : Collected) → Groups xs p → Groups after (add_to name e p (look name p.tables))
  unfolding table_if
  add_to-Groups p g = rw (g.tables name) (add_to-cases p g (is_in text_eq name (keys xs)) refl)

ordered_tables-map :
    (xs : List Listed) (p : Collected)
    → Groups xs p
    → (ns : List Text) → All (λ n. is_in text_eq n (keys xs) ≡ true) ns
    → ordered_tables p.tables ns ≡ map (table_in xs) ns
unfolding ordered_tables table_if
ordered_tables-map xs p g [] h = refl
ordered_tables-map xs p g (n ∷ ns) (h, hs) =
    rw (g.tables n, h) (ap (λ ts. table_in xs n ∷ ts) (ordered_tables-map xs p g ns hs))

pub ordered_tables-grouped :
    (xs : List Listed) (p : Collected) → Groups xs p → ordered_tables p.tables p.order ≡ grouped xs
unfolding grouped
ordered_tables-grouped xs p g = rw g.order (
    ordered_tables-map xs p g (names_in xs) (
      All-distinct text_eq (λ n. is_in text_eq n (keys xs) ≡ true) (keys xs)
        (All-is_in text_eq text_eq_sound text_eq_self (keys xs))))
