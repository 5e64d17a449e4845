-- ===== src/Birdc/Stream/Tables.antt =====
-- internal/birdc/parser.go, `ParseRoutes`: how its steps change the entries of all tables.
use birdy.Common.{
  Bool, true, false, List, [], ◌∷◌, ◌++◌, Text, ◌≡◌, refl, ap, sym, ◌∙◌, append_assoc, append-nil,
}
use birdy.Birdc.Types.{RouteEntry, RouteTable}
use birdy.Birdc.Routes.{change_last, or_master}

-- The entries of all tables, in order.
abbrev pub routes_of : List RouteTable → List RouteEntry
routes_of [] = []
routes_of (t ∷ ts) = t.routes ++ routes_of ts

abbrev no_routes : List RouteEntry → Bool
no_routes [] = true
no_routes (e ∷ es) = false

-- Whether there is no entry that a detail could be about.
abbrev pub between : List RouteTable → Bool
between [] = true
between (t ∷ []) = no_routes t.routes
between (t ∷ u ∷ ts) = between (u ∷ ts)

pub change_last-snoc {ℓ} :
    {A : Type ℓ} (f : A → A) (xs : List A) (x : A) → change_last f (xs ++ x ∷ []) ≡ xs ++ f x ∷ []
unfolding change_last
change_last-snoc f [] x = refl
change_last-snoc f (y ∷ []) x = refl
change_last-snoc f (y ∷ z ∷ xs) x = ap (λ zs. y ∷ zs) (change_last-snoc f (z ∷ xs) x)

module _ (f : RouteEntry → RouteEntry) where
  abbrev change_entry : RouteTable → RouteTable
  change_entry t = record t { routes = change_last f t.routes }

  no_routes-change_last : (es : List RouteEntry) → no_routes (change_last f es) ≡ no_routes es
  unfolding change_last
  no_routes-change_last [] = refl
  no_routes-change_last (e ∷ []) = refl
  no_routes-change_last (e ∷ e' ∷ es) = refl

  pub between-change_last :
      (ts : List RouteTable) → between (change_last change_entry ts) ≡ between ts
  unfolding change_last
  between-change_last [] = refl
  between-change_last (t ∷ []) = no_routes-change_last t.routes
  between-change_last (t ∷ u ∷ []) = no_routes-change_last u.routes
  between-change_last (t ∷ u ∷ v ∷ ts) = between-change_last (u ∷ v ∷ ts)

  change_last-none : (es : List RouteEntry) → no_routes es ≡ true → change_last f es ≡ es
  unfolding change_last
  change_last-none [] h = refl
  change_last-none (e ∷ es) h = cc

  pub routes_of-between :
      (ts : List RouteTable)
      → between ts ≡ true
      → routes_of (change_last change_entry ts) ≡ routes_of ts
  unfolding change_last
  routes_of-between [] h = refl
  routes_of-between (t ∷ []) h = ap (λ es. es ++ []) (change_last-none t.routes h)
  routes_of-between (t ∷ u ∷ ts) h = ap (λ es. t.routes ++ es) (routes_of-between (u ∷ ts) h)

  change_last-append :
      (xs ys : List RouteEntry)
      → no_routes ys ≡ false
      → change_last f (xs ++ ys) ≡ xs ++ change_last f ys
  unfolding change_last
  change_last-append [] ys h = refl
  change_last-append (x ∷ []) [] h = cc
  change_last-append (x ∷ []) (y ∷ ys) h = refl
  change_last-append (x ∷ z ∷ xs) ys h = ap (λ zs. x ∷ zs) (change_last-append (z ∷ xs) ys h)

  no_routes-append : (xs ys : List RouteEntry) → no_routes ys ≡ false → no_routes (xs ++ ys) ≡ false
  no_routes-append [] ys h = h
  no_routes-append (x ∷ xs) ys h = refl

  no_routes-routes_of :
      (ts : List RouteTable) → between ts ≡ false → no_routes (routes_of ts) ≡ false
  no_routes-routes_of [] h = h
  no_routes-routes_of (t ∷ []) h = rw (append-nil t.routes) h
  no_routes-routes_of (t ∷ u ∷ ts) h =
      no_routes-append t.routes (routes_of (u ∷ ts)) (no_routes-routes_of (u ∷ ts) h)

  pub routes_of-change_last :
      (ts : List RouteTable)
      → between ts ≡ false
      → routes_of (change_last change_entry ts) ≡ change_last f (routes_of ts)
  unfolding change_last
  routes_of-change_last [] h = refl
  routes_of-change_last (t ∷ []) h = rw (append-nil t.routes) (append-nil (change_last f t.routes))
  routes_of-change_last (t ∷ u ∷ ts) h =
      ap (λ es. t.routes ++ es) (routes_of-change_last (u ∷ ts) h)
      ∙ sym (change_last-append t.routes (routes_of (u ∷ ts)) (no_routes-routes_of (u ∷ ts) h))

module _ (name : Text) where
  abbrev empty_table : RouteTable
  empty_table = record { name = name; routes = [] }

  pub routes_of-table : (ts : List RouteTable) → routes_of (ts ++ empty_table ∷ []) ≡ routes_of ts
  routes_of-table [] = refl
  routes_of-table (t ∷ ts) = ap (λ es. t.routes ++ es) (routes_of-table ts)

  pub between-table : (ts : List RouteTable) → between (ts ++ empty_table ∷ []) ≡ true
  between-table [] = refl
  between-table (t ∷ []) = refl
  between-table (t ∷ u ∷ ts) = between-table (u ∷ ts)

module _ (e : RouteEntry) where
  abbrev with_entry : RouteTable → RouteTable
  with_entry t = record t { routes = t.routes ++ e ∷ [] }

  entry_added :
      (t : RouteTable) (ts : List RouteTable)
      → routes_of (change_last with_entry (t ∷ ts)) ≡ routes_of (t ∷ ts) ++ e ∷ []
  unfolding change_last
  entry_added t [] = rw (append-nil t.routes) (append-nil (t.routes ++ e ∷ []))
  entry_added t (u ∷ ts) =
      ap (λ es. t.routes ++ es) (entry_added u ts)
      ∙ sym (append_assoc t.routes (routes_of (u ∷ ts)) (e ∷ []))

  pub routes_of-entry :
      (ts : List RouteTable)
      → routes_of (change_last with_entry (or_master ts)) ≡ routes_of ts ++ e ∷ []
  routes_of-entry [] = entry_added _ []
  routes_of-entry (t ∷ ts) = entry_added t ts

  no_routes-snoc : (es : List RouteEntry) → no_routes (es ++ e ∷ []) ≡ false
  no_routes-snoc [] = refl
  no_routes-snoc (e' ∷ es) = refl

  between-added :
      (t : RouteTable) (ts : List RouteTable) → between (change_last with_entry (t ∷ ts)) ≡ false
  unfolding change_last
  between-added t [] = no_routes-snoc t.routes
  between-added t (u ∷ []) = no_routes-snoc u.routes
  between-added t (u ∷ v ∷ ts) = between-added u (v ∷ ts)

  pub between-entry :
      (ts : List RouteTable) → between (change_last with_entry (or_master ts)) ≡ false
  between-entry [] = between-added _ []
  between-entry (t ∷ ts) = between-added t ts
