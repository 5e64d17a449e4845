-- ===== src/Birdc/Paging/Slices.antt =====
-- internal/birdc/stream.go, `paginate`: a page is a slice of the whole listing.
use birdy.Common.{
  ℕ, zero, suc, ◌+◌, ◌≤◌, ◌<◌, Bool, true, false, List, [], ◌∷◌, ◌++◌, Option, none, some, Text,
  if◌then◌else◌, ◌≡◌, refl, sym, ◌∙◌, ap, arith, leb, ltb, length, length-append, take, drop, ℤ,
  append-nil, append_assoc, Bool-cases, inl, inr, look,
}
use birdy.Birdc.Types.{RouteEntry, RouteTable}
use birdy.Birdc.Stream.{Socket, StreamFailure}
use birdy.Birdc.Stream.Collecting.{Listed, list_routes}
use birdy.Birdc.Stream.Feeding.{feed, settled, stream_routes-list_routes}
use birdy.Birdc.Paging.{
  Collected, take_entry, add_to, PageOutcome, page, page_failed, page_of, page_size, nothing_seen,
  paginate,
}
use birdy.Birdc.Paging.Grouping.{
  grouped, Groups, Groups-none, add_to-Groups, ordered_tables-grouped,
}

abbrev pub slice {ℓ} : {A : Type ℓ} → ℕ → ℕ → List A → List A
slice offset limit xs = take limit (drop offset xs)

-- The slices of a list with an item more behind it.
module _ {ℓ} {A : Type ℓ} where
  take-append : (n : ℕ) (xs ys : List A) → n ≤ length xs → take n (xs ++ ys) ≡ take n xs
  take-append zero xs ys h = refl
  take-append (suc n) [] ys h = absurd (omega arith)
  take-append (suc n) (x ∷ xs) ys h = ap (λ zs. x ∷ zs) (take-append n xs ys (omega arith))

  take-snoc :
      (n : ℕ) (xs : List A) (x : A) → length xs < n → take n (xs ++ x ∷ []) ≡ take n xs ++ x ∷ []
  take-snoc zero xs x h = absurd (omega arith)
  take-snoc (suc zero) [] x h = refl
  take-snoc (suc (suc n)) [] x h = refl
  take-snoc (suc n) (y ∷ xs) x h = ap (λ zs. y ∷ zs) (take-snoc n xs x (omega arith))

  slice-before :
      (offset limit : ℕ) (xs : List A) (x : A)
      → length xs < offset
      → slice offset limit (xs ++ x ∷ []) ≡ slice offset limit xs
  slice-before zero limit xs x h = absurd (omega arith)
  slice-before (suc zero) limit [] x h = refl
  slice-before (suc (suc offset)) limit [] x h = refl
  slice-before (suc offset) limit (y ∷ xs) x h = slice-before offset limit xs x (omega arith)

  slice-within :
      (offset limit : ℕ) (xs : List A) (x : A)
      → offset ≤ length xs
      → length xs < offset + limit
      → slice offset limit (xs ++ x ∷ []) ≡ slice offset limit xs ++ x ∷ []
  slice-within zero limit xs x h k = take-snoc limit xs x (omega arith)
  slice-within (suc offset) limit [] x h k = absurd (omega arith)
  slice-within (suc offset) limit (y ∷ xs) x h k =
      slice-within offset limit xs x (omega arith) (omega arith)

  slice-beyond :
      (offset limit : ℕ) (xs ys : List A)
      → offset + limit ≤ length xs
      → slice offset limit (xs ++ ys) ≡ slice offset limit xs
  slice-beyond zero limit xs ys h = take-append limit xs ys (omega arith)
  slice-beyond (suc offset) limit [] ys h = absurd (omega arith)
  slice-beyond (suc offset) limit (y ∷ xs) ys h = slice-beyond offset limit xs ys (omega arith)

-- What a page should be, of the whole listing and the error that ends it: its slice, grouped. An error
-- beyond the page does not matter.
abbrev pub page_spec : ℕ → ℕ → List Listed × Option StreamFailure → PageOutcome
page_spec offset limit (xs, e) =
    if ltb (offset + limit) (length xs)
    then page (record { tables = grouped (slice offset limit xs); has_more = true })
    else elim e [
      | none ↦ page (record { tables = grouped (slice offset limit xs); has_more = false })
      | some f ↦ page_failed f
    ]

add_to-kept :
    (name : Text) (e : RouteEntry) (p : Collected) (o : Option RouteTable)
    → ((add_to name e p o).seen ≡ p.seen) × ((add_to name e p o).has_more ≡ p.has_more)
add_to-kept name e p none = (refl, refl)
add_to-kept name e p (some t) = (refl, refl)

module _ (offset limit : ℕ) where
  -- What has been collected of the entries xs, while more are wanted.
  record Taken (xs : List Listed) (p : Collected) : Type 0 where
    pub seen : p.seen ≡ length xs
    pub has_more : p.has_more ≡ false
    pub bounded : length xs ≤ offset + limit
    pub groups : Groups (slice offset limit xs) p

  abbrev feed_page : Collected → List Listed → Collected × Bool
  feed_page p xs = feed (take_entry offset limit) p xs

  -- At the end of the entries.
  page_of-Taken :
      (xs : List Listed) (p : Collected) (e : Option StreamFailure)
      → Taken xs p
      → page_of (p, e) ≡ page_spec offset limit (xs, e)
  page_of-Taken xs p (some f) t = ground (arith, t.bounded)
  page_of-Taken xs p none t =
      let fits : ltb (offset + limit) (length xs) ≡ false = ground (arith, t.bounded) in
      rw (fits, t.has_more, ordered_tables-grouped (slice offset limit xs) p t.groups) refl

  -- At the entry behind the page.
  page_of-beyond :
      (xs ys : List Listed) (y : Listed) (p : Collected) (e : Option StreamFailure)
      → Taken xs p
      → length xs ≡ offset + limit
      → page_of (record p { seen = p.seen + 1; has_more = true }, none)
        ≡ page_spec offset limit (xs ++ y ∷ ys, e)
  page_of-beyond xs ys y p e t full =
      let over : ltb (offset + limit) (length (xs ++ y ∷ ys)) ≡ true =
        ground (arith, full, length-append xs (y ∷ ys)) in
      rw (over, slice-beyond offset limit xs (y ∷ ys) (omega (arith, full)))
        (ap (λ ts. page (record { tables = ts; has_more = true }))
          (ordered_tables-grouped (slice offset limit xs) p t.groups))

  module _ (xs : List Listed) (p : Collected) (name : Text) (e : RouteEntry) (t : Taken xs p) where
    grown : length (xs ++ (name, e) ∷ []) ≡ p.seen + 1
    grown = omega (arith, length-append xs ((name, e) ∷ []), t.seen)

    Taken-skip : p.seen + 1 ≤ offset → Taken (xs ++ (name, e) ∷ []) (record p { seen = p.seen + 1 })
    Taken-skip h = record {
      seen = sym grown;
      has_more = t.has_more;
      bounded = omega (arith, grown);
      groups =
          rw (slice-before offset limit xs (name, e) (omega (arith, t.seen)))
            (record { order = t.groups.order; tables = t.groups.tables });
    }

    Taken-add :
        offset < p.seen + 1
        → p.seen + 1 ≤ offset + limit
        → Taken
            (xs ++ (name, e) ∷ [])
            (add_to name e (record p { seen = p.seen + 1 }) (look name p.tables))
    Taken-add h k =
        let p' : Collected = record p { seen = p.seen + 1 } in
        let g : Groups (slice offset limit xs) p' = record {
          order = t.groups.order;
          tables = t.groups.tables;
        } in
        record {
          seen = (add_to-kept name e p' (look name p.tables)).0 ∙ sym grown;
          has_more = (add_to-kept name e p' (look name p.tables)).1 ∙ t.has_more;
          bounded = omega (arith, grown);
          groups =
              rw
                (slice-within offset limit xs (name, e) (omega (arith, t.seen))
                  (omega (arith, t.seen)))
                (add_to-Groups (slice offset limit xs) name e p' g);
        }

  page_of-feed :
      (ys xs : List Listed) (p : Collected) (e : Option StreamFailure)
      → Taken xs p
      → page_of (settled (take_entry offset limit) e (feed_page p ys))
        ≡ page_spec offset limit (xs ++ ys, e)
  unfolding feed take_entry
  page_of-feed [] xs p e t =
      page_of-Taken xs p e t ∙ ap (λ zs. page_spec offset limit (zs, e)) (sym (append-nil xs))
  page_of-feed ((name, r) ∷ ys) xs p e t =
      let behind : page_spec offset limit ((xs ++ (name, r) ∷ []) ++ ys, e)
          ≡ page_spec offset limit (xs ++ (name, r) ∷ ys, e) =
        ap (λ zs. page_spec offset limit (zs, e)) (append_assoc xs ((name, r) ∷ []) ys) in
      elim (Bool-cases (leb (p.seen + 1) offset)) [
        | inl skip ↦ rw skip (
            page_of-feed ys (xs ++ (name, r) ∷ []) (record p { seen = p.seen + 1 }) e
              (Taken-skip xs p name r t (ground (arith, skip)))
            ∙ behind)
        | inr on ↦ elim (Bool-cases (ltb (offset + limit) (p.seen + 1))) [
          | inl beyond ↦
              rw (on, beyond)
                (page_of-beyond xs ys (name, r) p e t (ground (arith, beyond, t.seen, t.bounded)))
          | inr within ↦
              rw (on, within)
                (page_of-feed ys (xs ++ (name, r) ∷ [])
                    (add_to name r (record p { seen = p.seen + 1 }) (look name p.tables)) e
                    (Taken-add xs p name r t (ground (arith, on)) (ground (arith, within)))
                  ∙ behind)
        ]
      ]

slice-nil {ℓ} : {A : Type ℓ} (offset limit : ℕ) → slice {A = A} offset limit [] ≡ []
slice-nil zero zero = refl
slice-nil zero (suc limit) = refl
slice-nil (suc offset) zero = refl
slice-nil (suc offset) (suc limit) = refl

Taken-none : (offset limit : ℕ) → Taken offset limit [] nothing_seen
Taken-none offset limit = record {
  seen = refl;
  has_more = refl;
  bounded = omega arith;
  groups = rw (slice-nil {A = Listed} offset limit) (Groups-none refl refl);
}

-- A page is the slice of the whole listing that begins at the offset and is as long as the page size
-- (50 in place of a limit that is not positive), grouped by table, and says whether the listing goes on
-- behind it. It fails as the listing does, unless the listing goes on behind the page before it fails.
pub paginate-slice :
    (c : Socket) (cmd : Text) (offset : ℕ) (limit : ℤ)
    → paginate c cmd offset limit ≡ page_spec offset (page_size limit) (list_routes c cmd)
unfolding paginate
paginate-slice c cmd offset limit =
    ap page_of (stream_routes-list_routes (take_entry offset (page_size limit)) nothing_seen c cmd)
    ∙ page_of-feed offset (page_size limit) ((list_routes c cmd).0) [] nothing_seen
        ((list_routes c cmd).1) (Taken-none offset (page_size limit))
