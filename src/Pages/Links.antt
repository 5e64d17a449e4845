-- ===== src/Pages/Links.antt =====
-- internal/web/pagination.go, `Links`: which pages the selector lists, and where its ellipses stand.
use birdy.Common.{
  ◌∙◌, sym, ap, ℕ, zero, suc, ◌+◌, ◌≤◌, ◌<◌, Bool, true, false, not, ◌&&◌, List, [], ◌∷◌, ◌++◌, ◌≡◌,
  refl, arith, ◌↔◌, ◌⊎◌, ◌≢◌, inl, inr, if◌then◌else◌, ◌==◌, leb, Text, Bool-cases,
}
use birdy.Pages.{
  pager_window, Pager, PageLink, Query, numbered, ellipsis, page, total_pages, last_page, want,
  link, links_from, links,
}

-- Each listed page follows the one before, from `prev` on, or stands behind an ellipsis that replaces
-- at least one page.
Spaced : ℕ → List PageLink → Type 0
Spaced prev [] = Unit
Spaced prev (numbered n u c ∷ rest) = (n ≡ prev + 1) × Spaced n rest
Spaced prev (ellipsis ∷ []) = ⊥
Spaced prev (ellipsis ∷ ellipsis ∷ rest) = ⊥
Spaced prev (ellipsis ∷ numbered n u c ∷ rest) = (prev + 1 < n) × Spaced n rest

pub lists : ℕ → List PageLink → Bool
lists m [] = false
lists m (ellipsis ∷ rest) = lists m rest
lists m (numbered n u c ∷ rest) = if m == n then true else lists m rest

Spaced-step :
    (u : Text × Query) (c : Bool) (prev n : ℕ) (rest : List PageLink)
    → prev < n
    → (prev ≡ 0 → n ≡ 1)
    → Spaced n rest
    → Spaced prev (
        (if not (prev == 0) && not (n == prev + 1) then ellipsis ∷ [] else [])
        ++ numbered n u c ∷ rest)
unfolding Spaced
Spaced-step u c prev n rest h f s = elim (Bool-cases (not (prev == 0) && not (n == prev + 1))) [
  | inl e ↦ rw e (ground (arith, e, h), s)
  | inr e ↦ rw e (ground (arith, e, h, f), s)
]

want-first : (cur last n prev : ℕ) → (prev ≡ 0 → n ≡ 1) → want cur last n ≡ false → prev ≢ 0
unfolding want
want-first cur last n prev f e z = ground (arith, f z, e)

links_from-Spaced :
    (p : Pager) (cur last count n prev : ℕ)
    → prev < n
    → (prev ≡ 0 → n ≡ 1)
    → Spaced prev (links_from p cur last count n prev)
unfolding links_from Spaced
links_from-Spaced p cur last zero n prev h f = tt
links_from-Spaced p cur last (suc count) n prev h f = elim (Bool-cases (want cur last n)) [
  | inl e ↦ rw e (
      Spaced-step (link p n) (n == cur) prev n (links_from p cur last count (n + 1) n) h f
        (links_from-Spaced p cur last count (n + 1) n (omega arith) (omega (arith, h))))
  | inr e ↦ rw e (
      links_from-Spaced p cur last count (n + 1) prev (omega (arith, h))
        (λ z. absurd (want-first cur last n prev f e z)))
]

links_from-none :
    (p : Pager) (cur last count n prev m : ℕ)
    → m < n
    → lists m (links_from p cur last count n prev) ≡ false
unfolding links_from lists
links_from-none p cur last zero n prev m h = refl
links_from-none p cur last (suc count) n prev m h = ground (
  arith,
  h,
  links_from-none p cur last count (n + 1) n m (omega (arith, h)),
  links_from-none p cur last count (n + 1) prev m (omega (arith, h)),
)

lists-gap :
    (b : Bool) (m n : ℕ) (u : Text × Query) (c : Bool) (rest : List PageLink)
    → lists m ((if b then ellipsis ∷ [] else []) ++ numbered n u c ∷ rest)
      ≡ (if m == n then true else lists m rest)
unfolding lists
lists-gap true m n u c rest = refl
lists-gap false m n u c rest = refl

equal : (m n : ℕ) → (m == n) ≡ true → m ≡ n
equal m n h = ground arith

later : (m n : ℕ) → n ≤ m → (m == n) ≡ false → n + 1 ≤ m
later m n h e = ground arith

links_from-lists :
    (p : Pager) (cur last count n prev m : ℕ)
    → n ≤ m
    → m < n + count
    → lists m (links_from p cur last count n prev) ≡ want cur last m
unfolding links_from
links_from-lists p cur last zero n prev m h k = ground (arith, h, k)
links_from-lists p cur last (suc count) n prev m h k = elim (Bool-cases (want cur last n)) [
  | inl e ↦ rw e (
      lists-gap (not (prev == 0) && not (n == prev + 1)) m n (link p n) (n == cur)
        (links_from p cur last count (n + 1) n)
      ∙ elim (Bool-cases (m == n)) [
        | inl f ↦ rw (f, equal m n f) (sym e)
        | inr f ↦
            rw f (links_from-lists p cur last count (n + 1) n m (later m n h f) (omega (arith, k)))
      ])
  | inr e ↦ rw e (elim (Bool-cases (m == n)) [
    | inl f ↦
        links_from-none p cur last count (n + 1) prev m (omega (arith, equal m n f))
        ∙ sym (ap (λ i. want cur last i) (equal m n f) ∙ e)
    | inr f ↦ links_from-lists p cur last count (n + 1) prev m (later m n h f) (omega (arith, k))
  ])
]

several :
    (p : Pager)
    → 1 < last_page p (page p) (total_pages p)
    → leb (last_page p (page p) (total_pages p)) 1 ≡ false
several p h = ground (arith, h)

pub Listed : ℕ → ℕ → ℕ → Type 0
Listed cur last n = (n ≡ 1) ⊎ (n ≡ last) ⊎ ((cur ≤ n + pager_window) × (n ≤ cur + pager_window))

want-Listed : (cur last n : ℕ) → (want cur last n ≡ true) ↔ Listed cur last n
unfolding want Listed
want-Listed cur last n = ground arith

-- Where the selector has more than one page, its links follow one another from page 1 with an ellipsis
-- exactly where pages are left out, and a page of the range is listed if and only if it is the first,
-- the last, or at most two pages from the current one.
links-Listed :
    (p : Pager) (n : ℕ)
    → 1 < last_page p (page p) (total_pages p)
    → 1 ≤ n
    → n ≤ last_page p (page p) (total_pages p)
    → Spaced 0 (links p)
      × ((lists n (links p) ≡ true) ↔ Listed (page p) (last_page p (page p) (total_pages p)) n)
unfolding links
links-Listed p n h k l = rw (several p h) (
  links_from-Spaced p (page p) (last_page p (page p) (total_pages p))
      (last_page p (page p) (total_pages p)) 1 0 (omega arith) (λ z. refl),
  rw
      (links_from-lists p (page p) (last_page p (page p) (total_pages p))
        (last_page p (page p) (total_pages p)) 1 0 n k (omega (arith, l)))
      (want-Listed (page p) (last_page p (page p) (total_pages p)) n),
)
