-- ===== src/Pages/Next.antt =====
-- internal/web/pagination.go, `pagerFor` with the rows of `pageSlice`: when there is a next page.
use birdy.Common.{
  ℕ, zero, suc, [], ◌∷◌, ◌+◌, ◌≤◌, min, List, none, ◌≡◌, ap, ◌∙◌, arith, ◌↔◌, length, Text, take,
  drop,
}
use birdy.Pages.{Query, page_slice, pager_for_named, new_pager_named, next_link}
use birdy.Pages.Slices.{length-drop, page_slice-take}

length-take {ℓ} : {A : Type ℓ} (n : ℕ) (xs : List A) → length (take n xs) ≡ min n (length xs)
length-take zero xs = omega arith
length-take (suc n) [] = omega arith
length-take (suc n) (x ∷ xs) = omega (arith, length-take n xs)

-- For a listing held in memory, at an offset within the list, the pager of a page has no next link if
-- and only if the page reaches the end of the list.
next_link-none_iff {ℓ} :
    {A : Type ℓ} (path : Text) (query : Query) (param : Text) (items : List A) (offset limit : ℕ)
    → offset ≤ length items
    → (next_link (
          pager_for_named path query param offset limit
            (length (page_slice items offset limit))
            (length items))
        ≡ none)
      ↔ (length items ≤ offset + limit)
unfolding next_link pager_for_named new_pager_named
next_link-none_iff path query param items offset limit h = ground (
  arith,
  h,
  ap (λ l. length l) (page_slice-take items offset limit) ∙ length-take limit (drop offset items),
  length-drop offset items,
)
