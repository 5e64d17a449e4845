-- ===== src/Pages/Urls.antt =====
-- internal/web/pagination.go: `parsePageParamsNamed` on the query that `link` writes.
use birdy.Common.{
  ℕ, ◌-◌, ◌*◌, ◌≤◌, false, not, List, [], ◌∷◌, ◌++◌, Text, codes, text_eq, text_eq_self,
  text_eq_sound, if◌then◌else◌, Bool-cases, keep_if, inl, inr, ◌≡◌, ap, ◌∙◌, arith, max_int,
  atoi-itoa, atoi, itoa,
}
use birdy.Pages.{
  Query, query_get, query_set, Pager, link, parse_page_params_named, offset_of, limit_of,
}

abbrev others : Text → Query → Query
others key q = keep_if (λ (e : Text × List Text). not (text_eq (e.0) key)) q

query_get-append :
    (q : Query) (key value : Text) → query_get (others key q ++ (key, value ∷ []) ∷ []) key ≡ value
unfolding query_get
query_get-append [] key value = ground (arith, text_eq_self key)
query_get-append ((k, []) ∷ q) key value = ground (arith, query_get-append q key value)
query_get-append ((k, v ∷ vs) ∷ q) key value = ground (arith, query_get-append q key value)

get_other :
    (q : Query) (key value j : Text)
    → text_eq key j ≡ false
    → query_get (others key q ++ (key, value ∷ []) ∷ []) j ≡ query_get q j
unfolding query_get
get_other [] key value j h = ground (arith, h)
get_other ((k, []) ∷ q) key value j h = ground (arith, h, get_other q key value j h)
get_other ((k, v ∷ vs) ∷ q) key value j h = elim (Bool-cases (text_eq k key)) [
  | inl e ↦ ground (arith, h, e, get_other q key value j h, text_eq_sound k key e)
  | inr e ↦ ground (arith, h, e, get_other q key value j h)
]

-- The value set is the value got.
query_get-query_set : (q : Query) (key value : Text) → query_get (query_set q key value) key ≡ value
unfolding query_set
query_get-query_set q key value = query_get-append q key value

query_get-other :
    (q : Query) (key value j : Text)
    → text_eq key j ≡ false
    → query_get (query_set q key value) j ≡ query_get q j
unfolding query_set
query_get-other q key value j h = get_other q key value j h

-- The parameter of the offset.
abbrev pub offset_param : Pager → Text
offset_param p = if text_eq p.param [] then codes "offset" else p.param

offset_read : {s : Text} {n : ℕ} → n ≤ max_int → s ≡ itoa n → offset_of ((atoi s).0) ≡ n
offset_read fits e =
    ap (λ x. offset_of ((atoi x).0)) e ∙ ap (λ r. offset_of (r.0)) (atoi-itoa _ fits)

limit_read : {s : Text} {n : ℕ} → 1 ≤ n → n ≤ 500 → s ≡ itoa n → limit_of ((atoi s).0) ≡ n
limit_read low high e =
    ap (λ x. limit_of ((atoi x).0)) e
    ∙ ap (λ r. limit_of (r.0)) (atoi-itoa _ (omega (arith, high)))
    ∙ ground (arith, low, high)

-- The request for page n of a pager is read as the offset (n - 1) * limit and the pager's limit, when
-- the limit is from 1 to 500, the offset fits an `int` and the offset's parameter is not `limit`.
pub parse_page_params_named-link :
    (p : Pager) (n : ℕ)
    → 1 ≤ p.limit
    → p.limit ≤ 500
    → (n - 1) * p.limit ≤ max_int
    → text_eq (codes "limit") (offset_param p) ≡ false
    → parse_page_params_named ((link p n).1) (offset_param p) ≡ ((n - 1) * p.limit, p.limit)
unfolding parse_page_params_named link
parse_page_params_named-link p n low high fits other =
    let param = offset_param p in
    let start = query_set p.query param (itoa ((n - 1) * p.limit)) in
    let first =
      query_get-other start (codes "limit") (itoa p.limit) param other
      ∙ query_get-query_set p.query param (itoa ((n - 1) * p.limit)) in
    let second = query_get-query_set start (codes "limit") (itoa p.limit) in
    λ i. (offset_read fits first i, limit_read low high second i)
