-- ===== src/Pages.antt =====
-- internal/web/pagination.go: the pages of a listing and the controls that move between them. A query
-- is its keys with their values; its encoding into a URL is `net/url`'s. A route listing of unknown
-- total has the total `none` (the source's -1).
use birdy.Common.{
  ℕ, zero, suc, ◌+◌, ◌-◌, ◌*◌, ◌/◌, ◌≤◌, ◌<◌, min, max, Bool, true, false, not, ◌&&◌, ◌||◌, List,
  [], ◌∷◌, ◌++◌, Option, none, some, Text, codes, text_eq, if◌then◌else◌, ◌==◌, leb, ltb, length,
  take, drop, ℤ, pos, negsuc, itoa, atoi, keep_if,
}
pub mod Slices
pub mod Next
pub mod Links
pub mod Urls

abbrev pub Query : Type 0
Query = List (Text × List Text)

-- `url.Values.Get`
pub query_get : Query → Text → Text
query_get [] key = []
query_get ((k, []) ∷ q) key = query_get q key
query_get ((k, v ∷ vs) ∷ q) key = if text_eq k key then v else query_get q key

-- `url.Values.Set`
pub query_set : Query → Text → Text → Query
query_set q key value =
    keep_if (λ (e : Text × List Text). not (text_eq (e.0) key)) q ++ (key, value ∷ []) ∷ []

abbrev default_page_size : ℕ
default_page_size = 50

abbrev pub offset_of : ℤ → ℕ
offset_of (pos n) = n
offset_of (negsuc n) = 0

abbrev pub limit_of : ℤ → ℕ
limit_of (pos n) = if n == 0 || ltb 500 n then default_page_size else n
limit_of (negsuc n) = default_page_size

pub parse_page_params_named : Query → Text → ℕ × ℕ
unfolding query_get atoi
parse_page_params_named q param =
    (offset_of ((atoi (query_get q param)).0), limit_of ((atoi (query_get q (codes "limit"))).0))

parse_page_params : Query → ℕ × ℕ
unfolding parse_page_params_named
parse_page_params q = parse_page_params_named q (codes "offset")

pub record Pager : Type 0 where
  pub offset : ℕ
  pub limit : ℕ
  pub shown : ℕ
  pub total : Option ℕ
  pub has_more : Bool
  pub path : Text
  pub param : Text
  pub query : Query

pub new_pager_named : Text → Query → Text → ℕ → ℕ → ℕ → Option ℕ → Bool → Pager
new_pager_named path query param offset limit shown total has_more = record {
  offset = offset;
  limit = limit;
  shown = shown;
  total = total;
  has_more = has_more;
  path = path;
  param = param;
  query = keep_if (λ (e : Text × List Text). not (text_eq (e.0) param)) query;
}

pub pager_for_named : Text → Query → Text → ℕ → ℕ → ℕ → ℕ → Pager
unfolding new_pager_named
pager_for_named path query param offset limit shown total =
    new_pager_named path query param offset limit shown (some total) (ltb (offset + shown) total)

pub page_slice {ℓ} : {A : Type ℓ} → List A → ℕ → ℕ → List A
page_slice items offset limit =
    if leb (length items) offset
    then []
    else take (min (offset + limit) (length items) - offset) (drop offset items)

abbrev over : ℕ → Option ℕ → Bool
over limit none = false
over limit (some total) = ltb 0 total && ltb limit total

-- `Show`
unfoldable pub show : Pager → Bool
show p = ltb 0 p.offset || p.has_more || over p.limit p.total

first_row : Pager → ℕ
first_row p = if p.shown == 0 then 0 else p.offset + 1

last_row : Pager → ℕ
last_row p = if p.shown == 0 then 0 else p.offset + p.shown

pub page : Pager → ℕ
page p = if p.limit == 0 then 1 else p.offset / p.limit + 1

abbrev pub pages_of : ℕ → Option ℕ → ℕ
pages_of limit none = 0
pages_of limit (some total) = if limit == 0 then 0 else max 1 ((total + limit - 1) / limit)

pub total_pages : Pager → ℕ
total_pages p = pages_of p.limit p.total

-- `link`: the path and the query of the URL of a page.
pub link : Pager → ℕ → Text × Query
unfolding query_set itoa
link p n =
    let param = if text_eq p.param [] then codes "offset" else p.param in
    (
      p.path,
      query_set (query_set p.query param (itoa ((n - 1) * p.limit))) (codes "limit") (itoa p.limit),
    )

prev_link : Pager → Option (Text × Query)
unfolding page link
prev_link p = if leb (page p) 1 then none else some (link p (page p - 1))

pub next_link : Pager → Option (Text × Query)
unfolding page link
next_link p = if not p.has_more then none else some (link p (page p + 1))

abbrev pub pager_window : ℕ
pager_window = 2

-- `PageLink`: the label of a numbered page is its number.
pub data PageLink : Type 0 where
  numbered : ℕ → (Text × Query) → Bool → PageLink
  ellipsis : PageLink

-- `want`: the pages listed, of those from 1 to the last.
pub want : ℕ → ℕ → ℕ → Bool
want cur last n =
    n == 1
    || n == last
    || n == cur
    || (ltb (cur - n) (pager_window + 1) && ltb (n - cur) (pager_window + 1))

-- The loop of `Links`: `count` pages from n on, after the listed page `prev`, 0 for none.
pub links_from : Pager → ℕ → ℕ → ℕ → ℕ → ℕ → List PageLink
unfolding want link
links_from p cur last zero n prev = []
links_from p cur last (suc count) n prev =
    if not (want cur last n)
    then links_from p cur last count (n + 1) prev
    else (if not (prev == 0) && not (n == prev + 1) then ellipsis ∷ [] else [])
      ++ numbered n (link p n) (n == cur) ∷ links_from p cur last count (n + 1) n

abbrev pub last_page : Pager → ℕ → ℕ → ℕ
last_page p cur zero = if p.has_more then cur + 1 else cur
last_page p cur (suc n) = suc n

pub links : Pager → List PageLink
unfolding page total_pages links_from
links p =
    let cur = page p in
    let last = last_page p cur (total_pages p) in
    if leb last 1 then [] else links_from p cur last last 1 0
