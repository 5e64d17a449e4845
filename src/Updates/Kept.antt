-- ===== src/Updates/Kept.antt =====
-- internal/updatecheck/updatecheck.go, `Check`: GitHub is not asked again too soon.
use birdy.Common.{
  ◌<◌, ◌+◌, ◌-◌, ◌∙◌, ◌⊎◌, inl, inr, Bool-cases, arith, sym, min, ltb, pos, ℕ, Bool, true, false,
  not, Option, none, some, Text, if◌then◌else◌, ◌≡◌, refl, ap, look, look-put,
}
use mathlib.Core.Path.{subst}
use birdy.Updates.{
  Result, Client, check, valid_channel, is_current, fetched, from_cache, ttl_of, negative_ttl,
  cache_key, check_cached,
}

-- The client that a check leaves holds what it gave.
abbrev Holds : Text → Result × Client × Bool → Type 0
Holds key (r, c, asked) = look key c.cache ≡ some r

Holds-if :
    (b : Bool) (key : Text) (x y : Result × Client × Bool)
    → Holds key x
    → Holds key y
    → Holds key (if b then x else y)
Holds-if true key x y h k = h
Holds-if false key x y h k = k

Holds-from_cache :
    (c : Client) (now : ℕ) (key : Text) (r : Result) (o : Option Result)
    → look key c.cache ≡ o
    → Holds key (from_cache c now key r o)
Holds-from_cache c now key r none e = look-put key r c.cache
Holds-from_cache c now key r (some cached) e =
    Holds-if (is_current c now cached) key (cached, c, false) (fetched c key r) e
      (look-put key r c.cache)

abbrev given_if : Bool → Result × Client × Bool → Option (Result × Client × Bool)
given_if b y = if not b then none else some y

given_if-some :
    (b : Bool) (x y : Result × Client × Bool) → given_if b y ≡ some x → (b ≡ true) × (y ≡ x)
given_if-some true x y e = (refl, ap (λ o. elim o [ none ↦ y | some z ↦ z ]) e)
given_if-some false x y e = cc

check_cached-Holds :
    (c : Client) (channel version commit : Text) (now : ℕ) (reply : Option (Text × Text))
    (x : Result × Client × Bool)
    → check_cached c channel version commit now reply ≡ some x
    → (valid_channel channel ≡ true) × Holds (cache_key channel version commit) x
unfolding check_cached
check_cached-Holds c channel version commit now reply x e =
    let key = cache_key channel version commit in
    let r = check channel version commit now reply in
    let given =
      given_if-some (valid_channel channel) x (from_cache c now key r (look key c.cache)) e in
    (given.0, subst (Holds key) (given.1) (Holds-from_cache c now key r (look key c.cache) refl))

-- The time to live that a client is set to, in nanoseconds: 15 minutes if it is not set.
abbrev pub IsTtl : Client → ℕ → Type 0
IsTtl c life = (0 < life) × ((c.ttl ≡ pos life) ⊎ (c.ttl ≡ pos 0) × (life ≡ 900000000000))

-- How long a result is kept: a failure two minutes at most.
abbrev pub lifetime : ℕ → Bool → ℕ
lifetime life true = life
lifetime life false = min life 120000000000

ttl_of-IsTtl : (c : Client) (life : ℕ) → IsTtl c life → ttl_of c ≡ life
unfolding ttl_of
ttl_of-IsTtl c life (some_time, inl e) = rw e (ground (arith, some_time))
ttl_of-IsTtl c life (some_time, inr (e, f)) = rw e (sym f)

is_current-lifetime :
    (c : Client) (life later : ℕ) (r : Result)
    → IsTtl c life
    → is_current c later r ≡ ltb later (r.checked_at + lifetime life r.succeeded)
unfolding is_current negative_ttl
is_current-lifetime c life later r h = by_outcome r.succeeded
  where
    by_outcome :
        (b : Bool)
        → ltb (later - r.checked_at) (if b then ttl_of c else negative_ttl c)
          ≡ ltb later (r.checked_at + lifetime life b)
    by_outcome true = rw (ttl_of-IsTtl c life h) (ground (arith, h.0))
    by_outcome false = rw (ttl_of-IsTtl c life h) (ground (arith, h.0))

ttl-from_cache :
    (c : Client) (now : ℕ) (key : Text) (r : Result) (o : Option Result)
    → (from_cache c now key r o).1.ttl ≡ c.ttl
ttl-from_cache c now key r none = refl
ttl-from_cache c now key r (some cached) = elim (Bool-cases (is_current c now cached)) [
  | inl e ↦ rw e refl
  | inr e ↦ rw e refl
]

-- A check of a build that follows another one gives the result of the first again and asks nothing as long
-- as that result is younger than the client's TTL (15 minutes if none is set), or, if it is a failure, than
-- two minutes at most; later it asks GitHub again. The TTL is not negative.
pub check_cached-again :
    (c c' : Client) (channel version commit : Text) (now later life : ℕ)
    (reply reply' : Option (Text × Text)) (r : Result) (asked : Bool)
    → check_cached c channel version commit now reply ≡ some (r, c', asked)
    → IsTtl c life
    → check_cached c' channel version commit later reply'
      ≡ some (
          if ltb later (r.checked_at + lifetime life r.succeeded)
          then (r, c', false)
          else fetched c'
              (cache_key channel version commit)
              (check channel version commit later reply'))
unfolding check_cached
check_cached-again c c' channel version commit now later life reply reply' r asked e t =
    let key = cache_key channel version commit in
    let held = check_cached-Holds c channel version commit now reply (r, c', asked) e in
    let given =
      given_if-some (valid_channel channel) (r, c', asked)
        (from_cache c now key (check channel version commit now reply) (look key c.cache)) e in
    let kept =
      ap (λ (x : Result × Client × Bool). x.1.ttl) (sym (given.1))
      ∙ ttl-from_cache c now key (check channel version commit now reply) (look key c.cache) in
    rw (held.0, held.1)
      (ap
        (λ b. some (
          if b then (r, c', false) else fetched c' key (check channel version commit later reply')))
        (is_current-lifetime c' life later r
          (t.0, elim t.1 [ inl p ↦ inl (kept ∙ p) | inr p ↦ inr (kept ∙ p.0, p.1) ])))
