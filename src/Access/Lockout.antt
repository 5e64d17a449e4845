-- ===== src/Access/Lockout.antt =====
-- internal/web/access.go: which addresses the limiter locks out, and for how long.
use birdy.Common.{
  ℕ, ◌+◌, ◌-◌, ◌≤◌, ◌<◌, Bool, true, false, List, [], ◌∷◌, Option, none, some, ◌≡◌, refl, sym, ◌∙◌,
  arith, inl, inr, Bool-cases, Text, text_eq, text_eq_self, text_eq_sound, ltb, length, keep_if,
  look, put, remove, if◌then◌else◌, All, All-keep_if,
}
use mathlib.Core.Path.{subst}
use birdy.Access.{
  AttemptRecord, Attempts, LoginLimiter, new_login_limiter, is_fresh, oldest_from, evict, prune,
  blocked, fail, reset, Call, asked, failed, cleared, limiter_step, limiter_run, started, counted,
  is_locked, max_login_limiter_entries,
}

same_record :
    (j k : Text) (u v : AttemptRecord) (m : Attempts)
    → text_eq j k ≡ true
    → look k ((j, u) ∷ m) ≡ some v
    → u ≡ v
unfolding look
same_record j k u v m q e = ground (arith, e, q)

module _ {ℓ} (P : Text × AttemptRecord → Type ℓ) where
  All-if :
      (b : Bool) (xs ys : Attempts)
      → (b ≡ true → All P xs)
      → (b ≡ false → All P ys)
      → All P (if b then xs else ys)
  All-if true xs ys h k = h refl
  All-if false xs ys h k = k refl

  All-remove : (k : Text) (m : Attempts) → All P m → All P (remove k m)
  unfolding remove
  All-remove k [] h = h
  All-remove k ((j, v) ∷ m) (h, hs) =
      All-if (text_eq j k) _ _ (λ e. All-remove k m hs) (λ e. (h, All-remove k m hs))

  All-put : (k : Text) (v : AttemptRecord) (m : Attempts) → P (k, v) → All P m → All P (put k v m)
  unfolding put
  All-put k v [] h hs = (h, tt)
  All-put k v ((j, u) ∷ m) h (h', hs) =
      All-if (text_eq j k) _ _ (λ e. (subst (λ x. P (x, v)) (sym (text_eq_sound j k e)) h, hs))
        (λ e. (h', All-put k v m h hs))

  All-evict : (m : Attempts) → All P m → All P (evict m)
  unfolding evict
  All-evict m h =
      All-if (ltb (length m) max_login_limiter_entries) _ _ (λ e. h)
        (λ e. All-remove (oldest_from [] 0 m) m h)

  All-prune : (window now : ℕ) (m : Attempts) → All P m → All P (prune window now m)
  unfolding prune
  All-prune window now m h =
      All-evict (keep_if (is_fresh window now) m) (All-keep_if P (is_fresh window now) m h)

  All-look : (k : Text) (m : Attempts) (v : AttemptRecord) → All P m → look k m ≡ some v → P (k, v)
  unfolding look
  All-look k [] v h e = cc
  All-look k ((j, u) ∷ m) v (h, hs) e = elim (Bool-cases (text_eq j k)) [
    | inl q ↦ subst P (λ i. (text_eq_sound j k q i, same_record j k u v m q e i)) h
    | inr q ↦ All-look k m v hs (ground (arith, e, q))
  ]

-- The failures of an address among the calls.
abbrev pub failure : Text → Call → ℕ
failure ip (asked j now later) = 0
failure ip (failed j now) = if text_eq j ip then 1 else 0
failure ip (cleared j) = 0

abbrev pub failures : Text → List Call → ℕ
failures ip [] = 0
failures ip (c ∷ cs) = failure ip c + failures ip cs

-- A record of the address counts n failures at most, and is not locked before it counts enough.
Few : Text → ℕ → ℕ → Text × AttemptRecord → Type 0
Few ip most n (j, rec) = text_eq j ip ≡ true → (rec.count ≤ n) × (rec.count < most → rec.until ≡ 0)

All-Few :
    (ip : Text) (most n n' : ℕ) (m : Attempts)
    → n ≤ n'
    → All (Few ip most n) m
    → All (Few ip most n') m
unfolding Few
All-Few ip most n n' [] le h = tt
All-Few ip most n n' ((j, rec) ∷ m) le (h, hs) =
    (λ e. (omega (arith, le, (h e).0), (h e).1), All-Few ip most n n' m le hs)

Few-counted :
    (l : LoginLimiter) (ip j : Text) (n now : ℕ) (o : Option AttemptRecord)
    → ((v : AttemptRecord) → o ≡ some v → Few ip l.max n (j, v))
    → Few ip l.max
        (failure ip (failed j now) + n)
        (j, counted l.max l.lockout now (started l.window now o))
unfolding Few
Few-counted l ip j n now none h e = ground (arith, e)
Few-counted l ip j n now (some v) h e =
    let few = h v refl e in
    elim (Bool-cases (ltb l.window (now - v.first))) [
      | inl q ↦ (ground (arith, e, q), λ lt. ground (arith, q, lt))
      | inr q ↦
          (ground (arith, e, q, few.0), λ lt. ground (arith, q, lt, few.1 (ground (arith, q, lt))))
    ]

Few-step :
    (l : LoginLimiter) (ip : Text) (n : ℕ) (c : Call)
    → All (Few ip l.max n) l.by_ip
    → All (Few ip l.max (failure ip c + n)) ((limiter_step l c).by_ip)
unfolding limiter_step blocked fail reset
Few-step l ip n (asked j now later) h =
    All-Few ip l.max n (0 + n) (prune l.window now l.by_ip) (omega arith)
      (All-prune (Few ip l.max n) l.window now l.by_ip h)
Few-step l ip n (failed j now) h =
    let m = prune l.window now l.by_ip in
    let kept = All-prune (Few ip l.max n) l.window now l.by_ip h in
    let n' = failure ip (failed j now) + n in
    All-put (Few ip l.max n') j (counted l.max l.lockout now (started l.window now (look j m))) m
      (Few-counted l ip j n now (look j m) (λ v. All-look (Few ip l.max n) j m v kept))
      (All-Few ip l.max n n' m (omega arith) kept)
Few-step l ip n (cleared j) h =
    All-Few ip l.max n (0 + n) (remove j l.by_ip) (omega arith)
      (All-remove (Few ip l.max n) j l.by_ip h)

limiter_step-max : (l : LoginLimiter) (c : Call) → (limiter_step l c).max ≡ l.max
unfolding limiter_step blocked fail reset
limiter_step-max l (asked ip now later) = refl
limiter_step-max l (failed ip now) = refl
limiter_step-max l (cleared ip) = refl

Few-run :
    (l : LoginLimiter) (ip : Text) (most n : ℕ) (cs : List Call)
    → l.max ≡ most
    → All (Few ip most n) l.by_ip
    → All (Few ip most (failures ip cs + n)) ((limiter_run l cs).by_ip)
unfolding limiter_run
Few-run l ip most n [] e h = All-Few ip most n (0 + n) l.by_ip (omega arith) h
Few-run l ip most n (c ∷ cs) e h =
    let l' = limiter_step l c in
    let first_step = Few-step l ip n c (subst (λ k. All (Few ip k n) l.by_ip) (sym e) h) in
    let counted = subst (λ k. All (Few ip k (failure ip c + n)) (l'.by_ip)) e first_step in
    All-Few ip most (failures ip cs + (failure ip c + n)) (failure ip c + failures ip cs + n)
      ((limiter_run l' cs).by_ip) (omega arith)
      (Few-run l' ip most (failure ip c + n) cs (limiter_step-max l c ∙ e) counted)

not_yet_locked :
    (ip : Text) (most n later : ℕ) (v : AttemptRecord)
    → n < most
    → Few ip most n (ip, v)
    → is_locked later (some v) ≡ false
unfolding Few
not_yet_locked ip most n later v h few =
    let known = few (text_eq_self ip) in ground (arith, known.1 (omega (arith, h, known.0)))

is_locked-Few :
    (ip : Text) (most n later : ℕ) (o : Option AttemptRecord)
    → n < most
    → ((v : AttemptRecord) → o ≡ some v → Few ip most n (ip, v))
    → is_locked later o ≡ false
is_locked-Few ip most n later none h few = refl
is_locked-Few ip most n later (some v) h few = not_yet_locked ip most n later v h (few v refl)

-- An address that failed fewer than five times is not locked out, whatever the calls for others.
pub blocked-few :
    (cs : List Call) (ip : Text) (now later : ℕ)
    → failures ip cs < 5
    → (blocked (limiter_run new_login_limiter cs) ip now later).0 ≡ false
unfolding blocked new_login_limiter
blocked-few cs ip now later h =
    let l = limiter_run new_login_limiter cs in
    let m = prune l.window now l.by_ip in
    let n = failures ip cs + 0 in
    is_locked-Few ip 5 n later (look ip m) (omega (arith, h)) (λ v.
      All-look (Few ip 5 n) ip m v
        (All-prune (Few ip 5 n) l.window now l.by_ip (Few-run new_login_limiter ip 5 0 cs refl tt)))
