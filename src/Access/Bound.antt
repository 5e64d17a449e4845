-- ===== src/Access/Bound.antt =====
-- internal/web/access.go: what the limiter's records are, after any calls.
use birdy.Common.{
  ℕ, suc, ◌≤◌, ◌<◌, Bool, true, false, ◌||◌, List, [], ◌∷◌, ◌≡◌, refl, ◌⊎◌, arith, inl, inr,
  Bool-cases, Text, text_eq, text_eq_self, ltb, length, keep_if, look, put, remove,
}
use birdy.Access.{
  Attempts, LoginLimiter, new_login_limiter, is_fresh, oldest_from, evict, prune, blocked, fail,
  reset, Call, asked, failed, cleared, limiter_step, limiter_run, started, counted,
  max_login_limiter_entries,
}

pub length-keep_if {ℓ} :
    {A : Type ℓ} (p : A → Bool) (xs : List A) → length (keep_if p xs) ≤ length xs
length-keep_if p [] = omega arith
length-keep_if p (x ∷ xs) = ground (arith, length-keep_if p xs)

pub length-remove {ℓ} :
    {A : Type ℓ} (k : Text) (m : List (Text × A)) → length (remove k m) ≤ length m
unfolding remove
length-remove k [] = omega arith
length-remove k ((j, v) ∷ m) = ground (arith, length-remove k m)

pub length-put {ℓ} :
    {A : Type ℓ} (k : Text) (v : A) (m : List (Text × A)) → length (put k v m) ≤ suc (length m)
unfolding put
length-put k v [] = omega arith
length-put k v ((j, u) ∷ m) = ground (arith, length-put k v m)

-- A key is among those of a map.
has_key : Text → Attempts → Bool
has_key k [] = false
has_key k ((j, v) ∷ m) = text_eq j k || has_key k m

length-remove-present :
    (k : Text) (m : Attempts) → has_key k m ≡ true → length (remove k m) < length m
unfolding has_key remove
length-remove-present k [] h = ground arith
length-remove-present k ((j, v) ∷ m) h = elim (Bool-cases (text_eq j k)) [
  | inl e ↦ ground (arith, e, length-remove k m)
  | inr e ↦ ground (arith, e, h, length-remove-present k m)
]

-- The address found is the one before or one of the map.
oldest_from-key :
    (ip : Text) (t : ℕ) (m : Attempts)
    → (oldest_from ip t m ≡ ip) ⊎ (has_key (oldest_from ip t m) m ≡ true)
unfolding oldest_from has_key
oldest_from-key ip t [] = inl refl
oldest_from-key ip t ((j, rec) ∷ m) = elim (Bool-cases (text_eq ip [] || ltb rec.first t)) [
  | inl e ↦ ground (arith, e, text_eq_self j, oldest_from-key j rec.first m)
  | inr e ↦ ground (arith, e, oldest_from-key ip t m)
]

oldest_from-present : (m : Attempts) → 0 < length m → has_key (oldest_from [] 0 m) m ≡ true
unfolding oldest_from has_key text_eq
oldest_from-present [] h = ground (arith, h)
oldest_from-present ((j, rec) ∷ m) h = ground (arith, text_eq_self j, oldest_from-key j rec.first m)

length-evict :
    (m : Attempts)
    → length m ≤ max_login_limiter_entries
    → length (evict m) < max_login_limiter_entries
unfolding evict
length-evict m h = elim (Bool-cases (ltb (length m) max_login_limiter_entries)) [
  | inl e ↦ ground (arith, e)
  | inr e ↦ ground (
    arith,
    e,
    h,
    length-remove-present (oldest_from [] 0 m) m (oldest_from-present m (ground (arith, e))),
  )
]

length-prune :
    (window now : ℕ) (m : Attempts)
    → length m ≤ max_login_limiter_entries
    → length (prune window now m) < max_login_limiter_entries
unfolding prune
length-prune window now m h =
    length-evict (keep_if (is_fresh window now) m)
      (omega (arith, h, length-keep_if (is_fresh window now) m))

length-limiter_step :
    (l : LoginLimiter) (c : Call)
    → length l.by_ip ≤ max_login_limiter_entries
    → length ((limiter_step l c).by_ip) ≤ max_login_limiter_entries
unfolding limiter_step blocked fail reset
length-limiter_step l (asked ip now later) h = omega (arith, length-prune l.window now l.by_ip h)
length-limiter_step l (failed ip now) h =
    let m = prune l.window now l.by_ip in
    let rec = counted l.max l.lockout now (started l.window now (look ip m)) in
    omega (arith, length-prune l.window now l.by_ip h, length-put ip rec m)
length-limiter_step l (cleared ip) h = omega (arith, h, length-remove ip l.by_ip)

length-limiter_run :
    (l : LoginLimiter) (cs : List Call)
    → length l.by_ip ≤ max_login_limiter_entries
    → length ((limiter_run l cs).by_ip) ≤ max_login_limiter_entries
unfolding limiter_run
length-limiter_run l [] h = h
length-limiter_run l (c ∷ cs) h =
    length-limiter_run (limiter_step l c) cs (length-limiter_step l c h)

-- The limiter never holds more than 4096 records, whatever logins fail and from wherever.
pub limiter_run-length :
    (cs : List Call) → length ((limiter_run new_login_limiter cs).by_ip) ≤ max_login_limiter_entries
unfolding new_login_limiter
limiter_run-length cs = length-limiter_run new_login_limiter cs (omega arith)
