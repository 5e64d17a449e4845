-- ===== src/Access/Locked.antt =====
-- internal/web/access.go: an address that keeps failing is locked out.
use birdy.Common.{
  look-put, ℕ, suc, ◌+◌, ◌≤◌, ◌<◌, true, List, [], ◌∷◌, Option, none, some, ◌≡◌, refl, sym, ap, ◌∙◌,
  arith, Text, length, keep_if, look, put, All,
}
use birdy.Access.{
  AttemptRecord, Attempts, LoginLimiter, minutes, new_login_limiter, is_fresh, evict, prune,
  blocked, fail, reset, Call, asked, failed, cleared, limiter_step, limiter_run, started, counted,
  is_locked, max_login_limiter_entries,
}
use birdy.Access.Bound.{length-keep_if, length-put}
use birdy.Access.Counting.{
  Counts, Counts-counted, Counts-same, Counts-run, Timely, look-keep_if, look-prune, evict-below,
  length-prune_below,
}
use birdy.Access.Lockout.{failures}

settings : LoginLimiter → ℕ × ℕ × ℕ
settings l = (l.max, l.window, l.lockout)

settings-limiter_run :
    (l : LoginLimiter) (cs : List Call) → settings (limiter_run l cs) ≡ settings l
unfolding settings limiter_run limiter_step blocked fail reset
settings-limiter_run l [] = refl
settings-limiter_run l (asked ip now later ∷ cs) =
    settings-limiter_run (limiter_step l (asked ip now later)) cs
settings-limiter_run l (failed ip now ∷ cs) =
    settings-limiter_run (limiter_step l (failed ip now)) cs
settings-limiter_run l (cleared ip ∷ cs) = settings-limiter_run (limiter_step l (cleared ip)) cs

is_locked-until :
    (later : ℕ) (o : Option AttemptRecord) (rec : AttemptRecord)
    → o ≡ some rec
    → later < rec.until
    → is_locked later o ≡ true
is_locked-until later none rec e h = cc
is_locked-until later (some v) rec e h = ground (arith, e, h)

fresh_until :
    (window now : ℕ) (k : Text) (rec v : AttemptRecord)
    → now < rec.until
    → some rec ≡ some v
    → is_fresh window now (k, v) ≡ true
unfolding is_fresh
fresh_until window now k rec v h e = ground (arith, h, e)

-- A locked record survives `prune` while there is room.
prune-locked :
    (window now later : ℕ) (k : Text) (m : Attempts) (rec : AttemptRecord)
    → look k m ≡ some rec
    → length m < max_login_limiter_entries
    → now ≤ later
    → later < rec.until
    → is_locked later (look k (prune window now m)) ≡ true
unfolding prune
prune-locked window now later k m rec found room le h =
    is_locked-until later (look k (evict (keep_if (is_fresh window now) m))) rec
      (ap (look k) (
          evict-below (keep_if (is_fresh window now) m)
            (omega (arith, room, length-keep_if (is_fresh window now) m)))
        ∙ look-keep_if window now k m
            (λ v e. fresh_until window now k rec v (omega (arith, le, h)) (sym found ∙ e))
        ∙ found)
      h

locked_record :
    (l : LoginLimiter) (start n t : ℕ) (o : Option AttemptRecord)
    → Counts start n o
    → start ≤ t
    → t ≤ start + l.window
    → l.max ≤ suc n
    → (counted l.max l.lockout t (started l.window t o)).until ≡ t + l.lockout
locked_record l start n t o h low high enough =
    let known = Counts-counted l start n t o h low high in ground (arith, known.0, enough)

blocked-fail :
    (l : LoginLimiter) (start n t now later : ℕ) (ip : Text)
    → Counts start n (look ip l.by_ip)
    → suc (length l.by_ip) < max_login_limiter_entries
    → start ≤ t
    → t ≤ start + l.window
    → l.max ≤ suc n
    → now ≤ later
    → later < t + l.lockout
    → (blocked (fail l ip t) ip now later).0 ≡ true
unfolding blocked fail
blocked-fail l start n t now later ip h room low high enough le before =
    let m = prune l.window t l.by_ip in
    let rec = counted l.max l.lockout t (started l.window t (look ip m)) in
    let counts =
      Counts-same start _ _ _ _ refl
        (sym (look-prune start n l.window t ip l.by_ip h high (omega (arith, room)))) h in
    let until = locked_record l start n t (look ip m) counts low high enough in
    prune-locked l.window now later ip (put ip rec m) rec (look-put ip rec m)
      (omega (
        arith,
        room,
        length-put ip rec m,
        length-prune_below l.window t l.by_ip (omega (arith, room)),
      ))
      le (omega (arith, before, until))

-- From a fresh limiter, an address is locked out for five minutes from its fifth failure, when every failure
-- so far, of whatever address, and this one lie in the same fifteen minutes, no question so far comes after
-- these, no login from the address has succeeded, and the limiter has been called fewer than 4095 times.
pub blocked-failures :
    (cs : List Call) (ip : Text) (start t now later : ℕ)
    → All (Timely start (minutes 15) ip) cs
    → 4 ≤ failures ip cs
    → length cs < 4095
    → start ≤ t
    → t ≤ start + minutes 15
    → now ≤ later
    → later < t + minutes 5
    → (blocked (fail (limiter_run new_login_limiter cs) ip t) ip now later).0 ≡ true
unfolding new_login_limiter settings look
blocked-failures cs ip start t now later timely enough few low high le before =
    let l = limiter_run new_login_limiter cs in
    let same = settings-limiter_run new_login_limiter cs in
    let known =
      Counts-run new_login_limiter start 0 (minutes 15) ip cs refl refl (omega (arith, few))
        timely in
    blocked-fail l start (failures ip cs + 0) t now later ip (known.0) (omega (arith, known.1, few))
      low (omega (arith, high, ap (λ s. s.1) same)) (omega (arith, enough, ap (λ s. s.0) same)) le
      (omega (arith, before, ap (λ s. s.2) same))
