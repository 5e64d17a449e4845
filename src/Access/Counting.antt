-- ===== src/Access/Counting.antt =====
-- internal/web/access.go: the record of an address while it keeps failing.
use birdy.Common.{
  look-put, ℕ, suc, ◌+◌, ◌≤◌, ◌<◌, true, false, List, [], ◌∷◌, Option, none, some, ◌≡◌, refl, sym,
  ap, ◌∙◌, arith, inl, inr, Bool-cases, Text, text_eq, text_eq_sound, length, keep_if, look, put,
  remove, All,
}
use mathlib.Core.Path.{subst}
use birdy.Access.{
  AttemptRecord, Attempts, LoginLimiter, is_fresh, evict, prune, blocked, fail, reset, Call, asked,
  failed, cleared, limiter_step, limiter_run, started, counted, max_login_limiter_entries,
}
use birdy.Access.Bound.{length-keep_if, length-put, length-remove}
use birdy.Access.Lockout.{failure, failures}

look-put_other :
    (j k : Text) (v : AttemptRecord) (m : Attempts)
    → text_eq j k ≡ false
    → look k (put j v m) ≡ look k m
unfolding look put
look-put_other j k v [] h = ground (arith, h)
look-put_other j k v ((i, u) ∷ m) h = elim (Bool-cases (text_eq i j)) [
  | inl e ↦ ground (arith, e, h, text_eq_sound i j e)
  | inr e ↦ ground (arith, e, h, look-put_other j k v m h)
]

look-remove_other :
    (j k : Text) (m : Attempts) → text_eq j k ≡ false → look k (remove j m) ≡ look k m
unfolding look remove
look-remove_other j k [] h = refl
look-remove_other j k ((i, u) ∷ m) h = elim (Bool-cases (text_eq i j)) [
  | inl e ↦ ground (arith, e, h, text_eq_sound i j e, look-remove_other j k m h)
  | inr e ↦ ground (arith, e, h, look-remove_other j k m h)
]

-- A record that counts n failures at least, all of them from a time on; without failures there may be
-- none.
abbrev pub Counts : ℕ → ℕ → Option AttemptRecord → Type 0
Counts start n none = n ≡ 0
Counts start n (some rec) = (n ≤ rec.count) × (start ≤ rec.first)

pub look-keep_if :
    (window now : ℕ) (k : Text) (m : Attempts)
    → ((v : AttemptRecord) → look k m ≡ some v → is_fresh window now (k, v) ≡ true)
    → look k (keep_if (is_fresh window now) m) ≡ look k m
unfolding look is_fresh
look-keep_if window now k [] h = refl
look-keep_if window now k ((j, rec) ∷ m) h = elim (Bool-cases (text_eq j k)) [
  | inl e ↦ ground (arith, e, h rec (ground (arith, e)))
  | inr e ↦ ground (arith, e, look-keep_if window now k m (λ v q. h v (ground (arith, e, q))))
]

Counts-fresh :
    (start n window now : ℕ) (k : Text) (o : Option AttemptRecord)
    → Counts start n o
    → now ≤ start + window
    → (v : AttemptRecord) → o ≡ some v
    → is_fresh window now (k, v) ≡ true
unfolding is_fresh
Counts-fresh start n window now k none h le v e = cc
Counts-fresh start n window now k (some rec) h le v e = ground (arith, e, le, h.1)

pub evict-below : (m : Attempts) → length m < max_login_limiter_entries → evict m ≡ m
unfolding evict
evict-below m h = ground (arith, h)

pub look-prune :
    (start n window now : ℕ) (k : Text) (m : Attempts)
    → Counts start n (look k m)
    → now ≤ start + window
    → length m < max_login_limiter_entries
    → look k (prune window now m) ≡ look k m
unfolding prune
look-prune start n window now k m h le room =
    ap (look k) (
      evict-below (keep_if (is_fresh window now) m)
        (omega (arith, room, length-keep_if (is_fresh window now) m)))
    ∙ look-keep_if window now k m (Counts-fresh start n window now k (look k m) h le)

pub length-prune_below :
    (window now : ℕ) (m : Attempts)
    → length m < max_login_limiter_entries
    → length (prune window now m) ≤ length m
unfolding prune
length-prune_below window now m room =
    let less = length-keep_if (is_fresh window now) m in
    let same = evict-below (keep_if (is_fresh window now) m) (omega (arith, room, less)) in
    rw same less

-- The calls of a stretch of time, of which none clears the address.
unfoldable pub Timely : ℕ → ℕ → Text → Call → Type 0
Timely start window ip (asked j now later) = now ≤ start + window
Timely start window ip (failed j now) = (start ≤ now) × (now ≤ start + window)
Timely start window ip (cleared j) = text_eq j ip ≡ false

-- A failure counts in the record of its address.
pub Counts-counted :
    (l : LoginLimiter) (start n now : ℕ) (o : Option AttemptRecord)
    → Counts start n o
    → start ≤ now
    → now ≤ start + l.window
    → Counts start (suc n) (some (counted l.max l.lockout now (started l.window now o)))
Counts-counted l start n now none h low high = (omega (arith, h), low)
Counts-counted l start n now (some rec) (h, from) low high =
    (ground (arith, h, from, low, high), ground (arith, h, from, low, high))

pub Counts-same :
    (start n n' : ℕ) (o o' : Option AttemptRecord)
    → n ≡ n'
    → o ≡ o'
    → Counts start n o
    → Counts start n' o'
Counts-same start n n' o o' p q = subst (λ x. x) (λ i. Counts start (p i) (q i))

Counts-failed :
    (l : LoginLimiter) (start n now : ℕ) (ip j : Text) (m : Attempts)
    → Counts start n (look ip m)
    → start ≤ now
    → now ≤ start + l.window
    → Counts start
        (failure ip (failed j now) + n)
        (look ip (put j (counted l.max l.lockout now (started l.window now (look j m))) m))
Counts-failed l start n now ip j m h low high = elim (Bool-cases (text_eq j ip)) [
  | inl e ↦
      Counts-same start _ _ _ _ (ground (arith, e))
        (sym (
          ap
            (λ x. look ip (put x (counted l.max l.lockout now (started l.window now (look x m))) m))
            (text_eq_sound j ip e)
          ∙ look-put ip (counted l.max l.lockout now (started l.window now (look ip m))) m))
        (Counts-counted l start n now (look ip m) h low high)
  | inr e ↦ Counts-same start _ _ _ _ (ground (arith, e)) (sym (look-put_other j ip _ m e)) h
]

Counts-step :
    (l : LoginLimiter) (start n : ℕ) (ip : Text) (c : Call)
    → Counts start n (look ip l.by_ip)
    → length l.by_ip < max_login_limiter_entries
    → Timely start l.window ip c
    → Counts start (failure ip c + n) (look ip ((limiter_step l c).by_ip))
unfolding limiter_step blocked fail reset Timely
Counts-step l start n ip (asked j now later) h room le =
    Counts-same start _ _ _ _ (omega arith)
      (sym (look-prune start n l.window now ip l.by_ip h le room)) h
Counts-step l start n ip (failed j now) h room (low, high) =
    Counts-failed l start n now ip j (prune l.window now l.by_ip)
      (Counts-same start _ _ _ _ refl (sym (look-prune start n l.window now ip l.by_ip h high room))
        h)
      low high
Counts-step l start n ip (cleared j) h room other =
    Counts-same start _ _ _ _ (omega arith) (sym (look-remove_other j ip l.by_ip other)) h

length-limiter_step :
    (l : LoginLimiter) (c : Call)
    → length l.by_ip < max_login_limiter_entries
    → length ((limiter_step l c).by_ip) ≤ suc (length l.by_ip)
unfolding limiter_step blocked fail reset
length-limiter_step l (asked j now later) room =
    omega (arith, length-prune_below l.window now l.by_ip room)
length-limiter_step l (failed j now) room = omega (
  arith,
  length-prune_below l.window now l.by_ip room,
  length-put j
      (counted l.max l.lockout now (started l.window now (look j (prune l.window now l.by_ip))))
      (prune l.window now l.by_ip),
)
length-limiter_step l (cleared j) room = omega (arith, length-remove j l.by_ip)

limiter_step-window : (l : LoginLimiter) (c : Call) → (limiter_step l c).window ≡ l.window
unfolding limiter_step blocked fail reset
limiter_step-window l (asked ip now later) = refl
limiter_step-window l (failed ip now) = refl
limiter_step-window l (cleared ip) = refl

pub Counts-run :
    (l : LoginLimiter) (start n window : ℕ) (ip : Text) (cs : List Call)
    → l.window ≡ window
    → Counts start n (look ip l.by_ip)
    → length l.by_ip + length cs < max_login_limiter_entries
    → All (Timely start window ip) cs
    → Counts start (failures ip cs + n) (look ip ((limiter_run l cs).by_ip))
      × (length ((limiter_run l cs).by_ip) ≤ length l.by_ip + length cs)
unfolding limiter_run
Counts-run l start n window ip [] e h room timely =
    (Counts-same start _ _ _ _ (omega arith) refl h, omega arith)
Counts-run l start n window ip (c ∷ cs) e h room (now, timely) =
    let l' = limiter_step l c in
    let here : length l.by_ip < max_login_limiter_entries = omega (arith, room) in
    let step = Counts-step l start n ip c h here (subst (λ w. Timely start w ip c) (sym e) now) in
    let less = length-limiter_step l c here in
    let rest =
      Counts-run l' start (failure ip c + n) window ip cs (limiter_step-window l c ∙ e) step
        (omega (arith, room, less)) timely in
    (Counts-same start _ _ _ _ (omega arith) refl (rest.0), omega (arith, rest.1, less))
