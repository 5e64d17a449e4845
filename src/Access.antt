-- ===== src/Access.antt =====
-- internal/web/access.go, the login limiter: failed logins counted per client address. Times are
-- numbers of nanoseconds, and 0 is the zero time. The map's order of iteration is the list's.
use birdy.Common.{
  ℕ, zero, suc, ◌+◌, ◌-◌, ◌*◌, Bool, true, false, not, ◌&&◌, ◌||◌, List, [], ◌∷◌, Option, none,
  some, Text, text_eq, if◌then◌else◌, ltb, leb, length, keep_if, look, put, remove,
}
pub mod Bound
pub mod Lockout
pub mod Counting
pub mod Locked
pub mod Sessions
pub mod Given
pub mod Grants
pub mod Passwords

pub record AttemptRecord : Type 0 where
  pub count : ℕ
  pub first : ℕ
  pub until : ℕ

abbrev pub Attempts : Type 0
Attempts = List (Text × AttemptRecord)

pub record LoginLimiter : Type 0 where
  pub by_ip : Attempts
  pub max : ℕ
  pub window : ℕ
  pub lockout : ℕ

abbrev pub minutes : ℕ → ℕ
minutes n = n * 60000000000

unfoldable pub new_login_limiter : LoginLimiter
new_login_limiter = record { by_ip = []; max = 5; window = minutes 15; lockout = minutes 5 }

abbrev pub max_login_limiter_entries : ℕ
max_login_limiter_entries = 4096

-- The records that `prune` keeps at first.
unfoldable pub is_fresh : ℕ → ℕ → Text × AttemptRecord → Bool
is_fresh window now (ip, rec) = not (ltb window (now - rec.first) && not (ltb now rec.until))

-- The search for the oldest record, from the address and the time found so far.
unfoldable pub oldest_from : Text → ℕ → Attempts → Text
oldest_from oldest_ip oldest [] = oldest_ip
oldest_from oldest_ip oldest ((ip, rec) ∷ m) =
    let newer = oldest_from ip rec.first m in
    let same = oldest_from oldest_ip oldest m in
    if text_eq oldest_ip [] || ltb rec.first oldest then newer else same

-- One record goes when the map is full.
unfoldable pub evict : Attempts → Attempts
unfolding oldest_from
evict m = if ltb (length m) max_login_limiter_entries then m else remove (oldest_from [] 0 m) m

unfoldable pub prune : ℕ → ℕ → Attempts → Attempts
unfolding is_fresh evict
prune window now m = evict (keep_if (is_fresh window now) m)

abbrev pub is_locked : ℕ → Option AttemptRecord → Bool
is_locked now none = false
is_locked now (some rec) = ltb now rec.until

-- `blocked` reads the clock twice.
unfoldable pub blocked : LoginLimiter → Text → ℕ → ℕ → Bool × LoginLimiter
unfolding prune
blocked l ip now later =
    let m = prune l.window now l.by_ip in (is_locked later (look ip m), record l { by_ip = m })

-- The record that a failure counts in: that of the address, unless its window is over.
abbrev pub started : ℕ → ℕ → Option AttemptRecord → AttemptRecord
started window now none = record { count = 0; first = now; until = 0 }
started window now (some rec) =
    if ltb window (now - rec.first) then record { count = 0; first = now; until = 0 } else rec

abbrev pub counted : ℕ → ℕ → ℕ → AttemptRecord → AttemptRecord
counted max lockout now rec = record {
  count = suc rec.count;
  first = rec.first;
  until = if leb max (suc rec.count) then now + lockout else rec.until;
}

unfoldable pub fail : LoginLimiter → Text → ℕ → LoginLimiter
unfolding prune
fail l ip now =
    let m = prune l.window now l.by_ip in
    let rec = counted l.max l.lockout now (started l.window now (look ip m)) in
    record l { by_ip = put ip rec m }

unfoldable pub reset : LoginLimiter → Text → LoginLimiter
reset l ip = record l { by_ip = remove ip l.by_ip }

-- What the login handler asks of the limiter.
pub data Call : Type 0 where
  asked : Text → ℕ → ℕ → Call
  failed : Text → ℕ → Call
  cleared : Text → Call

pub limiter_step : LoginLimiter → Call → LoginLimiter
unfolding blocked fail reset
limiter_step l (asked ip now later) = (blocked l ip now later).1
limiter_step l (failed ip now) = fail l ip now
limiter_step l (cleared ip) = reset l ip

pub limiter_run : LoginLimiter → List Call → LoginLimiter
unfolding limiter_step
limiter_run l [] = l
limiter_run l (c ∷ cs) = limiter_run (limiter_step l c) cs
