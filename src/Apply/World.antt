-- ===== src/Apply/World.antt =====
-- internal/web/apply.go: what the handlers of a Server act on, and the monad of their steps. A step
-- ends with a value or stops early, and keeps its effects either way. Any call of the file system or
-- the database may fail: `faults` says which do, in the order in which they are made (none of those
-- past its end). `replies` holds the answers of BIRD to the commands to come. The clock stands still
-- within one request.
use birdy.Common.{ℕ, Bool, false, List, [], ◌∷◌, Option, Text, if◌then◌else◌}
unfoldable pub use birdy.Common.{look, put, remove}

-- Named files: `birdy.d/*.conf`, live or in a backup, by base name.
abbrev pub Dir : Type 0
Dir = List (Text × Text)

-- `bird.conf` and the `*.conf` files of `birdy.d`.
pub record Disk : Type 0 where
  pub conf : Option Text
  pub confs : Dir

-- A backup is a directory with a copy of both, or an older single `.bak` file.
pub data Backup : Type 0 where
  snapshot : Text → Dir → Backup
  legacy : Text → Backup

pub data Status : Type 0 where
  pending confirmed reverted failed : Status

pub record ConfigVersion : Type 0 where
  pub id : ℕ
  pub sha256 : Text
  pub config_text : Text
  pub backup_path : Text
  pub status : Status
  pub deadline : Option ℕ  -- `none` is the zero time
  pub config_files : Text

pub data Command : Type 0 where
  configure_check : Command
  configure_timeout : ℕ → Bool → Command
  configure_confirm configure_undo reload_all : Command

-- The answer to a command: an error of the client, or BIRD's verdict.
pub data Reply : Type 0 where
  no_reply : Reply
  answer : Bool → Reply

pub data Event : Type 0 where
  applied auto_reverted apply_confirmed rolled_back adopted : Event
  drift_changed drift_gone : Event

pub record World : Type 0 where
  pub disk : Disk
  pub backups : List (Text × Backup)
  pub versions : List ConfigVersion  -- the newest first
  pub applied_hash : Text
  pub sent : List Command  -- the newest first
  pub events : List Event  -- the newest first
  pub rollback_errors : ℕ  -- how often "config rollback failed" was logged
  pub now : ℕ
  pub faults : List Bool
  pub replies : List Reply

pub data Res (E A : Type 0) : Type 0 where
  done : A → Res E A
  stop : E → Res E A

abbrev pub Io : Type 0 → Type 0 → Type 0
Io E A = World → Res E A × World

abbrev pub bind_res : {E A B : Type 0} → (A → Io E B) → Res E A × World → Res E B × World
bind_res f (done a, w) = f a w
bind_res f (stop e, w) = (stop e, w)

infixl 5 ◌>>=◌ ◌>>◌
abbrev pub ◌>>=◌ : {E A B : Type 0} → Io E A → (A → Io E B) → Io E B
◌>>=◌ m f w = bind_res f (m w)

abbrev pub ◌>>◌ : {E B : Type 0} → Io E (Unit {0}) → Io E B → Io E B
m >> k = m >>= λ _. k

abbrev pub return : {E A : Type 0} → A → Io E A
return a w = (done a, w)

abbrev pub throw : {E A : Type 0} → E → Io E A
throw e w = (stop e, w)

-- Hands the outcome of a step to the code behind it, as Go does.
abbrev pub caught : {E E' A : Type 0} → Res E A × World → Res E' (Res E A) × World
caught (r, w) = (done r, w)

abbrev pub attempt : {E E' A : Type 0} → Io E A → Io E' (Res E A)
attempt m w = caught (m w)

-- `if err != nil { … return }` around a step.
abbrev or_stop : {E E' A : Type 0} → E' → Res E A × World → Res E' A × World
or_stop e' (done a, w) = (done a, w)
or_stop e' (stop e, w) = (stop e', w)

abbrev pub orelse : {E E' A : Type 0} → Io E A → E' → Io E' A
orelse m e' w = or_stop e' (m w)

-- A failed call of the file system or the database.
pub data Err : Type 0 where
  io_error : Err

abbrev pub next_fault : List Bool → Bool × List Bool
next_fault [] = (false, [])
next_fault (b ∷ bs) = (b, bs)

-- A call that may fail, before its effect.
unfoldable pub may_fail : Io Err (Unit {0})
may_fail w =
    let (b, faults') = next_fault w.faults in
    let w' = record w { faults = faults' } in if b then (stop io_error, w') else (done tt, w')

abbrev pub next_reply : List Reply → Reply × List Reply
next_reply [] = (no_reply, [])
next_reply (r ∷ rs) = (r, rs)

-- A command to BIRD over its control socket.
unfoldable pub send : {E : Type 0} → Command → Io E Reply
send c w =
    let (r, replies') = next_reply w.replies in
    (done r, record w { sent = c ∷ w.sent; replies = replies' })

-- How a step ends: with a value of which `Q` holds, or stopped with `R`.
pub data Ends {E A : Type 0} (Q : A → World → Type 0) (R : E → World → Type 0)
    : Res E A × World → Type 0 where
  ends_done : {a : A} {w : World} → Q a w → Ends Q R (done a, w)
  ends_stop : {e : E} {w : World} → R e w → Ends Q R (stop e, w)

module _ {E A : Type 0} {Q : A → World → Type 0} {R : E → World → Type 0} where
  pub Ends-bind :
      {B : Type 0} {Q' : B → World → Type 0} {f : A → Io E B} {r : Res E A × World}
      → Ends Q R r
      → ((a : A) (w : World) → Q a w → Ends Q' R (f a w))
      → Ends Q' R (bind_res f r)
  Ends-bind (ends_done q) k = k _ _ q
  Ends-bind (ends_stop e) k = ends_stop e

  pub Ends-map :
      {Q' : A → World → Type 0} {R' : E → World → Type 0} {r : Res E A × World}
      → Ends Q R r
      → ((a : A) (w : World) → Q a w → Q' a w)
      → ((e : E) (w : World) → R e w → R' e w)
      → Ends Q' R' r
  Ends-map (ends_done q) k l = ends_done (k _ _ q)
  Ends-map (ends_stop e) k l = ends_stop (l _ _ e)

  pub Ends-orelse :
      {E' : Type 0} {R' : E' → World → Type 0} {r : Res E A × World} (e' : E')
      → Ends Q R r
      → ((e : E) (w : World) → R e w → R' e' w)
      → Ends Q R' (or_stop e' r)
  Ends-orelse e' (ends_done q) l = ends_done q
  Ends-orelse e' (ends_stop e) l = ends_stop (l _ _ e)
