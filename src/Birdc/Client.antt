-- ===== src/Birdc/Client.antt =====
-- internal/birdc/client.go, `Command`: the commands on the shared connection, which are serialized. What
-- the socket does is an Env: the outcome of each dial, of each write and of setting the deadline, in
-- order, and at which looks the context is done.
use birdy.Common.{
  Bool, true, false, not, ◌||◌, List, [], ◌∷◌, ◌++◌, Option, none, some, Text, if◌then◌else◌, ◌==◌,
  any_of,
}
use birdy.Birdc.{Reply, read_frame}

pub data Failure : Type 0 where
  not_connected context_done no_deadline newline_in_command no_write no_reply : Failure

pub data Outcome : Type 0 where
  ok : Reply → Outcome
  err : Failure → Outcome

pub record Client : Type 0 where
  pub conn : Option (List Text)  -- the lines to come on the connection, if there is one
  pub dials : List (Option (List Text))  -- what dialling gives: nothing, or a stream with its banner
  pub writes : List Bool  -- whether each write succeeds
  pub deadlines : List Bool  -- whether setting the deadline succeeds
  pub context : List Bool  -- whether the context is done, at each look
  pub sent : List Text  -- the commands written, the oldest first

abbrev pub next_bool : Bool → List Bool → Bool × List Bool
next_bool d [] = (d, [])
next_bool d (b ∷ bs) = (b, bs)

abbrev pub next_dial : List (Option (List Text)) → Option (List Text) × List (Option (List Text))
next_dial [] = (none, [])
next_dial (d ∷ ds) = (d, ds)

-- `connect`, after a dial: the welcome banner is read.
abbrev pub banner_read : Client → Option (Reply × List Text) → Client × Bool
banner_read c none = (c, false)
banner_read c (some (banner, stream)) = (record c { conn = some stream }, true)

abbrev pub dialled : Client → Option (List Text) → Client × Bool
dialled c none = (c, false)
dialled c (some stream) = banner_read c (read_frame [] stream)

unfoldable pub connect : Client → Client × Bool
connect c = let (d, ds) = next_dial c.dials in dialled (record c { conn = none; dials = ds }) d

-- A look at `ctx.Err()`.
abbrev look_context : Client → Bool × Client
look_context c = let (b, bs) = next_bool false c.context in (b, record c { context = bs })

unfoldable pub has_newline : Text → Bool
has_newline cmd = any_of (λ b. b == 13 || b == 10) cmd

abbrev drop_conn : Client → Client
drop_conn c = record c { conn = none }

abbrev pub answered : Client → Option (Reply × List Text) → Outcome × Client
answered c none = (err no_reply, drop_conn c)
answered c (some (r, stream)) = (ok r, record c { conn = some stream })

abbrev pub write_and_read : Client → Text → List Text → Outcome × Client
write_and_read c cmd stream =
    let (written, ws) = next_bool true c.writes in
    let c' = record c { writes = ws } in
    if not written
    then (err no_write, drop_conn c')
    else answered (record c' { sent = c.sent ++ cmd ∷ [] }) (read_frame [] stream)

abbrev pub with_deadline : Client → Text → List Text → Outcome × Client
with_deadline c cmd stream =
    let (set, ds) = next_bool true c.deadlines in
    let c' = record c { deadlines = ds } in
    if not set
    then (err no_deadline, c')
    else if has_newline cmd
    then (err newline_in_command, c')
    else write_and_read c' cmd stream

abbrev pub on_conn : Client → Text → Option (List Text) → Outcome × Client
on_conn c cmd none = (err not_connected, c)
on_conn c cmd (some stream) =
    let (done, c') = look_context c in
    if done then (err context_done, c') else with_deadline c' cmd stream

-- `commandLocked`; which of two errors is reported (`ctxErr`) is left out.
unfoldable pub command_locked : Client → Text → Outcome × Client
command_locked c cmd = on_conn c cmd c.conn

abbrev pub is_none : Option (List Text) → Bool
is_none none = true
is_none (some s) = false

abbrev pub retried : Client → Text → Failure → Client × Bool → Outcome × Client
retried c cmd e (c', false) = (err e, c')
retried c cmd e (c', true) = command_locked c' cmd

abbrev retry : Text → Failure → Client → Outcome × Client
retry cmd e c =
    if not (is_none c.conn)
    then (err e, c)
    else let (done, c') = look_context c in
      if done then (err e, c') else retried c' cmd e (connect c')

abbrev pub after_first : Text → Outcome × Client → Outcome × Client
after_first cmd (ok r, c) = (ok r, c)
after_first cmd (err e, c) = retry cmd e c

-- `Command`
unfoldable pub command : Client → Text → Outcome × Client
command c cmd = after_first cmd (command_locked c cmd)

-- `Close`
close : Client → Client
close c = drop_conn c
