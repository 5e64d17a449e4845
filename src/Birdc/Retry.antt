-- ===== src/Birdc/Retry.antt =====
-- internal/birdc/client.go, `Command`: how often a command is sent, and what is kept after an error.
use birdy.Common.{
  ◌≢◌, Bool, true, false, List, [], ◌∷◌, ◌++◌, Option, none, some, Text, ◌≡◌, refl, ap, sym, ◌∙◌,
  ◌⊎◌, inl, inr, append_assoc, Bool-cases,
}
use birdy.Birdc.{Reply, read_frame}
use birdy.Birdc.Client.{
  Failure, not_connected, context_done, no_deadline, newline_in_command, no_write, no_reply,
  Outcome, ok, err, Client, connect, has_newline, command_locked, after_first, command, answered,
  write_and_read, with_deadline, on_conn, retried, dialled, banner_read, next_bool, is_none,
  next_dial,
}

-- One attempt on the connection `conn`: how often it sent the command, and what connection it leaves.
record Attempt (c : Client) (conn : Option (List Text)) (cmd : Text) (o : Outcome) (c' : Client)
    : Type 0 where
  pub sends : (c'.sent ≡ c.sent) ⊎ (c'.sent ≡ c.sent ++ cmd ∷ [])
  pub in_step :
      (r : Reply)
      → o ≡ ok r
      → (s : List Text) × (t : List Text) × (conn ≡ some s)
        × (read_frame [] s ≡ some (r, t))
        × (c'.conn ≡ some t)
  pub undialled : c'.dials ≡ c.dials
  pub lost : (o ≡ err no_reply) ⊎ (o ≡ err no_write) → c'.conn ≡ none
  pub whole : has_newline cmd ≡ true → c'.sent ≡ c.sent

abbrev Ended : Client → Option (List Text) → Text → Outcome × Client → Type 0
Ended c conn cmd (o, c') = Attempt c conn cmd o c'

-- An attempt that failed before it wrote.
unsent :
    (c c' : Client) (conn : Option (List Text)) (cmd : Text) (e : Failure)
    → c'.sent ≡ c.sent
    → c'.dials ≡ c.dials
    → e ≢ no_reply
    → e ≢ no_write
    → Attempt c conn cmd (err e) c'
unsent c c' conn cmd e s d n m = record {
  sends = inl s;
  in_step = λ r q. cc;
  undialled = d;
  lost = λ h. elim h [ inl q ↦ absurd (n (cc)) | inr q ↦ absurd (m (cc)) ];
  whole = λ _. s;
}

answered-Attempt :
    (c c' : Client) (cmd : Text) (s : List Text) (o : Option (Reply × List Text))
    → has_newline cmd ≡ false
    → c'.sent ≡ c.sent ++ cmd ∷ []
    → c'.dials ≡ c.dials
    → read_frame [] s ≡ o
    → Ended c (some s) cmd (answered c' o)
answered-Attempt c c' cmd s none h q d e = record {
  sends = inr q;
  in_step = λ r p. cc;
  undialled = d;
  lost = λ _. refl;
  whole = λ w. cc;
}
answered-Attempt c c' cmd s (some (r, t)) h q d e = record {
  sends = inr q;
  in_step = λ r' p. (s, t, refl, cc, refl);
  undialled = d;
  lost = λ p. elim p [ inl p' ↦ cc | inr p' ↦ cc ];
  whole = λ w. cc;
}

write_and_read-Attempt :
    (c c' : Client) (cmd : Text) (s : List Text)
    → c'.sent ≡ c.sent
    → c'.dials ≡ c.dials
    → has_newline cmd ≡ false
    → Ended c (some s) cmd (write_and_read c' cmd s)
write_and_read-Attempt c c' cmd s e d h = elim (Bool-cases ((next_bool true c'.writes).0)) [
  | inl b ↦ rw b (
      answered-Attempt c
        (record c' { writes = (next_bool true c'.writes).1; sent = c'.sent ++ cmd ∷ [] }) cmd s
        (read_frame [] s) h (ap (λ l. l ++ cmd ∷ []) e) d refl)
  | inr b ↦ rw b (record {
    sends = inl e;
    in_step = λ r p. cc;
    undialled = d;
    lost = λ _. refl;
    whole = λ _. e;
  })
]

with_deadline-Attempt :
    (c c' : Client) (cmd : Text) (s : List Text)
    → c'.sent ≡ c.sent
    → c'.dials ≡ c.dials
    → Ended c (some s) cmd (with_deadline c' cmd s)
with_deadline-Attempt c c' cmd s e d = elim (Bool-cases ((next_bool true c'.deadlines).0)) [
  | inl b ↦ rw b (elim (Bool-cases (has_newline cmd)) [
    | inl n ↦ rw n (unsent c _ (some s) cmd newline_in_command e d (λ q. cc) (λ q. cc))
    | inr n ↦ rw n (
        write_and_read-Attempt c (record c' { deadlines = (next_bool true c'.deadlines).1 }) cmd s e
          d n)
  ])
  | inr b ↦ rw b (unsent c _ (some s) cmd no_deadline e d (λ q. cc) (λ q. cc))
]

on_conn-Attempt :
    (c c' : Client) (cmd : Text) (o : Option (List Text))
    → c'.sent ≡ c.sent
    → c'.dials ≡ c.dials
    → Ended c o cmd (on_conn c' cmd o)
on_conn-Attempt c c' cmd none e d = unsent c c' none cmd not_connected e d (λ q. cc) (λ q. cc)
on_conn-Attempt c c' cmd (some s) e d = elim (Bool-cases ((next_bool false c'.context).0)) [
  | inl b ↦ rw b (unsent c _ (some s) cmd context_done e d (λ q. cc) (λ q. cc))
  | inr b ↦
      rw b
        (with_deadline-Attempt c (record c' { context = (next_bool false c'.context).1 }) cmd s e d)
]

command_locked-Attempt :
    (c c' : Client) (cmd : Text)
    → c'.sent ≡ c.sent
    → c'.dials ≡ c.dials
    → Ended c c'.conn cmd (command_locked c' cmd)
unfolding command_locked
command_locked-Attempt c c' cmd e d = on_conn-Attempt c c' cmd c'.conn e d

dialled-sent : (c : Client) (d : Option (List Text)) → (dialled c d).0.sent ≡ c.sent
dialled-sent c none = refl
dialled-sent c (some s) = read (read_frame [] s)
  where
    read : (o : Option (Reply × List Text)) → (banner_read c o).0.sent ≡ c.sent
    read none = refl
    read (some (b, t)) = refl

connect-sent : (c : Client) → (connect c).0.sent ≡ c.sent
unfolding connect
connect-sent c =
    dialled-sent (record c { conn = none; dials = (next_dial c.dials).1 }) ((next_dial c.dials).0)

-- The streams that a reply may come from: what is to come on the connection, or what follows the whole
-- banner of the next dial.
abbrev pub IsSource : Client → List Text → Type 0
IsSource c s =
    (c.conn ≡ some s)
    ⊎ (d : List Text) × (banner : Reply) × ((next_dial c.dials).0 ≡ some d)
      × (read_frame [] d ≡ some (banner, s))

-- What a call of `Command` does, on its client before and after.
pub record Answered (c : Client) (cmd : Text) (o : Outcome) (c' : Client) : Type 0 where
  pub sends :
      (c'.sent ≡ c.sent) ⊎ (c'.sent ≡ c.sent ++ cmd ∷ []) ⊎ (c'.sent ≡ c.sent ++ cmd ∷ cmd ∷ [])
  pub in_step :
      (r : Reply)
      → o ≡ ok r
      → (s : List Text) × (t : List Text) × IsSource c s
        × (read_frame [] s ≡ some (r, t))
        × (c'.conn ≡ some t)
  pub lost : (o ≡ err no_reply) ⊎ (o ≡ err no_write) → c'.conn ≡ none
  pub whole : has_newline cmd ≡ true → c'.sent ≡ c.sent

abbrev pub AnsweredBy : Client → Text → Outcome × Client → Type 0
AnsweredBy c cmd (o, c') = Answered c cmd o c'

once : {c c' : Client} {cmd : Text} {o : Outcome} → Attempt c c.conn cmd o c' → Answered c cmd o c'
once a = record {
  sends = elim a.sends [ inl e ↦ inl e | inr e ↦ inr (inl e) ];
  in_step = λ r q. let (s, t, from, reads, kept) = a.in_step r q in (s, t, inl from, reads, kept);
  lost = a.lost;
  whole = a.whole;
}

two_sends :
    (s t u : List Text) (cmd : Text)
    → (t ≡ s) ⊎ (t ≡ s ++ cmd ∷ [])
    → (u ≡ t) ⊎ (u ≡ t ++ cmd ∷ [])
    → (u ≡ s) ⊎ (u ≡ s ++ cmd ∷ []) ⊎ (u ≡ s ++ cmd ∷ cmd ∷ [])
two_sends s t u cmd (inl e) (inl f) = inl (f ∙ e)
two_sends s t u cmd (inl e) (inr f) = inr (inl (f ∙ ap (λ l. l ++ cmd ∷ []) e))
two_sends s t u cmd (inr e) (inl f) = inr (inl (f ∙ e))
two_sends s t u cmd (inr e) (inr f) =
    inr (inr (f ∙ ap (λ l. l ++ cmd ∷ []) e ∙ append_assoc s (cmd ∷ []) (cmd ∷ [])))

-- A second attempt, on a client that differs in what it sent only.
again :
    (c c₁ c₂ : Client) (cmd : Text) (o : Outcome)
    → (c₁.sent ≡ c.sent) ⊎ (c₁.sent ≡ c.sent ++ cmd ∷ [])
    → (has_newline cmd ≡ true → c₁.sent ≡ c.sent)
    → (conn : Option (List Text)) → Attempt c₁ conn cmd o c₂
    → ((s : List Text) → conn ≡ some s → IsSource c s)
    → Answered c cmd o c₂
again c c₁ c₂ cmd o first w conn a source = record {
  sends = two_sends c.sent c₁.sent c₂.sent cmd first a.sends;
  in_step =
      λ r q. let (s, t, from, reads, kept) = a.in_step r q in (s, t, source s from, reads, kept);
  lost = a.lost;
  whole = λ n. a.whole n ∙ w n;
}

dialled-conn :
    (c : Client) (d : Option (List Text))
    → c.conn ≡ none
    → (dialled c d).1 ≡ false
    → (dialled c d).0.conn ≡ none
dialled-conn c none e h = e
dialled-conn c (some s) e h = read (read_frame [] s) h
  where
    read :
        (o : Option (Reply × List Text))
        → (banner_read c o).1 ≡ false
        → (banner_read c o).0.conn ≡ none
    read none h = e
    read (some (b, t)) h = cc

connect-conn : (c : Client) → (connect c).1 ≡ false → (connect c).0.conn ≡ none
unfolding connect
connect-conn c h =
    dialled-conn (record c { conn = none; dials = (next_dial c.dials).1 }) ((next_dial c.dials).0)
      refl h

-- A dial that succeeds leaves the stream behind its banner.
dialled-IsSource :
    (c : Client) (o : Option (List Text)) (s : List Text)
    → c.conn ≡ none
    → (dialled c o).0.conn ≡ some s
    → (d : List Text) × (banner : Reply) × (o ≡ some d) × (read_frame [] d ≡ some (banner, s))
dialled-IsSource c none s e h = cc
dialled-IsSource c (some d) s e h = read (read_frame [] d) refl h
  where
    read :
        (o : Option (Reply × List Text))
        → read_frame [] d ≡ o
        → (banner_read c o).0.conn ≡ some s
        → (d' : List Text) × (banner : Reply) × (some d ≡ some d')
          × (read_frame [] d' ≡ some (banner, s))
    read none f k = cc
    read (some (b, t)) f k =
        (d, b, refl, f ∙ ap (λ o. elim o [ none ↦ none | some u ↦ some (b, u) ]) k)

connect-IsSource :
    (c c₀ : Client) (s : List Text)
    → c.dials ≡ c₀.dials
    → (connect c).0.conn ≡ some s
    → IsSource c₀ s
unfolding connect
connect-IsSource c c₀ s e h =
    let (d, b, given, reads) =
      dialled-IsSource (record c { conn = none; dials = (next_dial c.dials).1 })
        ((next_dial c.dials).0) s refl h in
    inr (d, b, ap (λ l. (next_dial l).0) (sym e) ∙ given, reads)

retried-Answered :
    (c c₁ : Client) (cmd : Text) (e : Failure)
    → Attempt c c.conn cmd (err e) c₁
    → (p : Client × Bool) → p.0.sent ≡ c₁.sent
    → ((s : List Text) → p.0.conn ≡ some s → IsSource c s)
    → (p.1 ≡ false → p.0.conn ≡ none)
    → AnsweredBy c cmd (retried c₁ cmd e p)
retried-Answered c c₁ cmd e a (c₂, false) s source n = record {
  sends = two_sends c.sent c₁.sent c₂.sent cmd a.sends (inl s);
  in_step = λ r q. cc;
  lost = λ _. n refl;
  whole = λ w. s ∙ a.whole w;
}
retried-Answered c c₁ cmd e a (c₂, true) s source n =
    again c (record c₁ { dials = c₂.dials }) ((command_locked c₂ cmd).1) cmd
      ((command_locked c₂ cmd).0) a.sends a.whole c₂.conn
      (command_locked-Attempt (record c₁ { dials = c₂.dials }) c₂ cmd s refl) source

-- Whatever the socket does, a call of Command sends its command at most twice, and not at all if it holds
-- a line break. A reply that it returns is the first frame of what was to come on the connection, or of
-- what follows the banner of the next dial, and the connection that is kept stands right behind that
-- frame. After a failed write or read no connection is kept.
pub command-Answered : (c : Client) (cmd : Text) → AnsweredBy c cmd (command c cmd)
unfolding command
command-Answered c cmd = go (command_locked c cmd) (command_locked-Attempt c c cmd refl refl)
  where
    go : (p : Outcome × Client) → Ended c c.conn cmd p → AnsweredBy c cmd (after_first cmd p)
    go (ok r, c₁) a = once a
    go (err e, c₁) a = elim (Bool-cases (is_none c₁.conn)) [
      | inl n ↦ rw n (elim (Bool-cases ((next_bool false c₁.context).0)) [
        | inl b ↦ rw b (record {
          sends = (once a).sends;
          in_step = (once a).in_step;
          lost = a.lost;
          whole = a.whole;
        })
        | inr b ↦ rw b (
            retried-Answered c (record c₁ { context = (next_bool false c₁.context).1 }) cmd e
              (record {
                sends = a.sends;
                in_step = a.in_step;
                undialled = a.undialled;
                lost = a.lost;
                whole = a.whole;
              })
              (connect (record c₁ { context = (next_bool false c₁.context).1 }))
              (connect-sent (record c₁ { context = (next_bool false c₁.context).1 }))
              (λ s.
                connect-IsSource (record c₁ { context = (next_bool false c₁.context).1 }) c s
                  a.undialled)
              (connect-conn (record c₁ { context = (next_bool false c₁.context).1 })))
      ])
      | inr n ↦ rw n (once a)
    ]
