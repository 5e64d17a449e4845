-- ===== src/Poller/Edges.antt =====
-- internal/poller/poller.go: the alerts on BIRD's reachability and on sessions come on edges only.
use birdy.Common.{
  Bool, false, ◌&&◌, List, [], ◌∷◌, ◌++◌, Option, none, some, Text, if◌then◌else◌, ◌≡◌, ◌∙◌, sym,
  ap, refl, ◌⊎◌, inl, inr, arith, append-nil, Bool-cases,
}
use birdy.Notify.{limit_hit, prefix_drop}
use birdy.Birdc.Types.{Status}
use birdy.Poller.{Event, status_interval}
use birdy.Poller.State.{Poller, Answers, due}
use birdy.Poller.Step.{
  named, poll, poll_status, refresh_status, poll_with, after_failure, unreachable_event,
}

-- A poll that cannot list the protocols, with the message of its error.
unfoldable pub Fails : Text → Answers → Type 0
Fails message a = a.protocols ≡ inl message

pub data AllFail : List Answers → Type 0 where
  no_more : AllFail []
  also :
      {a : Answers} {rest : List Answers} (message : Text)
      → Fails message a
      → AllFail rest
      → AllFail (a ∷ rest)

pub polls : Poller → List Answers → Poller
polls p [] = p
polls p (a ∷ rest) = polls (poll p a) rest

poll-Fails :
    (p : Poller) (a : Answers) (message : Text)
    → Fails message a
    → poll p a ≡ after_failure (poll_status p a) message
unfolding poll Fails
poll-Fails p a message e = ap (λ o. poll_with (poll_status p a) a o) e

-- `poll_status` touches neither the timeline nor the reachability.
record Same (p q : Poller) : Type 0 where
  pub timeline : q.timeline ≡ p.timeline
  pub reachable : q.bird_reachable ≡ p.bird_reachable
  pub known : q.reachable_known ≡ p.reachable_known

poll_status-Same : (p : Poller) (a : Answers) → Same p (poll_status p a)
unfolding poll_status
poll_status-Same p a = elim (Bool-cases (due a.now status_interval p.last_status_at)) [
  | inl e ↦ rw e (refresh p a a.status)
  | inr e ↦ rw e (record { timeline = refl; reachable = refl; known = refl })
]
  where
    refresh : (p : Poller) (a : Answers) (o : Option Status) → Same p (refresh_status p a o)
    refresh p a none = record { timeline = refl; reachable = refl; known = refl }
    refresh p a (some s) = record { timeline = refl; reachable = refl; known = refl }

-- What a failed poll adds to the timeline.
alert : Bool → Text → List Event
alert told message = if told then unreachable_event message ∷ [] else []

after_failure-timeline :
    (q : Poller) (message : Text)
    → (after_failure q message).timeline
      ≡ q.timeline ++ alert (q.reachable_known && q.bird_reachable) message
unfolding alert
after_failure-timeline q message = elim (Bool-cases (q.reachable_known && q.bird_reachable)) [
  | inl e ↦ rw e refl
  | inr e ↦ rw e (sym (append-nil q.timeline))
]

poll-timeline :
    (p : Poller) (a : Answers) (message : Text)
    → Fails message a
    → (poll p a).timeline ≡ p.timeline ++ alert (p.reachable_known && p.bird_reachable) message
poll-timeline p a message e =
    let same = poll_status-Same p a in
    ap (λ (q : Poller). q.timeline) (poll-Fails p a message e)
    ∙ after_failure-timeline (poll_status p a) message
    ∙ rw (same.timeline, same.reachable, same.known) refl

poll-unreachable :
    (p : Poller) (a : Answers) (message : Text)
    → Fails message a
    → (poll p a).bird_reachable ≡ false
poll-unreachable p a message e = ap (λ (q : Poller). q.bird_reachable) (poll-Fails p a message e)

no_alert :
    (p : Poller) (message : Text)
    → p.bird_reachable ≡ false
    → alert (p.reachable_known && p.bird_reachable) message ≡ []
unfolding alert
no_alert p message h = ground (arith, h)

silent_outage :
    (p : Poller) (rest : List Answers)
    → p.bird_reachable ≡ false
    → AllFail rest
    → (polls p rest).timeline ≡ p.timeline
unfolding polls
silent_outage p [] h f = refl
silent_outage p (a ∷ rest) h (also message e f) =
    silent_outage (poll p a) rest (poll-unreachable p a message e) f
    ∙ poll-timeline p a message e
    ∙ ap (λ l. p.timeline ++ l) (no_alert p message h)
    ∙ append-nil p.timeline

-- A run of polls that fail, however long, adds to the timeline one event if BIRD was known to be
-- reachable before, with the first failure's message, and otherwise no event.
pub polls-outage :
    (p : Poller) (a : Answers) (rest : List Answers) (message : Text)
    → Fails message a
    → AllFail rest
    → (polls p (a ∷ rest)).timeline
      ≡ p.timeline
        ++ (if p.reachable_known && p.bird_reachable then unreachable_event message ∷ [] else [])
unfolding polls alert
polls-outage p a rest message e f =
    silent_outage (poll p a) rest (poll-unreachable p a message e) f ∙ poll-timeline p a message e

-- The alerts that a poll raises for a protocol besides those on its session's state.
pub IsCountAlert : Event → Type 0
IsCountAlert e = (e.0 ≡ limit_hit) ⊎ (e.0 ≡ prefix_drop)

module _ (a : Answers) (first : Bool) where
  -- An alert on a count, or one of a later poll on a protocol that the answer does not list as disabled.
  abbrev pub IsDue : Event → Type 0
  IsDue e = IsCountAlert e ⊎ ((first ≡ false) × (named a.disabled (e.1) ≡ false))
