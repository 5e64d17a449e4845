-- ===== src/Notify/Queue.antt =====
-- internal/notify/notify.go, `Notify` and `deliverLoop`: order and bound of the queue.
use birdy.Common.{
  ◌≤◌, List, [], ◌∷◌, ◌++◌, ◌≡◌, refl, ap, ◌∙◌, sym, arith, length, length-append, append_assoc,
  ltb, Bool-cases, inl, inr,
}
use birdy.Notify.{Notification, Dispatcher, capacity, notify, take_first, deliver_next}

-- A step of the poller or of the delivery loop.
pub data Step : Dispatcher → Dispatcher → Type 0 where
  queued : (d : Dispatcher) (n : Notification) → Step d (notify d n)
  delivered : (d : Dispatcher) → Step d (deliver_next d)

pub data Reach (d : Dispatcher) : Dispatcher → Type 0 where
  here : Reach d d
  next : {e f : Dispatcher} → Reach d e → Step e f → Reach d f

-- The loop has taken the accepted notifications in order, and the rest are queued, within bounds.
pub record InOrder (d : Dispatcher) : Type 0 where
  pub order : d.handled ++ d.queue ≡ d.accepted
  pub bounded : length d.queue ≤ capacity

notify-InOrder : (d : Dispatcher) (n : Notification) → InOrder d → InOrder (notify d n)
unfolding notify
notify-InOrder d n h = elim (Bool-cases (ltb (length d.queue) capacity)) [
  | inl e ↦ rw e (record {
    order = sym (append_assoc d.handled d.queue (n ∷ [])) ∙ ap (λ l. l ++ n ∷ []) h.order;
    bounded = ground (arith, length-append d.queue (n ∷ []), e);
  })
  | inr e ↦ rw e h
]

take_first-InOrder :
    (d : Dispatcher) (q : List Notification) → d.queue ≡ q → InOrder d → InOrder (take_first d q)
take_first-InOrder d [] e h = h
take_first-InOrder d (n ∷ q) e h = record {
  order = append_assoc d.handled (n ∷ []) q ∙ ap (λ l. d.handled ++ l) (sym e) ∙ h.order;
  bounded = omega (arith, ap (λ l. length l) e, h.bounded);
}

Step-InOrder : {d e : Dispatcher} → Step d e → InOrder d → InOrder e
unfolding deliver_next
Step-InOrder (queued d n) h = notify-InOrder d n h
Step-InOrder (delivered d) h = take_first-InOrder d d.queue refl h

-- However the poller's notifications and the delivery loop's rounds interleave from a state in order,
-- the loop has taken the accepted notifications in the order in which they were accepted, those not
-- yet taken are queued in that order, and at most 256 are queued.
pub Reach-InOrder : {d e : Dispatcher} → Reach d e → InOrder d → InOrder e
Reach-InOrder here h = h
Reach-InOrder (next r s) h = Step-InOrder s (Reach-InOrder r h)
