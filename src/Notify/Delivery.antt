-- ===== src/Notify/Delivery.antt =====
-- internal/notify/notify.go, `deliverAllSync`: which destinations an alert goes to.
use birdy.Common.{ℕ, Bool, false, ◌&&◌, List, [], ◌∷◌, some, ◌≡◌, ◌∙◌, refl, arith, any_of, keep_if}
use birdy.Notify.{
  Key, Destination, Notification, wants, filter_kind, throttle, enabled_destinations,
  deliver_all_sync,
}

any_of-keep_if {ℓ} :
    {A : Type ℓ} (p q : A → Bool) (xs : List A)
    → any_of p (keep_if q xs) ≡ any_of (λ x. q x && p x) xs
any_of-keep_if p q [] = refl
any_of-keep_if p q (x ∷ xs) = ground (arith, any_of-keep_if p q xs)

-- An alert that is not suppressed goes, of all destinations, to those that are enabled and want its
-- kind (for BIRD's return, the kind of the outage): any test of destinations holds of one of those
-- that get it if and only if it holds of one of these.
deliver_all_sync-any_of :
    (cooldown : ℕ) (last : List (Key × ℕ)) (now : ℕ) (all : List Destination) (n : Notification)
    (p : Destination → Bool)
    → (throttle cooldown last now (n.kind, n.protocol)).0 ≡ false
    → any_of p ((deliver_all_sync cooldown last now (some all) n).0)
      ≡ any_of (λ (d : Destination). d.enabled && (wants d (filter_kind n.kind) && p d)) all
unfolding deliver_all_sync enabled_destinations
deliver_all_sync-any_of cooldown last now all n p h = rw h (
    any_of-keep_if p (λ (d : Destination). wants d (filter_kind n.kind))
      (keep_if (λ (d : Destination). d.enabled) all)
    ∙ any_of-keep_if (λ (d : Destination). wants d (filter_kind n.kind) && p d)
        (λ (d : Destination). d.enabled) all)
