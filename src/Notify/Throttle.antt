-- ===== src/Notify/Throttle.antt =====
-- internal/notify/notify.go, `throttle`: what the cooldown of a key suppresses.
use birdy.Common.{
  ℕ, ◌+◌, ◌&&◌, if◌then◌else◌, ◌≤◌, ◌<◌, Bool, true, false, List, [], ◌∷◌, some, ◌≡◌, refl, arith,
  text_eq, text_eq_sound, ap, sym, ◌∙◌, Bool-cases, inl, inr, any_of, Text, codes,
}
use birdy.Notify.{
  session_up, session_down, flap, limit_hit, config_apply, config_revert, bird_unreachable,
  bird_reachable, prefix_drop, config_drift, irr_refresh, model_change, instance_down, instance_up,
  test, Kind, Key, kind_name, kind_eq, key_eq, throttled, find_last, throttle,
}

-- The calls of `throttle` of a run, each with its time and key: which were suppressed, the oldest
-- first, and the deliveries remembered at the end.
pub throttle_run : ℕ → List (Key × ℕ) → List (ℕ × Key) → List (Key × Bool) × List (Key × ℕ)
throttle_run cooldown last [] = ([], last)
throttle_run cooldown last ((now, key) ∷ calls) =
    let (suppressed, last') = throttle cooldown last now key in
    let (rest, end) = throttle_run cooldown last' calls in ((key, suppressed) ∷ rest, end)

-- Every call with the key was suppressed.
pub Silent : Key → List (Key × Bool) → Type 0
Silent k [] = Unit
Silent k ((j, suppressed) ∷ rest) = (key_eq j k ≡ true → suppressed ≡ true) × Silent k rest

-- Every call is made within the cooldown that starts at t.
unfoldable pub Within : ℕ → ℕ → List (ℕ × Key) → Type 0
Within t cooldown [] = Unit
Within t cooldown ((now, key) ∷ calls) = (t ≤ now) × (now < t + cooldown) × Within t cooldown calls

throttled_name : Text → Bool
throttled_name s =
    any_of (λ t. text_eq s t)
      (codes "session_down"
        ∷ codes "session_up"
        ∷ codes "flap"
        ∷ codes "limit_hit"
        ∷ codes "prefix_drop"
        ∷ [])

throttled-name : (k : Kind) → throttled k ≡ throttled_name (kind_name k)
unfolding throttled_name text_eq
throttled-name session_up = refl
throttled-name session_down = refl
throttled-name flap = refl
throttled-name limit_hit = refl
throttled-name config_apply = refl
throttled-name config_revert = refl
throttled-name bird_unreachable = refl
throttled-name bird_reachable = refl
throttled-name prefix_drop = refl
throttled-name config_drift = refl
throttled-name irr_refresh = refl
throttled-name model_change = refl
throttled-name instance_down = refl
throttled-name instance_up = refl
throttled-name test = refl

key_eq-parts : (j k : Key) → key_eq j k ≡ true → (kind_name (j.0) ≡ kind_name (k.0)) × (j.1 ≡ k.1)
unfolding key_eq kind_eq
key_eq-parts (a, s) (b, t) h = (
  text_eq_sound (kind_name a) (kind_name b) (ground (arith, h)),
  text_eq_sound s t (ground (arith, h)),
)

key_eq-right : (i j k : Key) → key_eq j k ≡ true → key_eq i j ≡ key_eq i k
unfolding key_eq kind_eq
key_eq-right i j k h =
    ap (λ n. text_eq (kind_name (i.0)) n && text_eq (i.1) (j.1)) ((key_eq-parts j k h).0)
    ∙ ap (λ s. text_eq (kind_name (i.0)) (kind_name (k.0)) && text_eq (i.1) s)
        ((key_eq-parts j k h).1)

key_eq-find_last :
    (j k : Key) (last : List (Key × ℕ)) → key_eq j k ≡ true → find_last j last ≡ find_last k last
unfolding find_last
key_eq-find_last j k [] h = refl
key_eq-find_last j k ((i, t) ∷ last) h =
    ap (λ b. if b then some t else find_last j last) (key_eq-right i j k h)
    ∙ ap (λ m. if key_eq i k then some t else m) (key_eq-find_last j k last h)

key_eq-throttled : (j k : Key) → key_eq j k ≡ true → throttled (j.0) ≡ throttled (k.0)
key_eq-throttled j k h =
    throttled-name (j.0) ∙ ap throttled_name ((key_eq-parts j k h).0) ∙ sym (throttled-name (k.0))

throttle-repeat :
    (cooldown t now : ℕ) (last : List (Key × ℕ)) (j : Key)
    → 0 < cooldown
    → throttled (j.0) ≡ true
    → find_last j last ≡ some t
    → now < t + cooldown
    → throttle cooldown last now j ≡ (true, last)
unfolding throttle
throttle-repeat cooldown t now last j pos hj hl hn = rw (hj, hl) (ground (arith, pos, hn))

throttle-other :
    (cooldown now : ℕ) (last : List (Key × ℕ)) (j k : Key)
    → key_eq j k ≡ false
    → find_last k ((throttle cooldown last now j).1) ≡ find_last k last
unfolding throttle find_last
throttle-other cooldown now last j k e = ground (arith, e)

-- A call within the cooldown of a throttled key leaves the key's time as it is, and a call with that
-- key is suppressed.
throttle-keeps :
    (cooldown t now : ℕ) (last : List (Key × ℕ)) (j k : Key)
    → 0 < cooldown
    → throttled (k.0) ≡ true
    → find_last k last ≡ some t
    → now < t + cooldown
    → (find_last k ((throttle cooldown last now j).1) ≡ some t)
      × (key_eq j k ≡ true → (throttle cooldown last now j).0 ≡ true)
unfolding throttle find_last
throttle-keeps cooldown t now last j k pos hk hl hn = elim (Bool-cases (key_eq j k)) [
  | inl e ↦ (
    ap (λ (r : Bool × List (Key × ℕ)). find_last k (r.1)) (repeat e) ∙ hl,
    λ _. ap (λ (r : Bool × List (Key × ℕ)). r.0) (repeat e),
  )
  | inr e ↦ (throttle-other cooldown now last j k e ∙ hl, λ h. ground (arith, e, h))
]
  where
    repeat : key_eq j k ≡ true → throttle cooldown last now j ≡ (true, last)
    repeat e =
        throttle-repeat cooldown t now last j pos (key_eq-throttled j k e ∙ hk)
          (key_eq-find_last j k last e ∙ hl) hn

-- With a positive cooldown, from a state that remembers a delivery of a throttled key at time t, every
-- run of calls within the cooldown that starts at t suppresses all calls with that key.
pub throttle_run-Silent :
    (cooldown t : ℕ) (last : List (Key × ℕ)) (k : Key) (calls : List (ℕ × Key))
    → 0 < cooldown
    → throttled (k.0) ≡ true
    → find_last k last ≡ some t
    → Within t cooldown calls
    → Silent k ((throttle_run cooldown last calls).0)
unfolding throttle_run Silent Within
throttle_run-Silent cooldown t last k [] pos hk hl hw = tt
throttle_run-Silent cooldown t last k ((now, j) ∷ calls) pos hk hl (ht, hn, hw) = (
  (throttle-keeps cooldown t now last j k pos hk hl hn).1,
  throttle_run-Silent cooldown t ((throttle cooldown last now j).1) k calls pos hk
      ((throttle-keeps cooldown t now last j k pos hk hl hn).0) hw,
)
