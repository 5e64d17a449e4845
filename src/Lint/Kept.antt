-- ===== src/Lint/Kept.antt =====
-- internal/render/lint.go, `foldByTemplate`: folding hides no finding and makes none up.
use birdy.Common.{
  Bool, true, false, ◌&&◌, ◌||◌, List, [], ◌∷◌, ◌++◌, Text, text_eq, text_eq_sound, any_of, ◌≡◌,
  refl, ◌∙◌, arith, inl, inr, Bool-cases,
}
use birdy.Lint.{
  Warning, Peer, same_key, group_names, folded, is_folded, next_out, fold_from, fold_by_template,
}

-- A finding of this severity with this message.
abbrev pub says : Text → Text → Warning → Bool
says severity message w = text_eq w.severity severity && text_eq w.message message

module _ {ℓ} {A : Type ℓ} (p : A → Bool) where
  any_of-snoc : (xs : List A) (x : A) → any_of p (xs ++ x ∷ []) ≡ (any_of p xs || p x)
  any_of-snoc [] x = ground arith
  any_of-snoc (y ∷ ys) x = ground (arith, any_of-snoc ys x)

module _ (severity message : Text) (peers : List Peer) where
  -- Who shares a key says the same.
  says-same_key :
      (v w : Warning)
      → same_key peers v w ≡ true
      → says severity message v ≡ says severity message w
  unfolding same_key
  says-same_key v w h =
      let severities = text_eq_sound v.severity w.severity (ground (arith, h)) in
      let messages = text_eq_sound v.message w.message (ground (arith, h)) in
      λ i. text_eq (severities i) severity && text_eq (messages i) message

  any_of-same_key :
      (vs : List Warning) (w : Warning)
      → any_of (λ v. same_key peers v w) vs ≡ true
      → says severity message w ≡ true
      → any_of (says severity message) vs ≡ true
  any_of-same_key [] w h s = cc
  any_of-same_key (v ∷ vs) w h s = elim (Bool-cases (same_key peers v w)) [
    | inl e ↦ ground (arith, s, says-same_key v w e)
    | inr e ↦ ground (arith, e, h, any_of-same_key vs w (ground (arith, e, h)) s)
  ]

  says-folded :
      (names : List Text) (w : Warning)
      → says severity message (folded peers names w) ≡ says severity message w
  unfolding folded
  says-folded names w = refl

  next_out-says :
      (b dropped : Bool) (before out : List Warning) (w f : Warning)
      → says severity message f ≡ says severity message w
      → (dropped ≡ true
          → says severity message w ≡ true
          → any_of (says severity message) before ≡ true)
      → (any_of (says severity message) (next_out b dropped w f out)
          || any_of (says severity message) before)
        ≡ (any_of (says severity message) (w ∷ out) || any_of (says severity message) before)
  next_out-says false dropped before out w f same h = refl
  next_out-says true false before out w f same h = ground (arith, same)
  next_out-says true true before out w f same h = elim (Bool-cases (says severity message w)) [
    | inl e ↦ ground (arith, e, h refl e)
    | inr e ↦ ground (arith, e)
  ]

  fold_from-says :
      (ws before rest : List Warning)
      → (any_of (says severity message) (fold_from peers ws before rest)
          || any_of (says severity message) before)
        ≡ (any_of (says severity message) rest || any_of (says severity message) before)
  unfolding fold_from
  fold_from-says ws before [] = refl
  fold_from-says ws before (w ∷ rest) =
      let names = group_names peers ws w in
      let out = fold_from peers ws (before ++ w ∷ []) rest in
      next_out-says (is_folded peers ws w) (any_of (λ v. same_key peers v w) before) before out w
        (folded peers names w) (says-folded names w) (any_of-same_key before w)
      ∙ ground (
        arith,
        fold_from-says ws (before ++ w ∷ []) rest,
        any_of-snoc (says severity message) before w,
      )

-- Folding neither hides a finding nor makes one up: a finding of a severity with a message is shown if
-- and only if there was one. So a config with a danger still shows one.
pub fold_by_template-says :
    (severity message : Text) (ws : List Warning) (peers : List Peer)
    → any_of (says severity message) (fold_by_template ws peers) ≡ any_of (says severity message) ws
unfolding fold_by_template
fold_by_template-says severity message ws peers =
    ground (arith, fold_from-says severity message peers ws [] ws)
