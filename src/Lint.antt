-- ===== src/Lint.antt =====
-- internal/render/lint.go, `foldByTemplate`: findings that peers of one template share are shown as
-- one. Of a peer only the name and the template are used.
use birdy.Common.{
  is_empty, ℕ, zero, suc, ◌-◌, min, Bool, true, false, not, ◌&&◌, ◌||◌, List, [], ◌∷◌, ◌++◌, map,
  Text, codes, text_eq, if◌then◌else◌, ltb, length, take, any_of, keep_if, itoa, join,
}
pub mod Kept
pub mod Model
pub mod Rules
pub mod Sessions
pub mod Quiet
pub mod External
pub mod Clean

pub record Warning : Type 0 where
  pub severity : Text
  pub peer : Text
  pub message : Text

pub record Peer : Type 0 where
  pub name : Text
  pub template_name : Text

-- `templateOf`: the template of the last peer of this name that has one.
template_of : List Peer → Text → Text
template_of [] name = []
template_of (p ∷ ps) name =
    let later = template_of ps name in
    let here = if text_eq p.name name then p.template_name else [] in
    if is_empty later then here else later

-- Two findings under one key of `members`.
pub same_key : List Peer → Warning → Warning → Bool
unfolding template_of
same_key peers v w =
    text_eq (template_of peers v.peer) (template_of peers w.peer)
    && (text_eq v.severity w.severity && text_eq v.message w.message)

-- The peers of a group, each once, after those found before.
names_from : List Text → List Warning → List Text
names_from names [] = names
names_from names (w ∷ ws) =
    let known = names_from names ws in
    let more = names_from (names ++ w.peer ∷ []) ws in
    if any_of (λ n. text_eq n w.peer) names then known else more

pub group_names : List Peer → List Warning → Warning → List Text
unfolding names_from same_key
group_names peers ws w = names_from [] (keep_if (λ v. same_key peers v w) ws)

fold_label : Text → List Text → Text
unfolding itoa join
fold_label template names =
    let shown = template ++ (codes ": " ++ join (codes ", ") (take (min (length names) 5) names)) in
    if ltb 5 (length names)
    then shown ++ (codes " and " ++ (itoa (length names - 5) ++ codes " more"))
    else shown

-- The finding that stands for a group.
pub folded : List Peer → List Text → Warning → Warning
unfolding template_of fold_label
folded peers names w = record {
  severity = w.severity;
  peer = fold_label (template_of peers w.peer) names;
  message = w.message;
}

-- A finding is in a group that is folded.
pub is_folded : List Peer → List Warning → Warning → Bool
unfolding template_of group_names
is_folded peers ws w =
    not (is_empty (template_of peers w.peer)) && ltb 1 (length (group_names peers ws w))

abbrev pub next_out : Bool → Bool → Warning → Warning → List Warning → List Warning
next_out false dropped w f out = w ∷ out
next_out true true w f out = out
next_out true false w f out = f ∷ out

-- The last loop: of a folded group the first member is replaced, the others are dropped.
pub fold_from : List Peer → List Warning → List Warning → List Warning → List Warning
unfolding is_folded group_names folded same_key
fold_from peers ws before [] = []
fold_from peers ws before (w ∷ rest) =
    next_out (is_folded peers ws w) (any_of (λ v. same_key peers v w) before) w
      (folded peers (group_names peers ws w) w) (fold_from peers ws (before ++ w ∷ []) rest)

pub fold_by_template : List Warning → List Peer → List Warning
unfolding fold_from
fold_by_template ws peers = fold_from peers ws [] ws
