-- ===== src/Access/Given.antt =====
-- internal/web/auth.go and internal/store/sessions.go: where sessions come from.
use birdy.Common.{
  ℕ, ◌+◌, Bool, true, false, not, List, [], ◌∷◌, Option, none, some, Text, text_eq, text_eq_sound,
  ltb, All, All-keep_if, All-snoc, All-map, ◌≡◌, sym, ap, ◌∙◌, ◌⊎◌, inl, inr, Bool-cases, arith,
}
use mathlib.Core.Path.{subst}
use birdy.Access.{blocked, reset}
use birdy.Access.Sessions.{
  Session, User, Result, err, ok, Sessions, find_session, delete_session, prune_expired_sessions,
  create_session, get_session, Answer, to_login, internal_error, bad_form, locked, wrong,
  login_page, welcome, require_auth, handle_login_form, handle_logout, Auth, LoginSubmit,
  get_user_by_username, session_ttl, handle_login_submit, Request, submitted, opened, visited, left,
  swept, serve, checked_session, inserted, session_made, start_session, check_password, if_expired,
  verified, admitted, with_limiter, submit_form, authorized, login_form,
}

-- An answer that set the cookie of a session.
pub data GivenBy : Session → Answer → Type 0 where
  given_by :
      (token : Text) (user t : ℕ)
      → GivenBy
          (record { token = token; user_id = user; expires_at = t + session_ttl })
          (welcome token user t)

unfoldable pub Given : Session → List Answer → Type 0
Given s [] = ⊥
Given s (a ∷ answers) = GivenBy s a ⊎ Given s answers

abbrev pub AllGiven : Sessions → List Answer → Type 0
AllGiven ss answers = All (λ s. Given s answers) ss

Given-next :
    (a : Answer) (answers : List Answer) (ss : Sessions)
    → AllGiven ss answers
    → AllGiven ss (a ∷ answers)
unfolding Given
Given-next a answers ss h =
    All-map (λ s. Given s answers) (λ s. Given s (a ∷ answers)) ss (λ s g. inr g) h

module _ (P : Session → Type 0) where
  All-if_expired :
      (b delete_fault : Bool) (token : Text) (s : Session) (ss : Sessions)
      → All P ss
      → All P ((if_expired b delete_fault token s ss).1)
  unfolding delete_session
  All-if_expired false d token s ss h = h
  All-if_expired true true token s ss h = h
  All-if_expired true false token s ss h =
      All-keep_if P (λ (t : Session). not (text_eq t.token token)) ss h

  All-checked :
      (delete_fault : Bool) (now : ℕ) (token : Text) (found : Option Session) (ss : Sessions)
      → All P ss
      → All P ((checked_session delete_fault now token found ss).1)
  All-checked d now token none ss h = h
  All-checked d now token (some s) ss h = All-if_expired (ltb s.expires_at now) d token s ss h

  All-get_session :
      (fault d : Bool) (now : ℕ) (token : Text) (ss : Sessions)
      → All P ss
      → All P ((get_session fault d now token ss).1)
  unfolding get_session
  All-get_session true d now token ss h = h
  All-get_session false d now token ss h = All-checked d now token (find_session token ss) ss h

  pub All-find :
      (token : Text) (ss : Sessions) (s : Session)
      → All P ss
      → find_session token ss ≡ some s
      → P s × (s.token ≡ token)
  unfolding find_session
  All-find token [] s h e = cc
  All-find token (t ∷ ts) s (h, hs) e = elim (Bool-cases (text_eq t.token token)) [
    | inl q ↦
        let same : t ≡ s = ground (arith, e, q) in
        (subst P same h, ap (λ (x : Session). x.token) (sym same) ∙ text_eq_sound t.token token q)
    | inr q ↦ All-find token ts s hs (ground (arith, e, q))
  ]

-- All sessions were given in the answers before or with the answer.
abbrev Kept : List Answer → Answer × Auth → Type 0
Kept answers (a, st) = AllGiven st.sessions (a ∷ answers)

-- The session is among those made if its answer comes.
Made : List Answer → Session → Result Unit × Sessions → Type 0
Made answers s (err, ss) = AllGiven ss answers
Made answers s (ok u, ss) = (a : Answer) → GivenBy s a → AllGiven ss (a ∷ answers)

module _ (earlier : ℕ → ℕ → Bool) (answers : List Answer) where
  Made-inserted :
      (fault : Bool) (s : Session) (taken : Option Session) (ss : Sessions)
      → AllGiven ss answers
      → Made answers s (inserted fault s taken ss)
  unfolding Made Given
  Made-inserted true s taken ss h = h
  Made-inserted false s none ss h =
      λ a given. All-snoc (λ t. Given t (a ∷ answers)) ss s (Given-next a answers ss h) (inl given)
  Made-inserted false s (some t) ss h = h

  Made-create_session :
      (d i : Bool) (now : ℕ) (s : Session) (ss : Sessions)
      → AllGiven ss answers
      → Made answers s (create_session earlier d i now s ss)
  unfolding create_session prune_expired_sessions Made
  Made-create_session true i now s ss h = h
  Made-create_session false i now s ss h =
      let kept = prune_expired_sessions earlier now ss in
      Made-inserted i s (find_session s.token kept) kept
        (All-keep_if (λ t. Given t answers) (λ (t : Session). not (earlier t.expires_at now)) ss h)

  Kept-session_made :
      (token : Text) (user now : ℕ) (st : Auth) (r : Result Unit × Sessions)
      → Made answers (record { token = token; user_id = user; expires_at = now + session_ttl }) r
      → Kept answers (session_made token user now st r)
  unfolding Made
  Kept-session_made token user now st (err, ss) h = Given-next internal_error answers ss h
  Kept-session_made token user now st (ok u, ss) h =
      h (welcome token user now) (given_by token user now)

  Kept-start_session :
      (r : LoginSubmit) (user : ℕ) (token : Option Text) (st : Auth)
      → AllGiven st.sessions answers
      → Kept answers (start_session earlier r user token st)
  Kept-start_session r user none st h = Given-next internal_error answers st.sessions h
  Kept-start_session r user (some token) st h =
      let s : Session = record {
        token = token;
        user_id = user;
        expires_at = r.now + session_ttl;
      } in
      Kept-session_made token user r.now st
        (create_session earlier r.delete_fault r.insert_fault r.now s st.sessions)
        (Made-create_session r.delete_fault r.insert_fault r.now s st.sessions h)

  Kept-verified :
      (r : LoginSubmit) (user : ℕ) (b : Bool) (st : Auth)
      → AllGiven st.sessions answers
      → Kept answers (verified earlier r user b st)
  Kept-verified r user false st h = Given-next wrong answers st.sessions h
  Kept-verified r user true st h =
      Kept-start_session r user r.token (record st { limiter = reset st.limiter r.ip }) h

  Kept-check_password :
      (matches : Text → Text → Bool) (r : LoginSubmit) (password : Text) (u : Option User)
      (st : Auth)
      → AllGiven st.sessions answers
      → Kept answers (check_password earlier matches r password u st)
  Kept-check_password matches r password none st h = Kept-verified r 0 false st h
  Kept-check_password matches r password (some u) st h =
      Kept-verified r u.id (matches u.password_hash password) st h

  Kept-admitted :
      (matches : Text → Text → Bool) (r : LoginSubmit) (form : Text × Text) (b fault : Bool)
      (st : Auth)
      → AllGiven st.sessions answers
      → Kept answers (admitted earlier matches r form b fault st)
  Kept-admitted matches r form true fault st h = Given-next locked answers st.sessions h
  Kept-admitted matches r form false true st h = Given-next internal_error answers st.sessions h
  Kept-admitted matches r (username, password) false false st h =
      Kept-check_password matches r password (get_user_by_username username st.users) st h

  Kept-submit_form :
      (matches : Text → Text → Bool) (r : LoginSubmit) (form : Option (Text × Text)) (st : Auth)
      → AllGiven st.sessions answers
      → Kept answers (submit_form earlier matches r form st)
  Kept-submit_form matches r none st h = Given-next bad_form answers st.sessions h
  Kept-submit_form matches r (some form) st h =
      let asked = blocked st.limiter r.ip r.now r.now in
      Kept-admitted matches r form (asked.0) r.lookup_fault (with_limiter st (asked.1)) h

  pub Kept-serve :
      (matches : Text → Text → Bool) (r : Request) (st : Auth)
      → AllGiven st.sessions answers
      → Kept answers (serve earlier matches r st)
  unfolding serve handle_login_submit require_auth handle_login_form handle_logout delete_session
      prune_expired_sessions
  Kept-serve matches (submitted r) st h = Kept-submit_form matches r r.form st h
  Kept-serve matches (opened f d now none) st h = Given-next login_page answers st.sessions h
  Kept-serve matches (opened f d now (some c)) st h =
      Given-next (login_form ((get_session f d now c st.sessions).0)) answers
        ((get_session f d now c st.sessions).1)
        (All-get_session (λ s. Given s answers) f d now c st.sessions h)
  Kept-serve matches (visited f d now none) st h = Given-next to_login answers st.sessions h
  Kept-serve matches (visited f d now (some c)) st h =
      Given-next (authorized ((get_session f d now c st.sessions).0)) answers
        ((get_session f d now c st.sessions).1)
        (All-get_session (λ s. Given s answers) f d now c st.sessions h)
  Kept-serve matches (left f none) st h = Given-next to_login answers st.sessions h
  Kept-serve matches (left true (some c)) st h = Given-next to_login answers st.sessions h
  Kept-serve matches (left false (some c)) st h =
      Given-next to_login answers (delete_session c st.sessions) (
        All-keep_if (λ s. Given s answers) (λ (s : Session). not (text_eq s.token c)) st.sessions h)
  Kept-serve matches (swept now) st h =
      Given-next login_page answers (prune_expired_sessions earlier now st.sessions) (
        All-keep_if (λ s. Given s answers) (λ (s : Session). not (earlier s.expires_at now))
          st.sessions h)
