-- ===== src/Access/Grants.antt =====
-- internal/web/auth.go, internal/web/middleware.go and internal/store/sessions.go: who a page is
-- served to.
use birdy.Common.{
  ℕ, ◌+◌, ◌≤◌, Bool, true, false, List, [], ◌∷◌, Option, none, some, Text, ltb, ◌≡◌, refl, ◌⊎◌, inl,
  inr, arith,
}
use birdy.Access.Given.{GivenBy, given_by, Given, AllGiven, All-find, Kept-serve}
use birdy.Access.{LoginLimiter}
use birdy.Access.Sessions.{
  Session, User, Sessions, find_session, get_session, Answer, welcome, runs, require_auth, Auth,
  session_ttl, Request, serve, serve_all, checked_session, if_expired, authorized,
}

Kept-serve_all :
    (earlier : ℕ → ℕ → Bool) (matches : Text → Text → Bool) (rs : List Request)
    (answers : List Answer) (st : Auth)
    → AllGiven st.sessions answers
    → AllGiven
        ((serve_all earlier matches rs answers st).1.sessions)
        ((serve_all earlier matches rs answers st).0)
unfolding serve_all
Kept-serve_all earlier matches [] answers st h = h
Kept-serve_all earlier matches (r ∷ rs) answers st h =
    Kept-serve_all earlier matches rs ((serve earlier matches r st).0 ∷ answers)
      ((serve earlier matches r st).1) (Kept-serve earlier answers matches r st h)

-- A login at some time set the cookie for the user, and the session is not over now.
GrantedBy : Text → ℕ → ℕ → Answer → Type 0
GrantedBy token user now (welcome k u t) = (k ≡ token) × (u ≡ user) × (now ≤ t + session_ttl)
GrantedBy token user now a = ⊥

pub Granted : Text → ℕ → ℕ → List Answer → Type 0
unfolding GrantedBy
Granted token user now [] = ⊥
Granted token user now (a ∷ answers) = GrantedBy token user now a ⊎ Granted token user now answers

Opens : ℕ → ℕ → Option Session → Type 0
Opens now user none = ⊥
Opens now user (some s) = (s.user_id ≡ user) × (now ≤ s.expires_at)

Opens-expired :
    (now user : ℕ) (token : Text) (d b : Bool) (s : Session) (ss : Sessions)
    → ltb s.expires_at now ≡ b
    → authorized ((if_expired b d token s ss).0) ≡ runs user
    → Opens now user (some s)
unfolding Opens
Opens-expired now user token d false s ss q e = (ground (arith, e), ground (arith, q))
Opens-expired now user token true true s ss q e = cc
Opens-expired now user token false true s ss q e = cc

Opens-checked :
    (now user : ℕ) (token : Text) (d : Bool) (found : Option Session) (ss : Sessions)
    → authorized ((checked_session d now token found ss).0) ≡ runs user
    → Opens now user found
Opens-checked now user token d none ss e = cc
Opens-checked now user token d (some s) ss e =
    Opens-expired now user token d (ltb s.expires_at now) s ss refl e

require_auth-Opens :
    (fault d : Bool) (now user : ℕ) (cookie : Text) (ss : Sessions)
    → (require_auth fault d now (some cookie) ss).0 ≡ runs user
    → Opens now user (find_session cookie ss)
unfolding require_auth get_session
require_auth-Opens true d now user cookie ss e = cc
require_auth-Opens false d now user cookie ss e =
    Opens-checked now user cookie d (find_session cookie ss) ss e

GivenBy-Granted :
    (token : Text) (user now : ℕ) (s : Session) (a : Answer)
    → s.token ≡ token
    → s.user_id ≡ user
    → now ≤ s.expires_at
    → GivenBy s a
    → GrantedBy token user now a
unfolding GrantedBy
GivenBy-Granted token user now _ _ p q le (given_by k u t) = (p, q, le)

Given-Granted :
    (token : Text) (user now : ℕ) (s : Session) (answers : List Answer)
    → s.token ≡ token
    → s.user_id ≡ user
    → now ≤ s.expires_at
    → Given s answers
    → Granted token user now answers
unfolding Given Granted
Given-Granted token user now s [] p q le g = absurd g
Given-Granted token user now s (a ∷ answers) p q le (inl g) =
    inl (GivenBy-Granted token user now s a p q le g)
Given-Granted token user now s (a ∷ answers) p q le (inr g) =
    inr (Given-Granted token user now s answers p q le g)

found-Granted :
    (cookie : Text) (user now : ℕ) (ss : Sessions) (answers : List Answer) (found : Option Session)
    → AllGiven ss answers
    → find_session cookie ss ≡ found
    → Opens now user found
    → Granted cookie user now answers
unfolding Opens
found-Granted cookie user now ss answers none h e opens = absurd opens
found-Granted cookie user now ss answers (some s) h e (same, le) =
    let given = All-find (λ t. Given t answers) cookie ss s h e in
    Given-Granted cookie user now s answers (given.1) same le (given.0)

-- From an empty table of sessions and whatever was asked before, a page that wants a login is served
-- for a user only to the cookie that a login of that user set, at most seven days before.
pub require_auth-Granted :
    (earlier : ℕ → ℕ → Bool) (matches : Text → Text → Bool) (limiter : LoginLimiter)
    (users : List User) (rs : List Request) (fault delete_fault : Bool) (now user : ℕ)
    (cookie : Text)
    → (require_auth fault delete_fault now (some cookie) (
        (serve_all earlier matches rs []
          (record { limiter = limiter; sessions = []; users = users })).1.sessions)).0
      ≡ runs user
    → Granted cookie user now (
        (serve_all earlier matches rs []
          (record { limiter = limiter; sessions = []; users = users })).0)
require_auth-Granted earlier matches limiter users rs fault delete_fault now user cookie e =
    let st : Auth = record { limiter = limiter; sessions = []; users = users } in
    let ss = (serve_all earlier matches rs [] st).1.sessions in
    found-Granted cookie user now ss ((serve_all earlier matches rs [] st).0)
      (find_session cookie ss) (Kept-serve_all earlier matches rs [] st tt) refl
      (require_auth-Opens fault delete_fault now user cookie ss e)
