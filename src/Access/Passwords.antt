-- ===== src/Access/Passwords.antt =====
-- internal/web/auth.go, handleLoginSubmit: what a login takes.
use birdy.Common.{ℕ, Bool, true, false, List, Option, none, some, Text, ◌≡◌, refl}
use birdy.Access.{blocked}
use birdy.Access.Sessions.{
  User, Result, err, ok, Sessions, welcome, Auth, LoginSubmit, get_user_by_username,
  handle_login_submit, session_made, start_session, check_password, verified, admitted,
  with_limiter, submit_form,
}

-- The form names a user of this number, and its password matches.
NamedBy : (Text → Text → Bool) → ℕ → Text → Option User → Type 0
NamedBy matches user password none = ⊥
NamedBy matches user password (some u) = (u.id ≡ user) × (matches u.password_hash password ≡ true)

pub Named : (Text → Text → Bool) → ℕ → List User → Option (Text × Text) → Type 0
unfolding NamedBy
Named matches user users none = ⊥
Named matches user users (some (username, password)) =
    NamedBy matches user password (get_user_by_username username users)

session_made-user :
    (token token' : Text) (user user' now now' : ℕ) (st : Auth) (r : Result Unit × Sessions)
    → (session_made token user now st r).0 ≡ welcome token' user' now'
    → user ≡ user'
session_made-user token token' user user' now now' st (err, ss) e = cc
session_made-user token token' user user' now now' st (ok u, ss) e = cc

start_session-user :
    (earlier : ℕ → ℕ → Bool) (r : LoginSubmit) (token' : Text) (user user' now' : ℕ)
    (token : Option Text) (st : Auth)
    → (start_session earlier r user token st).0 ≡ welcome token' user' now'
    → user ≡ user'
start_session-user earlier r token' user user' now' none st e = cc
start_session-user earlier r token' user user' now' (some token) st e =
    session_made-user token token' user user' r.now now' st _ e

verified-user :
    (earlier : ℕ → ℕ → Bool) (r : LoginSubmit) (token : Text) (user user' now : ℕ) (b : Bool)
    (st : Auth)
    → (verified earlier r user b st).0 ≡ welcome token user' now
    → (user ≡ user') × (b ≡ true)
verified-user earlier r token user user' now false st e = cc
verified-user earlier r token user user' now true st e =
    (start_session-user earlier r token user user' now r.token _ e, refl)

check_password-NamedBy :
    (earlier : ℕ → ℕ → Bool) (matches : Text → Text → Bool) (r : LoginSubmit)
    (token password : Text) (user now : ℕ) (u : Option User) (st : Auth)
    → (check_password earlier matches r password u st).0 ≡ welcome token user now
    → NamedBy matches user password u
unfolding NamedBy
check_password-NamedBy earlier matches r token password user now none st e = cc
check_password-NamedBy earlier matches r token password user now (some u) st e =
    verified-user earlier r token u.id user now (matches u.password_hash password) st e

admitted-Named :
    (earlier : ℕ → ℕ → Bool) (matches : Text → Text → Bool) (r : LoginSubmit) (token : Text)
    (user now : ℕ) (form : Text × Text) (b fault : Bool) (st : Auth)
    → (admitted earlier matches r form b fault st).0 ≡ welcome token user now
    → Named matches user st.users (some form) × (b ≡ false)
unfolding Named
admitted-Named earlier matches r token user now form true fault st e = cc
admitted-Named earlier matches r token user now form false true st e = cc
admitted-Named earlier matches r token user now (username, password) false false st e = (
  check_password-NamedBy earlier matches r token password user now
      (get_user_by_username username st.users) st e,
  refl,
)

submit_form-Named :
    (earlier : ℕ → ℕ → Bool) (matches : Text → Text → Bool) (r : LoginSubmit) (token : Text)
    (user now : ℕ) (form : Option (Text × Text)) (st : Auth)
    → (submit_form earlier matches r form st).0 ≡ welcome token user now
    → Named matches user st.users form × ((blocked st.limiter r.ip r.now r.now).0 ≡ false)
submit_form-Named earlier matches r token user now none st e = cc
submit_form-Named earlier matches r token user now (some form) st e =
    admitted-Named earlier matches r token user now form ((blocked st.limiter r.ip r.now r.now).0)
      r.lookup_fault (with_limiter st ((blocked st.limiter r.ip r.now r.now).1)) e

-- A login gives a session only when the form names a user with the password of that user and the
-- sender is not locked out.
pub handle_login_submit-Named :
    (earlier : ℕ → ℕ → Bool) (matches : Text → Text → Bool) (r : LoginSubmit) (token : Text)
    (user now : ℕ) (st : Auth)
    → (handle_login_submit earlier matches r st).0 ≡ welcome token user now
    → Named matches user st.users r.form × ((blocked st.limiter r.ip r.now r.now).0 ≡ false)
unfolding handle_login_submit
handle_login_submit-Named earlier matches r token user now st e =
    submit_form-Named earlier matches r token user now r.form st e
