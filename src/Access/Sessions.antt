-- ===== src/Access/Sessions.antt =====
-- internal/store/sessions.go, internal/web/auth.go and requireAuth of internal/web/middleware.go: the
-- sessions of logged-in browsers. A `Bool` argument named `fault` says that the database fails a
-- statement. SQL compares the times of sessions as text: `earlier` is that comparison. `matches` is
-- bcrypt's comparison of a hash with a password, and a request carries the token that `crypto/rand`
-- gave it. The clock stands still within one request. The theme cookie is left out.
use birdy.Common.{
  ℕ, ◌+◌, ◌*◌, Bool, true, false, not, List, [], ◌∷◌, ◌++◌, Option, none, some, Text, text_eq,
  if◌then◌else◌, ltb, keep_if,
}
use birdy.Access.{LoginLimiter, blocked, fail, reset}

pub record Session : Type 0 where
  pub token : Text
  pub user_id : ℕ
  pub expires_at : ℕ

pub record User : Type 0 where
  pub id : ℕ
  pub username : Text
  pub password_hash : Text

pub data Result (A : Type 0) : Type 0 where
  err : Result A
  ok : A → Result A

abbrev pub Sessions : Type 0
Sessions = List Session

unfoldable pub find_session : Text → Sessions → Option Session
find_session token [] = none
find_session token (s ∷ ss) = if text_eq s.token token then some s else find_session token ss

-- `DELETE FROM sessions WHERE token = ?`
unfoldable pub delete_session : Text → Sessions → Sessions
delete_session token ss = keep_if (λ (s : Session). not (text_eq s.token token)) ss

-- `DELETE FROM sessions WHERE expires_at < ?`
unfoldable pub prune_expired_sessions : (ℕ → ℕ → Bool) → ℕ → Sessions → Sessions
prune_expired_sessions earlier now ss = keep_if (λ (s : Session). not (earlier s.expires_at now)) ss

abbrev pub inserted : Bool → Session → Option Session → Sessions → Result Unit × Sessions
inserted true s taken ss = (err, ss)
inserted false s none ss = (ok tt, ss ++ s ∷ [])
inserted false s (some t) ss = (err, ss)

-- The token is the table's key.
unfoldable pub create_session :
    (ℕ → ℕ → Bool) → Bool → Bool → ℕ → Session → Sessions → Result Unit × Sessions
unfolding prune_expired_sessions find_session
create_session earlier true insert_fault now s ss = (err, ss)
create_session earlier false insert_fault now s ss =
    let kept = prune_expired_sessions earlier now ss in
    inserted insert_fault s (find_session s.token kept) kept

abbrev pub if_expired : Bool → Bool → Text → Session → Sessions → Result (Option Session) × Sessions
if_expired false delete_fault token s ss = (ok (some s), ss)
if_expired true true token s ss = (err, ss)
if_expired true false token s ss = (ok none, delete_session token ss)

abbrev pub checked_session :
    Bool → ℕ → Text → Option Session → Sessions → Result (Option Session) × Sessions
checked_session delete_fault now token none ss = (ok none, ss)
checked_session delete_fault now token (some s) ss =
    if_expired (ltb s.expires_at now) delete_fault token s ss

unfoldable pub get_session : Bool → Bool → ℕ → Text → Sessions → Result (Option Session) × Sessions
unfolding find_session delete_session
get_session true delete_fault now token ss = (err, ss)
get_session false delete_fault now token ss =
    checked_session delete_fault now token (find_session token ss) ss

pub data Answer : Type 0 where
  to_login internal_error bad_form locked wrong to_dashboard login_page : Answer
  welcome : Text → ℕ → ℕ → Answer
  runs : ℕ → Answer

abbrev pub authorized : Result (Option Session) → Answer
authorized err = internal_error
authorized (ok none) = to_login
authorized (ok (some s)) = runs s.user_id

-- The handler behind it runs for the session's user.
unfoldable pub require_auth : Bool → Bool → ℕ → Option Text → Sessions → Answer × Sessions
unfolding get_session
require_auth fault delete_fault now none ss = (to_login, ss)
require_auth fault delete_fault now (some cookie) ss =
    let (found, ss') = get_session fault delete_fault now cookie ss in (authorized found, ss')

abbrev pub login_form : Result (Option Session) → Answer
login_form (ok (some s)) = to_dashboard
login_form found = login_page

unfoldable pub handle_login_form : Bool → Bool → ℕ → Option Text → Sessions → Answer × Sessions
unfolding get_session
handle_login_form fault delete_fault now none ss = (login_page, ss)
handle_login_form fault delete_fault now (some cookie) ss =
    let (found, ss') = get_session fault delete_fault now cookie ss in (login_form found, ss')

unfoldable pub handle_logout : Bool → Option Text → Sessions → Answer × Sessions
unfolding delete_session
handle_logout fault none ss = (to_login, ss)
handle_logout fault (some cookie) ss = (to_login, if fault then ss else delete_session cookie ss)

pub record Auth : Type 0 where
  pub limiter : LoginLimiter
  pub sessions : Sessions
  pub users : List User

-- One submitted login form: its sender, what the clock shows, and what goes wrong.
pub record LoginSubmit : Type 0 where
  pub form : Option (Text × Text)
  pub ip : Text
  pub now : ℕ
  pub lookup_fault : Bool
  pub delete_fault : Bool
  pub insert_fault : Bool
  pub token : Option Text

unfoldable pub get_user_by_username : Text → List User → Option User
get_user_by_username name [] = none
get_user_by_username name (u ∷ us) =
    if text_eq u.username name then some u else get_user_by_username name us

abbrev pub session_ttl : ℕ
session_ttl = 7 * 24 * 3600 * 1000000000

abbrev pub session_made : Text → ℕ → ℕ → Auth → Result Unit × Sessions → Answer × Auth
session_made token user now st (err, ss) = (internal_error, record st { sessions = ss })
session_made token user now st (ok done, ss) = (welcome token user now, record st { sessions = ss })

abbrev pub start_session : (ℕ → ℕ → Bool) → LoginSubmit → ℕ → Option Text → Auth → Answer × Auth
start_session earlier r user none st = (internal_error, st)
start_session earlier r user (some token) st =
    let s : Session = record { token = token; user_id = user; expires_at = r.now + session_ttl } in
    session_made token user r.now st
      (create_session earlier r.delete_fault r.insert_fault r.now s st.sessions)

abbrev pub verified : (ℕ → ℕ → Bool) → LoginSubmit → ℕ → Bool → Auth → Answer × Auth
verified earlier r user false st = (wrong, record st { limiter = fail st.limiter r.ip r.now })
verified earlier r user true st =
    start_session earlier r user r.token (record st { limiter = reset st.limiter r.ip })

-- The comparison with the dummy hash, when there is no such user, does not count.
abbrev pub check_password :
    (ℕ → ℕ → Bool) → (Text → Text → Bool) → LoginSubmit → Text → Option User → Auth → Answer × Auth
check_password earlier matches r password none st = verified earlier r 0 false st
check_password earlier matches r password (some u) st =
    verified earlier r u.id (matches u.password_hash password) st

abbrev pub admitted :
    (ℕ → ℕ → Bool)
    → (Text → Text → Bool)
    → LoginSubmit
    → Text × Text
    → Bool
    → Bool
    → Auth
    → Answer × Auth
admitted earlier matches r form true lookup_fault st = (locked, st)
admitted earlier matches r form false true st = (internal_error, st)
admitted earlier matches r (username, password) false false st =
    check_password earlier matches r password (get_user_by_username username st.users) st

abbrev pub with_limiter : Auth → LoginLimiter → Auth
with_limiter st l = record st { limiter = l }

abbrev pub submit_form :
    (ℕ → ℕ → Bool)
    → (Text → Text → Bool)
    → LoginSubmit
    → Option (Text × Text)
    → Auth
    → Answer × Auth
submit_form earlier matches r none st = (bad_form, st)
submit_form earlier matches r (some form) st =
    let asked = blocked st.limiter r.ip r.now r.now in
    admitted earlier matches r form (asked.0) r.lookup_fault (with_limiter st (asked.1))

unfoldable pub handle_login_submit :
    (ℕ → ℕ → Bool) → (Text → Text → Bool) → LoginSubmit → Auth → Answer × Auth
unfolding blocked
handle_login_submit earlier matches r st = submit_form earlier matches r r.form st

-- What a browser asks, and the background task that prunes sessions.
pub data Request : Type 0 where
  submitted : LoginSubmit → Request
  opened : Bool → Bool → ℕ → Option Text → Request
  visited : Bool → Bool → ℕ → Option Text → Request
  left : Bool → Option Text → Request
  swept : ℕ → Request

abbrev with_sessions : Auth → Answer × Sessions → Answer × Auth
with_sessions st (a, ss) = (a, record st { sessions = ss })

-- A sweep has no answer; it is given that of a page that shows nothing.
unfoldable pub serve : (ℕ → ℕ → Bool) → (Text → Text → Bool) → Request → Auth → Answer × Auth
unfolding handle_login_submit handle_login_form require_auth handle_logout prune_expired_sessions
serve earlier matches (submitted r) st = handle_login_submit earlier matches r st
serve earlier matches (opened fault delete_fault now cookie) st =
    with_sessions st (handle_login_form fault delete_fault now cookie st.sessions)
serve earlier matches (visited fault delete_fault now cookie) st =
    with_sessions st (require_auth fault delete_fault now cookie st.sessions)
serve earlier matches (left fault cookie) st =
    with_sessions st (handle_logout fault cookie st.sessions)
serve earlier matches (swept now) st =
    (login_page, record st { sessions = prune_expired_sessions earlier now st.sessions })

-- The answers of a run, the newest first, after those before it.
unfoldable pub serve_all :
    (ℕ → ℕ → Bool) → (Text → Text → Bool) → List Request → List Answer → Auth → List Answer × Auth
unfolding serve
serve_all earlier matches [] answers st = (answers, st)
serve_all earlier matches (r ∷ rs) answers st =
    let (a, st') = serve earlier matches r st in serve_all earlier matches rs (a ∷ answers) st'
