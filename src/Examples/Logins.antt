-- ===== src/Examples/Logins.antt =====
-- internal/web/access.go, auth.go and middleware.go on a few logins.
use birdy.Common.{
  ℕ, ◌≤◌, Bool, true, false, List, [], ◌∷◌, some, Text, codes, ◌≡◌, refl, arith, text_eq, length,
  All, ltb, look, put, remove,
}
use birdy.Access.{
  new_login_limiter, Call, failed, asked, limiter_run, blocked, fail, minutes,
  max_login_limiter_entries, prune, is_fresh, evict, oldest_from, reset,
}
use birdy.Access.Bound.{limiter_run-length}
use birdy.Access.Lockout.{failures, blocked-few}
use birdy.Access.Counting.{Timely}
use birdy.Access.Locked.{blocked-failures}
use birdy.Access.Sessions.{
  User, Auth, LoginSubmit, submitted, welcome, runs, require_auth, serve_all, handle_login_submit,
  create_session, prune_expired_sessions, find_session, get_user_by_username, get_session, serve,
  delete_session,
}
use birdy.Access.Grants.{Granted, require_auth-Granted}
use birdy.Access.Passwords.{Named, handle_login_submit-Named}

abbrev ip : Text
ip = codes "192.0.2.1"

abbrev calls : List Call
calls = failed ip 10 ∷ asked ip 20 20 ∷ failed ip 20 ∷ failed ip 30 ∷ failed ip 40 ∷ []

limiter_run-length_example :
    length ((limiter_run new_login_limiter calls).by_ip) ≤ max_login_limiter_entries
limiter_run-length_example = limiter_run-length calls

four : failures ip calls ≡ 4
unfolding text_eq
four = refl

blocked-few_example : (blocked (limiter_run new_login_limiter calls) ip 50 50).0 ≡ false
blocked-few_example = blocked-few calls ip 50 50 (omega (arith, four))

calls-Timely : All (Timely 10 (minutes 15) ip) calls
unfolding Timely
calls-Timely = (
  (omega arith, omega arith),
  (
    omega arith,
    ((omega arith, omega arith), ((omega arith, omega arith), ((omega arith, omega arith), tt))),
  ),
)

blocked-failures_example :
    (blocked (fail (limiter_run new_login_limiter calls) ip 50) ip 60 60).0 ≡ true
blocked-failures_example =
    blocked-failures calls ip 10 50 60 60 calls-Timely (omega (arith, four)) (omega arith)
      (omega arith) (omega arith) (omega arith) (omega arith)

abbrev admin : User
admin = record { id = 1; username = codes "admin"; password_hash = codes "pw" }

-- An encoding of times whose text compares as the times do, and a hash that keeps the password.
abbrev earlier : ℕ → ℕ → Bool
earlier = ltb

abbrev matches : Text → Text → Bool
matches = text_eq

abbrev right : LoginSubmit
right = record {
  form = some (codes "admin", codes "pw");
  ip = ip;
  now = 100;
  lookup_fault = false;
  delete_fault = false;
  insert_fault = false;
  token = some (codes "t");
}

abbrev start : Auth
start = record { limiter = new_login_limiter; sessions = []; users = admin ∷ [] }

logged_in : (handle_login_submit earlier matches right start).0 ≡ welcome (codes "t") 1 100
unfolding handle_login_submit new_login_limiter blocked prune is_fresh evict oldest_from look put
    remove reset fail create_session prune_expired_sessions find_session get_user_by_username
    text_eq
logged_in = refl

handle_login_submit-Named_example :
    Named matches 1 (admin ∷ []) (some (codes "admin", codes "pw"))
    × ((blocked new_login_limiter ip 100 100).0 ≡ false)
handle_login_submit-Named_example =
    handle_login_submit-Named earlier matches right (codes "t") 1 100 start logged_in

served :
    (require_auth false false 200
      (some (codes "t"))
      ((serve_all earlier matches (submitted right ∷ []) [] start).1.sessions)).0
    ≡ runs 1
unfolding require_auth get_session serve_all serve delete_session handle_login_submit
    new_login_limiter blocked prune is_fresh evict oldest_from look put remove reset fail
    create_session prune_expired_sessions find_session get_user_by_username text_eq
served = refl

require_auth-Granted_example :
    Granted (codes "t") 1 200 ((serve_all earlier matches (submitted right ∷ []) [] start).0)
require_auth-Granted_example =
    require_auth-Granted earlier matches new_login_limiter (admin ∷ []) (submitted right ∷ []) false
      false 200 1 (codes "t") served
