-- ===== src/Auth/Examples.antt =====
-- The theorems on sessions and attempts, where their hypotheses hold.
use avahi_manager.Prelude.{
  ℕ, ◌+◌, ◌≡◌, refl, true, some, [], ◌∷◌, arith, Str, codes, same, List, ◌≤◌, before?,
}
use avahi_manager.Auth.{
  Auth, Session, Answer, granted, denied, no_session, Crypto, Call, login, session, logout,
  session_time,
}
use avahi_manager.Auth.Limit.{IsLimited}
use avahi_manager.Auth.Attempts.{Try}
use avahi_manager.Auth.Guessing.{guesses, guesses_bounded}
use avahi_manager.Auth.Sessions.{Logged, login-Logged, login-session, logout-session}

abbrev plain : Crypto
plain = record {
  hash_password = λ p. some p;
  verify_password = λ h p. same h p;
  token_hash = λ t. t;
  csrf = λ t. t;
  username_ok = λ n. true;
  dummy = codes "none";
}

abbrev a_token : Str
a_token = codes "0123456789abcdef0123456789abcdef0123456789abcdef0123456789abcdef"

abbrev call_at : ℕ → Call
call_at t = record {
  now = t;
  token = some a_token;
  id = some (codes "1");
  query_ok = true;
  commit_ok = true;
}

abbrev one_admin : Auth
one_admin = record {
  user = some (record { username = codes "admin"; password_hash = codes "secret" });
  sessions = [];
  attempts = [];
  verifying = 0;
}

abbrev logged_in : (Answer (Str × Session)) × Auth
logged_in = login plain (call_at 5) (codes "10.0.0.2") (codes "admin") (codes "secret") one_admin

abbrev a_session : Session
a_session = record { username = codes "admin"; csrf = a_token; expires_at = 5 + session_time }

login_run : logged_in ≡ (granted (a_token, a_session), logged_in.1)
unfolding login
login_run = refl

login-Logged_example : Logged plain (call_at 5) (codes "admin") (codes "secret") one_admin logged_in
login-Logged_example =
    login-Logged plain (call_at 5) (codes "10.0.0.2") (codes "admin") (codes "secret") one_admin

login-session_example : session plain (call_at 6) a_token logged_in.1 ≡ granted a_session
login-session_example =
    login-session plain (call_at 5) (call_at 6) (codes "10.0.0.2") (codes "admin") (codes "secret")
      a_token a_session one_admin logged_in.1 login_run refl refl (omega arith)

logout-session_example :
    session plain (call_at 7) a_token (logout plain (call_at 6) a_token logged_in.1).1
    ≡ denied no_session
logout-session_example = logout-session plain (call_at 6) (call_at 7) a_token logged_in.1 refl refl

one_attempt : IsLimited ((codes "10.0.0.2", record { count = 5; expires = 9 }) ∷ [])
one_attempt = record {
  sorted = (tt, tt);
  size = omega arith;
  counts = ((omega arith, omega arith), tt);
}

-- a wrong password from an address at a time
abbrev guess : ℕ → Str → Try
guess t ip = record { call = call_at t; ip = ip; name = codes "admin"; password = codes "wrong" }

abbrev seven_tries : List Try
seven_tries =
    guess 1 (codes "10.0.0.2")
    ∷ guess 2 (codes "10.0.0.2")
    ∷ guess 3 (codes "10.0.0.3")
    ∷ guess 4 (codes "10.0.0.2")
    ∷ guess 5 (codes "10.0.0.2")
    ∷ guess 6 (codes "10.0.0.2")
    ∷ guess 7 (codes "10.0.0.2")
    ∷ []

-- The bound is reached, and the sixth try is answered by the limit.
guesses_run : guesses plain (codes "10.0.0.2") seven_tries one_admin ≡ 5
unfolding guesses before?
guesses_run = refl

guesses_bounded_example : guesses plain (codes "10.0.0.2") seven_tries one_admin ≤ 5
unfolding login before?
guesses_bounded_example =
    guesses_bounded plain (codes "10.0.0.2") 1 seven_tries one_admin refl
      (
        (omega arith, omega arith),
        (
          (omega arith, omega arith),
          (
            (omega arith, omega arith),
            (
              (omega arith, omega arith),
              (
                (omega arith, omega arith),
                ((omega arith, omega arith), ((omega arith, omega arith), tt)),
              ),
            ),
          ),
        ),
      )
      ((λ _. tt), ((λ _. tt), ((λ _. tt), ((λ _. tt), ((λ _. tt), ((λ _. tt), ((λ _. tt), tt)))))))
