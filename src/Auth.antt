-- ===== src/Auth.antt =====
-- internal/auth/auth.go: the administrator, the limit on attempts, and the sessions. The two
-- tables of the database that it uses are part of the state; times are in nanoseconds. Within one
-- call the clock is read once.
pub mod Limit
pub mod Sessions
pub mod Attempts
pub mod Guessing
mod Examples
use avahi_manager.Prelude.{
  ℕ, zero, suc, ◌+◌, Bool, true, false, not, ◌&&◌, Option, none, some, List, [], ◌∷◌, Str, same,
  Map, get, put, del, length, leb, ltb, ◌==◌, if◌then◌else◌,
}

pub record Attempt : Type 0 where
  pub count : ℕ
  pub expires : ℕ

pub record User : Type 0 where
  pub username : Str
  pub password_hash : Str

-- a row of `sessions`
pub record Row : Type 0 where
  pub id : Str
  pub token_hash : Str
  pub expires_at : ℕ
  pub created_at : ℕ

pub record Auth : Type 0 where
  pub user : Option User
  pub sessions : List Row
  pub attempts : Map Attempt
  -- the passwords that are being verified by other calls
  pub verifying : ℕ

pub record Session : Type 0 where
  pub username : Str
  pub csrf : Str
  pub expires_at : ℕ

pub data AuthError : Type 0 where
  invalid_username weak_password credentials rate_limit no_session database_error random_error :
      AuthError

pub data Answer (A : Type 0) : Type 0 where
  granted : A → Answer A
  denied : AuthError → Answer A

-- Argon2, SHA-256 and HMAC, the name pattern, and the hash of a random password
pub record Crypto : Type 0 where
  pub hash_password : Str → Option Str
  pub verify_password : Str → Str → Bool
  pub token_hash : Str → Str
  pub csrf : Str → Str
  pub username_ok : Str → Bool
  pub dummy : Str

-- What a call meets: the time, what the random source gives, if anything, and whether the query
-- and the transaction of the database succeed.
pub record Call : Type 0 where
  pub now : ℕ
  pub token : Option Str
  pub id : Option Str
  pub query_ok : Bool
  pub commit_ok : Bool

abbrev pub window : ℕ
window = 900000000000

abbrev pub session_time : ℕ
session_time = 43200000000000

-- the first loop of `allow`
unfoldable pub drop_expired : ℕ → Map Attempt → Map Attempt
drop_expired now [] = []
drop_expired now ((k, a) ∷ m) =
    let rest = drop_expired now m in if ltb a.expires now then rest else (k, a) ∷ rest

-- `allow`, at the attempt found
unfoldable pub allow_at : ℕ → Str → Option Attempt → Map Attempt → Bool × Map Attempt
unfolding put
allow_at now key none m =
    if leb 4096 (length m)
    then (false, m)
    else (true, put key (record { count = 1; expires = now + window }) m)
allow_at now key (some a) m =
    if leb 5 a.count then (false, m) else (true, put key (record a { count = a.count + 1 }) m)

-- `allow`: a count is never zero in the map, where the zero value is what is not there
unfoldable pub allow : ℕ → Str → Map Attempt → Bool × Map Attempt
unfolding allow_at drop_expired get
allow now key m = allow_at now key (get key (drop_expired now m)) (drop_expired now m)

-- `ORDER BY created_at DESC`
unfoldable pub insert_row : Row → List Row → List Row
insert_row r [] = r ∷ []
insert_row r (s ∷ rows) =
    let rest = insert_row r rows in if ltb r.created_at s.created_at then s ∷ rest else r ∷ s ∷ rows

unfoldable pub latest_first : List Row → List Row
unfolding insert_row
latest_first [] = []
latest_first (r ∷ rows) = insert_row r (latest_first rows)

-- the first rows, as many as the limit
unfoldable pub limited : ℕ → List Row → List Row
limited zero rows = []
limited (suc n) [] = []
limited (suc n) (r ∷ rows) = r ∷ limited n rows

-- `DELETE ... WHERE expires_at <= now`
unfoldable pub unexpired : ℕ → List Row → List Row
unexpired now [] = []
unexpired now (r ∷ rows) =
    let rest = unexpired now rows in if leb r.expires_at now then rest else r ∷ rest

-- the transaction of `Login`
unfoldable pub with_session : ℕ → Row → List Row → List Row
unfolding limited latest_first unexpired
with_session now r rows = r ∷ limited 19 (latest_first (unexpired now rows))

module _ (c : Crypto) where
  -- `CreateAdmin`: the row with the identifier 1 is inserted once
  abbrev insert_admin : Str → Bool → Option Str → Option User → Auth → Answer (Unit {0}) × Auth
  insert_admin name fine none u a = (denied weak_password, a)
  insert_admin name fine (some h) (some u) a = (denied database_error, a)
  insert_admin name false (some h) none a = (denied database_error, a)
  insert_admin name true (some h) none a =
      (granted tt, record a { user = some (record { username = name; password_hash = h }) })

  unfoldable pub create_admin : Call → Str → Str → Auth → Answer (Unit {0}) × Auth
  create_admin k name password a =
      if not (c.username_ok name)
      then (denied invalid_username, a)
      else insert_admin name k.commit_ok (c.hash_password password) a.user a

  -- the check of a name and a password; without a user a hash is verified all the same
  abbrev pub admits : Option User → Str → Str → Bool
  admits none name password = false
  admits (some u) name password =
      c.verify_password (if same u.password_hash [] then c.dummy else u.password_hash) password
      && same name u.username

  -- `Login` behind the check
  unfoldable pub open_session :
      Call → Str → Option Str → Option Str → Auth → Answer (Str × Session) × Auth
  unfolding with_session del
  open_session k ip none id a = (denied random_error, a)
  open_session k ip (some token) none a = (denied random_error, a)
  open_session k ip (some token) (some id) a =
      if not k.commit_ok
      then (denied database_error, a)
      else let row : Row = record {
        id = id;
        token_hash = c.token_hash token;
        expires_at = k.now + session_time;
        created_at = k.now;
      } in
        let session : Session = record {
          username = elim a.user [ none ↦ [] | some u ↦ u.username ];
          csrf = c.csrf token;
          expires_at = k.now + session_time;
        } in
        (
          granted (token, session),
          record a { sessions = with_session k.now row a.sessions; attempts = del ip a.attempts },
        )

  -- `Login` behind `allow`
  unfoldable pub login_allowed : Call → Str → Str → Str → Auth → Answer (Str × Session) × Auth
  unfolding open_session same
  login_allowed k ip name password a =
      if leb 2 a.verifying
      then (denied rate_limit, a)
      else if not k.query_ok
      then (denied database_error, a)
      else if not (admits a.user name password)
      then (denied credentials, a)
      else open_session k ip k.token k.id a

  -- `Login`
  unfoldable pub login : Call → Str → Str → Str → Auth → Answer (Str × Session) × Auth
  unfolding login_allowed allow
  login k ip name password a =
      let (fine, attempts) = allow k.now ip a.attempts in
      if fine
      then login_allowed k ip name password (record a { attempts = attempts })
      else (denied rate_limit, record a { attempts = attempts })

  -- the query of `Session`
  unfoldable pub find_row : ℕ → Str → List Row → Option Row
  unfolding same
  find_row now hash [] = none
  find_row now hash (r ∷ rows) =
      if same r.token_hash hash && ltb now r.expires_at then some r else find_row now hash rows

  abbrev answer_session : Str → Option User → Option Row → Answer Session
  answer_session token none r = denied no_session
  answer_session token (some u) none = denied no_session
  answer_session token (some u) (some r) =
      granted (record { username = u.username; csrf = c.csrf token; expires_at = r.expires_at })

  -- `Session`
  unfoldable pub session : Call → Str → Auth → Answer Session
  unfolding find_row
  session k token a =
      if not (length token == 64)
      then denied no_session
      else if not k.query_ok
      then denied database_error
      else answer_session token a.user (find_row k.now (c.token_hash token) a.sessions)

  -- `DELETE FROM sessions WHERE token_hash = ?`
  unfoldable pub without : Str → List Row → List Row
  unfolding same
  without hash [] = []
  without hash (r ∷ rows) =
      let rest = without hash rows in if same r.token_hash hash then rest else r ∷ rest

  -- `Logout`
  unfoldable pub logout : Call → Str → Auth → Answer (Unit {0}) × Auth
  unfolding without
  logout k token a =
      if k.commit_ok
      then (granted tt, record a { sessions = without (c.token_hash token) a.sessions })
      else (denied database_error, a)
