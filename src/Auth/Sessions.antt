-- ===== src/Auth/Sessions.antt =====
-- `Login`, `Session` and `Logout` together.
use avahi_manager.Prelude.{
  ℕ, zero, suc, ◌+◌, ◌≤◌, ◌<◌, ◌≡◌, refl, sym, ap, ◌∙◌, subst, inl, inr, true, false, not, ◌&&◌,
  Option, none, some, List, [], ◌∷◌, arith, Str, same, same_iff, Map, length, leb, ltb, ◌==◌,
  if◌then◌else◌, Bool-cases, &&-eq-true, if_lem, ==_iff,
}
use avahi_manager.Auth.{
  Auth, User, Row, Session, Answer, granted, denied, no_session, Crypto, Call, session_time,
  with_session, limited, latest_first, unexpired, login, login_allowed, open_session, admits,
  session, find_row, without, logout, allow, answer_session, Attempt,
}

length-limited : (n : ℕ) (rows : List Row) → length (limited n rows) ≤ n
unfolding limited
length-limited zero rows = omega arith
length-limited (suc n) [] = omega arith
length-limited (suc n) (r ∷ rows) = omega (arith, length-limited n rows)

module _ (c : Crypto) where
  -- what a login that succeeds has checked, and the session that it leaves
  pub record Opened (k : Call) (name password : Str) (a a' : Auth) (token : Str) (s : Session)
      : Type 0 where
    pub user : User
    pub there : a.user ≡ some user
    pub named : name ≡ user.username
    pub admitted : admits c a.user name password ≡ true
    pub user_kept : a'.user ≡ a.user
    pub row : Row
    pub older : List Row
    pub rows : a'.sessions ≡ row ∷ older
    pub bounded : length older ≤ 19
    pub hash : row.token_hash ≡ c.token_hash token
    pub until : row.expires_at ≡ k.now + session_time
    pub answer :
        s ≡ record { username = user.username; csrf = c.csrf token; expires_at = row.expires_at }

  -- what `Login` has done, by its answer
  abbrev pub Logged : Call → Str → Str → Auth → Answer (Str × Session) × Auth → Type 0
  Logged k name password a (granted (token, s), a') = Opened k name password a a' token s
  Logged k name password a (denied e, a') = (a'.user ≡ a.user) × (a'.sessions ≡ a.sessions)

  named_user :
      (u : User) (name password : Str) → admits c (some u) name password ≡ true → name ≡ u.username
  named_user u name password h =
      (same_iff name u.username).0
        (&&-eq-true
          (c.verify_password (if same u.password_hash [] then c.dummy else u.password_hash)
            password)
          _ h).1

  -- a login with the attempts counted, when name and password are right
  open_session-Logged :
      (k : Call) (ip name password : Str) (token id : Option Str) (u : User) (a : Auth)
      → a.user ≡ some u
      → admits c a.user name password ≡ true
      → Logged k name password a (open_session c k ip token id a)
  unfolding open_session with_session
  open_session-Logged k ip name password none id u a e h = (refl, refl)
  open_session-Logged k ip name password (some t) none u a e h = (refl, refl)
  open_session-Logged k ip name password (some t) (some id) u a e h =
      if_lem (Logged k name password a) (not k.commit_ok) _ _ (λ b. (refl, refl))
        (λ b. record {
          user = u;
          there = e;
          named =
              named_user u name password
                (subst (λ (o : Option User). admits c o name password ≡ true) e h);
          admitted = h;
          user_kept = refl;
          row = record {
            id = id;
            token_hash = c.token_hash t;
            expires_at = k.now + session_time;
            created_at = k.now;
          };
          older = limited 19 (latest_first (unexpired k.now a.sessions));
          rows = refl;
          bounded = length-limited 19 _;
          hash = refl;
          until = refl;
          answer = rw e refl;
        })

  admitted_user :
      (o : Option User) (name password : Str)
      → admits c o name password ≡ true
      → (u : User) × (o ≡ some u)
  admitted_user none name password h = cc
  admitted_user (some u) name password h = (u, refl)

  login_allowed-Logged :
      (k : Call) (ip name password : Str) (a : Auth)
      → Logged k name password a (login_allowed c k ip name password a)
  unfolding login_allowed
  login_allowed-Logged k ip name password a =
      if_lem (Logged k name password a) (leb 2 a.verifying) _ _ (λ b. (refl, refl))
        (λ b.
          if_lem (Logged k name password a) (not k.query_ok) _ _ (λ b. (refl, refl))
            (λ b.
              if_lem (Logged k name password a) (not (admits c a.user name password)) _ _
                (λ b. (refl, refl))
                (λ b.
                  let h : admits c a.user name password ≡ true = ground arith in
                  let u = admitted_user a.user name password h in
                  open_session-Logged k ip name password k.token k.id u.0 a u.1 h)))

  with_attempts :
      (k : Call) (name password : Str) (a : Auth) (m : Map Attempt)
      (r : Answer (Str × Session) × Auth)
      → Logged k name password (record a { attempts = m }) r
      → Logged k name password a r
  with_attempts k name password a m (granted (t, s), a') o = record {
    user = o.user;
    there = o.there;
    named = o.named;
    admitted = o.admitted;
    user_kept = o.user_kept;
    row = o.row;
    older = o.older;
    rows = o.rows;
    bounded = o.bounded;
    hash = o.hash;
    until = o.until;
    answer = o.answer;
  }
  with_attempts k name password a m (denied e, a') o = o

  -- `Login` answers with a session only to the name and the password of the administrator; then
  -- its token has a row of its own in front of at most 19 older ones, which is valid for twelve
  -- hours, and the user is as before. If it denies, users and sessions are as before.
  pub login-Logged :
      (k : Call) (ip name password : Str) (a : Auth)
      → Logged k name password a (login c k ip name password a)
  unfolding login
  login-Logged k ip name password a =
      if_lem (Logged k name password a) (allow k.now ip a.attempts).0 _ _
        (λ b. with_attempts k name password a (allow k.now ip a.attempts).1 _ (
          login_allowed-Logged k ip name password
            (record a { attempts = (allow k.now ip a.attempts).1 })))
        (λ b. (refl, refl))

  find_first :
      (now : ℕ) (hash : Str) (row : Row) (rows : List Row)
      → row.token_hash ≡ hash
      → now < row.expires_at
      → find_row c now hash (row ∷ rows) ≡ some row
  unfolding find_row
  find_first now hash row rows h t =
      if_lem (λ (o : Option Row). o ≡ some row) (same row.token_hash hash && ltb now row.expires_at)
        _ _ (λ b. refl) (λ b. absurd (both ((same_iff row.token_hash hash).1 h) b))
    where
      both :
          same row.token_hash hash ≡ true
          → (same row.token_hash hash && ltb now row.expires_at) ≡ false
          → ⊥
      both h b = ground (arith, t)

  session-found :
      (k : Call) (token : Str) (a : Auth) (u : User) (row : Row)
      → length token ≡ 64
      → k.query_ok ≡ true
      → a.user ≡ some u
      → find_row c k.now (c.token_hash token) a.sessions ≡ some row
      → session c k token a
        ≡ granted
            (record { username = u.username; csrf = c.csrf token; expires_at = row.expires_at })
  unfolding session
  session-found k token a u row l q h f =
      rw ((==_iff (length token) 64).1 l) (rw q (rw h (rw f refl)))

  -- A session that `Login` gave is what `Session` answers for its token, until it expires.
  pub login-session :
      (k later : Call) (ip name password token : Str) (s : Session) (a a' : Auth)
      → login c k ip name password a ≡ (granted (token, s), a')
      → length token ≡ 64
      → later.query_ok ≡ true
      → later.now < k.now + session_time
      → session c later token a' ≡ granted s
  login-session k later ip name password token s a a' e l q t =
      let o : Opened k name password a a' token s =
        subst (Logged k name password a) e (login-Logged k ip name password a) in
      session-found later token a' o.user o.row l q (o.user_kept ∙ o.there) (
        ap (find_row c later.now (c.token_hash token)) o.rows
        ∙ find_first later.now (c.token_hash token) o.row o.older o.hash
            (omega (arith, o.until, t)))
      ∙ ap granted (sym o.answer)

  without-absent :
      (now : ℕ) (hash : Str) (rows : List Row) → find_row c now hash (without c hash rows) ≡ none
  unfolding find_row without
  without-absent now hash [] = refl
  without-absent now hash (r ∷ rows) = elim (Bool-cases (same r.token_hash hash)) [
    | inl e ↦ rw e (without-absent now hash rows)
    | inr e ↦ rw e (rw e (without-absent now hash rows))
  ]

  answer_none : (token : Str) (o : Option User) → answer_session c token o none ≡ denied no_session
  answer_none token none = refl
  answer_none token (some u) = refl

  session-missing :
      (k : Call) (token : Str) (a : Auth)
      → k.query_ok ≡ true
      → find_row c k.now (c.token_hash token) a.sessions ≡ none
      → session c k token a ≡ denied no_session
  unfolding session
  session-missing k token a q f =
      if_lem (λ (r : Answer Session). r ≡ denied no_session) (not (length token == 64)) _ _
        (λ b. refl) (λ b. rw q (rw f (answer_none token a.user)))

  -- After a `Logout` that the database has carried out, no session is found for its token, at any
  -- time.
  pub logout-session :
      (k later : Call) (token : Str) (a : Auth)
      → k.commit_ok ≡ true
      → later.query_ok ≡ true
      → session c later token (logout c k token a).1 ≡ denied no_session
  unfolding logout
  logout-session k later token a h q =
      session-missing later token (logout c k token a).1 q
        (rw h (without-absent later.now (c.token_hash token) a.sessions))

  -- `Login` leaves at most twenty sessions, if there were no more before.
  pub login_bounded :
      (k : Call) (ip name password : Str) (a : Auth)
      → length a.sessions ≤ 20
      → length (login c k ip name password a).1.sessions ≤ 20
  login_bounded k ip name password a h =
      few (login c k ip name password a) (login-Logged k ip name password a)
    where
      few :
          (r : Answer (Str × Session) × Auth)
          → Logged k name password a r
          → length r.1.sessions ≤ 20
      few (granted (t, s), a') o = rw o.rows (omega (arith, o.bounded))
      few (denied e, a') (_, q) = rw q h
