-- ===== src/Auth/Attempts.antt =====
-- What `Login` and `allow` do to the attempts of an address.
use avahi_manager.Auth.{
  Attempt, Auth, Session, Answer, granted, denied, rate_limit, Crypto, Call, allow, allow_at,
  drop_expired, open_session, login_allowed, login, window, admits,
}
use avahi_manager.Auth.Limit.{drop_expired-live, drop_expired-none}
use avahi_manager.Prelude.{
  Str, Bool, ℕ, same, false, Map, Option, if_lem, true, ◌≡◌, get, some, leb, if◌then◌else◌, ◌≤◌,
  none, ◌<◌, del, not, refl, length, ◌+◌, arith, get-put, get-put_self,
}

-- one call of `Login`
pub record Try : Type 0 where
  pub call : Call
  pub ip : Str
  pub name : Str
  pub password : Str

-- The answer is not that of the limit.
abbrev pub answered : {A : Type 0} → Answer A → Bool
answered (denied rate_limit) = false
answered _ = true

abbrev pub NotGranted : {A : Type 0} → Answer A → Type 0
NotGranted (granted _) = ⊥
NotGranted (denied _) = Unit

-- the attempt of the address, if there is one, after a call for another address
pub allow-live :
    (now : ℕ) (key ip : Str) (at : Attempt) (m : Map Attempt)
    → same key ip ≡ false
    → get ip m ≡ some at
    → now ≤ at.expires
    → get ip (allow now key m).1 ≡ some at
unfolding allow allow_at
allow-live now key ip at m ne g l =
    let kept = drop_expired-live now ip at m g l in by_attempt (get key (drop_expired now m)) kept
  where
    by_attempt :
        (o : Option Attempt)
        → get ip (drop_expired now m) ≡ some at
        → get ip (allow_at now key o (drop_expired now m)).1 ≡ some at
    by_attempt none h =
        if_lem (λ (r : Bool × Map Attempt). get ip r.1 ≡ some at)
          (leb 4096 (length (drop_expired now m))) _ _ (λ _. h) (λ _. rw get-put (rw ne h))
    by_attempt (some b) h =
        if_lem (λ (r : Bool × Map Attempt). get ip r.1 ≡ some at) (leb 5 b.count) _ _ (λ _. h)
          (λ _. rw get-put (rw ne h))

pub allow-none :
    (now : ℕ) (key ip : Str) (m : Map Attempt)
    → same key ip ≡ false
    → get ip m ≡ none
    → get ip (allow now key m).1 ≡ none
unfolding allow allow_at
allow-none now key ip m ne g =
    by_attempt (get key (drop_expired now m)) (drop_expired-none now ip m g)
  where
    by_attempt :
        (o : Option Attempt)
        → get ip (drop_expired now m) ≡ none
        → get ip (allow_at now key o (drop_expired now m)).1 ≡ none
    by_attempt none h =
        if_lem (λ (r : Bool × Map Attempt). get ip r.1 ≡ none)
          (leb 4096 (length (drop_expired now m))) _ _ (λ _. h) (λ _. rw get-put (rw ne h))
    by_attempt (some b) h =
        if_lem (λ (r : Bool × Map Attempt). get ip r.1 ≡ none) (leb 5 b.count) _ _ (λ _. h)
          (λ _. rw get-put (rw ne h))

-- what a call of `allow` does to the count of its address
abbrev pub Counted : ℕ → Str → Attempt → Bool × Map Attempt → Type 0
Counted now ip at (false, m) = get ip m ≡ some at
Counted now ip at (true, m) =
    (at.count < 5) × (get ip m ≡ some (record at { count = at.count + 1 }))

pub allow-Counted :
    (now : ℕ) (ip : Str) (at : Attempt) (m : Map Attempt)
    → get ip m ≡ some at
    → now ≤ at.expires
    → Counted now ip at (allow now ip m)
unfolding allow allow_at
allow-Counted now ip at m g l =
    let kept = drop_expired-live now ip at m g l in
    rw kept (
      if_lem (Counted now ip at) (leb 5 at.count) _ _ (λ _. kept)
        (λ e. (ground arith, get-put_self ip _ (drop_expired now m))))

abbrev pub First : ℕ → Str → Bool × Map Attempt → Type 0
First now ip (false, m) = get ip m ≡ none
First now ip (true, m) = get ip m ≡ some (record { count = 1; expires = now + window })

pub allow-First :
    (now : ℕ) (ip : Str) (m : Map Attempt) → get ip m ≡ none → First now ip (allow now ip m)
unfolding allow allow_at
allow-First now ip m g =
    let gone = drop_expired-none now ip m g in
    rw gone (
      if_lem (First now ip) (leb 4096 (length (drop_expired now m))) _ _ (λ _. gone)
        (λ _. get-put_self ip _ (drop_expired now m)))

-- how the attempts change behind `allow`
abbrev pub LeavesAttempts : Str → Map Attempt → Answer (Str × Session) × Auth → Type 0
LeavesAttempts ip m (granted _, a) = a.attempts ≡ del ip m
LeavesAttempts ip m (denied _, a) = a.attempts ≡ m

-- the answer and the attempts, by what `allow` says
abbrev pub After : Str → Bool × Map Attempt → Answer (Str × Session) × Auth → Type 0
After ip (false, m) r = (answered r.0 ≡ false) × LeavesAttempts ip m r
After ip (true, m) r = LeavesAttempts ip m r

module _ (c : Crypto) where
  open_session-attempts :
      (k : Call) (ip : Str) (token id : Option Str) (a : Auth)
      → LeavesAttempts ip a.attempts (open_session c k ip token id a)
  unfolding open_session
  open_session-attempts k ip none id a = refl
  open_session-attempts k ip (some token) none a = refl
  open_session-attempts k ip (some token) (some id) a =
      if_lem (LeavesAttempts ip a.attempts) (not k.commit_ok) _ _ (λ _. refl) (λ _. refl)

  login_allowed-attempts :
      (k : Call) (ip name password : Str) (a : Auth)
      → LeavesAttempts ip a.attempts (login_allowed c k ip name password a)
  unfolding login_allowed
  login_allowed-attempts k ip name password a =
      if_lem (LeavesAttempts ip a.attempts) (leb 2 a.verifying) _ _ (λ _. refl)
        (λ _.
          if_lem (LeavesAttempts ip a.attempts) (not k.query_ok) _ _ (λ _. refl)
            (λ _.
              if_lem (LeavesAttempts ip a.attempts) (not (admits c a.user name password)) _ _
                (λ _. refl) (λ _. open_session-attempts k ip k.token k.id a)))

  pub login-After :
      (k : Call) (ip name password : Str) (a : Auth)
      → After ip (allow k.now ip a.attempts) (login c k ip name password a)
  unfolding login
  login-After k ip name password a = by_limit (allow k.now ip a.attempts)
    where
      by_limit :
          (l : Bool × Map Attempt)
          → After ip l (
              if l.0
              then login_allowed c k ip name password (record a { attempts = l.1 })
              else (denied rate_limit, record a { attempts = l.1 }))
      by_limit (true, m) = login_allowed-attempts k ip name password (record a { attempts = m })
      by_limit (false, m) = (refl, refl)
