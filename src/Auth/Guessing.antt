-- ===== src/Auth/Guessing.antt =====
-- The limit on attempts as `Login` keeps it: a sequence of logins from any addresses.
use avahi_manager.Auth.{
  Attempt, Auth, Session, Answer, granted, denied, Crypto, allow, login, window,
}
use avahi_manager.Prelude.{
  Str, Bool, ℕ, same, false, Map, Option, if_lem, List, true, ◌≡◌, get, some, if◌then◌else◌, ◌∷◌,
  ◌≤◌, none, ◌&&◌, [], get-del, refl, ◌+◌, arith, suc, All, ap, ◌∙◌, subst, Bool-cases, inr, inl,
  same_iff, sym,
}
use avahi_manager.Auth.Attempts.{
  Try, answered, NotGranted, allow-live, allow-none, Counted, allow-Counted, First, allow-First,
  LeavesAttempts, After, login-After,
}

module _ (c : Crypto) where
  abbrev run_login : Try → Auth → Answer (Str × Session) × Auth
  run_login t a = login c t.call t.ip t.name t.password a

  -- how many of the logins of the address are answered otherwise than by the limit
  unfoldable pub guesses : Str → List Try → Auth → ℕ
  unfolding login same
  guesses ip [] a = 0
  guesses ip (t ∷ ts) a =
      let r = run_login t a in
      let rest = guesses ip ts r.1 in if same t.ip ip && answered r.0 then suc rest else rest

  -- No login of the address succeeds.
  abbrev pub NoEntry : Str → List Try → Auth → Type 0
  NoEntry ip [] a = Unit
  NoEntry ip (t ∷ ts) a =
      (t.ip ≡ ip → NotGranted (run_login t a).0) × NoEntry ip ts (run_login t a).1

  -- the attempts after a login of another address
  other_login :
      (t : Try) (ip : Str) (a : Auth) (o : Option Attempt)
      → same t.ip ip ≡ false
      → get ip (allow t.call.now t.ip a.attempts).1 ≡ o
      → get ip (run_login t a).1.attempts ≡ o
  other_login t ip a o ne h =
      by_limit (allow t.call.now t.ip a.attempts) (run_login t a)
        (login-After c t.call t.ip t.name t.password a) h
    where
      left :
          (m : Map Attempt) (r : Answer (Str × Session) × Auth)
          → LeavesAttempts t.ip m r
          → get ip m ≡ o
          → get ip r.1.attempts ≡ o
      left m (granted x, b) e g = rw e (rw get-del (rw ne g))
      left m (denied x, b) e g = rw e g

      by_limit :
          (l : Bool × Map Attempt) (r : Answer (Str × Session) × Auth)
          → After t.ip l r
          → get ip l.1 ≡ o
          → get ip r.1.attempts ≡ o
      by_limit (true, m) r e g = left m r e g
      by_limit (false, m) r (_, e) g = left m r e g

  -- the answer and the attempts after a login of the address that does not succeed
  own_login :
      (t : Try) (a : Auth) (l : Bool × Map Attempt)
      → After t.ip l (run_login t a)
      → NotGranted (run_login t a).0
      → ((l.0 ≡ false) → answered (run_login t a).0 ≡ false) × ((run_login t a).1.attempts ≡ l.1)
  own_login t a l h n = by_limit l (run_login t a) h n
    where
      left :
          (m : Map Attempt) (r : Answer (Str × Session) × Auth)
          → LeavesAttempts t.ip m r
          → NotGranted r.0
          → r.1.attempts ≡ m
      left m (granted x, b) e q = absurd q
      left m (denied x, b) e q = e

      by_limit :
          (l : Bool × Map Attempt) (r : Answer (Str × Session) × Auth)
          → After t.ip l r
          → NotGranted r.0
          → ((l.0 ≡ false) → answered r.0 ≡ false) × (r.1.attempts ≡ l.1)
      by_limit (true, m) r e q = (λ k. absurd (apart k), left m r e q)
        where
          apart : true ≡ false → ⊥
          apart k = cc
      by_limit (false, m) r (d, e) q = (λ _. d, left m r e q)

  -- an address with a count that does not expire is answered five times at most, counted together
  guesses_counted :
      (ip : Str) (ts : List Try) (at : Attempt) (a : Auth)
      → get ip a.attempts ≡ some at
      → at.count ≤ 5
      → All (λ (t : Try). t.call.now ≤ at.expires) ts
      → NoEntry ip ts a
      → at.count + guesses ip ts a ≤ 5
  unfolding guesses
  guesses_counted ip [] at a g l h n = omega (arith, l)
  guesses_counted ip (t ∷ ts) at a g l (e, h) (n, ns) = elim (Bool-cases (same t.ip ip)) [
    | inr ne ↦ rw ne (
        guesses_counted ip ts at (run_login t a).1
          (other_login t ip a (some at) ne (allow-live t.call.now t.ip ip at a.attempts ne g e)) l h
          ns)
    | inl eq ↦
        let same_ip = (same_iff t.ip ip).0 eq in
        let own =
          own_login t a (allow t.call.now t.ip a.attempts)
            (login-After c t.call t.ip t.name t.password a) (n same_ip) in
        let counted =
          subst (λ (i : Str). Counted t.call.now i at (allow t.call.now i a.attempts)) (sym same_ip)
            (allow-Counted t.call.now ip at a.attempts g e) in
        rw eq (
          by_limit (λ at' b g' l' h' n'. guesses_counted ip ts at' b g' l' h' n') same_ip
            (allow t.call.now t.ip a.attempts) counted own)
  ]
    where
      by_limit :
          ((at' : Attempt) (b : Auth)
            → get ip b.attempts ≡ some at'
            → at'.count ≤ 5
            → All (λ (u : Try). u.call.now ≤ at'.expires) ts
            → NoEntry ip ts b
            → at'.count + guesses ip ts b ≤ 5)
          → t.ip ≡ ip
          → (p : Bool × Map Attempt) → Counted t.call.now t.ip at p
          → ((p.0 ≡ false) → answered (run_login t a).0 ≡ false)
            × ((run_login t a).1.attempts ≡ p.1)
          → at.count
              + (if answered (run_login t a).0
                  then suc (guesses ip ts (run_login t a).1)
                  else guesses ip ts (run_login t a).1)
            ≤ 5
      by_limit ih i (false, m) k (d, e) = rw (d refl) (
          ih at (run_login t a).1 (ap (get ip) e ∙ subst (λ (j : Str). get j m ≡ some at) i k) l h
            ns)
      by_limit ih i (true, m) (small, k) (d, e) =
          let later =
            ih (record at { count = at.count + 1 }) (run_login t a).1
              (ap (get ip) e
                ∙ subst (λ (j : Str). get j m ≡ some (record at { count = at.count + 1 })) i k)
              (omega (arith, small)) h ns in
          if_lem (λ (x : ℕ). at.count + x ≤ 5) (answered (run_login t a).0) _ _
            (λ _. omega (arith, later)) (λ _. omega (arith, later))

  -- The times of the calls lie within the window after the start.
  abbrev pub InWindow : ℕ → Try → Type 0
  InWindow start t = (start ≤ t.call.now) × (t.call.now ≤ start + window)

  in_time :
      (start now : ℕ) (ts : List Try)
      → start ≤ now
      → All (InWindow start) ts
      → All (λ (u : Try). u.call.now ≤ now + window) ts
  in_time start now [] l h = tt
  in_time start now (t ∷ ts) l ((_, e), h) = (omega (arith, l, e), in_time start now ts l h)

  -- Within fifteen minutes, at most five logins of an address without a recorded attempt are
  -- answered otherwise than that there were too many, whatever logins of other addresses stand
  -- between them, if no login of the address succeeds.
  pub guesses_bounded :
      (ip : Str) (start : ℕ) (ts : List Try) (a : Auth)
      → get ip a.attempts ≡ none
      → All (InWindow start) ts
      → NoEntry ip ts a
      → guesses ip ts a ≤ 5
  unfolding guesses
  guesses_bounded ip start [] a g h n = omega arith
  guesses_bounded ip start (t ∷ ts) a g ((e, _), h) (n, ns) = elim (Bool-cases (same t.ip ip)) [
    | inr ne ↦ rw ne (
        guesses_bounded ip start ts (run_login t a).1
          (other_login t ip a none ne (allow-none t.call.now t.ip ip a.attempts ne g)) h ns)
    | inl eq ↦
        let same_ip = (same_iff t.ip ip).0 eq in
        let own =
          own_login t a (allow t.call.now t.ip a.attempts)
            (login-After c t.call t.ip t.name t.password a) (n same_ip) in
        let first =
          subst (λ (i : Str). First t.call.now i (allow t.call.now i a.attempts)) (sym same_ip)
            (allow-First t.call.now ip a.attempts g) in
        rw eq (
          by_limit (λ g'. guesses_bounded ip start ts (run_login t a).1 g' h ns) same_ip
            (allow t.call.now t.ip a.attempts) first own)
  ]
    where
      by_limit :
          (get ip (run_login t a).1.attempts ≡ none → guesses ip ts (run_login t a).1 ≤ 5)
          → t.ip ≡ ip
          → (p : Bool × Map Attempt) → First t.call.now t.ip p
          → ((p.0 ≡ false) → answered (run_login t a).0 ≡ false)
            × ((run_login t a).1.attempts ≡ p.1)
          → (if answered (run_login t a).0
              then suc (guesses ip ts (run_login t a).1)
              else guesses ip ts (run_login t a).1)
            ≤ 5
      by_limit ih i (false, m) k (d, q) =
          rw (d refl) (ih (ap (get ip) q ∙ subst (λ (j : Str). get j m ≡ none) i k))
      by_limit ih i (true, m) k (d, q) =
          let one : Attempt = record { count = 1; expires = t.call.now + window } in
          let later =
            guesses_counted ip ts one (run_login t a).1
              (ap (get ip) q ∙ subst (λ (j : Str). get j m ≡ some one) i k) (omega arith)
              (in_time start t.call.now ts e h) ns in
          if_lem (λ (x : ℕ). x ≤ 5) (answered (run_login t a).0) _ _ (λ _. omega (arith, later))
            (λ _. omega (arith, later))
