-- ===== src/Api/Gate.antt =====
-- Who gets past `security`, and what `audit` records.
use avahi_manager.Prelude.{
  ℕ, ◌≡◌, refl, ◌⊎◌, inl, inr, Bool, true, false, not, ◌&&◌, Option, none, some, List, ◌∷◌, arith,
  Str, codes, same, same_iff, has_prefix, if_lem, not-eq-false, not-eq-true,
}
use avahi_manager.Api.{
  Request, Site, Caller, AuditEntry, Verdict, rejected, passed, reads, mutating, bad_origin,
  is_login, listed, security, check_cookie, check_session, secured, serve, entry, answer_verdict,
  anonymous, serve_mutation,
}
use avahi_manager.Auth.{Session, Answer, granted, denied}

-- a request for which the rest of the program may act
pub record Authorized (site : Site) (sessions : Str → Answer Session) (r : Request) : Type 0 where
  pub host : listed r.host site.hosts ≡ true
  pub origin : bad_origin site r ≡ false
  pub user :
      (is_login r ≡ true)
      ⊎ ((has_prefix r.path (codes "/api/") ≡ false)
          ⊎ ((token : Str) × (s : Session) × (r.cookie ≡ some token)
              × (sessions token ≡ granted s)
              × (mutating r ≡ true → r.csrf_token ≡ s.csrf)))

-- what a verdict says of its request
abbrev pub Judged : Site → (Str → Answer Session) → Request → Verdict → Type 0
Judged site sessions r (rejected status) = Unit
Judged site sessions r (passed caller) = Authorized site sessions r

module _ (site : Site) (sessions : Str → Answer Session) (r : Request)
    (host : listed r.host site.hosts ≡ true) (origin : bad_origin site r ≡ false) where
  csrf_equal :
      (s : Session)
      → (mutating r && not (same r.csrf_token s.csrf)) ≡ false
      → mutating r ≡ true
      → r.csrf_token ≡ s.csrf
  csrf_equal s h m =
      (same_iff r.csrf_token s.csrf).0 (both (mutating r) (same r.csrf_token s.csrf) h m)
    where
      both : (b c : Bool) → (b && not c) ≡ false → b ≡ true → c ≡ true
      both b c h m = ground arith

  check_session-Judged :
      (token : Str) (a : Answer Session)
      → r.cookie ≡ some token
      → sessions token ≡ a
      → Judged site sessions r (check_session r token a)
  unfolding check_session
  check_session-Judged token (denied e) c h = tt
  check_session-Judged token (granted s) c h =
      if_lem (Judged site sessions r) (mutating r && not (same r.csrf_token s.csrf)) _ _ (λ b. tt)
        (λ b. record {
          host = host;
          origin = origin;
          user = inr (inr (token, s, c, h, csrf_equal s b));
        })

  check_cookie-Judged :
      (o : Option Str) → r.cookie ≡ o → Judged site sessions r (check_cookie sessions r o)
  unfolding check_cookie
  check_cookie-Judged none c = tt
  check_cookie-Judged (some token) c = check_session-Judged token (sessions token) c refl

-- A request gets past `security` only with a known host and an origin that is not foreign, and
-- only if it is the login, no request of the interface, or one with the cookie of a valid
-- session, whose token against forgery it carries if it is not a GET or HEAD.
pub security-Judged :
    (site : Site) (sessions : Str → Answer Session) (caller : Caller) (r : Request)
    → Judged site sessions r (security site sessions caller r)
unfolding security
security-Judged site sessions caller r =
    if_lem (Judged site sessions r) (not (listed r.host site.hosts)) _ _ (λ b. tt)
      (λ b.
        let host = not-eq-false (listed r.host site.hosts) b in
        if_lem (Judged site sessions r) (bad_origin site r) _ _ (λ c. tt)
          (λ origin.
            if_lem (Judged site sessions r) (is_login r) _ _
              (λ d. record { host = host; origin = origin; user = inl d })
              (λ d.
                if_lem (Judged site sessions r) (not (has_prefix r.path (codes "/api/"))) _ _
                  (λ e. record {
                    host = host;
                    origin = origin;
                    user = inr (inl (not-eq-true (has_prefix r.path (codes "/api/")) e));
                  })
                  (λ e. check_cookie-Judged site sessions r host origin r.cookie refl))))

module _ {W : Type 0} (site : Site) (sessions : W → Str → Answer Session)
    (handlers : Caller → Request → W → ℕ × Str × W) where
  secured-kept :
      (caller : Caller) (r : Request) (w : W)
      → ((secured site sessions handlers caller r w).2 ≡ w) ⊎ Authorized site (sessions w) r
  unfolding secured
  secured-kept caller r w =
      judged (security site (sessions w) caller r) (security-Judged site (sessions w) caller r)
    where
      judged :
          (v : Verdict)
          → Judged site (sessions w) r v
          → ((answer_verdict site sessions handlers caller r v w).2 ≡ w)
            ⊎ Authorized site (sessions w) r
      judged (rejected status) h = inl refl
      judged (passed c) h = inr h

  -- How `serve` ends: nothing is done without the record that it starts, and after a mutation
  -- that is not recorded to its end, the caller is told so.
  abbrev pub Served :
      (first second : Bool) → Request → List AuditEntry → W → ℕ × List AuditEntry × W → Type 0
  Served first second r log w (status, log', w') =
      ((w' ≡ w) ⊎ Authorized site (sessions w) r)
      × (mutating r ≡ true → first ≡ false → (status ≡ 503) × (log' ≡ log) × (w' ≡ w))
      × (mutating r ≡ true
          → first ≡ true
          → second ≡ false
          → (status ≡ 503)
            × (actor : Str) × (log'
                ≡ entry site sessions handlers actor r (codes "started") none ∷ log))
      × (mutating r ≡ true
          → first ≡ true
          → second ≡ true
          → (actor : Str) × (who : Str) × (result : Str) × (log'
              ≡ entry site sessions handlers who r result (some status)
                ∷ entry site sessions handlers actor r (codes "started") none
                ∷ log))

  not_both : {A : Type 0} (r : Request) → reads r ≡ true → mutating r ≡ true → A
  not_both r b m = absurd (apart (reads r) b m)
    where
      apart : (c : Bool) → c ≡ true → not c ≡ true → ⊥
      apart c b m = ground arith

  serve_mutation-Served :
      (first second : Bool) (actor : Str) (r : Request) (log : List AuditEntry) (w : W)
      → Served first second r log w
          (serve_mutation site sessions handlers first second actor r log w)
  unfolding serve_mutation
  serve_mutation-Served false second actor r log w =
      (inl refl, (λ m f. (refl, refl, refl)), (λ m f. cc), (λ m f. cc))
  serve_mutation-Served true false actor r log w = (
    secured-kept (anonymous site sessions handlers actor) r w,
    (λ m f. cc),
    (λ m f s. (refl, actor, refl)),
    (λ m f s. cc),
  )
  serve_mutation-Served true true actor r log w = (
    secured-kept (anonymous site sessions handlers actor) r w,
    (λ m f. cc),
    (λ m f s. cc),
    (λ m f s. (actor, _, _, refl)),
  )

  -- Whatever the handlers are, the state behind the interface changes only for a request that is
  -- authorized. A mutation
  -- whose start cannot be recorded does nothing and answers 503; one whose end cannot be recorded
  -- answers 503 and leaves the record of its start; otherwise both are recorded, the second with
  -- the status of the answer.
  pub serve-Served :
      (first second : Bool) (r : Request) (log : List AuditEntry) (w : W)
      → Served first second r log w (serve site sessions handlers first second r log w)
  unfolding serve
  serve-Served first second r log w =
      if_lem (Served first second r log w) (reads r) _ _
        (λ b. (
          secured-kept (anonymous site sessions handlers (codes "anonymous")) r w,
          (λ m. not_both r b m),
          (λ m. not_both r b m),
          (λ m. not_both r b m),
        ))
        (λ b. serve_mutation-Served first second _ r log w)
