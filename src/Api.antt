-- ===== src/Api.antt =====
-- internal/api/server.go: the two layers round every request, `audit` and `security`. The handlers
-- behind them are a parameter, a function on the rest of the state that gives the status of its
-- answer. Response headers are left out.
pub mod Gate
pub mod Routes
mod Examples
use avahi_manager.Prelude.{
  ℕ, zero, suc, ◌+◌, ◌-◌, ◌*◌, ◌/◌, ◌%◌, ◌^◌, ◌≤◌, ◌<◌, ◌≡◌, refl, sym, ap, ◌∙◌, subst, ◌≢◌, ◌↔◌,
  ◌⊎◌, inl, inr, Bool, true, false, not, ◌&&◌, ◌||◌, Option, none, some, List, [], ◌∷◌, ◌++◌, map,
  arith, Str, codes, same, same_refl, same_iff, Map, get, put, del, keys, length, All, leb, ltb,
  ◌==◌, if◌then◌else◌, Bool-cases, &&-eq-true, ltb→lt, leb→le, le→leb, Option-cases, has_prefix,
}
use avahi_manager.Auth.{Session, Answer, granted, denied, AuthError, no_session}

-- what the layers look at; an absent header is empty
pub record Request : Type 0 where
  pub method : Str
  pub path : Str
  pub host : Str
  pub origin : Str
  pub fetch_site : Str
  pub cookie : Option Str
  pub csrf_token : Str

-- the sets of `Server`
pub record Site : Type 0 where
  pub hosts : List Str
  pub origins : List Str

-- `requestState`
pub record Caller : Type 0 where
  pub actor : Str
  pub token : Str
  pub session : Option Session

pub record AuditEntry : Type 0 where
  pub actor : Str
  pub method : Str
  pub resource : Str
  pub result : Str
  pub status : Option ℕ

unfoldable pub listed : Str → List Str → Bool
unfolding same
listed s [] = false
listed s (x ∷ xs) = same x s || listed s xs

abbrev pub reads : Request → Bool
reads r = same r.method (codes "GET") || same r.method (codes "HEAD")

abbrev pub mutating : Request → Bool
mutating r = not (reads r)

abbrev pub is_login : Request → Bool
is_login r = same r.path (codes "/api/v1/auth/login") && same r.method (codes "POST")

-- the condition on the origin under which `security` rejects
abbrev pub bad_origin : Site → Request → Bool
bad_origin site r =
    (mutating r && same r.origin [])
    || (not (same r.origin []) && not (listed r.origin site.origins))
    || same r.fetch_site (codes "cross-site")

-- an answer of a layer: a status of its own, or what the next one is given
pub data Verdict : Type 0 where
  rejected : ℕ → Verdict
  passed : Caller → Verdict

abbrev session_failure : AuthError → ℕ
session_failure no_session = 401
session_failure _ = 503

-- `security`, at the session found for the cookie
unfoldable pub check_session : Request → Str → Answer Session → Verdict
unfolding same
check_session r token (denied e) = rejected (session_failure e)
check_session r token (granted s) =
    if mutating r && not (same r.csrf_token s.csrf)
    then rejected 403
    else passed (record { actor = s.username; token = token; session = some s })

unfoldable pub check_cookie : (Str → Answer Session) → Request → Option Str → Verdict
unfolding check_session
check_cookie sessions r none = rejected 401
check_cookie sessions r (some token) = check_session r token (sessions token)

-- `security`: whether the next handler is called, and for whom
unfoldable pub security : Site → (Str → Answer Session) → Caller → Request → Verdict
unfolding check_cookie listed has_prefix same
security site sessions caller r =
    if not (listed r.host site.hosts)
    then rejected 403
    else if bad_origin site r
    then rejected 403
    else if is_login r
    then passed caller
    else if not (has_prefix r.path (codes "/api/"))
    then passed caller
    else check_cookie sessions r r.cookie

module _ {W : Type 0} (site : Site) (sessions : W → Str → Answer Session)
    (handlers : Caller → Request → W → ℕ × Str × W) where
  -- the handler gives a status and the actor to be recorded, which `Login` sets
  abbrev answer_verdict : Caller → Request → Verdict → W → ℕ × Str × W
  answer_verdict caller r (rejected status) w = (status, caller.actor, w)
  answer_verdict caller r (passed c) w = handlers c r w

  -- `security(next)`
  unfoldable pub secured : Caller → Request → W → ℕ × Str × W
  unfolding security
  secured caller r w = answer_verdict caller r (security site (sessions w) caller r) w

  abbrev pub entry : Str → Request → Str → Option ℕ → AuditEntry
  entry actor r result status = record {
    actor = actor;
    method = r.method;
    resource = r.path;
    result = result;
    status = status;
  }

  abbrev actor_of : Answer Session → Str
  actor_of (granted s) = s.username
  actor_of (denied e) = codes "anonymous"

  abbrev who : W → Option Str → Str
  who w none = codes "anonymous"
  who w (some token) = actor_of (sessions w token)

  abbrev pub anonymous : Str → Caller
  anonymous actor = record { actor = actor; token = []; session = none }

  abbrev result_of : ℕ → Str
  result_of status = if leb 400 status then codes "failed" else codes "success"

  -- the end of `audit`: the answer is held back until its result is recorded
  abbrev finish_audit : Bool → Str → Request → ℕ → List AuditEntry → W → ℕ × List AuditEntry × W
  finish_audit true actor r status log w =
      (status, entry actor r (result_of status) (some status) ∷ log, w)
  finish_audit false actor r status log w = (503, log, w)

  -- a mutation, by whether the record of its start and the one of its end can be written
  unfoldable pub serve_mutation :
      (first second : Bool) → Str → Request → List AuditEntry → W → ℕ × List AuditEntry × W
  unfolding secured
  serve_mutation false second actor r log w = (503, log, w)
  serve_mutation true second actor r log w =
      let (status, actor', w') = secured (anonymous actor) r w in
      finish_audit second actor' r status (entry actor r (codes "started") none ∷ log) w'

  -- `audit(security(next))`
  unfoldable pub serve :
      (first second : Bool) → Request → List AuditEntry → W → ℕ × List AuditEntry × W
  unfolding secured serve_mutation
  serve first second r log w =
      if reads r
      then (let (status, _, w') = secured (anonymous (codes "anonymous")) r w in (status, log, w'))
      else serve_mutation first second (who w r.cookie) r log w
