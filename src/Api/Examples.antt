-- ===== src/Api/Examples.antt =====
-- The theorems on requests at a small site.
use avahi_manager.Prelude.{
  ℕ, ◌+◌, ◌≡◌, refl, true, none, some, [], ◌∷◌, Str, codes, same, if◌then◌else◌,
}
use avahi_manager.Api.{Request, Site, Caller, security, serve}
use avahi_manager.Api.Gate.{Judged, security-Judged, Served, serve-Served}
use avahi_manager.Auth.{Session, Answer, granted, denied, no_session}

abbrev local : Site
local = record { hosts = codes "localhost:8053" ∷ []; origins = codes "http://localhost:8053" ∷ [] }

abbrev a_session : Session
a_session = record { username = codes "admin"; csrf = codes "t"; expires_at = 9 }

abbrev sessions : ℕ → Str → Answer Session
sessions w token = if same token (codes "c") then granted a_session else denied no_session

abbrev handlers : Caller → Request → ℕ → ℕ × Str × ℕ
handlers caller r w = (200, caller.actor, w + 1)

abbrev a_write : Request
a_write = record {
  method = codes "PUT";
  path = codes "/api/v1/hosts";
  host = codes "localhost:8053";
  origin = codes "http://localhost:8053";
  fetch_site = codes "same-origin";
  cookie = some (codes "c");
  csrf_token = codes "t";
}

abbrev nobody : Caller
nobody = record { actor = codes "anonymous"; token = []; session = none }

write_run : (serve local sessions handlers true true a_write [] 4).2 ≡ 5
unfolding serve
write_run = refl

security-Judged_example :
    Judged local (sessions 4) a_write (security local (sessions 4) nobody a_write)
security-Judged_example = security-Judged local (sessions 4) nobody a_write

serve-Served_example :
    Served local sessions handlers true true a_write [] 4
      (serve local sessions handlers true true a_write [] 4)
serve-Served_example = serve-Served local sessions handlers true true a_write [] 4
