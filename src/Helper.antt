-- ===== src/Helper.antt =====
-- The writes of the privileged helper: `Backend` of internal/helper/protocol.go, on top of the
-- transactions. A form of a file and its `Marshal` are a parameter. `Serve` refuses to run without
-- a runtime controller, so that there always is one.
pub mod Services
pub mod Server
pub mod Model
mod Examples
use avahi_manager.Prelude.{
  ℕ, zero, suc, ◌+◌, ◌-◌, ◌*◌, ◌/◌, ◌%◌, ◌^◌, ◌≤◌, ◌<◌, ◌≡◌, refl, sym, ap, ◌∙◌, subst, ◌≢◌, ◌↔◌,
  ◌⊎◌, inl, inr, Bool, true, false, not, ◌&&◌, ◌||◌, Option, none, some, List, [], ◌∷◌, ◌++◌, map,
  arith, Str, codes, same, same_refl, same_iff, Map, get, put, del, keys, length, All, leb, ltb,
  ◌==◌, if◌then◌else◌, Bool-cases, &&-eq-true, ltb→lt, leb→le, le→leb, Option-cases, has_prefix,
}
use avahi_manager.Config.Image.{Env, Image, File}
use avahi_manager.Config.Path.{daemon_conf, hosts_file}
use avahi_manager.Config.World.{
  ◌>>◌, M, raise, pure, ◌>>=◌, guard, Error, malformed_file, invalid_path, not_exist,
}
use avahi_manager.Config.Disk.{read}
use avahi_manager.Config.Transaction.{ApplyResult, apply_changes}

module _ (env : Env) where
  -- `Backend.write`
  unfoldable pub write : Str → Str → Str → M ApplyResult
  unfolding apply_changes
  write rev p bytes = apply_changes env true rev ((p, some bytes) ∷ [])

  -- a form that was not sent, one that has no text, or its text
  abbrev write_text : Str → Str → Option Str → M ApplyResult
  write_text rev p none = raise malformed_file
  write_text rev p (some bytes) = write rev p bytes

  -- `WriteDaemon`, `WriteHosts`
  unfoldable pub write_form : {F : Type 0} → (F → Option Str) → Str → Str → Option F → M ApplyResult
  unfolding write raise
  write_form marshal rev p none = raise malformed_file
  write_form marshal rev p (some form) = write_text rev p (marshal form)

  unfoldable pub write_daemon : {F : Type 0} → (F → Option Str) → Str → Option F → M ApplyResult
  unfolding write_form
  write_daemon marshal rev config = write_form marshal rev daemon_conf config

  unfoldable pub write_hosts : {F : Type 0} → (F → Option Str) → Str → Option F → M ApplyResult
  unfolding write_form
  write_hosts marshal rev hosts = write_form marshal rev hosts_file hosts

  -- the loop of `servicePath`; `serviceID` is the digest of the path
  unfoldable pub find_service : Str → Image → Option Str
  unfolding has_prefix same
  find_service id [] = none
  find_service id ((p, f) ∷ im) =
      let rest = find_service id im in
      if has_prefix p (codes "services/") && same (env.digest p) id then some p else rest

  abbrev service_found : Option Str → M Str
  service_found none = raise not_exist
  service_found (some p) = pure p

  -- `servicePath`
  unfoldable pub service_path : Str → M Str
  unfolding read find_service guard
  service_path id = do
    guard (length id == 64) invalid_path
    im ← read
    service_found (find_service id im)

  abbrev write_at : Str → Str → Str → Str → M ApplyResult
  write_at rev fresh [] bytes = write rev (codes "services/" ++ fresh) bytes
  write_at rev fresh (c ∷ id) bytes = do p ← service_path (c ∷ id); write rev p bytes

  -- `WriteService`; `fresh` is what `NewServiceID` gives
  abbrev pub write_group : Str → Str → Str → Option Str → M ApplyResult
  write_group rev fresh id none = raise malformed_file
  write_group rev fresh id (some bytes) = write_at rev fresh id bytes

  unfoldable pub write_service :
      {G : Type 0} → (G → Option Str) → Str → Str → Str → G → M ApplyResult
  unfolding write service_path raise
  write_service marshal rev fresh id group = write_group rev fresh id (marshal group)

  -- `DeleteService`
  unfoldable pub delete_service : Str → Str → M ApplyResult
  unfolding service_path apply_changes
  delete_service rev id = do p ← service_path id; apply_changes env true rev ((p, none) ∷ [])
