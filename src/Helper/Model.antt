-- ===== src/Helper/Model.antt =====
-- What the helper shows of the configuration: `model` and `Backend.Configuration` of
-- internal/helper/protocol.go, with the parsers of the three kinds of files. What a parser
-- returns beside an error is not part of the model.
pub mod Accepted
pub mod Saved
use avahi_manager.Prelude.{
  ℕ, zero, suc, ◌+◌, ◌-◌, ◌*◌, ◌/◌, ◌%◌, ◌^◌, ◌≤◌, ◌<◌, ◌≡◌, refl, sym, ap, ◌∙◌, subst, ◌≢◌, ◌↔◌,
  ◌⊎◌, inl, inr, Bool, true, false, not, ◌&&◌, ◌||◌, Option, none, some, List, [], ◌∷◌, ◌++◌, map,
  arith, Str, codes, same, same_refl, same_iff, Map, get, put, del, keys, length, All, leb, ltb,
  ◌==◌, if◌then◌else◌, Bool-cases, &&-eq-true, ltb→lt, leb→le, le→leb, Option-cases, has_prefix,
  before?, drop,
}
use avahi_manager.Files.Hosts.{Addr, Host, parse_hosts}
use avahi_manager.Files.Settings.{Daemon, validate_daemon}
use avahi_manager.Files.Daemon.{parse_daemon}
use avahi_manager.Files.Service.{ServiceGroup, parse_service}
use avahi_manager.Files.Service.Shape.{Token}
use avahi_manager.Files.{Parsed, parsed, failed}
use avahi_manager.Config.Image.{Env, Image, File, revision}
use avahi_manager.Config.Disk.{read}
use avahi_manager.Config.World.{M, pure, ◌>>=◌}
use avahi_manager.Config.Path.{daemon_conf, hosts_file}

-- what the parsers take from `netip` and `encoding/xml`
pub record Formats : Type 0 where
  pub parse_addr : Str → Option Addr
  pub tokenize : Str → List Token × Bool
  pub decode : Str → Option ServiceGroup

-- `PublishedService`; the group or the error
pub record PublishedService : Type 0 where
  pub id : Str
  pub filename : Str
  pub group : Parsed ServiceGroup

-- an item of `Errors`
pub data Report : Type 0 where
  of_daemon daemon_missing of_hosts : Report
  of_service : Str → Report

-- `Configuration`
pub record Configuration : Type 0 where
  pub revision_shown : Str
  pub daemon : Daemon
  pub raw : Str
  pub hosts : Parsed (List Host)
  pub services : List PublishedService
  pub hashes : Map Str
  pub errors : List Report

abbrev pub is_parsed : {A : Type 0} → Parsed A → Bool
is_parsed (parsed _) = true
is_parsed (failed _) = false

abbrev pub is_some : {A : Type 0} → Option A → Bool
is_some none = false
is_some (some _) = true

-- `im[p].Data`, where a name that is not there has no bytes
abbrev pub data_at : Option File → Str
data_at none = []
data_at (some f) = f.content

-- `v.Daemon`: nil where `ParseDaemon` fails
abbrev daemon_shown : Parsed Daemon → Daemon
daemon_shown (parsed d) = d
daemon_shown (failed _) = []

abbrev pub daemon_missed : Option File → List Report
daemon_missed none = daemon_missing ∷ []
daemon_missed (some _) = []

abbrev pub reported : Bool → Report → List Report
reported true r = []
reported false r = r ∷ []

-- the names and the contents of a service file
abbrev pub is_service : Str → Bool
is_service p = has_prefix p (codes "services/")

-- the sort by `Filename`
unfoldable pub insert_service : PublishedService → List PublishedService → List PublishedService
unfolding before?
insert_service s [] = s ∷ []
insert_service s (t ∷ ts) =
    let rest = insert_service s ts in if before? t.filename s.filename then t ∷ rest else s ∷ t ∷ ts

module _ (formats : Formats) where
  abbrev checked_daemon : Parsed Daemon → Bool
  checked_daemon (failed _) = false
  checked_daemon (parsed d) = validate_daemon (λ s. is_some (formats.parse_addr s)) d

  -- `ParseDaemon` and `Daemon.Validate`
  unfoldable pub daemon_accepted : Str → Bool
  unfolding parse_daemon validate_daemon
  daemon_accepted s = checked_daemon (parse_daemon s)

  unfoldable pub hosts_read : Str → Parsed (List Host)
  unfolding parse_hosts
  hosts_read s = parse_hosts formats.parse_addr s

  unfoldable pub service_read : Str → Parsed ServiceGroup
  unfolding parse_service
  service_read s = parse_service formats.tokenize formats.decode s

  -- the checks that `ValidateImage` makes with these parsers
  unfoldable pub with_checks : Env → Env
  unfolding daemon_accepted hosts_read service_read
  with_checks env = record env {
    daemon_ok = daemon_accepted;
    hosts_ok = λ s. is_parsed (hosts_read s);
    service_ok = λ s. is_parsed (service_read s);
  }

  -- the loop over the services: what it shows
  unfoldable pub published : (Str → Str) → Image → List PublishedService
  unfolding insert_service service_read has_prefix
  published digest [] = []
  published digest ((p, f) ∷ im) =
      let rest = published digest im in
      if is_service p
      then insert_service
          (record { id = digest p; filename = drop 9 p; group = service_read f.content }) rest
      else rest

  -- the loop over the services: what it reports
  unfoldable pub service_reports : Image → List Report
  unfolding service_read has_prefix
  service_reports [] = []
  service_reports ((p, f) ∷ im) =
      let rest = service_reports im in
      if is_service p
      then reported (is_parsed (service_read f.content)) (of_service p) ++ rest
      else rest

  unfoldable pub hashes_of : (Str → Str) → Image → Map Str
  unfolding put
  hashes_of digest [] = []
  hashes_of digest ((p, f) ∷ im) = put p (digest f.content) (hashes_of digest im)

  -- `model`
  unfoldable pub model : Env → Image → Configuration
  unfolding daemon_accepted hosts_read published service_reports hashes_of revision get parse_daemon
  model env im =
      let raw = data_at (get daemon_conf im) in
      let hosts = hosts_read (data_at (get hosts_file im)) in
      record {
        revision_shown = revision env im;
        daemon = daemon_shown (parse_daemon raw);
        raw = raw;
        hosts = hosts;
        services = published env.digest im;
        hashes = hashes_of env.digest im;
        errors =
            reported (daemon_accepted raw) of_daemon
            ++ (daemon_missed (get daemon_conf im)
                ++ (reported (is_parsed hosts) of_hosts ++ service_reports im));
      }

  -- `Backend.Configuration`
  unfoldable pub backend_configuration : Env → M Configuration
  unfolding read model pure
  backend_configuration env = do im ← read; pure (model env im)
