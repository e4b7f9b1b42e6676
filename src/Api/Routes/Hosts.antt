-- ===== src/Api/Routes/Hosts.antt =====
-- `hostID`, `hostsList` and `hostsChange` of internal/api/routes.go. SHA-256 is a parameter.
pub mod Editing
use avahi_manager.Prelude.{
  ℕ, zero, suc, ◌+◌, ◌-◌, ◌*◌, ◌/◌, ◌%◌, ◌^◌, ◌≤◌, ◌<◌, ◌≡◌, refl, sym, ap, ◌∙◌, subst, ◌≢◌, ◌↔◌,
  ◌⊎◌, inl, inr, Bool, true, false, not, ◌&&◌, ◌||◌, Option, none, some, List, [], ◌∷◌, ◌++◌, map,
  arith, Str, codes, same, same_refl, same_iff, Map, get, put, del, keys, length, All, leb, ltb,
  ◌==◌, if◌then◌else◌, Bool-cases, &&-eq-true, ltb→lt, leb→le, le→leb, Option-cases,
}
use avahi_manager.Files.Hosts.{Host}
use avahi_manager.Api.Routes.{CallError, fail_status, Body, body, mutate}

-- the body of a change
pub record HostsForm : Type 0 where
  pub revision : Str
  pub host : Option Host

-- what the change needs of `helper.Configuration`
pub record HostsView : Type 0 where
  pub revision : Str
  pub hosts : List Host

-- the three methods of the routes
pub data Method : Type 0 where
  post put_method delete_method : Method

module _ (digest : Str → Str) where
  -- `hostID`
  unfoldable pub host_id : Host → Str
  host_id h = digest (h.address ++ 0 ∷ h.hostname)

  -- `hostsList`: the entries
  unfoldable pub hosts_list : List Host → List (Host × Str)
  unfolding host_id
  hosts_list [] = []
  hosts_list (h ∷ hosts) = (h, host_id h) ∷ hosts_list hosts

  abbrev pub onto_host : Host → Option (List Host) → Option (List Host)
  onto_host h none = none
  onto_host h (some hosts) = some (h ∷ hosts)

  -- the loop over the hosts: the first one with the id is replaced, or removed
  unfoldable pub change_first : Str → Option Host → List Host → Option (List Host)
  unfolding host_id same
  change_first id new [] = none
  change_first id new (h ∷ hosts) =
      let rest = change_first id new hosts in
      if same (host_id h) id
      then elim new [ none ↦ some hosts | some x ↦ some (x ∷ hosts) ]
      else onto_host h rest

  -- the hosts to write, or none where none has the id
  unfoldable pub changed_hosts : Method → Str → Option Host → List Host → Option (List Host)
  unfolding change_first
  changed_hosts post id none hosts = some hosts
  changed_hosts post id (some h) hosts = some (hosts ++ h ∷ [])
  changed_hosts put_method id new hosts = change_first id new hosts
  changed_hosts delete_method id new hosts = change_first id none hosts

  abbrev pub lacks_host : Method → Option Host → Bool
  lacks_host delete_method new = false
  lacks_host _ none = true
  lacks_host _ (some h) = false

  module _ {W : Type 0} (read : W → (CallError ⊎ HostsView) × W)
      (write_hosts : Str → List Host → W → Option CallError × W) (sync : W → Bool × W) where
    abbrev pub with_hosts : Str → Option (List Host) → W → ℕ × W
    with_hosts revision none w = (404, w)
    with_hosts revision (some hosts) w = mutate (write_hosts revision hosts) sync w

    abbrev pub with_view : Method → Str → HostsForm → (CallError ⊎ HostsView) × W → ℕ × W
    with_view method id form (inl e, w) = (fail_status e, w)
    with_view method id form (inr v, w) =
        if not (same v.revision form.revision)
        then (409, w)
        else with_hosts form.revision (changed_hosts method id form.host v.hosts) w

    abbrev pub with_form : Method → Str → ℕ ⊎ HostsForm → W → ℕ × W
    with_form method id (inl status) w = (status, w)
    with_form method id (inr form) w =
        if lacks_host method form.host then (400, w) else with_view method id form (read w)

    -- `hostsChange`
    unfoldable pub hosts_change : Method → Str → Body HostsForm → W → ℕ × W
    unfolding body changed_hosts mutate same fail_status
    hosts_change method id b w = with_form method id (body b) w
