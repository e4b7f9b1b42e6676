-- ===== src/Api/Routes/Examples.antt =====
-- The change of the list of hosts with a helper that keeps one list.
use avahi_manager.Prelude.{
  ◌≡◌, refl, ◌⊎◌, inr, Bool, true, Option, none, some, List, [], ◌∷◌, ◌++◌, Str, codes,
}
use avahi_manager.Files.Hosts.{Host}
use avahi_manager.Api.Routes.{CallError, Body}
use avahi_manager.Api.Routes.Hosts.{HostsForm, HostsView, put_method, hosts_change}
use avahi_manager.Api.Routes.Hosts.Editing.{Declined, Written, hosts_change-Written}

abbrev no_digest : Str → Str
no_digest s = s

abbrev read_view : HostsView → (CallError ⊎ HostsView) × HostsView
read_view v = (inr v, v)

abbrev write_view : Str → List Host → HostsView → Option CallError × HostsView
write_view rev hosts v = (none, record { revision = codes "r2"; hosts = hosts })

abbrev synced : HostsView → Bool × HostsView
synced v = (true, v)

abbrev two_hosts : HostsView
two_hosts = record {
  revision = codes "r1";
  hosts =
      record { address = codes "10.0.0.1"; hostname = codes "a.local" }
      ∷ record { address = codes "10.0.0.2"; hostname = codes "b.local" }
      ∷ [];
}

abbrev new_name : Body HostsForm
new_name = record {
  content_type = codes "application/json";
  decoded = some (record {
    revision = codes "r1";
    host = some (record { address = codes "10.0.0.2"; hostname = codes "c.local" });
  });
}

abbrev second_id : Str
second_id = codes "10.0.0.2" ++ 0 ∷ codes "b.local"

hosts_change-Written_example :
    Declined no_digest read_view write_view synced two_hosts
      (hosts_change no_digest read_view write_view synced put_method second_id new_name two_hosts)
    ⊎ Written no_digest read_view write_view synced put_method second_id new_name two_hosts
        (hosts_change no_digest read_view write_view synced put_method second_id new_name two_hosts)
hosts_change-Written_example =
    hosts_change-Written no_digest read_view write_view synced put_method second_id new_name
      two_hosts

-- the second host gets its new name
put_run :
    hosts_change no_digest read_view write_view synced put_method second_id new_name two_hosts ≡ (
      200,
      record {
        revision = codes "r2";
        hosts =
            record { address = codes "10.0.0.1"; hostname = codes "a.local" }
            ∷ record { address = codes "10.0.0.2"; hostname = codes "c.local" }
            ∷ [];
      },
    )
unfolding hosts_change
put_run = refl
