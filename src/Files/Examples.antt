-- ===== src/Files/Examples.antt =====
-- The parsers and printers of the native files at small values.
use avahi_manager.Prelude.{
  ◌≡◌, refl, inl, inr, Bool, true, false, Option, none, some, List, [], ◌∷◌, arith, Str, codes,
  same, same_iff, get, put, if◌then◌else◌, Bool-cases, behind, reversed_all, before?, All,
}
use avahi_manager.Files.{bad_line, refused, parsed, failed}
use avahi_manager.Files.Hosts.{Host, Addr, validate_hosts, marshal_hosts, parse_hosts}
use avahi_manager.Files.Hosts.RoundTrip.{IsNetip, IsAddress, marshal_hosts-parse_hosts}
use avahi_manager.Files.Service.{Service, ServiceGroup, validate_group}
use avahi_manager.Files.Service.Records.{Records, validate_group-Records}
use avahi_manager.Files.Service.Shape.{on_tokens, shape_ok}
use avahi_manager.Files.Service.Shape.Trees.{Nodes, nil, element, text, tokens, is_shaped}
use avahi_manager.Files.Service.Shape.Documents.{Ends, on_tokens-is_shaped}
use avahi_manager.Files.Settings.{Daemon, validate_daemon}
use avahi_manager.Files.Daemon.{marshal_daemon, parse_daemon}
use avahi_manager.Files.Daemon.RoundTrip.{IsPrintable, marshal_daemon-parse_daemon}

abbrev printer_ip : Addr
printer_ip = record { text = codes "10.0.0.1"; zone = []; unspecified = false; multicast = false }

-- an address parser that knows one address
abbrev sample_addr : Str → Option Addr
sample_addr s = if same s (codes "10.0.0.1") then some printer_ip else none

sample_addr-IsNetip : IsNetip sample_addr
unfolding same
sample_addr-IsNetip s ip e z = elim (Bool-cases (same s (codes "10.0.0.1"))) [
  | inl h ↦ rw ((same_iff s (codes "10.0.0.1")).0 h) one
  | inr h ↦ absurd (nothing (rw h at e))
]
  where
    one : IsAddress (codes "10.0.0.1")
    one = (
      (refl, (refl, (refl, (refl, (refl, (refl, (refl, (refl, tt)))))))),
      omega arith,
      omega arith,
    )

    nothing : {ip : Addr} → none ≡ some ip → ⊥
    nothing q = cc

abbrev sample_hosts : List Host
sample_hosts =
    record { address = codes "10.0.0.1"; hostname = codes "printer.local" }
    ∷ record { address = codes "10.0.0.1"; hostname = codes "Files.local." }
    ∷ []

sample_hosts_valid : validate_hosts sample_addr sample_hosts ≡ true
unfolding validate_hosts
sample_hosts_valid = refl

marshal_hosts-parse_hosts_example :
    (text : Str) × (marshal_hosts sample_addr sample_hosts ≡ parsed text)
    × (parse_hosts sample_addr text ≡ parsed sample_hosts)
marshal_hosts-parse_hosts_example =
    marshal_hosts-parse_hosts sample_addr sample_addr-IsNetip sample_hosts sample_hosts_valid

-- one word on a line is an error, and the second of two equal hosts is one
one_word : parse_hosts sample_addr (codes "# hosts\n10.0.0.1\n") ≡ failed (bad_line 2)
unfolding parse_hosts
one_word = refl

same_twice : parse_hosts sample_addr (codes "10.0.0.1 a.local\n10.0.0.1 A.local.") ≡ failed refused
unfolding parse_hosts
same_twice = refl

abbrev no_ip : Str → Bool
no_ip s = false

abbrev sample_daemon : Daemon
sample_daemon =
    (codes "publish", (codes "disable-publishing", codes "no") ∷ [])
    ∷ (
      codes "server",
      (codes "allow-interfaces", codes "eth0, eth1") ∷ (codes "host-name", codes "nas") ∷ [],
    )
    ∷ []

sample_daemon_valid : validate_daemon no_ip sample_daemon ≡ true
unfolding validate_daemon
sample_daemon_valid = refl

sample_daemon-IsPrintable : IsPrintable sample_daemon
unfolding behind reversed_all before?
sample_daemon-IsPrintable = (
  ((tt, tt), (((refl, refl), omega arith), tt)),
  ((((refl, tt), (tt, tt)), (((refl, refl), omega arith), (((refl, refl), omega arith), tt))), tt),
)

marshal_daemon-parse_daemon_example :
    (text : Str) × (e : Daemon) × (marshal_daemon no_ip sample_daemon ≡ parsed text)
    × (parse_daemon text ≡ parsed e)
    × ((s : Str) → get s e ≡ get s sample_daemon)
marshal_daemon-parse_daemon_example =
    marshal_daemon-parse_daemon no_ip sample_daemon sample_daemon_valid sample_daemon-IsPrintable

-- a setting that stands twice is an error
setting_twice : parse_daemon (codes "[server]\n a = b \n;x\na=c\n") ≡ failed (bad_line 4)
unfolding parse_daemon
setting_twice = refl

abbrev sample_tree : Nodes
sample_tree =
    element [] (codes "service-group") []
      (text (codes "\n") (
        element [] (codes "name") (([], codes "replace-wildcards") ∷ []) (text (codes "Files") nil)
          (element [] (codes "service") []
            (element [] (codes "type") [] (text (codes "_http._tcp") nil)
              (element [] (codes "port") [] (text (codes "80") nil) nil))
            nil)))
      nil

on_tokens-is_shaped_example :
    Ends (on_tokens (tokens sample_tree) [] 0) (is_shaped [] [] sample_tree)
on_tokens-is_shaped_example = on_tokens-is_shaped sample_tree

sample_tree_accepted : shape_ok (tokens sample_tree) true ≡ true
unfolding shape_ok tokens put before?
sample_tree_accepted = refl

abbrev sample_group : ServiceGroup
sample_group = record {
  name = record { value = codes "Files"; replace_wildcards = [] };
  services =
      record {
        protocol = [];
        kind = codes "_http._tcp";
        domain = [];
        host = codes "nas.local";
        port = 80;
        subtypes = codes "_printer._sub._http._tcp" ∷ [];
        txt =
            (codes "path=/", [])
            ∷ (codes "id=0aff", codes "binary-hex")
            ∷ (codes "key=AQI=", codes "binary-base64")
            ∷ [];
      }
      ∷ [];
}

sample_group_valid : validate_group sample_group ≡ true
unfolding validate_group
sample_group_valid = refl

validate_group-Records_example : All (λ (s : Service). Records [] s.txt) sample_group.services
validate_group-Records_example = validate_group-Records sample_group sample_group_valid
