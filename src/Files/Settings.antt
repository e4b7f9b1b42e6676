-- ===== src/Files/Settings.antt =====
-- The settings of the daemon and their check: `Daemon`, `Kinds` and `Daemon.Validate` of
-- internal/config/daemon.go. Whether `netip.ParseAddr` accepts a text is a parameter.
use avahi_manager.Prelude.{
  ℕ, zero, suc, ◌+◌, ◌-◌, ◌*◌, ◌^◌, Bool, true, false, not, ◌&&◌, ◌||◌, Option, none, some, List,
  [], ◌∷◌, Str, codes, same, Map, get, leb, ltb, if◌then◌else◌, trim_space, contains_any, split,
}
use avahi_manager.Files.Runes.{rune_width}
use avahi_manager.Files.{is_label, valid_domain}

-- `Daemon`: the settings of each section. `put` keeps the keys sorted.
abbrev pub Daemon : Type 0
Daemon = Map (Map Str)

-- the kinds of values
pub data Kind : Type 0 where
  bool_kind dbus_kind label_kind domain_kind uint_kind domains_kind interfaces_kind ips_kind : Kind
  text_kind : Kind

-- `Kinds`
abbrev pub kinds : Map (Map Kind)
kinds =
    (
      codes "server",
      (codes "host-name", label_kind)
          ∷ (codes "domain-name", domain_kind)
          ∷ (codes "host-name-from-machine-id", bool_kind)
          ∷ (codes "browse-domains", domains_kind)
          ∷ (codes "use-ipv4", bool_kind)
          ∷ (codes "use-ipv6", bool_kind)
          ∷ (codes "allow-interfaces", interfaces_kind)
          ∷ (codes "deny-interfaces", interfaces_kind)
          ∷ (codes "check-response-ttl", bool_kind)
          ∷ (codes "use-iff-running", bool_kind)
          ∷ (codes "enable-dbus", dbus_kind)
          ∷ (codes "disallow-other-stacks", bool_kind)
          ∷ (codes "allow-point-to-point", bool_kind)
          ∷ (codes "cache-entries-max", uint_kind)
          ∷ (codes "clients-max", uint_kind)
          ∷ (codes "objects-per-client-max", uint_kind)
          ∷ (codes "entries-per-entry-group-max", uint_kind)
          ∷ (codes "ratelimit-interval-usec", uint_kind)
          ∷ (codes "ratelimit-burst", uint_kind)
          ∷ [],
    )
    ∷ (codes "wide-area", (codes "enable-wide-area", bool_kind) ∷ [])
    ∷ (
      codes "publish",
      (codes "disable-publishing", bool_kind)
          ∷ (codes "disable-user-service-publishing", bool_kind)
          ∷ (codes "add-service-cookie", bool_kind)
          ∷ (codes "publish-addresses", bool_kind)
          ∷ (codes "publish-hinfo", bool_kind)
          ∷ (codes "publish-workstation", bool_kind)
          ∷ (codes "publish-domain", bool_kind)
          ∷ (codes "publish-dns-servers", ips_kind)
          ∷ (codes "publish-resolv-conf-dns-servers", bool_kind)
          ∷ (codes "publish-aaaa-on-ipv4", bool_kind)
          ∷ (codes "publish-a-on-ipv6", bool_kind)
          ∷ [],
    )
    ∷ (
      codes "reflector",
      (codes "enable-reflector", bool_kind)
          ∷ (codes "reflect-ipv", bool_kind)
          ∷ (codes "reflect-filters", text_kind)
          ∷ [],
    )
    ∷ (
      codes "rlimits",
      (codes "rlimit-as", uint_kind)
          ∷ (codes "rlimit-core", uint_kind)
          ∷ (codes "rlimit-data", uint_kind)
          ∷ (codes "rlimit-fsize", uint_kind)
          ∷ (codes "rlimit-nofile", uint_kind)
          ∷ (codes "rlimit-stack", uint_kind)
          ∷ (codes "rlimit-nproc", uint_kind)
          ∷ [],
    )
    ∷ []

-- how many runes a text has; `skip` counts the bytes of a rune that are left
runes : ℕ → Str → ℕ
unfolding rune_width
runes skip [] = 0
runes (suc skip) (x ∷ xs) = runes skip xs
runes zero (x ∷ xs) = suc (runes (rune_width (x ∷ xs) - 1) xs)

-- `iface.MatchString`: 1 to 15 runes, no space, slash, colon, comma or zero byte
unfoldable pub is_iface : Str → Bool
unfolding runes contains_any
is_iface s =
    let n = runes 0 s in
    not (contains_any s (9 ∷ 10 ∷ 12 ∷ 13 ∷ 32 ∷ b'/' ∷ b':' ∷ b',' ∷ 0 ∷ []))
    && (leb 1 n && leb n 15)

-- the value of decimal digits behind `n`
unfoldable pub digits_value : ℕ → Str → Option ℕ
digits_value n [] = some n
digits_value n (x ∷ xs) =
    let rest = digits_value (n * 10 + (x - b'0')) xs in
    if leb b'0' x && leb x b'9' then rest else none

-- `strconv.ParseUint(value, 10, 64)` gives no error
unfoldable pub is_uint : Str → Bool
unfolding digits_value
is_uint [] = false
is_uint (x ∷ xs) = elim (digits_value 0 (x ∷ xs)) [ none ↦ false | some n ↦ ltb n (2 ^ 64) ]

-- the items of a list that `Validate` checks one by one
abbrev every : (Str → Bool) → List Str → Bool
every ok [] = true
every ok (s ∷ ss) = ok (trim_space s) && every ok ss

abbrev items : (Str → Bool) → Str → Bool
items ok v = same v [] || every ok (split b',' v)

module _ (is_ip : Str → Bool) where
  -- the switch of `Validate`
  unfoldable pub value_ok : Kind → Str → Bool
  unfolding same is_label valid_domain is_uint is_iface split trim_space
  value_ok bool_kind v = same v (codes "yes") || same v (codes "no")
  value_ok dbus_kind v = same v (codes "yes") || (same v (codes "no") || same v (codes "warn"))
  value_ok label_kind v = is_label v
  value_ok domain_kind v = valid_domain v
  value_ok uint_kind v = is_uint v
  value_ok domains_kind v = items valid_domain v
  value_ok interfaces_kind v = items is_iface v
  value_ok ips_kind v = items is_ip v
  value_ok text_kind v = true

  abbrev pub setting_ok : Option Kind → Str → Bool
  setting_ok none v = false
  setting_ok (some kind) v = not (contains_any v (13 ∷ 10 ∷ 0 ∷ [])) && value_ok kind v

  -- the inner loop of `Validate`
  unfoldable pub settings_ok : Map Kind → Map Str → Bool
  unfolding value_ok get contains_any
  settings_ok schema [] = true
  settings_ok schema ((k, v) ∷ entries) = setting_ok (get k schema) v && settings_ok schema entries

  abbrev pub section_ok : Option (Map Kind) → Map Str → Bool
  section_ok none entries = false
  section_ok (some schema) entries = settings_ok schema entries

  -- the outer loop of `Validate`
  unfoldable pub sections_ok : Daemon → Bool
  unfolding settings_ok get
  sections_ok [] = true
  sections_ok ((s, entries) ∷ d) = section_ok (get s kinds) entries && sections_ok d

  -- `d[section][key]` of a setting that may be missing
  abbrev setting : Str → Option (Map Str) → Str
  setting k none = []
  setting k (some entries) = elim (get k entries) [ none ↦ [] | some v ↦ v ]

  -- `Daemon.Validate`: whether it returns nil
  unfoldable pub validate_daemon : Daemon → Bool
  unfolding sections_ok get same
  validate_daemon d =
      let server = get (codes "server") d in
      sections_ok d
      && not (
          same (setting (codes "use-ipv4") server) (codes "no")
          && same (setting (codes "use-ipv6") server) (codes "no"))
