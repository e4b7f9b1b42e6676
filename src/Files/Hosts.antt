-- ===== src/Files/Hosts.antt =====
-- Static host names: internal/config/hosts.go. `netip.ParseAddr` is a parameter.
pub mod RoundTrip
use avahi_manager.Prelude.{
  ℕ, zero, suc, ◌+◌, ◌-◌, ◌*◌, ◌/◌, ◌%◌, ◌^◌, ◌≤◌, ◌<◌, ◌≡◌, refl, sym, ap, ◌∙◌, subst, ◌≢◌, ◌↔◌,
  ◌⊎◌, inl, inr, Bool, true, false, not, ◌&&◌, ◌||◌, Option, none, some, List, [], ◌∷◌, ◌++◌, map,
  arith, Str, codes, same, same_refl, same_iff, Map, get, put, del, keys, length, All, leb, ltb,
  ◌==◌, if◌then◌else◌, Bool-cases, &&-eq-true, ltb→lt, leb→le, le→leb, Option-cases, to_lower,
  contains, fields, scan_lines, trim_dot, cut, raw_lines,
}
use avahi_manager.Files.{
  FileError, bad_line, too_long, refused, Parsed, parsed, failed, valid_domain,
}

-- `Host`
pub record Host : Type 0 where
  pub address : Str
  pub hostname : Str

-- What `ValidateHosts` asks of an address; `text` is `ip.Unmap().String()`.
pub record Addr : Type 0 where
  pub text : Str
  pub zone : Str
  pub unspecified : Bool
  pub multicast : Bool

-- the buffer of a `bufio.Scanner`, 64 KiB
abbrev pub scan_limit : ℕ
scan_limit = 65536

-- the text behind which a host stands in `seen`
abbrev pub host_key : Addr → Host → Str
host_key ip h = ip.text ++ b' ' ∷ to_lower (trim_dot h.hostname)

abbrev pub is_seen : Str → List Str → Bool
is_seen k [] = false
is_seen k (s ∷ seen) = same s k || is_seen k seen

abbrev pub is_fqdn : Str → Bool
is_fqdn s = valid_domain s && contains (trim_dot s) b'.'

abbrev pub usable : Addr → Bool
usable ip = not (not (same ip.zone []) || (ip.unspecified || ip.multicast))

module _ (parse_addr : Str → Option Addr) where
  -- the key of a host that passes the two checks of `ValidateHosts`
  unfoldable pub checked_key : Host → Option Str
  unfolding same valid_domain contains trim_dot to_lower
  checked_key h = elim (parse_addr h.address) [
    | none ↦ none
    | some ip ↦ if usable ip && is_fqdn h.hostname then some (host_key ip h) else none
  ]

  -- the loop of `ValidateHosts`
  unfoldable pub hosts_from : List Str → List Host → Bool
  unfolding checked_key same
  hosts_from seen [] = true
  hosts_from seen (h ∷ hosts) = elim (checked_key h) [
    | none ↦ false
    | some k ↦ elim (is_seen k seen) [ true ↦ false | false ↦ hosts_from (k ∷ seen) hosts ]
  ]

  -- `ValidateHosts`: whether it returns nil
  unfoldable pub validate_hosts : List Host → Bool
  unfolding hosts_from
  validate_hosts hosts = hosts_from [] hosts

  abbrev pub onto_host : Host → Parsed (List Host) → Parsed (List Host)
  onto_host h (parsed hosts) = parsed (h ∷ hosts)
  onto_host h (failed e) = failed e

  -- what the words of a line add, in front of what the lines behind it give
  abbrev pub with_words : ℕ → List Str → Parsed (List Host) → Parsed (List Host)
  with_words n [] later = later
  with_words n (a ∷ []) later = failed (bad_line n)
  with_words n (a ∷ h ∷ []) later = onto_host (record { address = a; hostname = h }) later
  with_words n (a ∷ h ∷ x ∷ xs) later = failed (bad_line n)

  -- a line up to its comment
  abbrev pub uncommented : Option (Str × Str) → Str → Str
  uncommented none s = s
  uncommented (some (b, _)) s = b

  -- the loop of `ParseHosts`, and its error of the scanner
  unfoldable pub host_lines : ℕ → List Str → Bool → Parsed (List Host)
  unfolding fields cut
  host_lines n [] true = failed too_long
  host_lines n [] false = parsed []
  host_lines n (l ∷ ls) gave_up =
      with_words n (fields (uncommented (cut b'#' l) l)) (host_lines (suc n) ls gave_up)

  abbrev pub if_valid : Parsed (List Host) → Parsed (List Host)
  if_valid (failed e) = failed e
  if_valid (parsed hosts) = if validate_hosts hosts then parsed hosts else failed refused

  -- `ParseHosts`
  unfoldable pub parse_hosts : Str → Parsed (List Host)
  unfolding host_lines validate_hosts scan_lines raw_lines
  parse_hosts src =
      let scanned = scan_lines scan_limit (raw_lines src) in
      if_valid (host_lines 1 scanned.0 scanned.1)

-- the line that `MarshalHosts` writes
abbrev pub host_line : Host → Str
host_line h = h.address ++ b'\t' ∷ h.hostname

unfoldable pub hosts_text : List Host → Str
hosts_text [] = []
hosts_text (h ∷ hosts) = host_line h ++ b'\n' ∷ hosts_text hosts

-- `MarshalHosts`
unfoldable pub marshal_hosts : (Str → Option Addr) → List Host → Parsed Str
unfolding validate_hosts hosts_text
marshal_hosts parse_addr hosts =
    if validate_hosts parse_addr hosts then parsed (hosts_text hosts) else failed refused
