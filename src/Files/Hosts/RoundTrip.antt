-- ===== src/Files/Hosts/RoundTrip.antt =====
-- What `MarshalHosts` writes, `ParseHosts` reads.
use avahi_manager.Prelude.{
  ℕ, suc, ◌≤◌, ◌<◌, ◌≡◌, refl, ap, ◌∙◌, inl, inr, Bool, true, false, ◌&&◌, ◌||◌, Option, none, some,
  List, [], ◌∷◌, ◌++◌, map, arith, Str, same_iff, length, All, leb, ◌==◌, if◌then◌else◌, Bool-cases,
  Option-cases, length-append, scan_lines, raw_lines,
}
use avahi_manager.Files.{parsed, valid_domain}
use avahi_manager.Files.Hosts.{
  Host, Addr, scan_limit, usable, is_fqdn, host_key, is_seen, checked_key, hosts_from,
  validate_hosts, onto_host, host_lines, parse_hosts, host_line, hosts_text, marshal_hosts,
}
use avahi_manager.Files.Names.{
  plain, IsPlain, valid_domain-IsPlain, fields_tab, IsLine, IsPlain-IsLine, raw_lines-IsLine,
  scan_lines-short, cut-none,
}

abbrev hex_char : ℕ → Bool
hex_char c =
    (leb b'0' c && leb c b'9') || ((leb b'a' c && leb c b'f') || (leb b'A' c && leb c b'F'))

-- What `netip.ParseAddr` accepts without a zone: at most 45 hexadecimal digits, dots and colons.
abbrev pub IsAddress : Str → Type 0
IsAddress s =
    All (λ c. (hex_char c || (c == b'.' || c == b':')) ≡ true) s × (0 < length s) × (length s ≤ 45)

abbrev pub IsNetip : (Str → Option Addr) → Type 0
IsNetip parse_addr = (s : Str) (ip : Addr) → parse_addr s ≡ some ip → ip.zone ≡ [] → IsAddress s

-- a host whose line can be read back
abbrev IsReadable : Host → Type 0
IsReadable h =
    IsPlain h.address
    × (0 < length h.address)
    × (length h.address ≤ 45)
    × (IsPlain h.hostname × (0 < length h.hostname) × (length h.hostname ≤ 254))

address-IsPlain :
    (s : Str) → All (λ c. (hex_char c || (c == b'.' || c == b':')) ≡ true) s → IsPlain s
address-IsPlain [] h = tt
address-IsPlain (x ∷ xs) h = (plain_char x h.0, address-IsPlain xs h.1)
  where
    plain_char : (c : ℕ) → (hex_char c || (c == b'.' || c == b':')) ≡ true → plain c ≡ true
    plain_char c h = ground arith

IsPlain-append : (a b : Str) → IsLine a → IsLine b → IsLine (a ++ b'\t' ∷ b)
IsPlain-append [] b pa pb = (refl, pb)
IsPlain-append (x ∷ xs) b pa pb = (pa.0, IsPlain-append xs b pa.1 pb)

not_comment : (a b : Str) → IsPlain a → IsPlain b → All (λ x. (x == b'#') ≡ false) (a ++ b'\t' ∷ b)
not_comment [] b pa pb = (refl, rest b pb)
  where
    rest : (b : Str) → IsPlain b → All (λ x. (x == b'#') ≡ false) b
    rest [] p = tt
    rest (y ∷ ys) p = (ground arith, rest ys p.1)
not_comment (x ∷ xs) b pa pb = (ground arith, not_comment xs b pa.1 pb)

module _ (parse_addr : Str → Option Addr) (netip : IsNetip parse_addr) where
  checked_key-IsReadable : (h : Host) (k : Str) → checked_key parse_addr h ≡ some k → IsReadable h
  unfolding checked_key
  checked_key-IsReadable h k e = elim (Option-cases (parse_addr h.address)) [
    | inl none_there ↦ absurd (no_key (rw (checked_key, none_there) at e))
    | inr (ip, there) ↦
        let passed : (usable ip && is_fqdn h.hostname) ≡ true =
          tests ip (rw (checked_key, there) at e) in
        let unzoned : ip.zone ≡ [] = (same_iff ip.zone []).0 (ground arith) in
        let (chars, some_chars, few) = netip h.address ip there unzoned in
        let domain : valid_domain h.hostname ≡ true = ground arith in
        (address-IsPlain h.address chars, some_chars, few, valid_domain-IsPlain h.hostname domain)
  ]
    where
      no_key : none ≡ some k → ⊥
      no_key q = cc

      tests :
          (ip : Addr)
          → (if usable ip && is_fqdn h.hostname then some (host_key ip h) else none) ≡ some k
          → (usable ip && is_fqdn h.hostname) ≡ true
      tests ip q = ground arith

  hosts_from-All :
      (seen : List Str) (hosts : List Host)
      → hosts_from parse_addr seen hosts ≡ true
      → All IsReadable hosts
  unfolding hosts_from
  hosts_from-All seen [] h = tt
  hosts_from-All seen (x ∷ hosts) h = elim (Option-cases (checked_key parse_addr x)) [
    | inl none_there ↦ absurd (not_true (rw (hosts_from, none_there) at h))
    | inr (k, there) ↦ elim (Bool-cases (is_seen k seen)) [
      | inl e ↦ absurd (not_true (rw (hosts_from, there, e) at h))
      | inr e ↦ (
        checked_key-IsReadable x k there,
        hosts_from-All (k ∷ seen) hosts (rw (hosts_from, there, e) at h),
      )
    ]
  ]
    where
      not_true : false ≡ true → ⊥
      not_true q = cc

read_line :
    (parse_addr : Str → Option Addr) (n : ℕ) (h : Host) (ls : List Str) (gave_up : Bool)
    → IsReadable h
    → host_lines parse_addr n (host_line h ∷ ls) gave_up
      ≡ onto_host parse_addr h (host_lines parse_addr (suc n) ls gave_up)
unfolding host_lines
read_line parse_addr n h ls gave_up (pa, na, la, (ph, nh, lh)) =
    rw
      (
        cut-none b'#' (host_line h) (not_comment h.address h.hostname pa ph),
        fields_tab h.address h.hostname pa ph na nh,
      )
      refl

pub lines_short :
    (h : Host) → IsReadable h → IsLine (host_line h) × (length (host_line h) < scan_limit)
lines_short h (pa, na, la, (ph, nh, lh)) = (
  IsPlain-append h.address h.hostname (IsPlain-IsLine h.address pa) (IsPlain-IsLine h.hostname ph),
  omega (arith, length-append h.address (b'\t' ∷ h.hostname)),
)

-- the scanner gives the lines back, and does not give up
scan_hosts :
    (hosts : List Host)
    → All IsReadable hosts
    → scan_lines scan_limit (raw_lines (hosts_text hosts)) ≡ (map host_line hosts, false)
unfolding hosts_text
scan_hosts [] r = unfold scan_lines raw_lines in refl
scan_hosts (h ∷ hosts) (r, rs) =
    let (line, short) = lines_short h r in
    ap (scan_lines scan_limit) (raw_lines-IsLine (host_line h) (hosts_text hosts) line)
    ∙ scan_lines-short scan_limit (host_line h) (raw_lines (hosts_text hosts)) line short
    ∙ rw (scan_hosts hosts rs) refl

module _ (parse_addr : Str → Option Addr) where
  read_hosts :
      (n : ℕ) (hosts : List Host)
      → All IsReadable hosts
      → host_lines parse_addr n (map host_line hosts) false ≡ parsed hosts
  read_hosts n [] r = unfold host_lines in refl
  read_hosts n (h ∷ hosts) (r, rs) =
      read_line parse_addr n h (map host_line hosts) false r ∙ rw (read_hosts (suc n) hosts rs) refl

-- `MarshalHosts` writes every list of hosts that `ValidateHosts` accepts, and `ParseHosts` reads
-- the same list, in the same order, from the text.
pub marshal_hosts-parse_hosts :
    (parse_addr : Str → Option Addr)
    → IsNetip parse_addr
    → (hosts : List Host) → validate_hosts parse_addr hosts ≡ true
    → (text : Str) × (marshal_hosts parse_addr hosts ≡ parsed text)
      × (parse_hosts parse_addr text ≡ parsed hosts)
unfolding marshal_hosts parse_hosts
marshal_hosts-parse_hosts parse_addr netip hosts valid =
    let readable : All IsReadable hosts =
      unfold validate_hosts in hosts_from-All parse_addr netip [] hosts valid in
    (
      hosts_text hosts,
      rw valid refl,
      rw (scan_hosts hosts readable, read_hosts parse_addr 1 hosts readable, valid) refl,
    )
