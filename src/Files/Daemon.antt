-- ===== src/Files/Daemon.antt =====
-- The configuration file of the daemon: `ParseDaemon` and `Daemon.Marshal` of
-- internal/config/daemon.go.
pub mod Lines
pub mod Sections
pub mod Rebuilt
pub mod Text
pub mod RoundTrip
pub mod Valid
use mathlib.Core.List.{reverse}
use avahi_manager.Prelude.{
  ℕ, zero, suc, ◌+◌, ◌-◌, ◌*◌, ◌/◌, ◌%◌, ◌^◌, ◌≤◌, ◌<◌, ◌≡◌, refl, sym, ap, ◌∙◌, subst, ◌≢◌, ◌↔◌,
  ◌⊎◌, inl, inr, Bool, true, false, not, ◌&&◌, ◌||◌, Option, none, some, List, [], ◌∷◌, ◌++◌, map,
  arith, Str, codes, same, same_refl, same_iff, Map, get, put, del, keys, length, All, leb, ltb,
  ◌==◌, if◌then◌else◌, Bool-cases, &&-eq-true, ltb→lt, leb→le, le→leb, Option-cases, trim_space,
  drop, has_prefix, scan_lines, contains_any, split, has_suffix, cut, raw_lines,
}
use avahi_manager.Files.Runes.{rune_width}
use avahi_manager.Files.{
  FileError, bad_line, too_long, refused, nil_map, Parsed, parsed, failed, is_label, valid_domain,
}
use avahi_manager.Files.Settings.{Daemon, validate_daemon}

-- the buffer of the scanner, 1 MiB
abbrev pub daemon_limit : ℕ
daemon_limit = 1048576

abbrev pub open_section : ℕ → Str → Daemon → Parsed (Daemon × Str)
open_section n [] d = failed (bad_line n)
open_section n (c ∷ s) d = elim (get (c ∷ s) d) [
  | none ↦ parsed (put (c ∷ s) [] d, c ∷ s)
  | some _ ↦ parsed (d, c ∷ s)
]

-- the assignment to `d[section][key]`, which panics for a section that is not there
abbrev pub add_setting : ℕ → Str → Str → Str → Daemon → Option (Map Str) → Parsed (Daemon × Str)
add_setting n section k v d none = failed nil_map
add_setting n section k v d (some entries) = elim (get k entries) [
  | none ↦ parsed (put section (put k v entries) d, section)
  | some _ ↦ failed (bad_line n)
]

abbrev read_setting : ℕ → Str → Daemon → Option (Str × Str) → Parsed (Daemon × Str)
read_setting n section d none = failed (bad_line n)
read_setting n section d (some (key, value)) =
    let k = trim_space key in
    if same section [] || same k []
    then failed (bad_line n)
    else add_setting n section k (trim_space value) d (get section d)

-- the text between the first and the last character
abbrev inner : Str → Str
inner [] = []
inner (x ∷ xs) = reverse (drop 1 (reverse xs))

abbrev is_header : Str → Bool
is_header v = has_prefix v (codes "[") && has_suffix v (codes "]")

abbrev is_remark : Str → Bool
is_remark v = same v [] || (has_prefix v (codes "#") || has_prefix v (codes ";"))

-- the body of the loop of `ParseDaemon`
unfoldable pub daemon_line : ℕ → Str → Daemon → Str → Parsed (Daemon × Str)
unfolding trim_space cut get put same has_prefix has_suffix
daemon_line n section d l =
    let v = trim_space l in
    if is_remark v
    then parsed (d, section)
    else if is_header v
    then open_section n (trim_space (inner v)) d
    else read_setting n section d (cut b'=' v)

-- the loop of `ParseDaemon`, and its error of the scanner
unfoldable pub daemon_lines : ℕ → Str → Daemon → List Str → Bool → Parsed Daemon
unfolding daemon_line
daemon_lines n section d [] true = failed too_long
daemon_lines n section d [] false = parsed d
daemon_lines n section d (l ∷ ls) gave_up = elim (daemon_line n section d l) [
  | failed e ↦ failed e
  | parsed (e, now) ↦ daemon_lines (suc n) now e ls gave_up
]

-- `ParseDaemon`
unfoldable pub parse_daemon : Str → Parsed Daemon
unfolding daemon_lines scan_lines raw_lines
parse_daemon src =
    let scanned = scan_lines daemon_limit (raw_lines src) in
    daemon_lines 1 [] [] scanned.0 scanned.1

unfoldable pub settings_text : Map Str → Str
settings_text [] = []
settings_text ((k, v) ∷ entries) = k ++ b'=' ∷ (v ++ b'\n' ∷ settings_text entries)

abbrev pub section_text : Str → Option (Map Str) → Str
section_text s none = []
section_text s (some entries) = b'[' ∷ (s ++ b']' ∷ b'\n' ∷ (settings_text entries ++ b'\n' ∷ []))

abbrev pub section_names : List Str
section_names =
    codes "server" ∷ codes "wide-area" ∷ codes "publish" ∷ codes "reflector" ∷ codes "rlimits" ∷ []

unfoldable pub sections_text : Daemon → List Str → Str
unfolding settings_text get
sections_text d [] = []
sections_text d (s ∷ names) = section_text s (get s d) ++ sections_text d names

-- `Daemon.Marshal`
unfoldable pub marshal_daemon : (Str → Bool) → Daemon → Parsed Str
unfolding validate_daemon sections_text
marshal_daemon is_ip d =
    if validate_daemon is_ip d then parsed (sections_text d section_names) else failed refused
