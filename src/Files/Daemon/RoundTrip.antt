-- ===== src/Files/Daemon/RoundTrip.antt =====
-- What `Daemon.Marshal` writes, `ParseDaemon` reads.

use avahi_manager.Prelude.{
  ◌≡◌, refl, sym, ◌∙◌, ◌≢◌, inl, inr, Bool, true, false, none, some, [], ◌∷◌, map, Str, same, Map,
  get, keys, All, Bool-cases, Option-cases, IsSorted, All-get,
}
use avahi_manager.Files.{parsed}
use avahi_manager.Files.Settings.{Daemon, kinds, validate_daemon}
use avahi_manager.Files.Daemon.{section_names, sections_text, marshal_daemon, parse_daemon}
use avahi_manager.Files.Daemon.Lines.{IsKey}
use avahi_manager.Files.Daemon.Valid.{section_names-All, validate_daemon-get}
use avahi_manager.Files.Daemon.Sections.{setting_line, IsEntry}
use avahi_manager.Files.Daemon.Rebuilt.{
  all_lines, rebuilt, memb, get-rebuilt, get-rebuilt_other, read_sections,
}
use avahi_manager.Files.Daemon.Text.{
  IsShort, IsCompact, sections_text-lines, scan_text, setting-IsShort, all_lines-IsShort,
}

memb-get : {V : Type 0} (s : Str) (m : Map V) → get s m ≢ none → memb s (keys m) ≡ true
unfolding get keys
memb-get s [] h = absurd (h refl)
memb-get s ((j, v) ∷ m) h = elim (Bool-cases (same j s)) [
  | inl e ↦ rw e refl
  | inr e ↦ rw e (memb-get s m (λ q. h (rw e q)))
]

memb-kinds : (s : Str) → get s kinds ≢ none → memb s section_names ≡ true
unfolding keys
memb-kinds s h = memb-get s kinds h

-- The sections that `Validate` accepts, with sorted keys and without blanks round the values.
abbrev pub IsPrintable : Daemon → Type 0
IsPrintable = All (λ s. IsSorted s.1 × All IsCompact s.1)

-- `Marshal` writes every configuration that `Validate` accepts. If no value has a space at either
-- end and each line is shorter than 1 MiB, `ParseDaemon` reads from the text a configuration that
-- has the same sections with the same settings.
pub marshal_daemon-parse_daemon :
    (is_ip : Str → Bool) (d : Daemon)
    → validate_daemon is_ip d ≡ true
    → IsPrintable d
    → (text : Str) × (e : Daemon) × (marshal_daemon is_ip d ≡ parsed text)
      × (parse_daemon text ≡ parsed e)
      × ((s : Str) → get s e ≡ get s d)
unfolding marshal_daemon parse_daemon
marshal_daemon-parse_daemon is_ip d valid printable = (
  sections_text d section_names,
  rebuilt d section_names [],
  rw valid refl,
  rw
      (
        sections_text-lines d section_names,
        scan_text (all_lines d section_names)
            (all_lines-IsShort d section_names section_names-All short),
      )
      (read_sections d entries section_names 1 [] [] named refl nothing_yet),
  same_sections,
)
  where
    compact : (s : Str) (es : Map Str) → get s d ≡ some es → IsSorted es × All IsCompact es
    compact s es g = All-get (λ e. IsSorted e.1 × All IsCompact e.1) s es d printable g

    named : All IsKey section_names
    named =
        let k = section_names-All in
        (k.0.0, (k.1.0.0, (k.1.1.0.0, (k.1.1.1.0.0, (k.1.1.1.1.0.0, tt)))))

    nothing_yet : All (λ s. get {V = Map Str} s [] ≡ none) section_names
    nothing_yet = unfold get in (refl, (refl, (refl, (refl, (refl, tt)))))

    both :
        (s : Str) (es : Map Str)
        → get s d ≡ some es
        → All IsEntry es × All IsShort (map setting_line es)
    both s es g = setting-IsShort es (validate_daemon-get is_ip d s es valid g).1 (compact s es g).1

    entries : (s : Str) (es : Map Str) → get s d ≡ some es → All IsEntry es × IsSorted es
    entries s es g = ((both s es g).0, (compact s es g).0)

    short : (s : Str) (es : Map Str) → get s d ≡ some es → All IsShort (map setting_line es)
    short s es g = (both s es g).1

    not_both : true ≡ false → ⊥
    not_both q = cc

    same_sections : (s : Str) → get s (rebuilt d section_names []) ≡ get s d
    same_sections s = elim (Bool-cases (memb s section_names)) [
      | inl e ↦ get-rebuilt d s section_names [] refl e (unfold get in refl)
      | inr e ↦ elim (Option-cases (get s d)) [
        | inl missing ↦
            get-rebuilt_other d s section_names [] e ∙ (unfold get in refl) ∙ sym missing
        | inr (es, there) ↦
            absurd
              (not_both (sym (memb-kinds s (validate_daemon-get is_ip d s es valid there).0) ∙ e))
      ]
    ]
