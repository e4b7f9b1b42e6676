-- ===== src/Files/Daemon/Text.antt =====
-- The text of a configuration is the text of its lines, and the scanner gives them back.
use mathlib.Core.List.{append_assoc}
use avahi_manager.Prelude.{
  ◌+◌, ◌<◌, ◌≡◌, refl, sym, ap, ◌∙◌, true, false, Option, none, some, List, [], ◌∷◌, ◌++◌, map,
  arith, Str, Map, get, length, All, scan_lines, All-append, raw_lines, length-append,
}
use avahi_manager.Files.Names.{
  plain, IsLine, line_char, IsPlain-IsLine, raw_lines-IsLine, scan_lines-short, IsName-IsPlain,
}
use avahi_manager.Files.Settings.{Daemon}
use avahi_manager.Files.Daemon.{sections_text, daemon_limit, settings_text, section_text}
use avahi_manager.Files.Daemon.Lines.{IsTrimmed, IsKey}
use avahi_manager.Files.Daemon.Sections.{setting_line, header_line, IsEntry, section_lines}
use avahi_manager.Files.Daemon.Rebuilt.{all_lines}

-- a text of whole lines
abbrev pub lines_text : List Str → Str
lines_text [] = []
lines_text (l ∷ ls) = l ++ b'\n' ∷ lines_text ls

lines_text-append : (a b : List Str) → lines_text (a ++ b) ≡ lines_text a ++ lines_text b
lines_text-append [] b = refl
lines_text-append (l ∷ ls) b =
    ap (λ t. l ++ b'\n' ∷ t) (lines_text-append ls b)
    ∙ sym (append_assoc l (b'\n' ∷ lines_text ls) (lines_text b))

settings_text-lines :
    (es : Map Str) (rest : Str)
    → settings_text es ++ rest ≡ lines_text (map setting_line es) ++ rest
unfolding settings_text
settings_text-lines [] rest = refl
settings_text-lines ((k, v) ∷ es) rest =
    ap (λ t. t ++ rest)
      (ap (λ t. k ++ b'=' ∷ (v ++ b'\n' ∷ t)) (whole es)
        ∙ sym (append_assoc k (b'=' ∷ v) (b'\n' ∷ lines_text (map setting_line es))))
  where
    whole : (es : Map Str) → settings_text es ≡ lines_text (map setting_line es)
    whole [] = refl
    whole ((k, v) ∷ es) =
        ap (λ t. k ++ b'=' ∷ (v ++ b'\n' ∷ t)) (whole es)
        ∙ sym (append_assoc k (b'=' ∷ v) (b'\n' ∷ lines_text (map setting_line es)))

section_text-lines :
    (s : Str) (o : Option (Map Str)) → section_text s o ≡ lines_text (section_lines s o)
section_text-lines s none = refl
section_text-lines s (some es) =
    ap (λ t. b'[' ∷ (s ++ b']' ∷ b'\n' ∷ t))
      (settings_text-lines es (b'\n' ∷ [])
        ∙ sym (lines_text-append (map setting_line es) ([] ∷ [])))
    ∙ ap (λ t. b'[' ∷ t) (sym (append_assoc s (b']' ∷ []) _))

pub sections_text-lines :
    (d : Daemon) (names : List Str) → sections_text d names ≡ lines_text (all_lines d names)
unfolding sections_text
sections_text-lines d [] = refl
sections_text-lines d (s ∷ names) =
    rw (section_text-lines s (get s d), sections_text-lines d names)
      (sym (lines_text-append (section_lines s (get s d)) (all_lines d names)))

abbrev pub IsShort : Str → Type 0
IsShort l = IsLine l × (length l < daemon_limit)

pub scan_text :
    (ls : List Str)
    → All IsShort ls
    → scan_lines daemon_limit (raw_lines (lines_text ls)) ≡ (ls, false)
scan_text [] h = unfold scan_lines raw_lines in refl
scan_text (l ∷ ls) ((line, short), h) =
    ap (scan_lines daemon_limit) (raw_lines-IsLine l (lines_text ls) line)
    ∙ scan_lines-short daemon_limit l (raw_lines (lines_text ls)) line short
    ∙ rw (scan_text ls h) refl

-- what a setting needs beside being valid: no space at either end, and less than 1 MiB
abbrev pub IsCompact : Str × Str → Type 0
IsCompact e = IsTrimmed e.1 × (length e.0 + length e.1 + 1 < daemon_limit)

pub setting-IsShort :
    (es : Map Str)
    → All (λ e. IsKey e.0 × IsLine e.1) es
    → All IsCompact es
    → All IsEntry es × All IsShort (map setting_line es)
setting-IsShort [] a c = (tt, tt)
setting-IsShort ((k, v) ∷ es) ((key, line), a) ((trimmed, short), c) =
    let (entries, lines) = setting-IsShort es a c in
    (
      ((key, trimmed), entries),
      (
        (
          one_line k v (IsPlain-IsLine k (IsName-IsPlain k key.0)) line,
          omega (arith, short, length-append k (b'=' ∷ v)),
        ),
        lines,
      ),
    )
  where
    one_line : (a b : Str) → IsLine a → IsLine b → IsLine (a ++ b'=' ∷ b)
    one_line a b la lb = All-append (λ c. line_char c ≡ true) a (b'=' ∷ b) la (refl, lb)

section-IsShort :
    (s : Str) (o : Option (Map Str))
    → IsKey s × (length s < 16)
    → ((es : Map Str) → o ≡ some es → All IsShort (map setting_line es))
    → All IsShort (section_lines s o)
section-IsShort s none key h = tt
section-IsShort s (some es) ((name, some_), few) h = (
  (
    IsPlain-IsLine (header_line s)
        (refl, All-append (λ c. plain c ≡ true) s (b']' ∷ []) (IsName-IsPlain s name) (refl, tt)),
    omega (arith, few, length-append s (b']' ∷ [])),
  ),
  All-append IsShort (map setting_line es) ([] ∷ []) (h es refl) ((tt, omega arith), tt),
)

pub all_lines-IsShort :
    (d : Daemon) (names : List Str)
    → All (λ s. IsKey s × (length s < 16)) names
    → ((s : Str) (es : Map Str) → get s d ≡ some es → All IsShort (map setting_line es))
    → All IsShort (all_lines d names)
all_lines-IsShort d [] a h = tt
all_lines-IsShort d (s ∷ names) (key, a) h =
    All-append IsShort (section_lines s (get s d)) (all_lines d names)
      (section-IsShort s (get s d) key (h s)) (all_lines-IsShort d names a h)
