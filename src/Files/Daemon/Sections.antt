-- ===== src/Files/Daemon/Sections.antt =====
-- How `ParseDaemon` takes the lines of the sections that `Marshal` writes.
use mathlib.Core.List.{append-nil, append_assoc}
use avahi_manager.Prelude.{
  ℕ, suc, ◌≡◌, refl, ap, ◌∙◌, inl, inr, Bool, true, false, Option, none, some, List, [], ◌∷◌, ◌++◌,
  map, arith, Str, same, same_refl, same_iff, Map, get, put, All, Bool-cases, IsAbove, before?,
  IsSorted, before_irrefl, before_trans, get-put_self, trim_space, trim_front, behind,
}
use avahi_manager.Files.{parsed}
use avahi_manager.Files.Settings.{Daemon}
use avahi_manager.Files.Daemon.{daemon_line, daemon_lines}
use avahi_manager.Files.Daemon.Lines.{IsTrimmed, IsKey, daemon_line-setting, daemon_line-header}

abbrev pub setting_line : Str × Str → Str
setting_line (k, v) = k ++ b'=' ∷ v

abbrev pub header_line : Str → Str
header_line s = b'[' ∷ (s ++ b']' ∷ [])

-- a setting whose line can be read back
abbrev pub IsEntry : Str × Str → Type 0
IsEntry (k, v) = IsKey k × IsTrimmed v

put-put : {V : Type 0} (k : Str) (v w : V) (m : Map V) → put k w (put k v m) ≡ put k w m
unfolding put
put-put k v w [] = ground (arith, same_refl k)
put-put k v w ((j, x) ∷ m) = ground (arith, same_refl k, put-put k v w m)

-- a key behind all others is new, and is put at the end
IsAbove-append :
    {V : Type 0} (j k : Str) (v : V) (m es : Map V)
    → IsAbove j (m ++ (k, v) ∷ es)
    → before? j k ≡ true
IsAbove-append j k v [] es a = a.0
IsAbove-append j k v ((i, w) ∷ m) es a = IsAbove-append j k v m es a.1

same-before? : (j k : Str) → before? j k ≡ true → same j k ≡ false
same-before? j k h = ground (arith, same_iff j k, before_irrefl k)

before?-flip : (j k : Str) → before? j k ≡ true → before? k j ≡ false
before?-flip j k h = elim (Bool-cases (before? k j)) [
  | inl e ↦ ground (arith, before_trans j k j h e, before_irrefl j)
  | inr e ↦ e
]

get_last :
    {V : Type 0} (k : Str) (v : V) (m es : Map V) → IsSorted (m ++ (k, v) ∷ es) → get k m ≡ none
unfolding get
get_last k v [] es s = refl
get_last k v ((j, w) ∷ m) es (a, s) =
    rw (same-before? j k (IsAbove-append j k v m es a)) (get_last k v m es s)

put_last :
    {V : Type 0} (k : Str) (v : V) (m es : Map V)
    → IsSorted (m ++ (k, v) ∷ es)
    → put k v m ≡ m ++ (k, v) ∷ []
unfolding put
put_last k v [] es s = refl
put_last k v ((j, w) ∷ m) es (a, s) =
    let j_first = IsAbove-append j k v m es a in
    rw (same-before? j k j_first, before?-flip j k j_first, put_last k v m es s) refl

daemon_lines-parsed :
    (n : ℕ) (section now : Str) (d e : Daemon) (l : Str) (ls : List Str) (gave_up : Bool)
    → daemon_line n section d l ≡ parsed (e, now)
    → daemon_lines n section d (l ∷ ls) gave_up ≡ daemon_lines (suc n) now e ls gave_up
unfolding daemon_lines
daemon_lines-parsed n section now d e l ls gave_up h = rw (daemon_lines, h) refl

module _ (section : Str) (named : same section [] ≡ false) (e : Daemon) where
  -- The settings of a section are put into it one behind the other.
  read_settings :
      (es : Map Str) (n : ℕ) (before : Map Str) (more : List Str) (gave_up : Bool)
      → All IsEntry es
      → IsSorted (before ++ es)
      → (m : ℕ) × (daemon_lines n section
            (put section before e)
            (map setting_line es ++ more)
            gave_up
          ≡ daemon_lines m section (put section (before ++ es) e) more gave_up)
  read_settings [] n before more gave_up a s = (n, rw (append-nil before) refl)
  read_settings ((k, v) ∷ es) n before more gave_up ((key, trimmed), a) s =
      let new = get_last k v before es s in
      let line =
        daemon_line-setting n section (put section before e) before k v named key trimmed
          (get-put_self section before e) new in
      let put_here : put section (put k v before) (put section before e)
          ≡ put section (before ++ (k, v) ∷ []) e =
        put-put section before (put k v before) e
        ∙ ap (λ m. put section m e) (put_last k v before es s) in
      let assoc : (before ++ (k, v) ∷ []) ++ es ≡ before ++ (k, v) ∷ es =
        append_assoc before ((k, v) ∷ []) es in
      let (m, later) =
        read_settings es (suc n) (before ++ (k, v) ∷ []) more gave_up a (rw assoc s) in
      let rest = map setting_line es ++ more in
      (
        m,
        daemon_lines-parsed n section section (put section before e) _ (setting_line (k, v)) rest
              gave_up line
            ∙ ap (λ d. daemon_lines (suc n) section d rest gave_up) put_here
            ∙ rw assoc at later,
      )

-- the lines of a section
abbrev pub section_lines : Str → Option (Map Str) → List Str
section_lines s none = []
section_lines s (some es) = header_line s ∷ (map setting_line es ++ [] ∷ [])

IsKey-named : (s : Str) → IsKey s → same s [] ≡ false
unfolding same
IsKey-named [] key = ground arith
IsKey-named (x ∷ xs) key = refl

abbrev pub put_section : Str → Option (Map Str) → Daemon → Daemon
put_section s none e = e
put_section s (some es) e = put s es e

-- The lines of a section that is not there yet make the section.
pub read_section :
    (s : Str) (o : Option (Map Str)) (n : ℕ) (now : Str) (e : Daemon) (more : List Str)
    (gave_up : Bool)
    → IsKey s
    → get s e ≡ none
    → ((es : Map Str) → o ≡ some es → All IsEntry es × IsSorted es)
    → (m : ℕ) × (later : Str) × (daemon_lines n now e (section_lines s o ++ more) gave_up
        ≡ daemon_lines m later (put_section s o e) more gave_up)
read_section s none n now e more gave_up key new h = (n, now, refl)
read_section s (some es) n now e more gave_up key new h =
    let (entries, sorted) = h es refl in
    let behind_settings = [] ∷ more in
    let (m, settings) =
      read_settings s (IsKey-named s key) e es (suc n) [] behind_settings gave_up entries sorted in
    let lines : (map setting_line es ++ [] ∷ []) ++ more ≡ map setting_line es ++ [] ∷ more =
      append_assoc (map setting_line es) ([] ∷ []) more in
    (
      suc m,
      s,
      ap (λ ls. daemon_lines n now e (header_line s ∷ ls) gave_up) lines
          ∙ daemon_lines-parsed n now s e (put s [] e) (header_line s)
              (map setting_line es ++ behind_settings) gave_up
              (daemon_line-header n now e s key new)
          ∙ settings
          ∙ daemon_lines-parsed m s s (put s es e) (put s es e) [] more gave_up
              (unfold daemon_line trim_space trim_front behind same in refl),
    )
