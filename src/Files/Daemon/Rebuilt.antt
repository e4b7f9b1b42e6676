-- ===== src/Files/Daemon/Rebuilt.antt =====
-- The configuration that `ParseDaemon` builds from the lines of some sections.

use avahi_manager.Prelude.{
  ℕ, ◌≡◌, refl, ◌∙◌, inl, inr, Bool, true, false, not, ◌&&◌, ◌||◌, Option, none, some, List, [],
  ◌∷◌, ◌++◌, arith, Str, same, same_iff, Map, get, All, Bool-cases, get-put, get-put_self, IsSorted,
}
use avahi_manager.Files.{parsed}
use avahi_manager.Files.Settings.{Daemon}
use avahi_manager.Files.Daemon.{daemon_lines}
use avahi_manager.Files.Daemon.Lines.{IsKey}
use avahi_manager.Files.Daemon.Sections.{IsEntry, section_lines, put_section, read_section}

abbrev pub memb : Str → List Str → Bool
memb t [] = false
memb t (s ∷ ss) = same s t || memb t ss

abbrev pub is_distinct : List Str → Bool
is_distinct [] = true
is_distinct (s ∷ ss) = not (memb s ss) && is_distinct ss

module _ (d : Daemon) where
  abbrev pub all_lines : List Str → List Str
  all_lines [] = []
  all_lines (s ∷ names) = section_lines s (get s d) ++ all_lines names

  -- the sections of some names, put into a map one behind the other
  abbrev pub rebuilt : List Str → Daemon → Daemon
  rebuilt [] e = e
  rebuilt (s ∷ names) e = rebuilt names (put_section s (get s d) e)

  get-put_section :
      (t s : Str) (o : Option (Map Str)) (e : Daemon)
      → same s t ≡ false
      → get t (put_section s o e) ≡ get t e
  get-put_section t s none e h = refl
  get-put_section t s (some es) e h = rw (get-put t s es e, h) refl

  get-put_section_self :
      (s : Str) (o : Option (Map Str)) (e : Daemon) → get s e ≡ none → get s (put_section s o e) ≡ o
  get-put_section_self s none e h = h
  get-put_section_self s (some es) e h = get-put_self s es e

  pub get-rebuilt_other :
      (t : Str) (names : List Str) (e : Daemon)
      → memb t names ≡ false
      → get t (rebuilt names e) ≡ get t e
  get-rebuilt_other t [] e h = refl
  get-rebuilt_other t (s ∷ names) e h =
      get-rebuilt_other t names (put_section s (get s d) e) (ground arith)
      ∙ get-put_section t s (get s d) e (ground arith)

  pub get-rebuilt :
      (t : Str) (names : List Str) (e : Daemon)
      → is_distinct names ≡ true
      → memb t names ≡ true
      → get t e ≡ none
      → get t (rebuilt names e) ≡ get t d
  get-rebuilt t [] e distinct h new = ground arith
  get-rebuilt t (s ∷ names) e distinct h new = elim (Bool-cases (same s t)) [
    | inl here ↦
        let is : s ≡ t = (same_iff s t).0 here in
        rw (← is) (
          get-rebuilt_other s names (put_section s (get s d) e) (ground arith)
          ∙ get-put_section_self s (get s d) e (rw is new))
    | inr other ↦
        get-rebuilt t names (put_section s (get s d) e) (ground arith) (ground arith)
          (get-put_section t s (get s d) e other ∙ new)
  ]

  module _
      (entries : (s : Str) (es : Map Str) → get s d ≡ some es → All IsEntry es × IsSorted es) where
    pub read_sections :
        (names : List Str) (n : ℕ) (now : Str) (e : Daemon)
        → All IsKey names
        → is_distinct names ≡ true
        → All (λ s. get s e ≡ none) names
        → daemon_lines n now e (all_lines names) false ≡ parsed (rebuilt names e)
    read_sections [] n now e keys_ distinct new = unfold daemon_lines in refl
    read_sections (s ∷ names) n now e (key, keys_) distinct (here, new) =
        let (m, later, first) =
          read_section s (get s d) n now e (all_lines names) false key here (entries s) in
        first
        ∙ read_sections names m later (put_section s (get s d) e) keys_ (ground arith)
            (still_new names (ground arith) new)
      where
        still_new :
            (ts : List Str)
            → memb s ts ≡ false
            → All (λ t. get t e ≡ none) ts
            → All (λ t. get t (put_section s (get s d) e) ≡ none) ts
        still_new [] h a = tt
        still_new (t ∷ ts) h (a, as_) = (
          get-put_section t s (get s d) e (ground (arith, same_iff t s, same_iff s t)) ∙ a,
          still_new ts (ground arith) as_,
        )
