-- ===== src/Files/Daemon/Valid.antt =====
-- What `Daemon.Validate` says of the names and the values of the settings.
use avahi_manager.Prelude.{
  ◌≡◌, refl, sym, ◌∙◌, subst, ◌≢◌, inl, inr, Bool, true, false, ◌&&◌, none, some, [], ◌∷◌, arith,
  Str, same, same_iff, Map, get, length, All, ltb, Bool-cases, &&-eq-true, Option-cases,
  contains_any, contains, ◌<◌, List, ltb→lt,
}
use avahi_manager.Files.Names.{name_char, IsName, IsLine}
use avahi_manager.Files.Settings.{
  Daemon, Kind, kinds, section_ok, setting_ok, sections_ok, settings_ok, validate_daemon,
}
use avahi_manager.Files.Daemon.{section_names}
use avahi_manager.Files.Daemon.Lines.{IsKey}

abbrev names_char : Str → Bool
names_char [] = true
names_char (x ∷ xs) = name_char x && names_char xs

abbrev key_ok : Str → Bool
key_ok k = names_char k && ltb 0 (length k)

key_ok-IsKey : (k : Str) → key_ok k ≡ true → IsKey k
key_ok-IsKey k h = (chars k (ground arith), ground arith)
  where
    chars : (k : Str) → names_char k ≡ true → IsName k
    chars [] h = tt
    chars (x ∷ xs) h = (ground arith, chars xs (ground arith))

abbrev keys_ok : {V : Type 0} → Map V → Bool
keys_ok [] = true
keys_ok ((k, v) ∷ m) = key_ok k && keys_ok m

abbrev schemas_ok : Map (Map Kind) → Bool
schemas_ok [] = true
schemas_ok ((s, m) ∷ ms) = keys_ok m && schemas_ok ms

get-key_ok :
    {V : Type 0} (k : Str) (v : V) (m : Map V)
    → keys_ok m ≡ true
    → get k m ≡ some v
    → key_ok k ≡ true
unfolding get
get-key_ok k v [] h g = cc
get-key_ok k v ((j, w) ∷ m) h g = elim (Bool-cases (same j k)) [
  | inl e ↦ rw (← (same_iff j k).0 e) (ground arith)
  | inr e ↦ get-key_ok k v m (ground arith) (rw (get, e) at g)
]

get-schemas_ok :
    (s : Str) (m : Map Kind) (ms : Map (Map Kind))
    → schemas_ok ms ≡ true
    → get s ms ≡ some m
    → keys_ok m ≡ true
unfolding get
get-schemas_ok s m [] h g = cc
get-schemas_ok s m ((j, w) ∷ ms) h g = elim (Bool-cases (same j s)) [
  | inl e ↦ let found : w ≡ m = ground arith in rw (← found) (ground arith)
  | inr e ↦ get-schemas_ok s m ms (ground arith) (rw (get, e) at g)
]

no_breaks : (v : Str) → contains_any v (13 ∷ 10 ∷ 0 ∷ []) ≡ false → IsLine v
unfolding contains_any contains
no_breaks [] h = tt
no_breaks (x ∷ xs) h = (ground arith, no_breaks xs (ground arith))

get_here :
    {V : Type 0} (j k : Str) (v : V) (m : Map V) → same j k ≡ true → get k ((j, v) ∷ m) ≡ some v
unfolding get
get_here j k v m h = rw h refl

get_there :
    {V : Type 0} (j k : Str) (v : V) (m : Map V) → same j k ≡ false → get k ((j, v) ∷ m) ≡ get k m
unfolding get
get_there j k v m h = rw h refl

some_inj : {V : Type 0} (a b : V) → some a ≡ some b → a ≡ b
some_inj a b e = ground (arith, e)

module _ (is_ip : Str → Bool) where
  -- a setting of a schema, with a value that stands on one line
  settings_ok-All :
      (schema : Map Kind) (es : Map Str)
      → keys_ok schema ≡ true
      → settings_ok is_ip schema es ≡ true
      → All (λ e. IsKey e.0 × IsLine e.1) es
  unfolding settings_ok
  settings_ok-All schema [] named h = tt
  settings_ok-All schema ((k, v) ∷ es) named h = elim (Option-cases (get k schema)) [
    | inl e ↦ absurd (not_true (rw (settings_ok, e) at h))
    | inr (kind, e) ↦
        let passed : (setting_ok is_ip (some kind) v && settings_ok is_ip schema es) ≡ true =
          rw (settings_ok, e) at h in
        (
          (key_ok-IsKey k (get-key_ok k kind schema named e), no_breaks v (ground arith)),
          settings_ok-All schema es named (ground arith),
        )
  ]
    where
      not_true : false ≡ true → ⊥
      not_true q = cc

  sections_ok-get :
      (d : Daemon) (s : Str) (es : Map Str)
      → sections_ok is_ip d ≡ true
      → get s d ≡ some es
      → section_ok is_ip (get s kinds) es ≡ true
  unfolding sections_ok
  sections_ok-get [] s es h g = absurd (missing (unfold get in g))
    where
      missing : {es : Map Str} → none ≡ some es → ⊥
      missing q = cc
  sections_ok-get ((j, w) ∷ d) s es h g = elim (Bool-cases (same j s)) [
    | inl e ↦
        let found : w ≡ es = some_inj w es (sym (get_here j s w d e) ∙ g) in
        let first : section_ok is_ip (get j kinds) w ≡ true = (&&-eq-true _ _ h).0 in
        subst (λ x. section_ok is_ip (get s kinds) x ≡ true) found
          (subst (λ x. section_ok is_ip (get x kinds) w ≡ true) ((same_iff j s).0 e) first)
    | inr e ↦ sections_ok-get d s es (&&-eq-true _ _ h).1 (sym (get_there j s w d e) ∙ g)
  ]

  -- Every section that passes is in the schema, and so are its settings.
  pub validate_daemon-get :
      (d : Daemon) (s : Str) (es : Map Str)
      → validate_daemon is_ip d ≡ true
      → get s d ≡ some es
      → (get s kinds ≢ none) × All (λ e. IsKey e.0 × IsLine e.1) es
  unfolding validate_daemon
  validate_daemon-get d s es h g =
      let ok_here = sections_ok-get d s es (ground arith) g in
      elim (Option-cases (get s kinds)) [
        | inl e ↦ absurd (not_true (rw e at ok_here))
        | inr (schema, e) ↦ (
          (λ q. some_none (sym e ∙ q)),
          settings_ok-All schema es (get-schemas_ok s schema kinds refl e) (rw e at ok_here),
        )
      ]
    where
      not_true : false ≡ true → ⊥
      not_true q = cc

      some_none : {schema : Map Kind} → some schema ≡ none → ⊥
      some_none q = cc

-- The names of the sections are keys, and short.
pub section_names-All : All (λ s. IsKey s × (length s < 16)) section_names
section_names-All = every section_names refl
  where
    named : List Str → Bool
    named [] = true
    named (s ∷ ss) = (key_ok s && ltb (length s) 16) && named ss

    every : (ss : List Str) → named ss ≡ true → All (λ s. IsKey s × (length s < 16)) ss
    every [] h = tt
    every (s ∷ ss) h = (
      (key_ok-IsKey s (ground arith), ltb→lt (length s) 16 (ground arith)),
      every ss (ground arith),
    )
