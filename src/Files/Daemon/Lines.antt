-- ===== src/Files/Daemon/Lines.antt =====
-- How `ParseDaemon` takes the line of a setting and the line of a header.
use mathlib.Core.List.{reverse, reverse-reverse, reverse-cons, reverse-append, append_assoc}
use avahi_manager.Prelude.{
  ℕ, zero, suc, ◌<◌, ◌≡◌, refl, ap, ◌∙◌, inl, inr, Bool, true, false, not, ◌&&◌, none, some, List,
  [], ◌∷◌, ◌++◌, arith, Str, same, same_refl, Map, get, put, length, All, ◌==◌, if◌then◌else◌,
  Bool-cases, behind, trim_front, trim_space, has_prefix, spaces, reversed_all, contains, drop, cut,
  has_suffix, All-append,
}
use avahi_manager.Files.{parsed}
use avahi_manager.Files.Names.{plain, IsPlain, IsName, name_char-plain, IsName-IsPlain}
use avahi_manager.Files.Settings.{Daemon}
use avahi_manager.Files.Daemon.{add_setting, open_section, daemon_line}

-- No space stands at either end of a text.
abbrev pub IsTrimmed : Str → Type 0
IsTrimmed v = (behind spaces v ≡ none) × (behind (reversed_all spaces) (reverse v) ≡ none)

trim_front-none : (n : ℕ) (ps : List Str) (s : Str) → behind ps s ≡ none → trim_front n ps s ≡ s
unfolding trim_front
trim_front-none zero ps s h = refl
trim_front-none (suc n) ps s h = rw (trim_front, h) refl

pub trim_space-IsTrimmed : (v : Str) → IsTrimmed v → trim_space v ≡ v
unfolding trim_space
trim_space-IsTrimmed v (front, back) = rw (trim_front-none (length v) spaces v front) (
    ap reverse (trim_front-none (length v) (reversed_all spaces) (reverse v) back)
    ∙ reverse-reverse v)

-- every text begins with a character that is not plain
abbrev blank_first : List Str → Bool
blank_first [] = true
blank_first ([] ∷ ps) = false
blank_first ((c ∷ p) ∷ ps) = not (plain c) && blank_first ps

behind-blank_first :
    (ps : List Str) (x : ℕ) (xs : Str)
    → blank_first ps ≡ true
    → plain x ≡ true
    → behind ps (x ∷ xs) ≡ none
unfolding behind has_prefix
behind-blank_first [] x xs b h = refl
behind-blank_first ([] ∷ ps) x xs b h = ground arith
behind-blank_first ((c ∷ p) ∷ ps) x xs b h =
    let other : (x == c) ≡ false = ground arith in
    rw other (behind-blank_first ps x xs (ground arith) h)

behind-plain : (x : ℕ) (xs : Str) → plain x ≡ true → behind spaces (x ∷ xs) ≡ none
behind-plain x xs h = behind-blank_first spaces x xs refl h

behind-plain_last :
    (x : ℕ) (xs : Str) → plain x ≡ true → behind (reversed_all spaces) (x ∷ xs) ≡ none
unfolding reversed_all
behind-plain_last x xs h = behind-blank_first (reversed_all spaces) x xs refl h

abbrev lack : ℕ → List Str → Bool
lack c [] = true
lack c (p ∷ ps) = not (contains p c) && lack c ps

-- a prefix without `c` does not reach behind the first `c`
has_prefix-append_inv :
    (r w p : Str) (c : ℕ)
    → contains p c ≡ false
    → has_prefix (r ++ c ∷ w) p ≡ true
    → has_prefix r p ≡ true
unfolding has_prefix contains
has_prefix-append_inv r w [] c n h = refl
has_prefix-append_inv [] w (y ∷ ys) c n h = ground arith
has_prefix-append_inv (x ∷ xs) w (y ∷ ys) c n h = ground (arith, has_prefix-append_inv xs w ys c)

behind-append :
    (ps : List Str) (r w : Str) (c : ℕ)
    → lack c ps ≡ true
    → behind ps r ≡ none
    → behind ps (r ++ c ∷ w) ≡ none
unfolding behind
behind-append [] r w c a h = refl
behind-append (p ∷ ps) r w c a h = elim (Bool-cases (has_prefix (r ++ c ∷ w) p)) [
  | inl e ↦ absurd (some_there (rw (has_prefix-append_inv r w p c (ground arith) e) at h))
  | inr e ↦ rw e (behind-append ps r w c (ground arith) (rest_none (has_prefix r p) h))
]
  where
    some_there : some (drop (length p) r) ≡ none → ⊥
    some_there q = cc

    rest_none :
        (b : Bool)
        → (if b then some (drop (length p) r) else behind ps r) ≡ none
        → behind ps r ≡ none
    rest_none true q = cc
    rest_none false q = q

-- Blanks in front of and behind a plain text: there are none.
IsPlain-reverse : (s : Str) → IsPlain s → IsPlain (reverse s)
IsPlain-reverse [] h = tt
IsPlain-reverse (x ∷ xs) h =
    rw (reverse-cons x xs)
      (All-append (λ c. plain c ≡ true) (reverse xs) (x ∷ []) (IsPlain-reverse xs h.1) (h.0, tt))

plain_front : (s : Str) → IsPlain s → behind spaces s ≡ none
plain_front [] h = unfold behind has_prefix in refl
plain_front (x ∷ xs) h = behind-plain x xs h.0

plain_back : (s : Str) → IsPlain s → behind (reversed_all spaces) s ≡ none
plain_back [] h = unfold behind has_prefix reversed_all in refl
plain_back (x ∷ xs) h = behind-plain_last x xs h.0

IsPlain-IsTrimmed : (s : Str) → IsPlain s → IsTrimmed s
IsPlain-IsTrimmed s h = (plain_front s h, plain_back (reverse s) (IsPlain-reverse s h))

-- a key that a line can begin with
abbrev pub IsKey : Str → Type 0
IsKey k = IsName k × (0 < length k)

reverse-middle : (a b : Str) (c : ℕ) → reverse (a ++ c ∷ b) ≡ reverse b ++ c ∷ reverse a
reverse-middle a b c =
    reverse-append a (c ∷ b)
    ∙ ap (λ t. t ++ reverse a) (reverse-cons c b)
    ∙ append_assoc (reverse b) (c ∷ []) (reverse a)

setting-IsTrimmed : (k v : Str) → IsKey k → IsTrimmed v → IsTrimmed (k ++ b'=' ∷ v)
setting-IsTrimmed [] v (name, some_) t = ground arith
setting-IsTrimmed (x ∷ xs) v (name, some_) t = (
  behind-plain x (xs ++ b'=' ∷ v) (name_char-plain x name.0),
  rw (reverse-middle (x ∷ xs) v b'=') (
      behind-append (reversed_all spaces) (reverse v) (reverse (x ∷ xs)) b'='
        (unfold reversed_all contains in refl) t.1),
)

cut-found : (c : ℕ) (k v : Str) → All (λ x. (x == c) ≡ false) k → cut c (k ++ c ∷ v) ≡ some (k, v)
unfolding cut
cut-found c [] v h = ground arith
cut-found c (x ∷ xs) v h = rw (h.0, cut-found c xs v h.1) refl

no_equals : (k : Str) → IsName k → All (λ x. (x == b'=') ≡ false) k
no_equals [] h = tt
no_equals (x ∷ xs) h = (ground arith, no_equals xs h.1)

-- The line of a setting puts the setting into its section.
pub daemon_line-setting :
    (n : ℕ) (section : Str) (d : Daemon) (entries : Map Str) (k v : Str)
    → same section [] ≡ false
    → IsKey k
    → IsTrimmed v
    → get section d ≡ some entries
    → get k entries ≡ none
    → daemon_line n section d (k ++ b'=' ∷ v) ≡ parsed (put section (put k v entries) d, section)
unfolding same
daemon_line-setting n section d entries [] v ns key t g new = ground arith
daemon_line-setting n section d entries (x ∷ xs) v ns (name, some_) t g new =
    let whole =
      trim_space-IsTrimmed (x ∷ xs ++ b'=' ∷ v) (setting-IsTrimmed (x ∷ xs) v (name, some_) t) in
    let parts = cut-found b'=' (x ∷ xs) v (no_equals (x ∷ xs) name) in
    let key =
      trim_space-IsTrimmed (x ∷ xs) (IsPlain-IsTrimmed (x ∷ xs) (IsName-IsPlain (x ∷ xs) name)) in
    let value = trim_space-IsTrimmed v t in
    let named : same (trim_space (x ∷ xs)) [] ≡ false = rw (key, same) refl in
    let fresh : get (trim_space (x ∷ xs)) entries ≡ none = rw key new in
    let no_hash : (x == b'#') ≡ false = ground arith in
    let no_semicolon : (x == b';') ≡ false = ground arith in
    let no_bracket : (x == b'[') ≡ false = ground arith in
    unfold daemon_line has_prefix same in
    rw
      (
        whole, no_hash, no_semicolon, no_bracket, parts, ns, named, g, add_setting, fresh, key,
        value,
      )
      refl

has_suffix-append : (s : Str) (c : ℕ) → has_suffix (s ++ c ∷ []) (c ∷ []) ≡ true
unfolding has_suffix
has_suffix-append [] c = rw (same_refl (c ∷ [])) refl
has_suffix-append (x ∷ xs) c = rw (has_suffix-append xs c) (ground arith)

header_inner : (s : Str) → reverse (drop 1 (reverse (s ++ b']' ∷ []))) ≡ s
header_inner s = rw (reverse-middle s [] b']') (reverse-reverse s)

-- A header opens its section.
pub daemon_line-header :
    (n : ℕ) (section : Str) (d : Daemon) (s : Str)
    → IsKey s
    → get s d ≡ none
    → daemon_line n section d (b'[' ∷ (s ++ b']' ∷ [])) ≡ parsed (put s [] d, s)
daemon_line-header n section d [] key g = ground arith
daemon_line-header n section d (x ∷ xs) (name, some_) g =
    let plain_name = IsName-IsPlain (x ∷ xs) name in
    let line_plain : IsPlain (b'[' ∷ (x ∷ xs ++ b']' ∷ [])) =
      (refl, All-append (λ c. plain c ≡ true) (x ∷ xs) (b']' ∷ []) plain_name (refl, tt)) in
    let whole =
      trim_space-IsTrimmed (b'[' ∷ (x ∷ xs ++ b']' ∷ [])) (IsPlain-IsTrimmed _ line_plain) in
    let ends = has_suffix-append (b'[' ∷ x ∷ xs) b']' in
    let name_same = trim_space-IsTrimmed (x ∷ xs) (IsPlain-IsTrimmed (x ∷ xs) plain_name) in
    unfold daemon_line has_prefix same in
    rw (whole, ends, header_inner (x ∷ xs), name_same, open_section, g) refl
