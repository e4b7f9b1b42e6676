-- ===== src/Prelude/Bytes.antt =====
-- Go strings and byte slices: lists of bytes. The functions of the package `strings` that the
-- program uses are written out here.
use Prim.Native.Char.{code}
use Prim.Native.Nat.{ℕ}
use Prim.Native.String.{String}
use mathlib.Core.Path.{◌≡◌, refl}
use mathlib.Core.Logic.{◌↔◌}
use mathlib.Core.Bool.{Bool, true, false, ◌&&◌, ◌||◌}
use mathlib.Core.List.{List, [], ◌∷◌, ◌++◌}
use native.Mathlib.Omega.{arith}
use avahi_manager.Prelude.Tests.{◌==◌, ltb}

abbrev pub Str : Type 0
Str = List ℕ

-- A literal of the source, as its bytes (the literals used are ASCII).
abbrev pub codes : String → Str
codes String.[] = []
codes (String.◌∷◌ c s) = code c ∷ codes s

-- `a == b` on strings
unfoldable pub same : Str → Str → Bool
same [] [] = true
same (x ∷ xs) (y ∷ ys) = x == y && same xs ys
same _ _ = false

pub same_refl : (s : Str) → same s s ≡ true
unfolding same
same_refl [] = refl
same_refl (x ∷ xs) = ground (arith, same_refl xs)

pub same_sound : (a b : Str) → same a b ≡ true → a ≡ b
unfolding same
same_sound [] [] h = refl
same_sound (x ∷ xs) (y ∷ ys) h = ground (arith, same_sound xs ys)
same_sound [] (y ∷ ys) h = ground arith
same_sound (x ∷ xs) [] h = ground arith

pub same_iff : (a b : Str) → (same a b ≡ true) ↔ (a ≡ b)
same_iff a b = (same_sound a b, λ e. rw (← e) (same_refl a))

-- `a < b` on strings: bytewise
unfoldable pub before? : Str → Str → Bool
before? _ [] = false
before? [] (y ∷ ys) = true
before? (x ∷ xs) (y ∷ ys) = ltb x y || (x == y && before? xs ys)

-- `strings.HasPrefix(s, p)`
unfoldable pub has_prefix : Str → Str → Bool
has_prefix s [] = true
has_prefix [] (y ∷ ys) = false
has_prefix (x ∷ xs) (y ∷ ys) = x == y && has_prefix xs ys

-- `strings.HasSuffix(s, p)`
unfoldable pub has_suffix : Str → Str → Bool
unfolding same
has_suffix [] p = same [] p
has_suffix (x ∷ xs) p = same (x ∷ xs) p || has_suffix xs p

-- `strings.ContainsRune(s, c)`, and `strings.ContainsAny(s, cs)` for single-byte characters
unfoldable pub contains : Str → ℕ → Bool
contains [] c = false
contains (x ∷ xs) c = x == c || contains xs c

unfoldable pub contains_any : Str → Str → Bool
unfolding contains
contains_any [] cs = false
contains_any (x ∷ xs) cs = contains cs x || contains_any xs cs

-- `strings.Contains(s, p)`
unfoldable pub contains_str : Str → Str → Bool
unfolding has_prefix
contains_str [] p = has_prefix [] p
contains_str (x ∷ xs) p = has_prefix (x ∷ xs) p || contains_str xs p

pub has_prefix_split : (s p : Str) → has_prefix s p ≡ true → (r : Str) × (s ≡ p ++ r)
unfolding has_prefix
has_prefix_split s [] h = (s, refl)
has_prefix_split [] (y ∷ ys) h = absurd (false-eq-true h)
  where
    false-eq-true : false ≡ true → ⊥
    false-eq-true e = cc
has_prefix_split (x ∷ xs) (y ∷ ys) h =
    let (r, e) = has_prefix_split xs ys (ground arith) in (r, ground arith)

pub has_prefix-append : (p r : Str) → has_prefix (p ++ r) p ≡ true
unfolding has_prefix
has_prefix-append [] r = refl
has_prefix-append (y ∷ ys) r = ground (arith, has_prefix-append ys r)

pub contains-append :
    (xs ys : Str) (c : ℕ) → contains (xs ++ ys) c ≡ (contains xs c || contains ys c)
unfolding contains
contains-append [] ys c = refl
contains-append (x ∷ xs) ys c = ground (arith, contains-append xs ys c)
