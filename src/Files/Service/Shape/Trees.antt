-- ===== src/Files/Service/Shape/Trees.antt =====
-- Trees of elements, their tokens and their shape; the start and the end of an element.
use mathlib.Core.List.{append_assoc}
use avahi_manager.Prelude.{
  ℕ, suc, ◌+◌, ◌≡◌, refl, sym, ◌∙◌, inl, inr, Bool, true, false, not, ◌&&◌, ◌||◌, List, [], ◌∷◌,
  ◌++◌, arith, Str, codes, same, same_iff, Map, put, ltb, ◌==◌, if◌then◌else◌, Bool-cases,
  trim_space, get-put, contains_str, has_prefix,
}
use avahi_manager.Files.Service.Shape.{
  Token, start_token, end_token, text_token, other_token, Frame, next, bad_shape, count, allowed,
  repeats, attrs_ok, on_start, on_end, no_text, on_token, on_tokens, stands_in,
}

-- The content of an element: what stands first and what follows it.
pub data Nodes : Type 0 where
  nil : Nodes
  element : (space local : Str) (attrs : List (Str × Str)) (inside later : Nodes) → Nodes
  text : Str → Nodes → Nodes
  remark : Nodes → Nodes

-- what the decoder gives for a content
unfoldable pub tokens : Nodes → List Token
tokens nil = []
tokens (element space local attrs inside later) =
    start_token space local attrs ∷ (tokens inside ++ end_token local ∷ tokens later)
tokens (text s later) = text_token s ∷ tokens later
tokens (remark later) = other_token ∷ tokens later

-- the names of the elements of a content, in front of those of earlier ones
unfoldable pub names_onto : List Str → Nodes → List Str
names_onto before nil = before
names_onto before (element _ local _ _ later) = names_onto (local ∷ before) later
names_onto before (text _ later) = names_onto before later
names_onto before (remark later) = names_onto before later

abbrev pub occurs : Str → List Str → ℕ
occurs s [] = 0
occurs s (t ∷ ts) = if same t s then suc (occurs s ts) else occurs s ts

-- An element may start behind its earlier siblings.
abbrev pub head_ok : Str → List Str → Str → Str → List (Str × Str) → Bool
head_ok parent before space local attrs =
    (allowed parent local && same space [])
    && ((repeats local || not (stands_in local before)) && attrs_ok local [] attrs)

-- A service has one type and one port.
abbrev pub complete : Str → Nodes → Bool
complete local inside =
    not (same local (codes "service"))
    || (occurs (codes "type") (names_onto [] inside) == 1
        && occurs (codes "port") (names_onto [] inside) == 1)

-- The shape of a content of an element, behind its earlier siblings.
unfoldable pub is_shaped : Str → List Str → Nodes → Bool
unfolding names_onto
is_shaped parent before nil = true
is_shaped parent before (element space local attrs inside later) =
    (head_ok parent before space local attrs
      && (is_shaped local [] inside && complete local inside))
    && is_shaped parent (local ∷ before) later
is_shaped parent before (text s later) =
    (not (no_text parent) || same (trim_space s) []) && is_shaped parent before later
is_shaped parent before (remark later) = is_shaped parent before later

pub on_tokens-next :
    (t : Token) (ts : List Token) (st st_after : List Frame) (r n : ℕ)
    → on_token t st r ≡ next st_after n
    → on_tokens (t ∷ ts) st r ≡ on_tokens ts st_after n
unfolding on_tokens
on_tokens-next t ts st st_after r n h = rw (on_tokens, h) refl

pub on_tokens-bad_shape :
    (t : Token) (ts : List Token) (st : List Frame) (r : ℕ)
    → on_token t st r ≡ bad_shape
    → on_tokens (t ∷ ts) st r ≡ bad_shape
unfolding on_tokens
on_tokens-bad_shape t ts st r h = rw (on_tokens, h) refl

-- the counts of an open element are those of its earlier children
abbrev pub Tracks : Map ℕ → List Str → Type 0
Tracks c before = (n : Str) → count n c ≡ occurs n before

count-put :
    (n k : Str) (v : ℕ) (c : Map ℕ) → count n (put k v c) ≡ (if same k n then v else count n c)
unfolding count
count-put n k v c = elim (Bool-cases (same k n)) [
  | inl e ↦ rw (count, get-put n k v c, e) refl
  | inr e ↦ rw (count, get-put n k v c, e) refl
]

pub Tracks-put :
    (c : Map ℕ) (before : List Str) (k : Str)
    → Tracks c before
    → Tracks (put k (count k c + 1) c) (k ∷ before)
Tracks-put c before k t n = elim (Bool-cases (same k n)) [
  | inl e ↦ rw (count-put n k (count k c + 1) c, e, t k, (same_iff k n).0 e) (omega arith)
  | inr e ↦ rw (count-put n k (count k c + 1) c, e) (t n)
]

pub occurs-stands_in : (s : Str) (ss : List Str) → stands_in s ss ≡ ltb 0 (occurs s ss)
occurs-stands_in s [] = refl
occurs-stands_in s (t ∷ ts) = ground (arith, occurs-stands_in s ts)

allowed-nil : (p : Str) → allowed p [] ≡ false
unfolding allowed same contains_str has_prefix
allowed-nil p = ground arith

pub allowed-named : (p n : Str) → allowed p n ≡ true → same n [] ≡ false
unfolding same
allowed-named p [] h = absurd (not_both (sym h ∙ allowed-nil p))
  where
    not_both : true ≡ false → ⊥
    not_both q = cc
allowed-named p (x ∷ xs) h = refl

-- the start of an element inside another one
pub on_start-in :
    (p : Str) (c : Map ℕ) (before : List Str) (st : List Frame) (r : ℕ)
    → same p [] ≡ false
    → Tracks c before
    → (space local : Str) (attrs : List (Str × Str))
    → on_start space local attrs ((p, c) ∷ st) r ≡ (
        if head_ok p before space local attrs
        then next ((local, []) ∷ (p, put local (count local c + 1) c) ∷ st) r
        else bad_shape)
unfolding on_start
on_start-in p c before st r named t space local attrs =
    let twice : ltb 1 (count local c + 1) ≡ stands_in local before =
      rw (occurs-stands_in local before, t local) (ground arith) in
    ground (arith, named, twice)

pub on_tokens_middle :
    (inside : List Token) (local : Str) (later rest : List Token)
    → (inside ++ end_token local ∷ later) ++ rest ≡ inside ++ end_token local ∷ (later ++ rest)
on_tokens_middle inside local later rest = append_assoc inside (end_token local ∷ later) rest

-- the end of an element
pub on_end-complete :
    (local : Str) (c : Map ℕ) (inside : Nodes) (st : List Frame) (r : ℕ)
    → Tracks c (names_onto [] inside)
    → on_end local ((local, c) ∷ st) r ≡ (if complete local inside then next st r else bad_shape)
unfolding on_end
on_end-complete local c inside st r t =
    rw (t (codes "type"), t (codes "port"))
      (bits (same local (codes "service")) (occurs (codes "type") (names_onto [] inside) == 1)
        (occurs (codes "port") (names_onto [] inside) == 1))
  where
    bits :
        (s a b : Bool)
        → (if s && (not a || not b) then bad_shape else next st r)
          ≡ (if not s || (a && b) then next st r else bad_shape)
    bits false a b = refl
    bits true true true = refl
    bits true true false = refl
    bits true false true = refl
    bits true false false = refl
