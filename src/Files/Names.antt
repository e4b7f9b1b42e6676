-- ===== src/Files/Names.antt =====
-- The characters of names, and what the scanner and `Fields` do with a line of plain characters.
use mathlib.Core.List.{append-nil, append_assoc}
use avahi_manager.Prelude.{
  ℕ, ◌+◌, ◌≤◌, ◌<◌, ◌≡◌, refl, sym, ap, ◌∙◌, inl, inr, Bool, true, false, not, ◌&&◌, ◌||◌, none,
  List, [], ◌∷◌, ◌++◌, arith, Str, length, All, ltb, ◌==◌, Bool-cases, onto_first, split, trim_dot,
  space_width, fields_onto, has_prefix, spaces, fields, flush, drop_cr, raw_lines, scan_lines, cut,
  lt→ltb,
}
use avahi_manager.Files.{alnum, label_tail, is_label, labels_ok, valid_domain}

abbrev pub name_char : ℕ → Bool
name_char c = alnum c || (c == b'-' || c == b'.')

-- a visible ASCII character other than `#`
abbrev pub plain : ℕ → Bool
plain c = ltb 32 c && (ltb c 127 && not (c == b'#'))

abbrev pub IsPlain : Str → Type 0
IsPlain = All (λ c. plain c ≡ true)

abbrev pub IsName : Str → Type 0
IsName = All (λ c. name_char c ≡ true)

pub name_char-plain : (c : ℕ) → name_char c ≡ true → plain c ≡ true
name_char-plain c h = ground arith

pub IsName-IsPlain : (s : Str) → IsName s → IsPlain s
IsName-IsPlain [] h = tt
IsName-IsPlain (x ∷ xs) h = (name_char-plain x h.0, IsName-IsPlain xs h.1)

label_tail-IsName : (s : Str) → label_tail s ≡ true → IsName s
unfolding label_tail
label_tail-IsName [] h = tt
label_tail-IsName (x ∷ []) h = (ground arith, tt)
label_tail-IsName (x ∷ y ∷ ys) h = (ground arith, label_tail-IsName (y ∷ ys) (ground arith))

is_label-IsName : (s : Str) → is_label s ≡ true → IsName s
unfolding is_label
is_label-IsName [] h = tt
is_label-IsName (x ∷ xs) h = (ground arith, label_tail-IsName xs (ground arith))

labels_ok-All : (ss : List Str) → labels_ok ss ≡ true → All IsName ss
unfolding labels_ok
labels_ok-All [] h = tt
labels_ok-All (s ∷ ss) h = (is_label-IsName s (ground arith), labels_ok-All ss (ground arith))

onto_first-All :
    (x : ℕ) (ss : List Str) → All IsName (onto_first x ss) → All IsName ss × (name_char x ≡ true)
onto_first-All x [] h = (tt, h.0.0)
onto_first-All x (s ∷ ss) h = ((h.0.1, h.1), h.0.0)

split-IsName : (t : Str) → All IsName (split b'.' t) → IsName t
unfolding split
split-IsName [] h = tt
split-IsName (x ∷ xs) h = elim (Bool-cases (x == b'.')) [
  | inl e ↦ (ground arith, split-IsName xs (rw e at h).1)
  | inr e ↦
      let (later, here) = onto_first-All x (split b'.' xs) (rw e at h) in
      (here, split-IsName xs later)
]

trim_dot-IsName : (s : Str) → IsName (trim_dot s) → IsName s
unfolding trim_dot
trim_dot-IsName [] h = tt
trim_dot-IsName (x ∷ []) h = elim (Bool-cases (x == b'.')) [
  | inl e ↦ (ground arith, tt)
  | inr e ↦ rw e at h
]
trim_dot-IsName (x ∷ y ∷ ys) h = (h.0, trim_dot-IsName (y ∷ ys) h.1)

length-trim_dot : (s : Str) → length s ≤ length (trim_dot s) + 1
unfolding trim_dot
length-trim_dot [] = ground arith
length-trim_dot (x ∷ []) = ground arith
length-trim_dot (x ∷ y ∷ ys) = omega (arith, length-trim_dot (y ∷ ys))

-- A valid domain name is plain and short.
pub valid_domain-IsPlain :
    (s : Str) → valid_domain s ≡ true → IsPlain s × (0 < length s) × (length s ≤ 254)
unfolding valid_domain
valid_domain-IsPlain s h =
    let small : length (trim_dot s) ≤ 253 = ground arith in
    let some_left : 0 < length (trim_dot s) = ground arith in
    let labels : labels_ok (split b'.' (trim_dot s)) ≡ true = ground arith in
    let plain_name : IsPlain s = IsName-IsPlain s (
      trim_dot-IsName s
        (split-IsName (trim_dot s) (labels_ok-All (split b'.' (trim_dot s)) labels))) in
    (plain_name, positive s some_left, omega (arith, length-trim_dot s))
  where
    positive : (s : Str) → 0 < length (trim_dot s) → 0 < length s
    positive [] h = h
    positive (x ∷ xs) h = ground arith

space_width-plain : (x : ℕ) (xs : Str) → plain x ≡ true → space_width spaces (x ∷ xs) ≡ 0
unfolding space_width has_prefix
space_width-plain x xs h = ground arith

fields_onto-plain :
    (word : Str) (x : ℕ) (xs : Str)
    → plain x ≡ true
    → fields_onto word 0 (x ∷ xs) ≡ fields_onto (word ++ x ∷ []) 0 xs
unfolding fields_onto
fields_onto-plain word x xs h = rw (fields_onto, space_width-plain x xs h) refl

fields_onto-IsPlain :
    (word w rest : Str)
    → IsPlain w
    → fields_onto word 0 (w ++ rest) ≡ fields_onto (word ++ w) 0 rest
unfolding fields_onto
fields_onto-IsPlain word [] rest h = rw append-nil
fields_onto-IsPlain word (x ∷ xs) rest h =
    fields_onto-plain word x (xs ++ rest) h.0
    ∙ fields_onto-IsPlain (word ++ x ∷ []) xs rest h.1
    ∙ rw append_assoc

fields_onto-tab : (word rest : Str) → fields_onto word 0 (b'\t' ∷ rest) ≡ flush word (fields rest)
unfolding fields_onto space_width has_prefix fields
fields_onto-tab word rest = refl

fields_onto-end : (word : Str) → fields_onto word 0 [] ≡ flush word []
unfolding fields_onto
fields_onto-end word = refl

flush-ne : (w : Str) (ws : List Str) → 0 < length w → flush w ws ≡ w ∷ ws
flush-ne [] ws h = ground arith
flush-ne (x ∷ xs) ws h = refl

-- Two plain words with a tab between them are two words.
pub fields_tab :
    (a h : Str)
    → IsPlain a
    → IsPlain h
    → 0 < length a
    → 0 < length h
    → fields (a ++ b'\t' ∷ h) ≡ a ∷ h ∷ []
unfolding fields
fields_tab a h pa ph na nh =
    fields_onto-IsPlain [] a (b'\t' ∷ h) pa
    ∙ fields_onto-tab a h
    ∙ flush-ne a (fields h) na
    ∙ ap (◌∷◌ a) word
  where
    word : fields h ≡ h ∷ []
    word =
        ap (fields_onto [] 0) (sym (append-nil h))
        ∙ fields_onto-IsPlain [] h [] ph
        ∙ fields_onto-end h
        ∙ flush-ne h [] nh

-- the characters of a line that no step of the scanner takes away
abbrev pub line_char : ℕ → Bool
line_char c = not (c == b'\n') && not (c == b'\r')

abbrev pub IsLine : Str → Type 0
IsLine = All (λ c. line_char c ≡ true)

pub IsPlain-IsLine : (s : Str) → IsPlain s → IsLine s
IsPlain-IsLine [] h = tt
IsPlain-IsLine (x ∷ xs) h = (line_plain x h.0, IsPlain-IsLine xs h.1)
  where
    line_plain : (c : ℕ) → plain c ≡ true → line_char c ≡ true
    line_plain c h = ground arith

pub drop_cr-IsLine : (s : Str) → IsLine s → drop_cr s ≡ s
unfolding drop_cr
drop_cr-IsLine [] h = refl
drop_cr-IsLine (x ∷ []) h = ground arith
drop_cr-IsLine (x ∷ y ∷ ys) h = ap (◌∷◌ x) (drop_cr-IsLine (y ∷ ys) h.1)

-- A line and its newline are the first line.
pub raw_lines-IsLine :
    (s rest : Str) → IsLine s → raw_lines (s ++ b'\n' ∷ rest) ≡ s ∷ raw_lines rest
unfolding raw_lines
raw_lines-IsLine [] rest h = refl
raw_lines-IsLine (x ∷ xs) rest h = elim (Bool-cases (x == b'\n')) [
  | inl e ↦ ground arith
  | inr e ↦ rw (e, raw_lines-IsLine xs rest h.1) refl
]

pub scan_lines-short :
    (limit : ℕ) (l : Str) (ls : List Str)
    → IsLine l
    → length l < limit
    → scan_lines limit (l ∷ ls) ≡ (l ∷ (scan_lines limit ls).0, (scan_lines limit ls).1)
unfolding scan_lines
scan_lines-short limit l ls h short = rw (lt→ltb (length l) limit short, drop_cr-IsLine l h) refl

-- no comment in a line without `#`
pub cut-none : (c : ℕ) (s : Str) → All (λ x. (x == c) ≡ false) s → cut c s ≡ none
unfolding cut
cut-none c [] h = refl
cut-none c (x ∷ xs) h = rw (h.0, cut-none c xs h.1) refl
