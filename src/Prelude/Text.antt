-- ===== src/Prelude/Text.antt =====
-- Lines, words and spaces: the functions of Go's `strings` and the line scanner of `bufio` that
-- the parsers of the native files call.
use Prim.Native.Nat.{ℕ, zero, suc, ◌+◌}
use mathlib.Core.Bool.{Bool, true, false, ◌&&◌}
use mathlib.Core.Option.{Option, none, some}
use mathlib.Core.List.{List, [], ◌∷◌, ◌++◌}
use avahi_manager.Prelude.Tests.{ltb, leb, ◌==◌, if◌then◌else◌}
use avahi_manager.Prelude.Lists.{length, drop}
use avahi_manager.Prelude.Bytes.{Str, has_prefix}
use mathlib.Core.List.{reverse}

-- the encodings of the characters that `strings.TrimSpace` removes
abbrev pub spaces : List Str
spaces =
    (9 ∷ [])
    ∷ (10 ∷ [])
    ∷ (11 ∷ [])
    ∷ (12 ∷ [])
    ∷ (13 ∷ [])
    ∷ (32 ∷ [])
    ∷ (194 ∷ 133 ∷ [])
    ∷ (194 ∷ 160 ∷ [])
    ∷ (225 ∷ 154 ∷ 128 ∷ [])
    ∷ (226 ∷ 128 ∷ 128 ∷ [])
    ∷ (226 ∷ 128 ∷ 129 ∷ [])
    ∷ (226 ∷ 128 ∷ 130 ∷ [])
    ∷ (226 ∷ 128 ∷ 131 ∷ [])
    ∷ (226 ∷ 128 ∷ 132 ∷ [])
    ∷ (226 ∷ 128 ∷ 133 ∷ [])
    ∷ (226 ∷ 128 ∷ 134 ∷ [])
    ∷ (226 ∷ 128 ∷ 135 ∷ [])
    ∷ (226 ∷ 128 ∷ 136 ∷ [])
    ∷ (226 ∷ 128 ∷ 137 ∷ [])
    ∷ (226 ∷ 128 ∷ 138 ∷ [])
    ∷ (226 ∷ 128 ∷ 168 ∷ [])
    ∷ (226 ∷ 128 ∷ 169 ∷ [])
    ∷ (226 ∷ 128 ∷ 175 ∷ [])
    ∷ (226 ∷ 129 ∷ 159 ∷ [])
    ∷ (227 ∷ 128 ∷ 128 ∷ [])
    ∷ []

-- the text behind a prefix that is one of some texts
unfoldable pub behind : List Str → Str → Option Str
unfolding has_prefix
behind [] s = none
behind (p ∷ ps) s =
    let rest = behind ps s in if has_prefix s p then some (drop (length p) s) else rest

-- drops such prefixes from the front; the fuel is the length, and every round drops a byte
unfoldable pub trim_front : ℕ → List Str → Str → Str
unfolding behind
trim_front zero ps s = s
trim_front (suc fuel) ps s = elim (behind ps s) [ none ↦ s | some rest ↦ trim_front fuel ps rest ]

unfoldable pub reversed_all : List Str → List Str
reversed_all [] = []
reversed_all (p ∷ ps) = reverse p ∷ reversed_all ps

-- `strings.TrimSpace`
unfoldable pub trim_space : Str → Str
unfolding trim_front reversed_all
trim_space s =
    let front = trim_front (length s) spaces s in
    reverse (trim_front (length front) (reversed_all spaces) (reverse front))

-- how many bytes the space at the front of a text has
unfoldable pub space_width : List Str → Str → ℕ
unfolding has_prefix
space_width [] s = 0
space_width (p ∷ ps) s = let rest = space_width ps s in if has_prefix s p then length p else rest

abbrev pub flush : Str → List Str → List Str
flush [] ws = ws
flush (c ∷ w) ws = (c ∷ w) ∷ ws

-- the words of a text behind the word so far; `skip` counts the bytes of a space that are left
unfoldable pub fields_onto : Str → ℕ → Str → List Str
unfolding space_width
fields_onto word skip [] = flush word []
fields_onto word (suc skip) (x ∷ xs) = fields_onto word skip xs
fields_onto word zero (x ∷ xs) = elim (space_width spaces (x ∷ xs)) [
  | zero ↦ fields_onto (word ++ x ∷ []) zero xs
  | suc more ↦ flush word (fields_onto [] more xs)
]

-- `strings.Fields`
unfoldable pub fields : Str → List Str
unfolding fields_onto
fields s = fields_onto [] 0 s

abbrev pub onto_before : ℕ → Option (Str × Str) → Option (Str × Str)
onto_before x none = none
onto_before x (some (b, a)) = some (x ∷ b, a)

-- `strings.Cut(s, "c")`: what stands before and behind the first `c`
unfoldable pub cut : ℕ → Str → Option (Str × Str)
cut c [] = none
cut c (x ∷ xs) = let rest = cut c xs in if x == c then some ([], xs) else onto_before x rest

-- `strings.Split(s, "c")`
abbrev pub onto_first : ℕ → List Str → List Str
onto_first c [] = (c ∷ []) ∷ []
onto_first c (s ∷ ss) = (c ∷ s) ∷ ss

unfoldable pub split : ℕ → Str → List Str
split c [] = [] ∷ []
split c (x ∷ xs) = let rest = split c xs in if x == c then [] ∷ rest else onto_first x rest

-- the lines of a text; one that nothing follows needs no newline
unfoldable pub raw_lines : Str → List Str
raw_lines [] = []
raw_lines (x ∷ xs) = let rest = raw_lines xs in if x == 10 then [] ∷ rest else onto_first x rest

-- the carriage return at the end of a line
unfoldable pub drop_cr : Str → Str
drop_cr [] = []
drop_cr (x ∷ []) = if x == 13 then [] else x ∷ []
drop_cr (x ∷ y ∷ ys) = x ∷ drop_cr (y ∷ ys)

-- The tokens of a `bufio.Scanner` whose buffer holds `limit` bytes, and whether it gave up: the
-- buffer is full before the end of a line with that many bytes is seen.
unfoldable pub scan_lines : ℕ → List Str → List Str × Bool
unfolding drop_cr
scan_lines limit [] = ([], false)
scan_lines limit (l ∷ ls) =
    let rest = scan_lines limit ls in
    if ltb (length l) limit then (drop_cr l ∷ rest.0, rest.1) else ([], true)

-- `strings.TrimSuffix(s, ".")`
unfoldable pub trim_dot : Str → Str
trim_dot [] = []
trim_dot (x ∷ []) = if x == b'.' then [] else x ∷ []
trim_dot (x ∷ y ∷ ys) = x ∷ trim_dot (y ∷ ys)

-- `strings.ToLower` on ASCII
unfoldable pub to_lower : Str → Str
to_lower [] = []
to_lower (x ∷ xs) = (if leb b'A' x && leb x b'Z' then x + 32 else x) ∷ to_lower xs
