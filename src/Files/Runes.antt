-- ===== src/Files/Runes.antt =====
-- The runes of a text, as Go's package `utf8` finds them.
use avahi_manager.Prelude.{ℕ, Bool, ◌&&◌, [], ◌∷◌, ◌-◌, zero, suc, Str, leb, ◌==◌, if◌then◌else◌}

abbrev continues : ℕ → Bool
continues c = leb 128 c && leb c 191

two_wide : Str → ℕ
two_wide (a ∷ b ∷ s) = if (leb 194 a && leb a 223) && continues b then 2 else 1
two_wide _ = 1

three_wide : Str → ℕ
unfolding two_wide
three_wide (a ∷ b ∷ c ∷ s) =
    if (a == 224 && (leb 160 b && leb b 191)) && continues c
    then 3
    else if ((leb 225 a && leb a 236) && continues b) && continues c
    then 3
    else if (a == 237 && (leb 128 b && leb b 159)) && continues c
    then 3
    else if ((leb 238 a && leb a 239) && continues b) && continues c
    then 3
    else two_wide (a ∷ b ∷ c ∷ s)
three_wide s = two_wide s

-- the bytes of the first rune, as `utf8.DecodeRune` counts them; a wrong byte is one rune
unfoldable pub rune_width : Str → ℕ
unfolding three_wide
rune_width (a ∷ b ∷ c ∷ d ∷ s) =
    if (a == 240 && (leb 144 b && leb b 191)) && (continues c && continues d)
    then 4
    else if ((leb 241 a && leb a 243) && continues b) && (continues c && continues d)
    then 4
    else if (a == 244 && (leb 128 b && leb b 143)) && (continues c && continues d)
    then 4
    else three_wide (a ∷ b ∷ c ∷ d ∷ s)
rune_width s = three_wide s

-- a text as `encoding/json` writes it and reads it back: each wrong byte is replaced by U+FFFD;
-- `skip` counts the bytes of a rune that are left
as_utf8_from : ℕ → Str → Str
unfolding rune_width
as_utf8_from skip [] = []
as_utf8_from (suc skip) (x ∷ xs) = x ∷ as_utf8_from skip xs
as_utf8_from zero (x ∷ xs) =
    let width = rune_width (x ∷ xs) in
    let rest = as_utf8_from (width - 1) xs in
    if leb 128 x && width == 1 then 239 ∷ 191 ∷ 189 ∷ rest else x ∷ rest

unfoldable pub as_utf8 : Str → Str
unfolding as_utf8_from
as_utf8 s = as_utf8_from 0 s
