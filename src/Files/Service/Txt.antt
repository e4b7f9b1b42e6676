-- ===== src/Files/Service/Txt.antt =====
-- The text of a service file and its TXT records, as `ServiceGroup.Validate` checks them.
use avahi_manager.Prelude.{
  ℕ, zero, suc, ◌+◌, ◌-◌, ◌%◌, Bool, true, false, not, ◌&&◌, ◌||◌, Option, none, some, List, [],
  ◌∷◌, Str, codes, same, length, leb, ltb, ◌==◌, if◌then◌else◌, has_prefix, cut, to_lower,
}
use avahi_manager.Files.Runes.{rune_width}

-- the rune at the front may stand in a document
abbrev rune_ok : Str → Bool
rune_ok [] = true
rune_ok (x ∷ xs) =
    if ltb x 128
    then leb 32 x || (x == 9 || (x == 10 || x == 13))
    else ltb 1 (rune_width (x ∷ xs))
      && not
          (has_prefix (x ∷ xs) (239 ∷ 191 ∷ 190 ∷ []) || has_prefix (x ∷ xs) (239 ∷ 191 ∷ 191 ∷ []))

runes_ok : ℕ → Str → Bool
unfolding rune_width has_prefix
runes_ok skip [] = true
runes_ok (suc skip) (x ∷ xs) = runes_ok skip xs
runes_ok zero (x ∷ xs) = rune_ok (x ∷ xs) && runes_ok (rune_width (x ∷ xs) - 1) xs

-- `validXMLText`
unfoldable pub xml_text : Str → Bool
unfolding runes_ok
xml_text s = runes_ok 0 s

abbrev hex_digit : ℕ → Bool
hex_digit c =
    (leb b'0' c && leb c b'9') || ((leb b'a' c && leb c b'f') || (leb b'A' c && leb c b'F'))

-- how many bytes `hex.DecodeString` gives, if there is no error
unfoldable pub hex_length : Str → Option ℕ
hex_length [] = some 0
hex_length (x ∷ []) = none
hex_length (x ∷ y ∷ s) =
    let rest = hex_length s in
    if hex_digit x && hex_digit y then elim rest [ none ↦ none | some n ↦ some (suc n) ] else none

-- the value of a character of the standard alphabet of base64
abbrev sextet : ℕ → Option ℕ
sextet c =
    if leb b'A' c && leb c b'Z'
    then some (c - b'A')
    else if leb b'a' c && leb c b'z'
    then some (c - b'a' + 26)
    else if leb b'0' c && leb c b'9'
    then some (c - b'0' + 52)
    else if c == b'+'
    then some 62
    else if c == b'/'
    then some 63
    else none

abbrev ends_in : ℕ → Option ℕ → Bool
ends_in m none = false
ends_in m (some v) = v % m == 0

abbrev is_sextet : ℕ → Bool
is_sextet c = elim (sextet c) [ none ↦ false | some _ ↦ true ]

-- four characters to three bytes; at the end, padding with zero bits before it
base64_groups : Str → Option ℕ
base64_groups [] = some 0
base64_groups (a ∷ b ∷ c ∷ d ∷ []) =
    if is_sextet a && is_sextet b
    then if is_sextet c && is_sextet d
      then some 3
      else if (is_sextet c && ends_in 4 (sextet c)) && d == b'='
      then some 2
      else if ends_in 16 (sextet b) && (c == b'=' && d == b'=')
      then some 1
      else none
    else none
base64_groups (a ∷ b ∷ c ∷ d ∷ e ∷ s) =
    let rest = base64_groups (e ∷ s) in
    if (is_sextet a && is_sextet b) && (is_sextet c && is_sextet d)
    then elim rest [ none ↦ none | some n ↦ some (n + 3) ]
    else none
base64_groups _ = none

unbroken : Str → Str
unbroken [] = []
unbroken (x ∷ xs) = let rest = unbroken xs in if x == 10 || x == 13 then rest else x ∷ rest

-- how many bytes `base64.StdEncoding.Strict().DecodeString` gives, if there is no error
unfoldable pub base64_length : Str → Option ℕ
unfolding base64_groups unbroken
base64_length s = base64_groups (unbroken s)

-- the switch over the format: the length of the data
unfoldable pub data_length : Str → Str → Option ℕ
unfolding same hex_length base64_length
data_length format value =
    if same format [] || same format (codes "text")
    then some (length value)
    else if same format (codes "binary-hex")
    then hex_length value
    else if same format (codes "binary-base64")
    then base64_length value
    else none

abbrev pub printable : Str → Bool
printable [] = true
printable (x ∷ xs) = (leb 32 x && leb x 126) && printable xs

abbrev pub is_among : Str → List Str → Bool
is_among s [] = false
is_among s (t ∷ ts) = same t s || is_among s ts

abbrev pub binary : Str → Bool
binary format = not (same format [] || same format (codes "text"))

-- the key of a TXT record, and its bytes: `key`, or `key=data`
abbrev pub sized : Str → Option ℕ → Option (Str × ℕ)
sized key none = none
sized key (some n) = some (key, length key + (1 + n))

abbrev pub split_txt : Str → Str → Option (Str × Str) → Option (Str × ℕ)
split_txt value format none = if binary format then none else some (value, length value)
split_txt value format (some (key, v)) = sized key (data_length format v)

unfoldable pub txt_size : Str → Str → Option (Str × ℕ)
unfolding cut same data_length
txt_size value format = split_txt value format (cut b'=' value)

abbrev pub txt_ok : List Str → Option (Str × ℕ) → Bool
txt_ok seen none = false
txt_ok seen (some (key, n)) =
    (not (same key []) && printable key) && (not (is_among (to_lower key) seen) && leb n 255)

abbrev pub seen_after : List Str → Option (Str × ℕ) → List Str
seen_after seen none = seen
seen_after seen (some (key, n)) = to_lower key ∷ seen

-- the loop over the TXT records
unfoldable pub txts_ok : List Str → List (Str × Str) → Bool
unfolding xml_text txt_size same to_lower
txts_ok seen [] = true
txts_ok seen ((value, format) ∷ txt) =
    let sized_txt = txt_size value format in
    (xml_text value && txt_ok seen sized_txt) && txts_ok (seen_after seen sized_txt) txt
