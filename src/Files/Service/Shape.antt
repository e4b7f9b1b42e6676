-- ===== src/Files/Service/Shape.antt =====
-- The shape of a service file: the loop of `ParseService` over the tokens of the document.
pub mod Trees
pub mod Walks
pub mod Documents
use avahi_manager.Prelude.{
  ℕ, zero, suc, ◌+◌, ◌-◌, ◌*◌, ◌/◌, ◌%◌, ◌^◌, ◌≤◌, ◌<◌, ◌≡◌, refl, sym, ap, ◌∙◌, subst, ◌≢◌, ◌↔◌,
  ◌⊎◌, inl, inr, Bool, true, false, not, ◌&&◌, ◌||◌, Option, none, some, List, [], ◌∷◌, ◌++◌, map,
  arith, Str, codes, same, same_refl, same_iff, Map, get, put, del, keys, length, All, leb, ltb,
  ◌==◌, if◌then◌else◌, Bool-cases, &&-eq-true, ltb→lt, leb→le, le→leb, Option-cases, contains_str,
  trim_space,
}

-- the tokens of `xml.Decoder`; comments, instructions and directives are not looked at
pub data Token : Type 0 where
  start_token : (space local : Str) (attrs : List (Str × Str)) → Token
  end_token : (local : Str) → Token
  text_token : Str → Token
  other_token : Token

-- an open element and how often each name has stood in it: an entry of `stack` and of `counts`
abbrev pub Frame : Type 0
Frame = Str × Map ℕ

-- what a token leads to: the open elements and the roots so far, an error, or an index that is
-- out of range
pub data Next : Type 0 where
  next : List Frame → ℕ → Next
  bad_shape panicked : Next

-- `c[name]`
unfoldable pub count : Str → Map ℕ → ℕ
unfolding get
count n c = elim (get n c) [ none ↦ 0 | some k ↦ k ]

abbrev pub top_name : List Frame → Str
top_name [] = []
top_name ((n, _) ∷ _) = n

unfoldable pub allowed : Str → Str → Bool
unfolding same contains_str
allowed parent local =
    (same parent [] && same local (codes "service-group"))
    || ((same parent (codes "service-group")
          && (same local (codes "name") || same local (codes "service")))
        || (same parent (codes "service")
            && contains_str (codes "|type|port|domain-name|host-name|subtype|txt-record|")
                (b'|' ∷ (local ++ b'|' ∷ []))))

-- the names that may stand more than once in their element
unfoldable pub repeats : Str → Bool
unfolding same
repeats local =
    same local (codes "service")
    || (same local (codes "subtype") || same local (codes "txt-record"))

abbrev pub attr_allowed : Str → Str → Bool
attr_allowed local a =
    (same local (codes "name") && same a (codes "replace-wildcards"))
    || ((same local (codes "service") && same a (codes "protocol"))
        || (same local (codes "txt-record") && same a (codes "value-format")))

abbrev pub stands_in : Str → List Str → Bool
stands_in s [] = false
stands_in s (t ∷ ts) = same t s || stands_in s ts

-- the loop over the attributes, pairs of a name space and a name
unfoldable pub attrs_ok : Str → List Str → List (Str × Str) → Bool
unfolding same
attrs_ok local seen [] = true
attrs_ok local seen ((space, a) ∷ attrs) =
    (attr_allowed local a && (same space [] && not (stands_in a seen)))
    && attrs_ok local (a ∷ seen) attrs

-- the end of the case of a start element
abbrev pub push_frame : Str → List (Str × Str) → List Frame → ℕ → Next
push_frame local attrs st roots =
    if attrs_ok local [] attrs then next ((local, []) ∷ st) roots else bad_shape

-- one more element of a name in the innermost open element
abbrev pub in_element : Str → List (Str × Str) → List Frame → ℕ → Next
in_element local attrs [] roots = panicked
in_element local attrs ((n, c) ∷ st) roots =
    let k = count local c + 1 in
    if ltb 1 k && not (repeats local)
    then bad_shape
    else push_frame local attrs ((n, put local k c) ∷ st) roots

unfoldable pub on_start : Str → Str → List (Str × Str) → List Frame → ℕ → Next
unfolding allowed same count repeats attrs_ok
on_start space local attrs st roots =
    let parent = top_name st in
    if not (allowed parent local) || not (same space [])
    then bad_shape
    else if same parent []
    then if ltb 1 (roots + 1) then bad_shape else push_frame local attrs st (roots + 1)
    else in_element local attrs st roots

unfoldable pub on_end : Str → List Frame → ℕ → Next
unfolding same count
on_end local [] roots = panicked
on_end local ((n, c) ∷ st) roots =
    if same local (codes "service")
      && (not (count (codes "type") c == 1) || not (count (codes "port") c == 1))
    then bad_shape
    else next st roots

abbrev pub no_text : Str → Bool
no_text n = same n [] || (same n (codes "service") || same n (codes "service-group"))

unfoldable pub on_text : Str → List Frame → ℕ → Next
unfolding same trim_space
on_text s st roots =
    if no_text (top_name st) && not (same (trim_space s) []) then bad_shape else next st roots

-- the switch of the loop
unfoldable pub on_token : Token → List Frame → ℕ → Next
unfolding on_start on_end on_text
on_token (start_token space local attrs) st roots = on_start space local attrs st roots
on_token (end_token local) st roots = on_end local st roots
on_token (text_token s) st roots = on_text s st roots
on_token other_token st roots = next st roots

-- the loop, up to the tokens behind which the decoder stops
unfoldable pub on_tokens : List Token → List Frame → ℕ → Next
unfolding on_token
on_tokens [] st roots = next st roots
on_tokens (t ∷ ts) st roots = elim (on_token t st roots) [
  | next st_after n ↦ on_tokens ts st_after n
  | bad_shape ↦ bad_shape
  | panicked ↦ panicked
]

abbrev pub finished : Next → Bool
finished (next _ _) = true
finished _ = false

-- whether the loop ends without an error; `clean` says that the decoder stopped at the end
unfoldable pub shape_ok : List Token → Bool → Bool
unfolding on_tokens
shape_ok ts clean = finished (on_tokens ts [] 0) && clean
