-- ===== src/Files.antt =====
-- Host and domain names, and the result of a parser of a native file: the start of
-- internal/config/daemon.go.
pub mod Hosts
pub mod Settings
pub mod Daemon
pub mod Names
pub mod Runes
pub mod Service
mod Examples
use avahi_manager.Prelude.{
  ℕ, zero, suc, ◌+◌, ◌-◌, ◌*◌, ◌/◌, ◌%◌, ◌^◌, ◌≤◌, ◌<◌, ◌≡◌, refl, sym, ap, ◌∙◌, subst, ◌≢◌, ◌↔◌,
  ◌⊎◌, inl, inr, Bool, true, false, not, ◌&&◌, ◌||◌, Option, none, some, List, [], ◌∷◌, ◌++◌, map,
  arith, Str, codes, same, same_refl, same_iff, Map, get, put, del, keys, length, All, leb, ltb,
  ◌==◌, if◌then◌else◌, Bool-cases, &&-eq-true, ltb→lt, leb→le, le→leb, Option-cases, split,
  trim_dot,
}

-- why a file is not accepted
pub data FileError : Type 0 where
  bad_line : ℕ → FileError
  too_long refused nil_map : FileError

pub data Parsed (A : Type 0) : Type 0 where
  parsed : A → Parsed A
  failed : FileError → Parsed A

abbrev pub alnum : ℕ → Bool
alnum c = (leb b'a' c && leb c b'z') || ((leb b'A' c && leb c b'Z') || (leb b'0' c && leb c b'9'))

-- what stands behind the first character of a `label`: letters, digits and dashes, no dash last
unfoldable pub label_tail : Str → Bool
label_tail [] = true
label_tail (x ∷ []) = alnum x
label_tail (x ∷ y ∷ ys) = (alnum x || x == b'-') && label_tail (y ∷ ys)

-- `label.MatchString`: the first character, at most 61 more and the last one
unfoldable pub is_label : Str → Bool
unfolding label_tail
is_label [] = false
is_label (x ∷ xs) = alnum x && (leb (length xs) 62 && label_tail xs)

unfoldable pub labels_ok : List Str → Bool
unfolding is_label
labels_ok [] = true
labels_ok (s ∷ ss) = is_label s && labels_ok ss

-- `ValidDomain`
unfoldable pub valid_domain : Str → Bool
unfolding labels_ok split trim_dot
valid_domain s =
    let t = trim_dot s in
    if length t == 0 || ltb 253 (length t) then false else labels_ok (split b'.' t)
