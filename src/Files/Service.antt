-- ===== src/Files/Service.antt =====
-- Service files: the checks of internal/config/service.go. The tokens of `xml.Decoder`, the result
-- of `xml.Unmarshal` and the output of `xml.MarshalIndent` are parameters.
pub mod Shape
pub mod Txt
pub mod Records
use avahi_manager.Prelude.{
  ℕ, zero, suc, ◌+◌, ◌-◌, ◌*◌, ◌/◌, ◌%◌, ◌^◌, ◌≤◌, ◌<◌, ◌≡◌, refl, sym, ap, ◌∙◌, subst, ◌≢◌, ◌↔◌,
  ◌⊎◌, inl, inr, Bool, true, false, not, ◌&&◌, ◌||◌, Option, none, some, List, [], ◌∷◌, ◌++◌, map,
  arith, Str, codes, same, same_refl, same_iff, Map, get, put, del, keys, length, All, leb, ltb,
  ◌==◌, if◌then◌else◌, Bool-cases, &&-eq-true, ltb→lt, leb→le, le→leb, Option-cases, contains,
  contains_any, trim_dot,
}
use avahi_manager.Files.Service.Txt.{txts_ok, xml_text}
use avahi_manager.Files.Service.Shape.{Token, shape_ok}
use avahi_manager.Files.{
  FileError, bad_line, too_long, refused, Parsed, parsed, failed, alnum, valid_domain,
}

-- `ServiceName`
pub record ServiceName : Type 0 where
  pub value : Str
  pub replace_wildcards : Str

-- `Service`; the port is a `uint16`, and a TXT record is its value and its format
pub record Service : Type 0 where
  pub protocol : Str
  pub kind : Str
  pub domain : Str
  pub host : Str
  pub port : ℕ
  pub subtypes : List Str
  pub txt : List (Str × Str)

-- `ServiceGroup`
pub record ServiceGroup : Type 0 where
  pub name : ServiceName
  pub services : List Service

-- `strings.CutSuffix`
cut_suffix : Str → Str → Option Str
unfolding same
cut_suffix p [] = if same [] p then some [] else none
cut_suffix p (x ∷ xs) =
    let rest = cut_suffix p xs in
    if same (x ∷ xs) p then some [] else elim rest [ none ↦ none | some s ↦ some (x ∷ s) ]

letters : Str → Bool
letters [] = true
letters (x ∷ xs) = (alnum x || x == b'-') && letters xs

-- an underscore, a letter or digit and at most `n` more characters
underscored : ℕ → Str → Bool
unfolding letters
underscored n (u ∷ x ∷ xs) = u == b'_' && (alnum x && (leb (length xs) n && letters xs))
underscored n _ = false

abbrev underscored_part : ℕ → Option Str → Bool
underscored_part n none = false
underscored_part n (some s) = underscored n s

-- `serviceType.MatchString`
unfoldable pub is_service_type : Str → Bool
unfolding cut_suffix underscored
is_service_type s =
    underscored_part 62 (cut_suffix (codes "._tcp") s)
    || underscored_part 62 (cut_suffix (codes "._udp") s)

-- the loop over the subtypes
unfoldable pub subtypes_ok : Str → List Str → Bool
unfolding cut_suffix underscored
subtypes_ok kind [] = true
subtypes_ok kind (s ∷ ss) =
    underscored_part 61 (cut_suffix (codes "._sub." ++ kind) s) && subtypes_ok kind ss

abbrev one_of : Str → List Str → Bool
one_of s [] = false
one_of s (t ∷ ts) = same s t || one_of s ts

-- the body of the loop over the services
unfoldable pub service_valid : Service → Bool
unfolding is_service_type subtypes_ok same valid_domain contains trim_dot txts_ok
service_valid s =
    is_service_type s.kind
    && (one_of s.protocol ([] ∷ codes "any" ∷ codes "ipv4" ∷ codes "ipv6" ∷ [])
        && ((same s.domain [] || valid_domain s.domain)
            && ((same s.host [] || (valid_domain s.host && contains (trim_dot s.host) b'.'))
                && (subtypes_ok s.kind s.subtypes && txts_ok [] s.txt))))

unfoldable pub services_valid : List Service → Bool
unfolding service_valid
services_valid [] = true
services_valid (s ∷ ss) = service_valid s && services_valid ss

-- `ServiceGroup.Validate`: whether it returns nil
unfoldable pub validate_group : ServiceGroup → Bool
unfolding services_valid same contains_any xml_text
validate_group g =
    let name = g.name.value in
    (xml_text name && (ltb 0 (length name) && leb (length name) 63))
    && (not (contains_any name (0 ∷ 13 ∷ 10 ∷ []))
        && (one_of g.name.replace_wildcards ([] ∷ codes "yes" ∷ codes "no" ∷ [])
            && (ltb 0 (length g.services) && services_valid g.services)))

module _ (tokenize : Str → List Token × Bool) (decode : Str → Option ServiceGroup) where
  abbrev checked_group : Option ServiceGroup → Parsed ServiceGroup
  checked_group none = failed refused
  checked_group (some g) = if validate_group g then parsed g else failed refused

  -- `ParseService`
  unfoldable pub parse_service : Str → Parsed ServiceGroup
  unfolding shape_ok validate_group
  parse_service src =
      let (tokens, clean) = tokenize src in
      if shape_ok tokens clean then checked_group (decode src) else failed refused

-- `ServiceGroup.Marshal`
unfoldable pub marshal_group : (ServiceGroup → Option Str) → ServiceGroup → Parsed Str
unfolding validate_group
marshal_group encode g =
    if validate_group g
    then elim (encode g) [
      | none ↦ failed refused
      | some b ↦ parsed (codes "<?xml version=\"1.0\" encoding=\"UTF-8\"?>\n" ++ (b ++ 10 ∷ []))
    ]
    else failed refused
