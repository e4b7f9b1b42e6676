-- ===== src/Files/Service/Records.antt =====
-- What `ServiceGroup.Validate` says of the TXT records.
use avahi_manager.Prelude.{
  ℕ, ◌≤◌, ◌<◌, ◌≡◌, inl, inr, true, false, not, ◌&&◌, some, List, [], ◌∷◌, arith, Str, same, length,
  All, leb, leb→le, Option-cases, to_lower, ◌⊎◌, ◌≢◌, Option, cut, ◌++◌, codes, none, onto_before,
  ◌==◌, Bool, ◌+◌, ap, if_lem, Bool-cases, same_iff, ==_iff, ◌||◌, subst, sym, ◌∙◌, refl,
}
use avahi_manager.Files.Service.Txt.{
  txts_ok, txt_ok, txt_size, xml_text, is_among, binary, data_length, printable, sized, split_txt,
  hex_length, base64_length,
}
use avahi_manager.Files.Service.{
  Service, ServiceGroup, service_valid, services_valid, validate_group,
}

-- The data of a value in its format, and how many bytes it has: the text itself, or what the
-- decoder of hexadecimal digits or of base64 gives for it.
abbrev pub Decodes : Str → Str → ℕ → Type 0
Decodes format v n =
    (((format ≡ []) ⊎ (format ≡ codes "text")) × (n ≡ length v))
    ⊎ (((format ≡ codes "binary-hex") × (hex_length v ≡ some n))
        ⊎ ((format ≡ codes "binary-base64") × (base64_length v ≡ some n)))

-- A TXT record with its key and its size: the key alone, in a format of texts, or the key, an
-- equals sign and data.
abbrev pub IsTxt : Str → Str → Str → ℕ → Type 0
IsTxt value format key n =
    ((value ≡ key) × ((format ≡ []) ⊎ (format ≡ codes "text")) × (n ≡ length key))
    ⊎ ((v : Str) × (m : ℕ) × (value ≡ key ++ b'=' ∷ v)
        × Decodes format v m
        × (n ≡ length key + 1 + m))

-- Each record has a key of printable characters without an equals sign, data that can be decoded,
-- and at most 255 bytes, and no key stands twice, in whatever case.
abbrev pub Records : List Str → List (Str × Str) → Type 0
Records seen [] = Unit
Records seen ((value, format) ∷ txt) =
    (key : Str) × (n : ℕ) × IsTxt value format key n
    × (0 < length key)
    × All (λ (c : ℕ). (32 ≤ c) × (c ≤ 126) × (c ≢ b'=')) key
    × (n ≤ 255)
    × All (λ (k : Str). k ≢ to_lower key) seen
    × Records (to_lower key ∷ seen) txt

-- what `cut` says of a text
abbrev Splits : ℕ → Str → Option (Str × Str) → Type 0
Splits c s none = All (λ (x : ℕ). x ≢ c) s
Splits c s (some (k, v)) = (s ≡ k ++ c ∷ v) × All (λ (x : ℕ). x ≢ c) k

Splits-onto_before :
    (c x : ℕ) (xs : Str) (o : Option (Str × Str))
    → x ≢ c
    → Splits c xs o
    → Splits c (x ∷ xs) (onto_before x o)
Splits-onto_before c x xs none ne h = (ne, h)
Splits-onto_before c x xs (some (k, v)) ne (e, h) = (ap (◌∷◌ x) e, (ne, h))

cut-Splits : (c : ℕ) (s : Str) → Splits c s (cut c s)
unfolding cut
cut-Splits c [] = tt
cut-Splits c (x ∷ xs) =
    if_lem (Splits c (x ∷ xs)) (x == c) _ _ (λ e. (ap (λ y. y ∷ xs) ((==_iff x c).0 e), tt))
      (λ e. Splits-onto_before c x xs (cut c xs) (other e) (cut-Splits c xs))
  where
    other : (x == c) ≡ false → x ≢ c
    other e q = ground (arith, e, q)

text_format : (format : Str) → binary format ≡ false → (format ≡ []) ⊎ (format ≡ codes "text")
text_format format h = elim (Bool-cases (same format [])) [
  | inl e ↦ inl ((same_iff format []).0 e)
  | inr e ↦ inr ((same_iff format (codes "text")).0 (ground arith))
]

data_length-Decodes : (format v : Str) (n : ℕ) → data_length format v ≡ some n → Decodes format v n
unfolding data_length
data_length-Decodes format v n h =
    if_lem (λ (o : Option ℕ). o ≡ some n → Decodes format v n)
      (same format [] || same format (codes "text")) _ _
      (λ e q. inl (text_format format (ground (arith, e)), some_inj q))
      (λ _.
        if_lem (λ (o : Option ℕ). o ≡ some n → Decodes format v n)
          (same format (codes "binary-hex")) _ _
          (λ e q. inr (inl ((same_iff format (codes "binary-hex")).0 e, q)))
          (λ _.
            if_lem (λ (o : Option ℕ). o ≡ some n → Decodes format v n)
              (same format (codes "binary-base64")) _ _
              (λ e q. inr (inr ((same_iff format (codes "binary-base64")).0 e, q)))
              (λ _ q. absurd (nothing q))))
      h
  where
    some_inj : {m : ℕ} → some m ≡ some n → n ≡ m
    some_inj q = cc

    nothing : none ≡ some n → ⊥
    nothing q = cc

sized-IsTxt :
    (value format k v key : Str) (n : ℕ)
    → value ≡ k ++ b'=' ∷ v
    → All (λ (x : ℕ). x ≢ b'=') k
    → (o : Option ℕ) → data_length format v ≡ o
    → sized k o ≡ some (key, n)
    → IsTxt value format key n × All (λ (x : ℕ). x ≢ b'=') key
sized-IsTxt value format k v key n e a none d h = cc
sized-IsTxt value format k v key n e a (some m) d h =
    let same_key : k ≡ key = cc in
    let size : length k + (1 + m) ≡ n = cc in
    (
      inr (
        v,
        m,
        subst (λ (t : Str). value ≡ t ++ b'=' ∷ v) same_key e,
        data_length-Decodes format v m d,
        subst (λ (t : Str). n ≡ length t + 1 + m) same_key (omega (arith, size)),
      ),
      subst (λ (t : Str). All (λ (x : ℕ). x ≢ b'=') t) same_key a,
    )

split_txt-IsTxt :
    (value format key : Str) (n : ℕ) (o : Option (Str × Str))
    → Splits b'=' value o
    → split_txt value format o ≡ some (key, n)
    → IsTxt value format key n × All (λ (x : ℕ). x ≢ b'=') key
split_txt-IsTxt value format key n (some (k, v)) (e, a) h =
    sized-IsTxt value format k v key n e a (data_length format v) refl h
split_txt-IsTxt value format key n none a h =
    if_lem
      (λ (o : Option (Str × ℕ)).
        o ≡ some (key, n) → IsTxt value format key n × All (λ (x : ℕ). x ≢ b'=') key)
      (binary format) _ _ (λ _ q. absurd (nothing q))
      (λ b q.
        let same_key : value ≡ key = cc in
        let size : length value ≡ n = cc in
        (
          inl (same_key, text_format format b, sym size ∙ ap length same_key),
          subst (λ (t : Str). All (λ (x : ℕ). x ≢ b'=') t) same_key a,
        ))
      h
  where
    nothing : let p : Str × ℕ = (key, n) in none ≡ some p → ⊥
    nothing q = cc

printable-All :
    (key : Str)
    → printable key ≡ true
    → All (λ (x : ℕ). x ≢ b'=') key
    → All (λ (c : ℕ). (32 ≤ c) × (c ≤ 126) × (c ≢ b'=')) key
printable-All [] h a = tt
printable-All (x ∷ xs) h (ne, a) = (
  (leb→le 32 x (ground arith), leb→le x 126 (ground arith), ne),
  printable-All xs (ground arith) a,
)

is_among-All : (s : Str) (seen : List Str) → is_among s seen ≡ false → All (λ (k : Str). k ≢ s) seen
is_among-All s [] h = tt
is_among-All s (t ∷ seen) h =
    (λ e. apart ((same_iff t s).1 e) (ground arith), is_among-All s seen (ground arith))
  where
    apart : {b : Bool} → b ≡ true → b ≡ false → ⊥
    apart p q = ground arith

txts_ok-Records :
    (txt : List (Str × Str)) (seen : List Str) → txts_ok seen txt ≡ true → Records seen txt
unfolding txts_ok
txts_ok-Records [] seen h = tt
txts_ok-Records ((value, format) ∷ txt) seen h = elim (Option-cases (txt_size value format)) [
  | inl e ↦ absurd (not_both (refused_record (rw (txts_ok, e) at h)))
  | inr ((key, n), e) ↦
      let passed : ((xml_text value && txt_ok seen (some (key, n)))
            && txts_ok (to_lower key ∷ seen) txt)
          ≡ true =
        rw (txts_ok, e) at h in
      let named : not (same key []) ≡ true = ground arith in
      let prints : printable key ≡ true = ground arith in
      let fresh : is_among (to_lower key) seen ≡ false = ground arith in
      let small : leb n 255 ≡ true = ground arith in
      let later : txts_ok (to_lower key ∷ seen) txt ≡ true = ground arith in
      let (txt_form, plain) =
        split_txt-IsTxt value format key n (cut b'=' value) (cut-Splits b'=' value)
          (unfold txt_size in e) in
      (
        key,
        n,
        txt_form,
        named_positive key named,
        printable-All key prints plain,
        leb→le n 255 small,
        is_among-All (to_lower key) seen fresh,
        txts_ok-Records txt (to_lower key ∷ seen) later,
      )
]
  where
    not_both : false ≡ true → ⊥
    not_both q = cc

    refused_record : ((xml_text value && false) && txts_ok seen txt) ≡ true → false ≡ true
    refused_record q = ground arith

    named_positive : (key : Str) → not (same key []) ≡ true → 0 < length key
    named_positive [] q = absurd (not_both (unfold same in q))
    named_positive (x ∷ xs) q = omega arith

-- The TXT records of every service of a group that `Validate` accepts: each is a key of printable
-- characters, alone or with an equals sign and a value that can be decoded in the format of the
-- record; key, sign and decoded data have at most 255 bytes together; and the keys of a service are
-- different in lower case.
pub validate_group-Records :
    (g : ServiceGroup)
    → validate_group g ≡ true
    → All (λ (s : Service). Records [] s.txt) g.services
unfolding validate_group
validate_group-Records g h =
    let valid : services_valid g.services ≡ true = ground arith in each g.services valid
  where
    each :
        (ss : List Service) → services_valid ss ≡ true → All (λ (s : Service). Records [] s.txt) ss
    each [] q = tt
    each (s ∷ ss) q =
        let first : service_valid s ≡ true = unfold services_valid in ground arith in
        let rest : services_valid ss ≡ true = unfold services_valid in ground arith in
        let records : txts_ok [] s.txt ≡ true = unfold service_valid in ground arith in
        (txts_ok-Records s.txt [] records, each ss rest)
