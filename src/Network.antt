-- ===== src/Network.antt =====
-- `Enabled` of internal/network/interfaces.go: whether the daemon uses an interface, by the lists
-- of its configuration.
mod Examples
use mathlib.Core.List.{reverse}
use avahi_manager.Prelude.{
  ℕ, zero, suc, ◌+◌, ◌-◌, ◌*◌, ◌/◌, ◌%◌, ◌^◌, ◌≤◌, ◌<◌, ◌≡◌, refl, sym, ap, ◌∙◌, subst, ◌≢◌, ◌↔◌,
  ◌⊎◌, inl, inr, Bool, true, false, not, ◌&&◌, ◌||◌, Option, none, some, List, [], ◌∷◌, ◌++◌, map,
  arith, Str, codes, same, same_refl, same_iff, drop, Map, get, put, del, keys, length, All, leb,
  ltb, ◌==◌, if◌then◌else◌, Bool-cases, &&-eq-true, ltb→lt, leb→le, le→leb, Option-cases,
  has_prefix, if_lem, ==_iff, trim_space,
}

-- the first loop
unfoldable pub is_denied : Str → List Str → Bool
unfolding same trim_space
is_denied name [] = false
is_denied name (s ∷ deny) =
    let rest = is_denied name deny in if same (trim_space s) name then true else rest

-- the second loop, with the count
unfoldable pub is_allowed : Str → ℕ → List Str → Bool
unfolding same trim_space
is_allowed name count [] = count == 0
is_allowed name count (s ∷ allow) =
    let skipped = is_allowed name count allow in
    let counted = is_allowed name (count + 1) allow in
    if same (trim_space s) [] then skipped else if same (trim_space s) name then true else counted

-- `Enabled`
unfoldable pub enabled : Str → List Str → List Str → Bool
unfolding is_denied is_allowed
enabled name allow deny = if is_denied name deny then false else is_allowed name 0 allow

-- An entry that stands for a text.
pub data Lists (t : Str) : List Str → Type 0 where
  here : (s : Str) (rest : List Str) → trim_space s ≡ t → Lists t (s ∷ rest)
  there : (s : Str) (rest : List Str) → Lists t rest → Lists t (s ∷ rest)

-- what an answer of the first loop says
abbrev Denies : Str → List Str → Bool → Type 0
Denies name deny true = Lists name deny
Denies name deny false = Lists name deny → ⊥

not_here :
    {t s : Str} {rest : List Str}
    → same (trim_space s) t ≡ false
    → (Lists t rest → ⊥)
    → Lists t (s ∷ rest)
    → ⊥
not_here {t} {s} h k (here _ _ e) = ground (arith, (same_iff (trim_space s) t).1 e)
not_here h k (there _ _ l) = k l

Denies-there :
    (name s : Str) (deny : List Str) (b : Bool)
    → same (trim_space s) name ≡ false
    → Denies name deny b
    → Denies name (s ∷ deny) b
Denies-there name s deny true h d = there s deny d
Denies-there name s deny false h d = not_here h d

is_denied-Denies : (name : Str) (deny : List Str) → Denies name deny (is_denied name deny)
unfolding is_denied
is_denied-Denies name [] = nowhere
  where
    nowhere : {t : Str} → Lists t [] → ⊥
    nowhere l = elim l [ ]
is_denied-Denies name (s ∷ deny) =
    if_lem (Denies name (s ∷ deny)) (same (trim_space s) name) _ _
      (λ b. here s deny ((same_iff (trim_space s) name).0 b))
      (λ b. Denies-there name s deny (is_denied name deny) b (is_denied-Denies name deny))

-- the entries that are no names
abbrev pub Blank : List Str → Type 0
Blank allow = All (λ s. trim_space s ≡ []) allow

-- what an answer of the second loop says
abbrev Allows : Str → ℕ → List Str → Bool → Type 0
Allows name count allow true = Lists name allow ⊎ ((count ≡ 0) × Blank allow)
Allows name count allow false = (Lists name allow → ⊥) × ((0 < count) ⊎ (Blank allow → ⊥))

differs : (t s : Str) → trim_space s ≢ t → same (trim_space s) t ≡ false
differs t s h = elim (Bool-cases (same (trim_space s) t)) [
  | inl e ↦ absurd (h ((same_iff (trim_space s) t).0 e))
  | inr e ↦ e
]

module _ (name : Str) (named : name ≢ []) where
  Allows-blank :
      (count : ℕ) (s : Str) (allow : List Str) (b : Bool)
      → trim_space s ≡ []
      → Allows name count allow b
      → Allows name count (s ∷ allow) b
  Allows-blank count s allow true e (inl l) = inl (there s allow l)
  Allows-blank count s allow true e (inr (z, bl)) = inr (z, (e, bl))
  Allows-blank count s allow false e (nl, o) = (
    not_here (differs name s (λ q. named (sym q ∙ e))) nl,
    elim o [ inl c ↦ inl c | inr nb ↦ inr (λ (p : Blank (s ∷ allow)). nb p.1) ],
  )

  Allows-counted :
      (count : ℕ) (s : Str) (allow : List Str) (b : Bool)
      → same (trim_space s) [] ≡ false
      → same (trim_space s) name ≡ false
      → Allows name (count + 1) allow b
      → Allows name count (s ∷ allow) b
  Allows-counted count s allow true e k (inl l) = inl (there s allow l)
  Allows-counted count s allow true e k (inr (z, bl)) = absurd (omega (arith, z))
  Allows-counted count s allow false e k (nl, o) = (
    not_here k nl,
    inr (λ (p : Blank (s ∷ allow)). ground (arith, (same_iff (trim_space s) []).1 p.0)),
  )

  is_allowed-Allows :
      (count : ℕ) (allow : List Str) → Allows name count allow (is_allowed name count allow)
  unfolding is_allowed
  is_allowed-Allows count [] = at_end (count == 0) refl
    where
      at_end : (b : Bool) → (count == 0) ≡ b → Allows name count [] b
      at_end true e = inr ((==_iff count 0).0 e, tt)
      at_end false e = ((λ l. elim l [ ]), inl (ground arith))
  is_allowed-Allows count (s ∷ allow) =
      if_lem (Allows name count (s ∷ allow)) (same (trim_space s) []) _ _
        (λ b.
          Allows-blank count s allow _ ((same_iff (trim_space s) []).0 b)
            (is_allowed-Allows count allow))
        (λ b.
          if_lem (Allows name count (s ∷ allow)) (same (trim_space s) name) _ _
            (λ c. inl (here s allow ((same_iff (trim_space s) name).0 c)))
            (λ c. Allows-counted count s allow _ b c (is_allowed-Allows (count + 1) allow)))

-- what an answer of `Enabled` says
abbrev pub Decides : Str → List Str → List Str → Bool → Type 0
Decides name allow deny true = (Lists name deny → ⊥) × (Lists name allow ⊎ Blank allow)
Decides name allow deny false = Lists name deny ⊎ ((Lists name allow → ⊥) × (Blank allow → ⊥))

-- An interface with a name is used if and only if no entry of the deny list stands for it and
-- either an entry of the allow list does or no entry of the allow list is a name at all. Blanks
-- round an entry do not count.
pub enabled-Decides :
    (name : Str) (allow deny : List Str)
    → name ≢ []
    → Decides name allow deny (enabled name allow deny)
unfolding enabled
enabled-Decides name allow deny named =
    decided (is_denied name deny) (is_denied-Denies name deny) (is_allowed name 0 allow)
      (is_allowed-Allows name named 0 allow)
  where
    decided :
        (b : Bool)
        → Denies name deny b
        → (c : Bool) → Allows name 0 allow c
        → Decides name allow deny (if b then false else c)
    decided true d c a = inl d
    decided false d true (inl l) = (d, inl l)
    decided false d true (inr (z, bl)) = (d, inr bl)
    decided false d false (nl, inl z) = absurd (omega (arith, z))
    decided false d false (nl, inr nb) = inr (nl, nb)
