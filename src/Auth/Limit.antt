-- ===== src/Auth/Limit.antt =====
-- The limit on attempts: `allow` of internal/auth/auth.go.
use avahi_manager.Prelude.{
  ℕ, suc, ◌+◌, ◌≤◌, ◌≡◌, refl, ap, inl, inr, Option, none, some, [], ◌∷◌, arith, Str, same, Map,
  get, put, length, All, leb, ltb, Bool-cases, IsSorted, IsAbove, put-IsSorted, before?, All-put,
  get-IsAbove, IsAbove-trans,
}
use avahi_manager.Auth.{Attempt, allow, allow_at, drop_expired, window}

pub drop_expired-live :
    (now : ℕ) (key : Str) (a : Attempt) (m : Map Attempt)
    → get key m ≡ some a
    → now ≤ a.expires
    → get key (drop_expired now m) ≡ some a
unfolding drop_expired get
drop_expired-live now key a [] h l = cc
drop_expired-live now key a ((k, b) ∷ m) h l = elim (Bool-cases (same k key)) [
  | inl e ↦ ground arith
  | inr e ↦ ground (arith, drop_expired-live now key a m, e)
]

pub drop_expired-none :
    (now : ℕ) (key : Str) (m : Map Attempt) → get key m ≡ none → get key (drop_expired now m) ≡ none
unfolding drop_expired get
drop_expired-none now key [] h = refl
drop_expired-none now key ((k, b) ∷ m) h = ground (arith, drop_expired-none now key m)

-- the table of attempts is bounded, and so is every count
pub record IsLimited (m : Map Attempt) : Type 0 where
  pub sorted : IsSorted m
  pub size : length m ≤ 4096
  pub counts : All (λ (e : Str × Attempt). (1 ≤ e.1.count) × (e.1.count ≤ 5)) m

length-put : (k : Str) (a : Attempt) (m : Map Attempt) → length (put k a m) ≤ suc (length m)
unfolding put
length-put k a [] = omega arith
length-put k a ((j, b) ∷ m) = ground (arith, length-put k a m)

length-put_there :
    (k : Str) (a b : Attempt) (m : Map Attempt)
    → IsSorted m
    → get k m ≡ some b
    → length (put k a m) ≡ length m
unfolding put get
length-put_there k a b [] o h = cc
length-put_there k a b ((j, c) ∷ m) (p, o) h = elim (Bool-cases (same j k)) [
  | inl e ↦ rw e refl
  | inr e ↦ elim (Bool-cases (before? k j)) [
    | inl l ↦ absurd (absent (get-IsAbove k m (IsAbove-trans k j m l p)) (ground arith))
    | inr l ↦ rw (e, l) (ap suc (length-put_there k a b m o (ground arith)))
  ]
]
  where
    absent : get k m ≡ none → get k m ≡ some b → ⊥
    absent g f = cc

length-drop_expired : (now : ℕ) (m : Map Attempt) → length (drop_expired now m) ≤ length m
unfolding drop_expired
length-drop_expired now [] = omega arith
length-drop_expired now ((k, b) ∷ m) = ground (arith, length-drop_expired now m)

module _ (now : ℕ) where
  drop_expired-All :
      (P : Str × Attempt → Type 0) (m : Map Attempt) → All P m → All P (drop_expired now m)
  unfolding drop_expired
  drop_expired-All P [] h = tt
  drop_expired-All P ((k, b) ∷ m) (p, h) = elim (Bool-cases (ltb b.expires now)) [
    | inl e ↦ rw e (drop_expired-All P m h)
    | inr e ↦ rw e (p, drop_expired-All P m h)
  ]

  drop_expired-IsAbove : (k : Str) (m : Map Attempt) → IsAbove k m → IsAbove k (drop_expired now m)
  unfolding drop_expired
  drop_expired-IsAbove k [] h = tt
  drop_expired-IsAbove k ((j, b) ∷ m) (p, h) = elim (Bool-cases (ltb b.expires now)) [
    | inl e ↦ rw e (drop_expired-IsAbove k m h)
    | inr e ↦ rw e (p, drop_expired-IsAbove k m h)
  ]

  drop_expired-IsSorted : (m : Map Attempt) → IsSorted m → IsSorted (drop_expired now m)
  unfolding drop_expired
  drop_expired-IsSorted [] h = tt
  drop_expired-IsSorted ((j, b) ∷ m) (p, h) = elim (Bool-cases (ltb b.expires now)) [
    | inl e ↦ rw e (drop_expired-IsSorted m h)
    | inr e ↦ rw e (drop_expired-IsAbove j m p, drop_expired-IsSorted m h)
  ]

  allow_at-IsLimited :
      (key : Str) (o : Option Attempt) (m : Map Attempt)
      → get key m ≡ o
      → IsLimited m
      → IsLimited (allow_at now key o m).1
  unfolding allow_at
  allow_at-IsLimited key none m g h = elim (Bool-cases (leb 4096 (length m))) [
    | inl e ↦ rw e h
    | inr e ↦ rw e (record {
      sorted = put-IsSorted key _ m h.sorted;
      size = ground (arith, length-put key (record { count = 1; expires = now + window }) m);
      counts = All-put _ key _ m (omega arith, omega arith) h.counts;
    })
  ]
  allow_at-IsLimited key (some a) m g h = elim (Bool-cases (leb 5 a.count)) [
    | inl e ↦ rw e h
    | inr e ↦ rw e (record {
      sorted = put-IsSorted key _ m h.sorted;
      size =
          omega
            (arith, length-put_there key (record a { count = a.count + 1 }) a m h.sorted g, h.size);
      counts = All-put _ key _ m (omega arith, ground arith) h.counts;
    })
  ]

  -- `allow` keeps the table of attempts within 4096 entries in the order of their keys, each with
  -- a count from one to five.
  pub allow-IsLimited : (key : Str) (m : Map Attempt) → IsLimited m → IsLimited (allow now key m).1
  unfolding allow
  allow-IsLimited key m h = allow_at-IsLimited key _ (drop_expired now m) refl (record {
    sorted = drop_expired-IsSorted m h.sorted;
    size = omega (arith, length-drop_expired now m, h.size);
    counts = drop_expired-All _ m h.counts;
  })
