-- ===== src/Prelude/Order.antt =====
-- The order of strings, and maps whose keys ascend.
use avahi_manager.Prelude.Tests.{Bool-cases}
use avahi_manager.Prelude.Bytes.{Str, same, before?, same_iff, same_refl}
use avahi_manager.Prelude.Maps.{Map, get, put, del}
use mathlib.Core.List.{[], ◌∷◌}
use mathlib.Core.Bool.{true, false}
use mathlib.Core.Option.{none, some}
use mathlib.Core.Path.{◌≡◌, refl, subst}
use mathlib.Core.Logic.{inl, inr}
use native.Mathlib.Omega.{arith}
use avahi_manager.Prelude.Lists.{All}

pub before_irrefl : (a : Str) → before? a a ≡ false
unfolding before?
before_irrefl [] = refl
before_irrefl (x ∷ xs) = ground (arith, before_irrefl xs)

pub before_trans : (a b c : Str) → before? a b ≡ true → before? b c ≡ true → before? a c ≡ true
unfolding before?
before_trans a b [] h k = ground arith
before_trans [] b (z ∷ zs) h k = refl
before_trans (x ∷ xs) [] (z ∷ zs) h k = ground arith
before_trans (x ∷ xs) (y ∷ ys) (z ∷ zs) h k = ground (arith, before_trans xs ys zs)

-- Of two different strings one stands before the other.
pub before_total : (a b : Str) → same a b ≡ false → before? b a ≡ false → before? a b ≡ true
unfolding before? same
before_total [] [] h k = ground arith
before_total [] (y ∷ ys) h k = refl
before_total (x ∷ xs) [] h k = ground arith
before_total (x ∷ xs) (y ∷ ys) h k = ground (arith, before_total xs ys)

module _ {ℓ} {V : Type ℓ} where
  abbrev pub IsAbove : Str → Map V → Type 0
  IsAbove k [] = Unit
  IsAbove k ((j, v) ∷ m) = (before? k j ≡ true) × IsAbove k m

  -- the keys ascend, so none stands twice
  abbrev pub IsSorted : Map V → Type 0
  IsSorted [] = Unit
  IsSorted ((k, v) ∷ m) = IsAbove k m × IsSorted m

module _ {ℓ} {V : Type ℓ} where
  pub IsAbove-trans : (k j : Str) (m : Map V) → before? k j ≡ true → IsAbove j m → IsAbove k m
  IsAbove-trans k j [] h a = tt
  IsAbove-trans k j ((i, v) ∷ m) h (b, a) = (before_trans k j i h b, IsAbove-trans k j m h a)

  IsAbove-put :
      (j k : Str) (v : V) (m : Map V) → before? j k ≡ true → IsAbove j m → IsAbove j (put k v m)
  unfolding put
  IsAbove-put j k v [] h a = (h, tt)
  IsAbove-put j k v ((i, w) ∷ m) h (b, a) = elim (Bool-cases (same i k)) [
    | inl e ↦ rw e (h, a)
    | inr ne ↦ elim (Bool-cases (before? k i)) [
      | inl l ↦ rw (ne, l) (h, (b, a))
      | inr g ↦ rw (ne, g) (b, IsAbove-put j k v m h a)
    ]
  ]

  IsAbove-del : (j k : Str) (m : Map V) → IsAbove j m → IsAbove j (del k m)
  unfolding del
  IsAbove-del j k [] a = tt
  IsAbove-del j k ((i, w) ∷ m) (b, a) = elim (Bool-cases (same i k)) [
    | inl e ↦ rw e (IsAbove-del j k m a)
    | inr ne ↦ rw ne (b, IsAbove-del j k m a)
  ]

  pub get-IsAbove : (k : Str) (m : Map V) → IsAbove k m → get k m ≡ none
  unfolding get
  get-IsAbove k [] a = refl
  get-IsAbove k ((j, v) ∷ m) (b, a) =
      ground (arith, get-IsAbove k m a, same_iff j k, before_irrefl k)

  pub put-IsSorted : (k : Str) (v : V) (m : Map V) → IsSorted m → IsSorted (put k v m)
  unfolding put
  put-IsSorted k v [] s = (tt, tt)
  put-IsSorted k v ((j, w) ∷ m) (a, s) = elim (Bool-cases (same j k)) [
    | inl e ↦ rw e (subst (λ i. IsAbove i m) ((same_iff j k).0 e) a, s)
    | inr ne ↦ elim (Bool-cases (before? k j)) [
      | inl l ↦ rw (ne, l) ((l, IsAbove-trans k j m l a), (a, s))
      | inr g ↦ rw (ne, g) (IsAbove-put j k v m (before_total j k ne g) a, put-IsSorted k v m s)
    ]
  ]

  pub del-IsSorted : (k : Str) (m : Map V) → IsSorted m → IsSorted (del k m)
  unfolding del
  del-IsSorted k [] s = tt
  del-IsSorted k ((j, w) ∷ m) (a, s) = elim (Bool-cases (same j k)) [
    | inl e ↦ rw e (del-IsSorted k m s)
    | inr ne ↦ rw ne (IsAbove-del j k m a, del-IsSorted k m s)
  ]

module _ {ℓ κ} {V : Type ℓ} (P : Str × V → Type κ) where
  pub All-put : (k : Str) (v : V) (m : Map V) → P (k, v) → All P m → All P (put k v m)
  unfolding put
  All-put k v [] p a = (p, tt)
  All-put k v ((j, w) ∷ m) p (q, a) = elim (Bool-cases (same j k)) [
    | inl e ↦ rw e (p, a)
    | inr ne ↦ elim (Bool-cases (before? k j)) [
      | inl l ↦ rw (ne, l) (p, (q, a))
      | inr g ↦ rw (ne, g) (q, All-put k v m p a)
    ]
  ]

  pub All-del : (k : Str) (m : Map V) → All P m → All P (del k m)
  unfolding del
  All-del k [] a = tt
  All-del k ((j, w) ∷ m) (q, a) = elim (Bool-cases (same j k)) [
    | inl e ↦ rw e (All-del k m a)
    | inr ne ↦ rw ne (q, All-del k m a)
  ]

  -- what holds of every entry holds of what a lookup finds
  pub All-get : (k : Str) (v : V) (m : Map V) → All P m → get k m ≡ some v → P (k, v)
  unfolding get
  All-get k v [] a h = cc
  All-get k v ((j, w) ∷ m) (p, a) h = elim (Bool-cases (same j k)) [
    | inl e ↦
        let found : w ≡ v = ground arith in
        subst (λ i. P (i, v)) ((same_iff j k).0 e) (subst (λ x. P (j, x)) found p)
    | inr ne ↦ All-get k v m a (ground arith)
  ]

module _ {ℓ} {V : Type ℓ} where
  -- a key that stands before all others is put in front
  pub put-IsAbove : (k : Str) (v : V) (m : Map V) → IsAbove k m → put k v m ≡ (k, v) ∷ m
  unfolding put
  put-IsAbove k v [] a = refl
  put-IsAbove k v ((j, w) ∷ m) (b, a) = ground (arith, same_iff j k, before_irrefl k)

module _ {ℓ κ} {V : Type ℓ} (P : Str × V → Type κ) where
  -- In a sorted map, what holds of every successful lookup holds of every entry.
  pub All-of-get :
      (m : Map V) → IsSorted m → ((k : Str) (v : V) → get k m ≡ some v → P (k, v)) → All P m
  unfolding get
  All-of-get [] s h = tt
  All-of-get ((k, v) ∷ m) (a, s) h = (
    h k v (ground (arith, same_refl k)),
    All-of-get m s (λ j w e. h j w (ground (arith, e, same_iff k j, get-IsAbove k m a))),
  )
