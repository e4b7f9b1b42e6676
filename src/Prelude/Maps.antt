-- ===== src/Prelude/Maps.antt =====
-- Go maps with string keys: association lists. `put` keeps the keys in ascending order, so that
-- running along the list is running along the sorted keys.

use mathlib.Core.Path.{◌≡◌, refl}
use mathlib.Core.Option.{Option, none, some}
use mathlib.Core.List.{List, [], ◌∷◌}
use native.Mathlib.Omega.{arith}
use avahi_manager.Prelude.Tests.{if◌then◌else◌}
use avahi_manager.Prelude.Bytes.{Str, same, before?, same_iff, same_refl}

abbrev pub Map {ℓ} : Type ℓ → Type ℓ
Map V = List (Str × V)

module _ {ℓ} {V : Type ℓ} where
  -- `m[k]`, `v, ok := m[k]`
  unfoldable pub get : Str → Map V → Option V
  get k [] = none
  get k ((j, v) ∷ m) = if same j k then some v else get k m

  -- `m[k] = v`
  unfoldable pub put : Str → V → Map V → Map V
  put k v [] = (k, v) ∷ []
  put k v ((j, w) ∷ m) =
      let rest = put k v m in
      if same j k then (k, v) ∷ m else if before? k j then (k, v) ∷ (j, w) ∷ m else (j, w) ∷ rest

  -- `delete(m, k)`
  unfoldable pub del : Str → Map V → Map V
  del k [] = []
  del k ((j, v) ∷ m) = let rest = del k m in if same j k then rest else (j, v) ∷ rest

  -- the keys, in the order of the list
  unfoldable pub keys : Map V → List Str
  keys [] = []
  keys ((k, v) ∷ m) = k ∷ keys m

  pub get-put :
      (i k : Str) (v : V) (m : Map V) → get i (put k v m) ≡ (if same k i then some v else get i m)
  unfolding get put
  get-put i k v [] = refl
  get-put i k v ((j, w) ∷ m) =
      ground (arith, same_iff j k, same_iff k i, same_iff j i, get-put i k v m)

  pub get-del : (i k : Str) (m : Map V) → get i (del k m) ≡ (if same k i then none else get i m)
  unfolding get del
  get-del i k [] = ground arith
  get-del i k ((j, v) ∷ m) = ground (arith, same_iff j k, same_iff k i, same_iff j i, get-del i k m)

  pub get-put_self : (k : Str) (v : V) (m : Map V) → get k (put k v m) ≡ some v
  get-put_self k v m = simp (get-put, same_refl)

pub ruleset map_laws = (get-put, get-del, same_refl)
