-- ===== src/Config/World/Runs/Observing.antt =====
-- Code that changes neither directory.
use avahi_manager.Prelude.{◌≡◌, refl, Option, none, some, subst, sym}
use avahi_manager.Config.World.{Disk, Vault, not_exist, Stop, failed, M, optional, ◌>>=◌}
use avahi_manager.Config.World.Runs.{Cond, Runs, Runs-post, Runs-bind, Found, Runs-optional}

-- `m` changes neither directory, and returns a value with `Q` or stops with `F`.
abbrev pub Observes : {A : Type 0} → Disk → Vault → M A → (A → Type 0) → (Stop → Type 0) → Type 0
Observes d v m Q F =
    Runs d v m (λ a x y. (x ≡ d) × (y ≡ v) × Q a) (λ e x y. (x ≡ d) × (y ≡ v) × F e)

module _ {A B : Type 0} {d : Disk} {v : Vault} {P : A → Type 0} {F : Stop → Type 0} where
  pub Runs-observe :
      {R : B → Cond} {E : Stop → Cond} (m : M A) (k : A → M B)
      → Observes d v m P F
      → ((e : Stop) → F e → E e d v)
      → ((a : A) → P a → Runs d v (k a) R E)
      → Runs d v (m >>= k) R E
  Runs-observe {R} {E} m k t s n =
      Runs-bind m k
        (Runs-post m t (λ a x y h. h)
          (λ e x y (p, q, h).
            subst (λ x'. E e x' y) (sym p) (subst (λ y'. E e d y') (sym q) (s e h))))
        λ a x y (p, q, h).
          subst (λ x'. Runs x' y (k a) R E) (sym p)
            (subst (λ y'. Runs d y' (k a) R E) (sym q) (n a h))

  pub Observes-bind :
      {Q : B → Type 0} {G : Stop → Type 0} (m : M A) (k : A → M B)
      → Observes d v m P F
      → ((e : Stop) → F e → G e)
      → ((a : A) → P a → Observes d v (k a) Q G)
      → Observes d v (m >>= k) Q G
  Observes-bind m k t s n = Runs-observe m k t (λ e h. (refl, refl, s e h)) n

module _ {A : Type 0} {d : Disk} {v : Vault} {P : A → Type 0} {F : Stop → Type 0} where
  pub Observes-keeps :
      {m : M A} {C : Cond} → C d v → Observes d v m P F → Runs d v m (λ _. C) (λ _. C)
  Observes-keeps {m} {C} c t =
      Runs-post m t
        (λ a x y (p, q, h). subst (λ x'. C x' y) (sym p) (subst (λ y'. C d y') (sym q) c))
        (λ e x y (p, q, h). subst (λ x'. C x' y) (sym p) (subst (λ y'. C d y') (sym q) c))

abbrev pub Perhaps : {A : Type 0} → (A → Type 0) → Type 0 → Option A → Type 0
Perhaps Q N none = N
Perhaps Q N (some a) = Q a

module _ {A : Type 0} {d : Disk} {v : Vault} {P : A → Type 0} {F : Stop → Type 0} where
  pub Observes-optional :
      (m : M A)
      → Observes d v m P F
      → Observes d v (optional m) (Perhaps P (F (failed not_exist))) F
  Observes-optional m t = Runs-post (optional m) (Runs-optional m t) perhaps (λ e x y h. h)
    where
      perhaps :
          (o : Option A) (x : Disk) (y : Vault)
          → Found
              (λ a x' y'. (x' ≡ d) × (y' ≡ v) × P a)
              (λ x' y'. (x' ≡ d) × (y' ≡ v) × F (failed not_exist))
              o
              x
              y
          → (x ≡ d) × (y ≡ v) × Perhaps P (F (failed not_exist)) o
      perhaps none x y h = h
      perhaps (some a) x y h = h
