-- ===== src/Config/World/Does.antt =====
-- Runs without a failure: `Does d v m a x y` says that `m`, started on the directories `d` and
-- `v` with no failure ahead, returns `a` and leaves the directories `x` and `y`.
use avahi_manager.Prelude.{ℕ, ◌≡◌, refl, ap, ◌∙◌, Bool, true, false, List, [], ◌∷◌, some, none}
use avahi_manager.Config.Image.{Action}
use avahi_manager.Config.World.{
  Disk, Vault, Error, Result, ok, M, pure, lift, gets, ◌>>=◌, continue, guard, raise, failed,
  optional, if_missing, not_exist, perform, skip, on_disk, on_vault, request, ◌>>◌, err,
  join_errors, attempt, joined, caught,
}
use avahi_manager.Config.World.Runs.{on}

pub record Does {A : Type 0} (d : Disk) (v : Vault) (m : M A) (a : A) (x : Disk) (y : Vault)
    : Type 0 where
  pub at :
      (r : List Action) (c : ℕ)
      → (s : List Action) × (k : ℕ) × (m (on d v r c []) ≡ (ok a, on x y s k []))

module _ {d : Disk} {v : Vault} where
  pub Does-pure : {A : Type 0} (a : A) → Does d v (pure a) a d v
  unfolding pure
  Does-pure a = record { at = λ r c. (r, c, refl) }

  pub Does-skip : Does d v skip tt d v
  unfolding skip perform
  Does-skip = record { at = λ r c. (r, c, refl) }

  pub Does-on_disk : (e : Disk → Disk) → Does d v (on_disk e) tt (e d) v
  unfolding on_disk perform
  Does-on_disk e = record { at = λ r c. (r, c, refl) }

  pub Does-on_vault : (part full : Vault → Vault) → Does d v (on_vault part full) tt d (full v)
  unfolding on_vault perform
  Does-on_vault part full = record { at = λ r c. (r, c, refl) }

  pub Does-request : (a : Action) → Does d v (request a) tt d v
  unfolding request perform
  Does-request a = record { at = λ r c. (a ∷ r, c, refl) }

  pub Does-gets :
      {A : Type 0} (g : Disk → Vault → A) → Does d v (gets (λ w. g w.disk w.vault)) (g d v) d v
  unfolding gets
  Does-gets g = record { at = λ r c. (r, c, refl) }

  pub Does-guard : (b : Bool) (e : Error) → b ≡ true → Does d v (guard b e) tt d v
  unfolding guard pure
  Does-guard true e h = record { at = λ r c. (r, c, refl) }
  Does-guard false e h = absurd (not_both h)
    where
      not_both : false ≡ true → ⊥
      not_both q = cc

  pub Does-lift : {A : Type 0} (t : Result A) (a : A) → t ≡ ok a → Does d v (lift t) a d v
  unfolding lift
  Does-lift t a h = record { at = λ r c. (r, c, ap (λ u. (u, on d v r c [])) h) }

module _ {A B : Type 0} where
  pub Does-bind :
      {d x z : Disk} {v y u : Vault} (m : M A) (f : A → M B) (a : A) (b : B)
      → Does d v m a x y
      → Does x y (f a) b z u
      → Does d v (m >>= f) b z u
  unfolding ◌>>=◌
  Does-bind m f a b first second = record {
    at = λ r c.
        let (s, k, e) = first.at r c in
        let (t, n, q) = second.at s k in (t, n, ap (λ w. continue w.0 f w.1) e ∙ q);
  }

pub Does-join_errors :
    {d x z : Disk} {v y u : Vault} (m n : M (Unit {0}))
    → Does d v m tt x y
    → Does x y n tt z u
    → Does d v (join_errors m n) tt z u
unfolding join_errors attempt joined
Does-join_errors m n first second =
    Does-bind (attempt m) (λ o. attempt n >>= joined o) none tt (caught_none first)
      (Does-bind (attempt n) (joined none) none tt (caught_none second) (Does-pure tt))
  where
    caught_none :
        {d x : Disk} {v y : Vault} {m : M (Unit {0})}
        → Does d v m tt x y
        → Does d v (attempt m) none x y
    caught_none t = record { at = λ r c. let (s, k, e) = t.at r c in (s, k, ap (λ w. caught w) e) }

pub Does-write :
    {d : Disk} {v : Vault} (f : Vault → Vault) → Does d v (do skip; on_vault f f; skip) tt d (f v)
Does-write f =
    Does-bind skip _ tt tt Does-skip
      (Does-bind (on_vault f f) _ tt tt (Does-on_vault f f) Does-skip)

-- `m` fails with an error where no step does, and changes neither directory.
pub record Fails {A : Type 0} (d : Disk) (v : Vault) (m : M A) (e : Error) : Type 0 where
  pub at :
      (r : List Action) (c : ℕ)
      → (s : List Action) × (k : ℕ) × (m (on d v r c []) ≡ (err (failed e), on d v s k []))

module _ {d : Disk} {v : Vault} where
  pub Fails-raise : {A : Type 0} (e : Error) → Fails d v (raise {A = A} e) e
  unfolding raise
  Fails-raise e = record { at = λ r c. (r, c, refl) }

  pub Fails-bind :
      {A B : Type 0} (m : M A) (f : A → M B) (a : A) (e : Error)
      → Does d v m a d v
      → Fails d v (f a) e
      → Fails d v (m >>= f) e
  unfolding ◌>>=◌
  Fails-bind m f a e first second = record {
    at = λ r c.
        let (s, k, p) = first.at r c in
        let (t, n, q) = second.at s k in (t, n, ap (λ w. continue w.0 f w.1) p ∙ q);
  }

  pub Does-found :
      {A : Type 0} (m : M A) (a : A) → Does d v m a d v → Does d v (optional m) (some a) d v
  unfolding optional
  Does-found m a h = record { at = λ r c. let (s, k, e) = h.at r c in (s, k, ap if_missing e) }

  pub Does-missing : {A : Type 0} (m : M A) → Fails d v m not_exist → Does d v (optional m) none d v
  unfolding optional
  Does-missing m h = record { at = λ r c. let (s, k, e) = h.at r c in (s, k, ap if_missing e) }
