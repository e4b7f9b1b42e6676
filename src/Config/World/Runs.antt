-- ===== src/Config/World/Runs.antt =====
-- Partial correctness under every schedule of failures: `Runs d v m Q E` says that `m`, started
-- on the directories `d` and `v`, returns a value with `Q` or stops with `E`. There is one rule
-- for each way to build an effect, so that a proof walks along the code.
pub mod Steps
pub mod Observing
pub mod Joining
use avahi_manager.Prelude.{
  ℕ, ◌≡◌, refl, Bool, true, false, Option, none, some, List, [], ◌∷◌, if◌then◌else◌, subst, sym,
}
use avahi_manager.Config.Image.{Action}
use avahi_manager.Config.World.{
  Disk, Vault, Fault, pass, fail, halt, World, Error, io_error, not_exist, Stop, crash, failed,
  Result, ok, err, M, pure, raise, lift, gets, caught, attempt, if_missing, optional, continue,
  ◌>>=◌, keep_error, cleaned, on_error, guard, perform, skip, tick, request, on_disk, on_vault,
}

abbrev pub Cond : Type 1
Cond = Disk → Vault → Type 0

abbrev pub Outcome : {A : Type 0} → (A → Cond) → (Stop → Cond) → Result A × World → Type 0
Outcome Q E (ok a, w) = Q a w.disk w.vault
Outcome Q E (err e, w) = E e w.disk w.vault

abbrev pub on : Disk → Vault → List Action → ℕ → List Fault → World
on d v r c fs = record { disk = d; vault = v; requests = r; clock = c; faults = fs }

pub record Runs {A : Type 0} (d : Disk) (v : Vault) (m : M A) (Q : A → Cond) (E : Stop → Cond)
    : Type 0 where
  pub at : (r : List Action) (c : ℕ) (fs : List Fault) → Outcome Q E (m (on d v r c fs))

-- `m` keeps `P`, whatever it returns.
abbrev pub Keeps : {A : Type 0} → Cond → M A → Type 0
Keeps P m = (d : Disk) (v : Vault) → P d v → Runs d v m (λ _. P) (λ _. P)

-- `m` changes neither directory.
abbrev pub Leaves : {A : Type 0} → M A → Type 1
Leaves m = (P : Cond) → Keeps P m

-- the ways in which one system call can stop
abbrev pub IsFault : Stop → Type 0
IsFault crash = Unit
IsFault (failed io_error) = Unit
IsFault (failed _) = ⊥

-- What holds of a world holds of a run from its directories.
pub Runs-at :
    {A : Type 0} {Q : A → Cond} {E : Stop → Cond} (w : World) (m : M A)
    → Runs w.disk w.vault m Q E
    → Outcome Q E (m w)
Runs-at w m t = t.at w.requests w.clock w.faults

module _ {A : Type 0} {d : Disk} {v : Vault} {Q : A → Cond} {E : Stop → Cond} where
  pub Runs-pure : (a : A) → Q a d v → Runs d v (pure a) Q E
  unfolding pure
  Runs-pure a h = record { at = λ r c fs. h }

  pub Runs-raise : (e : Error) → E (failed e) d v → Runs d v (raise e) Q E
  unfolding raise
  Runs-raise e h = record { at = λ r c fs. h }

  pub Runs-lift :
      (x : Result A)
      → ((a : A) → x ≡ ok a → Q a d v)
      → ((e : Stop) → x ≡ err e → E e d v)
      → Runs d v (lift x) Q E
  unfolding lift
  Runs-lift (ok a) h k = record { at = λ r c fs. h a refl }
  Runs-lift (err e) h k = record { at = λ r c fs. k e refl }

  pub Runs-if :
      (b : Bool) (m n : M A)
      → (b ≡ true → Runs d v m Q E)
      → (b ≡ false → Runs d v n Q E)
      → Runs d v (if b then m else n) Q E
  Runs-if true m n s t = s refl
  Runs-if false m n s t = t refl

-- consequence
module _ {A : Type 0} {Q Q' : A → Cond} {E E' : Stop → Cond} where
  weaken :
      ((a : A) (d : Disk) (v : Vault) → Q a d v → Q' a d v)
      → ((e : Stop) (d : Disk) (v : Vault) → E e d v → E' e d v)
      → (r : Result A × World) → Outcome Q E r
      → Outcome Q' E' r
  weaken h k (ok a, w) o = h a w.disk w.vault o
  weaken h k (err e, w) o = k e w.disk w.vault o

  pub Runs-post :
      {d : Disk} {v : Vault} (m : M A)
      → Runs d v m Q E
      → ((a : A) (d : Disk) (v : Vault) → Q a d v → Q' a d v)
      → ((e : Stop) (d : Disk) (v : Vault) → E e d v → E' e d v)
      → Runs d v m Q' E'
  Runs-post m t h k = record { at = λ r c fs. weaken h k _ (t.at r c fs) }

-- sequencing
module _ {A B : Type 0} {Q : A → Cond} {R : B → Cond} {E : Stop → Cond} where
  Outcome-continue :
      (r : Result A × World) (f : A → M B)
      → Outcome Q E r
      → ((a : A) (d : Disk) (v : Vault) → Q a d v → Runs d v (f a) R E)
      → Outcome R E (continue r.0 f r.1)
  Outcome-continue (ok a, w) f o k = Runs-at w (f a) (k a w.disk w.vault o)
  Outcome-continue (err e, w) f o k = o

  pub Runs-bind :
      {d : Disk} {v : Vault} (m : M A) (f : A → M B)
      → Runs d v m Q E
      → ((a : A) (d : Disk) (v : Vault) → Q a d v → Runs d v (f a) R E)
      → Runs d v (m >>= f) R E
  unfolding ◌>>=◌
  Runs-bind m f t k = record {
    at = λ r c fs. Outcome-continue (m (on _ _ r c fs)) f (t.at r c fs) k;
  }

-- error handling
abbrev pub Caught : {A : Type 0} → (A → Cond) → (Stop → Cond) → Option Error → Cond
Caught {A} Q E none d v = (a : A) × Q a d v
Caught Q E (some e) d v = E (failed e) d v

abbrev pub Found : {A : Type 0} → (A → Cond) → Cond → Option A → Cond
Found Q N none d v = N d v
Found Q N (some a) d v = Q a d v

module _ {A : Type 0} (Q : A → Cond) (E : Stop → Cond) where
  Outcome-caught :
      (r : Result A × World)
      → Outcome Q E r
      → Outcome (Caught Q E) (λ e d v. (e ≡ crash) × E crash d v) (caught r)
  Outcome-caught (ok a, w) o = (a, o)
  Outcome-caught (err crash, w) o = (refl, o)
  Outcome-caught (err (failed e), w) o = o

  Outcome-if_missing :
      (r : Result A × World)
      → Outcome Q E r
      → Outcome (Found Q (E (failed not_exist))) E (if_missing r)
  Outcome-if_missing (ok a, w) o = o
  Outcome-if_missing (err crash, w) o = o
  Outcome-if_missing (err (failed not_exist), w) o = o
  Outcome-if_missing (err (failed e), w) o = o

module _ {A : Type 0} {d : Disk} {v : Vault} {Q : A → Cond} {E : Stop → Cond} where
  pub Runs-attempt :
      (m : M A)
      → Runs d v m Q E
      → Runs d v (attempt m) (Caught Q E) (λ e x y. (e ≡ crash) × E crash x y)
  unfolding attempt
  Runs-attempt m t = record { at = λ r c fs. Outcome-caught Q E _ (t.at r c fs) }

  pub Runs-optional :
      (m : M A) → Runs d v m Q E → Runs d v (optional m) (Found Q (E (failed not_exist))) E
  unfolding optional
  Runs-optional m t = record { at = λ r c fs. Outcome-if_missing Q E _ (t.at r c fs) }

module _ {A : Type 0} (Q : A → Cond) (F : Cond) where
  Outcome-keep_error :
      (e : Error) (r : Result (Unit {0}) × World)
      → Outcome (λ _. F) (λ _. F) r
      → Outcome Q (λ _. F) (keep_error e r)
  Outcome-keep_error e (ok _, w) o = o
  Outcome-keep_error e (err crash, w) o = o
  Outcome-keep_error e (err (failed _), w) o = o

  Outcome-cleaned :
      (h : M (Unit {0}))
      → Keeps F h
      → (r : Result A × World) → Outcome Q (λ _. F) r
      → Outcome Q (λ _. F) (cleaned h r)
  Outcome-cleaned h k (ok a, w) o = o
  Outcome-cleaned h k (err crash, w) o = o
  Outcome-cleaned h k (err (failed e), w) o =
      Outcome-keep_error e (h w) (Runs-at w h (k w.disk w.vault o))

module _ {A : Type 0} {d : Disk} {v : Vault} {Q : A → Cond} {F : Cond} where
  pub Runs-on_error :
      (m : M A) (h : M (Unit {0}))
      → Runs d v m Q (λ _. F)
      → Keeps F h
      → Runs d v (on_error m h) Q (λ _. F)
  unfolding on_error
  Runs-on_error m h t k = record { at = λ r c fs. Outcome-cleaned Q F h k _ (t.at r c fs) }
