-- ===== src/Config/World/Runs/Steps.antt =====
-- The rules for system calls and reads of the state, each with the code that follows it.
use avahi_manager.Prelude.{ℕ, ◌≡◌, refl, Bool, true, false, List, [], ◌∷◌, subst, sym}
use avahi_manager.Config.Image.{Action}
use avahi_manager.Config.World.{
  Disk, Vault, Fault, pass, fail, halt, World, Error, io_error, Stop, crash, failed, Result, ok,
  err, M, pure, gets, continue, ◌>>=◌, guard, perform, skip, tick, request, on_disk, on_vault,
}
use avahi_manager.Config.World.Runs.{Cond, Outcome, Runs, IsFault, Runs-bind, on}

-- one system call with the code that follows it, by the answer of the schedule
Outcome-perform :
    {A : Type 0} (Q : A → Cond) (E : Stop → Cond) (part full : World → World) (k : Unit {0} → M A)
    (fs : List Fault) (w : World)
    → ((l : List Fault) → Outcome Q E (k tt (full (record w { faults = l }))))
    → Outcome Q E (k tt (full w))
    → ((e : Stop) → IsFault e → E e w.disk w.vault)
    → ((e : Stop)
        → IsFault e
        → (l : List Fault)
        → E e (part (record w { faults = l })).disk (part (record w { faults = l })).vault)
    → Outcome Q E (continue (perform fs part full w).0 k (perform fs part full w).1)
unfolding perform
Outcome-perform Q E part full k [] w h h' s l = h'
Outcome-perform Q E part full k (pass ∷ fs) w h h' s l = h fs
Outcome-perform Q E part full k (fail true ∷ fs) w h h' s l = l (failed io_error) tt fs
Outcome-perform Q E part full k (fail false ∷ fs) w h h' s l = s (failed io_error) tt
Outcome-perform Q E part full k (halt true ∷ fs) w h h' s l = l crash tt fs
Outcome-perform Q E part full k (halt false ∷ fs) w h h' s l = s crash tt

-- the steps, each with the code that follows it
module _ {A : Type 0} {d : Disk} {v : Vault} {Q : A → Cond} {E : Stop → Cond} where
  pub Runs-gets :
      {B : Type 0} (f : Disk → Vault → B) (k : B → M A)
      → Runs d v (k (f d v)) Q E
      → Runs d v (gets (λ w. f w.disk w.vault) >>= k) Q E
  unfolding ◌>>=◌
  Runs-gets f k t = record { at = t.at }

  pub Runs-gets_last :
      (f : Disk → Vault → A) → Q (f d v) d v → Runs d v (gets (λ w. f w.disk w.vault)) Q E
  unfolding gets
  Runs-gets_last f h = record { at = λ r c fs. h }

  pub Runs-guard :
      (b : Bool) (e : Error) (k : Unit {0} → M A)
      → (b ≡ true → Runs d v (k tt) Q E)
      → (b ≡ false → E (failed e) d v)
      → Runs d v (guard b e >>= k) Q E
  unfolding ◌>>=◌ guard
  Runs-guard true e k t s = record { at = (t refl).at }
  Runs-guard false e k t s = record { at = λ r c fs. s refl }

  pub Runs-tick : (k : ℕ → M A) → ((n : ℕ) → Runs d v (k n) Q E) → Runs d v (tick >>= k) Q E
  unfolding ◌>>=◌ tick
  Runs-tick k t = record { at = λ r c fs. (t c).at r _ fs }

  pub Runs-skip :
      (k : Unit {0} → M A)
      → ((e : Stop) → IsFault e → E e d v)
      → Runs d v (k tt) Q E
      → Runs d v (skip >>= k) Q E
  unfolding ◌>>=◌ skip
  Runs-skip k s t = record {
    at = λ r c fs.
        Outcome-perform Q E _ _ k fs (on d v r c fs) (t.at r c) (t.at r c fs) s (λ e i _. s e i);
  }

  pub Runs-request :
      (a : Action) (k : Unit {0} → M A)
      → ((e : Stop) → IsFault e → E e d v)
      → Runs d v (k tt) Q E
      → Runs d v (request a >>= k) Q E
  unfolding ◌>>=◌ request
  Runs-request a k s t = record {
    at = λ r c fs.
        Outcome-perform Q E _ _ k fs (on d v r c fs) (t.at (a ∷ r) c) (t.at (a ∷ r) c fs) s
          (λ e i _. s e i);
  }

  pub Runs-on_disk :
      (f : Disk → Disk) (k : Unit {0} → M A)
      → ((e : Stop) → IsFault e → E e d v)
      → ((e : Stop) → IsFault e → E e (f d) v)
      → Runs (f d) v (k tt) Q E
      → Runs d v (on_disk f >>= k) Q E
  unfolding ◌>>=◌ on_disk
  Runs-on_disk f k s l t = record {
    at = λ r c fs.
        Outcome-perform Q E _ _ k fs (on d v r c fs) (t.at r c) (t.at r c fs) s (λ e i _. l e i);
  }

  pub Runs-on_vault :
      (part full : Vault → Vault) (k : Unit {0} → M A)
      → ((e : Stop) → IsFault e → E e d v)
      → ((e : Stop) → IsFault e → E e d (part v))
      → Runs d (full v) (k tt) Q E
      → Runs d v (on_vault part full >>= k) Q E
  unfolding ◌>>=◌ on_vault
  Runs-on_vault part full k s l t = record {
    at = λ r c fs.
        Outcome-perform Q E _ _ k fs (on d v r c fs) (t.at r c) (t.at r c fs) s (λ e i _. l e i);
  }

Outcome-continue-pure :
    {A : Type 0} (Q : A → Cond) (E : Stop → Cond) (r : Result A × World)
    → Outcome Q E (continue r.0 pure r.1)
    → Outcome Q E r
unfolding pure
Outcome-continue-pure Q E (ok a, w) o = o
Outcome-continue-pure Q E (err e, w) o = o

module _ {A : Type 0} {d : Disk} {v : Vault} {Q : A → Cond} {E : Stop → Cond} where
  -- a last call, walked as if `pure` followed it
  pub Runs-last : (m : M A) → Runs d v (m >>= pure) Q E → Runs d v m Q E
  unfolding ◌>>=◌
  Runs-last m t = record { at = λ r c fs. Outcome-continue-pure Q E _ (t.at r c fs) }

  -- a call that leaves known directories behind
  pub Runs-then :
      {B : Type 0} {d' : Disk} {v' : Vault} (m : M B) (k : B → M A)
      → Runs d v m (λ _ x y. (x ≡ d') × (y ≡ v')) E
      → ((b : B) → Runs d' v' (k b) Q E)
      → Runs d v (m >>= k) Q E
  Runs-then {d' = d'} {v' = v'} m k t s = Runs-bind m k t λ b x y (p, q).
      subst (λ x'. Runs x' y (k b) Q E) (sym p) (subst (λ y'. Runs d' y' (k b) Q E) (sym q) (s b))
