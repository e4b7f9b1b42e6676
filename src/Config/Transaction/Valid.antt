-- ===== src/Config/Transaction/Valid.antt =====
-- What `Store.Apply` leaves on the disk has passed `ValidateImage`.
use avahi_manager.Config.Transaction.Changes.{Changed, observe_changes, CanRecord}
use avahi_manager.Config.World.Runs.{Runs, Outcome, Runs-bind, Runs-post, Cond}
use avahi_manager.Config.World.Runs.Steps.{Runs-guard}
use avahi_manager.Config.World.{
  Result, Disk, World, Vault, Stop, ok, M, err, conflict, invalid_image, guard, ◌>>=◌,
}
use avahi_manager.Config.Image.{Env, Image, validate_image, change_action, revision}
use avahi_manager.Config.Transaction.{apply, apply_changes, by_action}
use avahi_manager.Prelude.{Map, Bool, Option, ◌≡◌, Str, All, true, codes, not, same, [], ◌&&◌}
use avahi_manager.Config.Disk.Reading.{IsDisk, managed, read-Reads}
use avahi_manager.Config.Disk.Showing.{Shows, Reads-IsImage}
use avahi_manager.Config.World.Runs.Observing.{Runs-observe}
use avahi_manager.Config.Vault.{no_pending}
use avahi_manager.Config.Transaction.Operations.{apply-Committed}

module _ {A : Type 0} where
  Outcome-always :
      (P : Type 0) → P → (r : Result A × World) → Outcome (λ _ _ _. P) (λ _ _ _. Unit) r
  Outcome-always P h (ok a, w) = h
  Outcome-always P h (err e, w) = tt

  -- what holds of no state holds of every value
  pub Runs-always :
      {d : Disk} {v : Vault} (m : M A) (P : Type 0) → P → Runs d v m (λ _ _ _. P) (λ _ _ _. Unit)
  Runs-always m P h = record { at = λ r c fs. Outcome-always P h _ }

  module _ (Q R : A → Cond) (E F : Stop → Cond) where
    Outcome-both :
        (r : Result A × World)
        → Outcome Q E r
        → Outcome R F r
        → Outcome (λ a x y. Q a x y × R a x y) (λ e x y. E e x y × F e x y) r
    Outcome-both (ok a, w) h k = (h, k)
    Outcome-both (err e, w) h k = (h, k)

  module _ {Q R : A → Cond} {E F : Stop → Cond} where
    pub Runs-both :
        {d : Disk} {v : Vault} (m : M A)
        → Runs d v m Q E
        → Runs d v m R F
        → Runs d v m (λ a x y. Q a x y × R a x y) (λ e x y. E e x y × F e x y)
    Runs-both m t s = record { at = λ r c fs. Outcome-both Q R E F _ (t.at r c fs) (s.at r c fs) }

module _ (env : Env) where
  pub apply-Valid :
      (d : Disk) (v : Vault) (c : Bool) (expected : Str) (old new : Image) (reason : Str)
      → Runs d v
          (apply env c expected old new reason)
          (λ _ _ _. validate_image env new ≡ true)
          (λ _ _ _. Unit)
  unfolding apply
  apply-Valid d v c expected old new reason =
      let body =
        λ (_ : Unit {0}). by_action env c expected old new reason (change_action old new) in
      let checked = λ (_ : Unit {0}). guard (validate_image env new) invalid_image >>= body in
      Runs-guard (not (same expected []) && same expected (revision env old)) conflict
        (λ _. no_pending >>= checked)
        (λ _. Runs-bind no_pending checked (Runs-always no_pending Unit tt) (λ _ x y _.
          Runs-guard (validate_image env new) invalid_image body
            (λ h. Runs-always (body tt) (validate_image env new ≡ true) h) (λ _. tt)))
        (λ _. tt)

-- a valid image that is the old one with the changes stands on the disk
pub record Stands (env : Env) (changes : Map (Option Str)) (x : Disk) (y : Vault) : Type 0 where
  pub old : Image
  pub new : Image
  pub disk : IsDisk x
  pub changed : Changed env old changes new
  pub shows : Shows new x
  pub valid : validate_image env new ≡ true

pub apply_changes-Stands :
    (env : Env) (d : Disk) (v : Vault)
    → env.euid ≡ 0
    → IsDisk d
    → (c : Bool) (expected : Str) (changes : Map (Option Str))
    → All (λ (e : Str × Option Str). managed e.0 ≡ true) changes
    → CanRecord env d changes
    → Runs d v (apply_changes env c expected changes) (λ _. Stands env changes) (λ _ _ _. Unit)
unfolding apply_changes
apply_changes-Stands env d v root i c expected changes a can =
    Runs-observe _ _ (read-Reads i) (λ e k. tt)
      (λ old rd.
        Runs-observe _ _ (observe_changes env old (Reads-IsImage rd) d v changes a) (λ e k. tt)
          (λ new ch.
            Runs-post _
              (Runs-both _
                (apply-Committed env root old new (can old new rd ch) ch.image d v i rd c expected
                  (codes "Save & Apply"))
                (apply-Valid env d v c expected old new (codes "Save & Apply")))
              (λ _ x y (h, k). record {
                old = old;
                new = new;
                disk = h.0;
                changed = ch;
                shows = h.1.0;
                valid = k;
              })
              (λ e x y h. tt)))
