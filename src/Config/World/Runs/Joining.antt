-- ===== src/Config/World/Runs/Joining.antt =====
-- The rule for `errors.Join`, whose second call is made where the first fails as well.
use avahi_manager.Prelude.{Option, none, some}
use avahi_manager.Config.World.{Disk, Vault, Error, M, attempt, joined, join_errors, ◌>>=◌}
use avahi_manager.Config.World.Runs.{
  Runs, Caught, Runs-attempt, Runs-bind, Runs-post, Runs-pure, Runs-raise,
}

module _ {Q R F : Disk → Vault → Type 0} (n : M (Unit {0})) where
  run_second :
      (o : Option Error) {d : Disk} {v : Vault}
      → ((x : Disk) (y : Vault) → Q x y → Runs x y n (λ _. R) (λ _. F))
      → ((x : Disk) (y : Vault) → F x y → Runs x y n (λ _. F) (λ _. F))
      → Caught {A = Unit {0}} (λ _. Q) (λ _. F) o d v
      → Runs d v (attempt n >>= joined o) (λ _. R) (λ _. F)
  unfolding joined
  run_second none {d = d} {v = v} k l (_, h) =
      Runs-bind (attempt n) (joined none)
        (Runs-post _ (Runs-attempt n (k d v h)) (λ a x y c. c) (λ e x y (_, f). f))
        (λ o x y c. case_none o c)
    where
      case_none :
          (o : Option Error) {x : Disk} {y : Vault}
          → Caught {A = Unit {0}} (λ _. R) (λ _. F) o x y
          → Runs x y (joined none o) (λ _. R) (λ _. F)
      case_none none (_, r) = Runs-pure tt r
      case_none (some e) f = Runs-raise e f
  run_second (some e) {d = d} {v = v} k l h =
      Runs-bind (attempt n) (joined (some e))
        (Runs-post _ (Runs-attempt n (l d v h)) (λ o x y c. kept o c) (λ e x y (_, f). f))
        (λ o x y f. Runs-raise e f)
    where
      kept :
          (o : Option Error) {x : Disk} {y : Vault}
          → Caught {A = Unit {0}} (λ _. F) (λ _. F) o x y
          → F x y
      kept none (_, f) = f
      kept (some _) f = f

  pub Runs-join_errors :
      {d : Disk} {v : Vault} (m : M (Unit {0}))
      → Runs d v m (λ _. Q) (λ _. F)
      → ((x : Disk) (y : Vault) → Q x y → Runs x y n (λ _. R) (λ _. F))
      → ((x : Disk) (y : Vault) → F x y → Runs x y n (λ _. F) (λ _. F))
      → Runs d v (join_errors m n) (λ _. R) (λ _. F)
  unfolding join_errors
  Runs-join_errors m t k l =
      Runs-bind (attempt m) (λ o. attempt n >>= joined o)
        (Runs-post _ (Runs-attempt m t) (λ a x y c. c) (λ e x y (_, f). f))
        (λ o x y c. run_second o k l c)
