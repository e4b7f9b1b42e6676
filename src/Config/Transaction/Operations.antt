-- ===== src/Config/Transaction/Operations.antt =====
-- `Apply`, `Restore` and the function `apply` behind them are transactions.
use avahi_manager.Prelude.{
  ◌≡◌, refl, sym, ◌∙◌, subst, ◌⊎◌, inl, inr, Bool, not, ◌&&◌, [], Str, same,
}
use avahi_manager.Config.Image.{
  Env, Image, Action, no_action, reload, restart, revision, change_action, IsStorable,
  validate_image,
}
use avahi_manager.Config.Image.Actions.{Explains, change_action-Explains}
use avahi_manager.Config.World.{Vault, Disk, Stop, absent, conflict, invalid_image, no_controller}
use avahi_manager.Config.Disk.Reading.{IsDisk, Reads}
use avahi_manager.Config.Disk.Showing.{IsImage, Shows}
use avahi_manager.Config.Vault.Pointer.{observe_no_pending}
use avahi_manager.Config.Transaction.{transact, apply, by_action}
use avahi_manager.Config.Transaction.Outcomes.{Committed, Aborted, Aborted-settled, Recording}
use avahi_manager.Config.Transaction.Apply.{run_transact, run_unchanged, validate_image-IsStorable}
use avahi_manager.Config.World.Runs.{Runs, Cond, Runs-post}
use avahi_manager.Config.World.Runs.Steps.{Runs-guard}
use avahi_manager.Config.World.Runs.Observing.{Runs-observe}

-- how `apply` from the directories `d` and `v` ends without a result: nothing has changed, or it
-- was aborted
abbrev pub Refused : Env → Image → Image → Disk → Vault → Stop → Cond
Refused env old new d v e x y = ((x ≡ d) × (y ≡ v)) ⊎ Aborted env old new e x y

module _ (env : Env) (root : env.euid ≡ 0) (old new : Image) (rec : Recording env old new)
    (good : IsImage new) (d : Disk) (v : Vault) (i : IsDisk d) (rd : Reads old d) where
  run_by_action :
      (has_controller : Bool) (expected reason : Str) (act : Action)
      → IsStorable new
      → v.pending ≡ absent
      → Explains old new act
      → Runs d v
          (by_action env has_controller expected old new reason act)
          (λ _. Committed env new)
          (Refused env old new d v)
  run_by_action c expected reason no_action fits p same_files =
      let shows_old : Shows old d = λ q. sym (rd.lookups q) in
      Runs-post _
        (run_unchanged env root old new rec good fits d v i ((λ q. shows_old q ∙ same_files q), p))
        (λ a x y h. h)
        (λ e x y (q, k). inr (
          Aborted-settled env old new e x y (subst IsDisk (sym q) i)
            (subst (Shows old) (sym q) shows_old, k)))
  run_by_action c expected reason reload fits p _ =
      Runs-guard c no_controller (λ _. transact env expected reload old new reason)
        (λ b.
          Runs-post _
            (run_transact env root old new rec good fits d v expected reload reason i rd p)
            (λ a x y h. h) (λ e x y h. inr h))
        (λ b. inl (refl, refl))
  run_by_action c expected reason restart fits p _ =
      Runs-guard c no_controller (λ _. transact env expected restart old new reason)
        (λ b.
          Runs-post _
            (run_transact env root old new rec good fits d v expected restart reason i rd p)
            (λ a x y h. h) (λ e x y h. inr h))
        (λ b. inl (refl, refl))

  -- `apply` with the image `old` that `read` gave and a new image of managed names, run by root,
  -- with valid names of snapshots, where the names in both images are UTF-8 and cleaned paths and
  -- the texts of their manifests are within the limit of `readFile`, on every schedule of failures
  -- and stops: if it returns a result, the disk shows the new image, no journal is left and the
  -- baseline names a snapshot of an image of the same revision. If it returns the error that says
  -- that the old configuration is back, then it is, and no journal is left. In every other case
  -- nothing at all has changed, or one of the two images is on the disk without a journal, or the
  -- journal names a snapshot that holds the old image.
  pub apply-Committed :
      (has_controller : Bool) (expected reason : Str)
      → Runs d v
          (apply env has_controller expected old new reason)
          (λ _. Committed env new)
          (Refused env old new d v)
  unfolding apply
  apply-Committed c expected reason =
      Runs-guard (not (same expected []) && same expected (revision env old)) conflict _
        (λ b.
          Runs-observe _ _ (observe_no_pending env d v) (λ e k. inl (refl, refl))
            (λ _ p.
              Runs-guard (validate_image env new) invalid_image
                (λ _. by_action env c expected old new reason (change_action old new))
                (λ t.
                  run_by_action c expected reason (change_action old new)
                    (validate_image-IsStorable env new good t) p (change_action-Explains old new))
                (λ t. inl (refl, refl))))
        (λ b. inl (refl, refl))
