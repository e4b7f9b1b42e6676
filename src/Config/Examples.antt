-- ===== src/Config/Examples.antt =====
-- The theorems at the sample machine, where their hypotheses hold.
use avahi_manager.Prelude.{◌≡◌, refl, sym, true, false, [], Str, same, get}
use avahi_manager.Config.Facts.{
  sample_lookups, sample-IsStorable, sample-Reads, sample_good, sample-Holds, sample_recoverable,
  sample_can, sample-Recording, hosts-IsPlain, sample-Recordable,
}
use avahi_manager.Config.Samples.{
  sample_env, sample_id, sample_disk, sample_image, sample_vault, sample_manifest, empty_vault,
  pending_vault, sample_changes, sample_ids, sample_disk-IsDisk,
}
use avahi_manager.Config.Path.{valid_path}
use avahi_manager.Config.Image.{revision, change_action, validate_image}
use avahi_manager.Config.Image.Actions.{Explains, change_action-Explains}
use avahi_manager.Config.World.{stored}
use avahi_manager.Config.World.Runs.{Runs}
use avahi_manager.Config.World.Runs.Observing.{Observes}
use avahi_manager.Config.Disk.{read, replace}
use avahi_manager.Config.Disk.Reading.{IsDisk, Reads, read-Reads, managed}
use avahi_manager.Config.Disk.Showing.{Shows, replace-Shows}
use avahi_manager.Config.Vault.{
  snapshot, prune, record_baseline, load_snapshot, delete_snapshot, decoded,
}
use avahi_manager.Config.Vault.Loading.{Holds, load_snapshot-Holds}
use avahi_manager.Config.Vault.Saving.{Saved, Kept}
use avahi_manager.Config.Vault.Pruning.{
  Records, Retains, Spares, record_baseline-Records, prune-Spares, delete_snapshot-Spares,
}
use avahi_manager.Config.Transaction.{apply, apply_changes, restore, recover}
use avahi_manager.Config.Transaction.Recovery.{Settled, Safe, recover-Recovers}
use avahi_manager.Config.Transaction.Outcomes.{Committed}
use avahi_manager.Config.Transaction.Operations.{Refused, apply-Committed}
use avahi_manager.Config.Transaction.Changes.{
  Applied, NotApplied, NotRestored, apply_changes-Committed, restore-Committed,
}
use avahi_manager.Config.World.Does.{Does}
use avahi_manager.Config.Vault.Loads.{snapshot-load_snapshot}

apply_changes-Committed_example :
    Runs sample_disk sample_vault
      (apply_changes sample_env true (revision sample_env sample_image) sample_changes)
      (λ _. Applied sample_env sample_disk sample_changes)
      (NotApplied sample_env sample_disk sample_vault sample_changes)
unfolding managed same
apply_changes-Committed_example =
    apply_changes-Committed sample_env refl sample_disk sample_vault sample_disk-IsDisk true
      (revision sample_env sample_image) sample_changes (refl, tt)
      (sample_can sample_changes (hosts-IsPlain, tt))

restore-Committed_example :
    Runs sample_disk sample_vault
      (restore sample_env true (sample_id 0) (revision sample_env sample_image))
      (λ _. Committed sample_env sample_image)
      (NotRestored sample_env sample_disk sample_vault sample_image)
restore-Committed_example =
    restore-Committed sample_env refl sample_disk sample_vault sample_disk-IsDisk true (sample_id 0)
      (revision sample_env sample_image) sample_manifest sample_image sample-Holds sample_good
      sample-Recording

recover-Recovers_example :
    Runs sample_disk pending_vault
      (recover sample_env true)
      (λ _ x y. IsDisk x × Settled sample_image x y × (y.baseline ≡ stored (sample_id 0)))
      (λ _. Safe sample_env sample_image)
unfolding sample_recoverable
recover-Recovers_example =
    recover-Recovers sample_env refl sample_image sample_good sample_disk pending_vault true
      sample_disk-IsDisk sample_recoverable

apply-Committed_example :
    Runs sample_disk sample_vault
      (apply sample_env true (revision sample_env sample_image) sample_image sample_image [])
      (λ _. Committed sample_env sample_image)
      (Refused sample_env sample_image sample_image sample_disk sample_vault)
apply-Committed_example =
    apply-Committed sample_env refl sample_image sample_image
      (sample-Recording sample_image sample-Reads) sample_good sample_disk sample_vault
      sample_disk-IsDisk sample-Reads true (revision sample_env sample_image) []

snapshot-load_snapshot_example :
    Runs sample_disk empty_vault
      (snapshot sample_env sample_image [])
      (λ m x y.
        (x ≡ sample_disk)
        × Saved sample_env sample_image empty_vault y m
        × Does x y (load_snapshot sample_env m.id) (decoded m, sample_image) x y)
      (Kept sample_env sample_disk empty_vault)
snapshot-load_snapshot_example =
    snapshot-load_snapshot sample_env sample_disk empty_vault sample_image [] sample_ids (tt, tt)
      sample-IsStorable sample-Recordable

read-Reads_example : Observes sample_disk sample_vault read (λ im. Reads im sample_disk) (λ _. Unit)
read-Reads_example = read-Reads sample_disk-IsDisk

replace-Shows_example :
    Runs sample_disk sample_vault
      (replace sample_env sample_image sample_image)
      (λ _ x y.
        Shows sample_image x
        × (y ≡ sample_vault)
        × ((p : Str) → managed p ≡ false → get p x.files ≡ get p sample_disk.files))
      (λ _ x y. IsDisk x × (y ≡ sample_vault))
replace-Shows_example =
    replace-Shows sample_env sample_image sample_image sample_disk sample_vault refl
      sample_disk-IsDisk (λ p. sym (sample_lookups p)) sample_good

change_action-Explains_example : Explains sample_image [] (change_action sample_image [])
change_action-Explains_example = change_action-Explains sample_image []

prune-Spares_example :
    Runs sample_disk sample_vault
      (prune sample_env 0)
      (λ _. Spares (sample_id 0) sample_disk sample_vault)
      (λ _. Spares (sample_id 0) sample_disk sample_vault)
prune-Spares_example = prune-Spares sample_env sample_disk sample_vault (sample_id 0) 0 refl

record_baseline-Records_example :
    Runs sample_disk empty_vault
      (record_baseline sample_env sample_image [])
      (λ m x y. (x ≡ sample_disk) × Records sample_env sample_image empty_vault y m)
      (λ _ x y. (x ≡ sample_disk) × Retains empty_vault y)
record_baseline-Records_example =
    record_baseline-Records sample_env sample_disk empty_vault sample_image [] sample_ids (tt, tt)
      sample-IsStorable sample-Recordable

load_snapshot-Holds_example :
    Observes sample_disk sample_vault
      (load_snapshot sample_env (sample_id 0))
      (λ l. Holds sample_env sample_vault (sample_id 0) l.0 l.1)
      (λ _. Unit)
load_snapshot-Holds_example = load_snapshot-Holds sample_env (sample_id 0)

sample_validates : validate_image sample_env sample_image ≡ true
unfolding validate_image valid_path
sample_validates = refl

delete_snapshot-Spares_example :
    Runs sample_disk sample_vault
      (delete_snapshot sample_env (sample_id 1))
      (λ _. Spares (sample_id 0) sample_disk sample_vault)
      (λ _. Spares (sample_id 0) sample_disk sample_vault)
delete_snapshot-Spares_example =
    delete_snapshot-Spares sample_env sample_disk sample_vault (sample_id 0) refl (sample_id 1)
