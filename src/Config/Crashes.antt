-- ===== src/Config/Crashes.antt =====
-- Stops of the process at the sample machine, and what its next start makes of them.
use avahi_manager.Prelude.{
  ℕ, zero, suc, ◌≡◌, refl, sym, ap, ◌∙◌, inl, inr, true, List, [], ◌∷◌, Str, codes, same, keys,
  before?,
}
use avahi_manager.Config.Samples.{
  sample_env, sample_id, sample_disk, sample_image, pending_vault, sample_changes, sample_world,
  sample_disk-IsDisk,
}
use avahi_manager.Config.Facts.{
  sample_good, sample_lookups, sample_recoverable, sample_can, hosts-IsPlain,
}
use avahi_manager.Config.Path.{hosts_file}
use avahi_manager.Config.Image.{Image, revision}
use avahi_manager.Config.World.{
  World, Fault, pass, halt, Pending, Stored, stored, ok, directory, not_directory,
}
use avahi_manager.Config.Disk.{service_entries}
use avahi_manager.Config.Disk.Reading.{managed}
use avahi_manager.Config.Disk.Within.{IsWithin, fits}
use avahi_manager.Config.Transaction.{apply_changes, recover}
use avahi_manager.Config.Transaction.Recovery.{Settled}
use avahi_manager.Config.Transaction.Restarting.{recover-Settled}
use avahi_manager.Config.Transaction.Refinement.{
  Represents, Updates, restarted, CanRecover, apply_changes-Updates,
}

abbrev after_passes : ℕ → List Fault
after_passes zero = halt true ∷ []
after_passes (suc n) = pass ∷ after_passes n

-- the process stops in the middle of the renames
abbrev stopped : World
stopped =
    (apply_changes sample_env true (revision sample_env sample_image) sample_changes
      (sample_world (after_passes 40))).1

abbrev old_baseline : Stored Pending → Str
old_baseline (stored p) = p.baseline_id
old_baseline _ = codes "?"

stopped_journal : old_baseline stopped.vault.pending ≡ []
unfolding apply_changes revision before?
stopped_journal = refl

stopped-IsWithin : IsWithin stopped.disk
unfolding apply_changes revision before? fits service_entries
stopped-IsWithin = (directory_there, refl)
  where
    directory_there : directory ≡ not_directory → ⊥
    directory_there q = cc

stopped-CanRecover : CanRecover sample_env stopped
stopped-CanRecover im r =
    (stopped-IsWithin, inl (sym (ap old_baseline r.pending) ∙ stopped_journal))

hosts-managed : managed hosts_file ≡ true
unfolding managed same
hosts-managed = refl

apply_changes-Updates_example :
    (z : World) × (im : Image) × (recover sample_env true (restarted stopped) ≡ (ok tt, z))
    × Updates sample_env sample_changes sample_image
        (apply_changes sample_env true
          (revision sample_env sample_image)
          sample_changes
          (sample_world (after_passes 40))).0
        im
    × Represents im z
apply_changes-Updates_example =
    apply_changes-Updates sample_env true (revision sample_env sample_image) sample_changes
      sample_image (sample_world (after_passes 40)) refl sample_disk-IsDisk (hosts-managed, tt)
      (sample_can sample_changes (hosts-IsPlain, tt)) ((λ p. sym (sample_lookups p)), refl)
      stopped-CanRecover

abbrev pending_world : World
pending_world = record {
  disk = sample_disk;
  vault = pending_vault;
  requests = [];
  clock = 3;
  faults = [];
}

recover-Settled_example :
    (z : World) × (recover sample_env true pending_world ≡ (ok tt, z))
    × Settled sample_image z.disk z.vault
    × (z.vault.baseline ≡ stored (sample_id 0))
unfolding sample_recoverable fits service_entries keys
recover-Settled_example =
    recover-Settled sample_env sample_image pending_world refl sample_good sample_disk-IsDisk
      sample_recoverable refl (directory_there, refl) (inr (_, _, sample_recoverable.holds))
  where
    directory_there : directory ≡ not_directory → ⊥
    directory_there q = cc
