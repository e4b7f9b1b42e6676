-- ===== src/Config/Samples.antt =====
-- A small machine on which the operations are run, and the runs.
use avahi_manager.Prelude.{
  ℕ, zero, suc, ◌≡◌, refl, Bool, true, false, Option, some, List, [], ◌∷◌, Str, codes, Map, before?,
}
use avahi_manager.Config.Path.{valid_snapshot_id}
use avahi_manager.Config.Image.{File, Image, Env, Manifest, revision}
use avahi_manager.Config.Path.{daemon_conf, hosts_file}
use avahi_manager.Config.World.{
  regular, directory, absent, stored, SnapDir, Disk, Vault, World, Fault, pass, fail, restored,
  failed, Result, ok, err,
}
use avahi_manager.Config.Disk.{read}
use avahi_manager.Config.Transaction.{apply_changes}
use avahi_manager.Config.Transaction.Outcomes.{NamesValid}
use avahi_manager.Config.Disk.Reading.{IsDisk}

-- the names of the first snapshots
abbrev pub sample_id : ℕ → Str
sample_id zero = codes "20260101T000000.000000000Z-aaaaaaaa"
sample_id (suc zero) = codes "20260101T000001.000000000Z-bbbbbbbb"
sample_id (suc (suc n)) = codes "20260101T000002.000000000Z-cccccccc"

-- a process of root that takes every text, with no digest at all, and with manifests of 1000 bytes
abbrev pub sample_env : Env
sample_env = record {
  new_id = sample_id;
  digest = λ s. s;
  manifest_size = λ _. 1000;
  euid = 0;
  egid = 0;
  daemon_ok = λ _. true;
  hosts_ok = λ _. true;
  service_ok = λ _. true;
}

abbrev pub conf : File
conf = record { content = codes "[server]"; mode = 420; uid = 0; gid = 0 }

abbrev pub sample_disk : Disk
sample_disk = record { files = (daemon_conf, regular conf) ∷ []; services = directory }

abbrev pub sample_image : Image
sample_image = (daemon_conf, conf) ∷ []

abbrev pub empty_vault : Vault
empty_vault = record { snapshots = []; pending = absent; baseline = absent }

-- a snapshot of the image
abbrev pub sample_manifest : Manifest
sample_manifest = record {
  id = sample_id 0;
  reason = [];
  created = 0;
  files = (daemon_conf, record { sha256 = conf.content; mode = 420; uid = 0; gid = 0 }) ∷ [];
}

abbrev pub sample_dir : SnapDir
sample_dir = record { manifest = stored sample_manifest; copies = (daemon_conf, conf.content) ∷ [] }

abbrev pub sample_vault : Vault
sample_vault = record {
  snapshots = (sample_id 0, sample_dir) ∷ [];
  pending = absent;
  baseline = stored (sample_id 0);
}

-- the same in the middle of a transaction
abbrev pub pending_vault : Vault
pending_vault = record {
  snapshots = (sample_id 0, sample_dir) ∷ [];
  pending = stored (record { snapshot_id = sample_id 0; baseline_id = sample_id 0 });
  baseline = stored (sample_id 0);
}

abbrev pub sample_world : List Fault → World
sample_world fs = record {
  disk = sample_disk;
  vault = empty_vault;
  requests = [];
  clock = 0;
  faults = fs;
}

abbrev pub sample_changes : Map (Option Str)
sample_changes = (hosts_file, some (codes "10.0.0.1 a.local")) ∷ []

read_run : (read (sample_world [])).0 ≡ ok sample_image
unfolding read
read_run = refl

abbrev is_ok : {A : Type 0} → Result A → Bool
is_ok (ok _) = true
is_ok (err _) = false

abbrev is_restored : {A : Type 0} → Result A → Bool
is_restored (err (failed restored)) = true
is_restored _ = false

passes : ℕ → List Fault → List Fault
passes zero fs = fs
passes (suc n) fs = pass ∷ passes n fs

-- without failures the changes are applied
apply_run :
    is_ok
      (apply_changes sample_env true
        (revision sample_env sample_image)
        sample_changes
        (sample_world [])).0
    ≡ true
unfolding apply_changes revision before?
apply_run = refl

-- a failure in the middle of the renames is rolled back
restored_run :
    is_restored
      (apply_changes sample_env true
        (revision sample_env sample_image)
        sample_changes
        (sample_world (passes 40 (fail true ∷ [])))).0
    ≡ true
unfolding apply_changes revision before? passes
restored_run = refl

pub sample_ids : NamesValid sample_env
unfolding valid_snapshot_id
sample_ids zero = refl
sample_ids (suc zero) = refl
sample_ids (suc (suc n)) = refl

pub sample_disk-IsDisk : IsDisk sample_disk
sample_disk-IsDisk h p e = absurd (h refl)
