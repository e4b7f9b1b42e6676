-- ===== src/Config/Facts.antt =====
-- What holds of the sample machine.
use avahi_manager.Prelude.{
  ◌≡◌, refl, subst, inl, inr, Bool, true, false, none, [], arith, Str, same, same_iff, get, put,
  if◌then◌else◌, Bool-cases, Map, Option, All,
}
use avahi_manager.Config.Samples.{
  sample_env, sample_id, conf, sample_disk, sample_image, sample_vault, sample_dir, sample_manifest,
  pending_vault, sample_ids,
}
use avahi_manager.Config.Path.{valid_path, valid_snapshot_id, daemon_conf, clean, hosts_file}
use avahi_manager.Config.Image.{IsStorable, total_size, Image}
use avahi_manager.Config.Disk.Collecting.{node_file}
use avahi_manager.Config.Disk.Reading.{Reads, managed, shown}
use avahi_manager.Config.Disk.Showing.{IsImage, Reads-IsImage}
use avahi_manager.Config.Vault.Loading.{Holds, IsCopy}
use avahi_manager.Config.Transaction.Recovery.{Recoverable}
use avahi_manager.Files.Runes.{as_utf8}
use avahi_manager.Config.Vault.Copies.{Recordable, IsPlain}
use avahi_manager.Config.Transaction.Outcomes.{Recording}
use avahi_manager.Config.Transaction.Changes.{CanRecord}
use avahi_manager.Config.Transaction.Names.{IsPlain-CanRecord}

nothing_shown : (b : Bool) → none ≡ (if b then node_file none else none)
nothing_shown true = refl
nothing_shown false = refl

conf_shown : get daemon_conf sample_image ≡ shown sample_disk daemon_conf
unfolding get shown managed same
conf_shown = refl

pub sample_lookups : (p : Str) → get p sample_image ≡ shown sample_disk p
unfolding get shown
sample_lookups p = elim (Bool-cases (same daemon_conf p)) [
  | inl e ↦
      subst (λ (q : Str). get q sample_image ≡ shown sample_disk q) ((same_iff daemon_conf p).0 e)
        conf_shown
  | inr e ↦ rw e (nothing_shown (managed p))
]

pub sample-IsStorable : IsStorable sample_image
unfolding total_size
sample-IsStorable = record {
  small = (omega arith, tt);
  modes = (omega arith, tt);
  total = omega arith;
}

pub sample-Reads : Reads sample_image sample_disk
sample-Reads = record { lookups = sample_lookups; sorted = (tt, tt); storable = sample-IsStorable }

pub sample_good : IsImage sample_image
sample_good = Reads-IsImage sample-Reads

pub conf-IsCopy :
    IsCopy sample_env 0
      (record { sha256 = conf.content; mode = 420; uid = 0; gid = 0 })
      (get (clean daemon_conf) sample_dir.copies)
      conf
unfolding clean get same
conf-IsCopy = record {
  copy = refl;
  digest = refl;
  small = omega arith;
  total = omega arith;
  mode = refl;
  uid = refl;
  gid = refl;
}

pub conf-IsPlain : IsPlain daemon_conf
unfolding as_utf8 clean
conf-IsPlain = (refl, refl)

pub hosts-IsPlain : IsPlain hosts_file
unfolding as_utf8 clean
hosts-IsPlain = (refl, refl)

-- changes of plain names can be recorded on the sample machine
pub sample_can :
    (changes : Map (Option Str))
    → All (λ (e : Str × Option Str). IsPlain e.0) changes
    → CanRecord sample_env sample_disk changes
sample_can changes names =
    IsPlain-CanRecord sample_env sample_disk changes (conf-IsPlain, tt) names sample_ids
      (λ m. omega arith)

pub sample-Recordable : Recordable sample_env sample_image
sample-Recordable = record { names = (conf-IsPlain, tt); fits = λ n now reason h. omega arith }

-- the image that `read` gives of the sample machine, and the one of its snapshot
pub sample-Recording : (old : Image) → Reads old sample_disk → Recording sample_env old sample_image
unfolding get
sample-Recording old rd = record {
  ids = sample_ids;
  before =
      (sample_can [] tt old old rd
        (record { image = Reads-IsImage rd; lookups = λ p. refl })).before;
  after = sample-Recordable;
}

pub sample-Holds : Holds sample_env sample_vault (sample_id 0) sample_manifest sample_image
unfolding valid_snapshot_id valid_path get put same
sample-Holds = record {
  valid = refl;
  dir = sample_dir;
  found = refl;
  manifest = refl;
  name = refl;
  unpacks = (conf, [], refl, omega arith, conf-IsCopy, refl, refl);
}

unfoldable pub sample_recoverable : Recoverable sample_env sample_image pending_vault
unfolding valid_snapshot_id valid_path get put same
sample_recoverable = record {
  journal = record { snapshot_id = sample_id 0; baseline_id = sample_id 0 };
  pending = refl;
  manifest = sample_manifest;
  holds = record {
    valid = refl;
    dir = sample_dir;
    found = refl;
    manifest = refl;
    name = refl;
    unpacks = (conf, [], refl, omega arith, conf-IsCopy, refl, refl);
  };
}
