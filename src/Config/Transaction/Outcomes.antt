-- ===== src/Config/Transaction/Outcomes.antt =====
-- How `apply` ends: the conditions on the disk and the journal, and what they follow from.
use avahi_manager.Prelude.{ℕ, ◌≡◌, refl, sym, ◌∙◌, subst, ◌⊎◌, inl, inr, true, Str}
use avahi_manager.Config.Image.{Env, Image, Manifest, revision}
use avahi_manager.Config.Path.{valid_snapshot_id}
use avahi_manager.Config.World.{Vault, Disk, Stop, crash, Error, stored, failed, restored}
use avahi_manager.Config.Disk.Reading.{IsDisk}
use avahi_manager.Config.Vault.Loading.{Holds, Holds-dirs}
use avahi_manager.Config.Vault.Pruning.{Records, Retains, Spares}
use avahi_manager.Config.Transaction.Recovery.{Recoverable, Settled, Safe}
use avahi_manager.Config.World.Runs.{Cond, IsFault}
use avahi_manager.Config.Vault.{decoded}
use avahi_manager.Config.Vault.Copies.{Recordable}

-- The baseline names a snapshot of an image of the same revision.
pub record Accepts (env : Env) (im : Image) (y : Vault) : Type 0 where
  pub id : Str
  pub manifest : Manifest
  pub image : Image
  pub baseline : y.baseline ≡ stored id
  pub holds : Holds env y id manifest image
  pub revisions : revision env image ≡ revision env im

-- where `apply` returns a result
abbrev pub Committed : Env → Image → Cond
Committed env new x y = IsDisk x × Settled new x y × Accepts env new y

-- where it does not: one of the two images is on the disk and no journal, or the journal leads
-- back to the old one; after the error that says so, the old one is on the disk
abbrev pub Aborted : Env → Image → Image → Stop → Cond
Aborted env old new (failed restored) x y = IsDisk x × Settled old x y
Aborted env old new _ x y = IsDisk x × (Settled old x y ⊎ (Settled new x y ⊎ Recoverable env old y))

pub Aborted-settled :
    (env : Env) (old new : Image) (e : Stop) (x : Disk) (y : Vault)
    → IsDisk x
    → Settled old x y
    → Aborted env old new e x y
Aborted-settled env old new crash x y i s = (i, inl s)
Aborted-settled env old new (failed restored) x y i s = (i, s)
Aborted-settled env old new (failed e) x y i s = (i, inl s)

abbrev pub Undecided : Env → Image → Image → Cond
Undecided env old new x y = IsDisk x × (Settled old x y ⊎ (Settled new x y ⊎ Recoverable env old y))

pub Aborted-crash :
    (env : Env) (old new : Image) (e : Stop) (x : Disk) (y : Vault)
    → e ≡ crash
    → Undecided env old new x y
    → Aborted env old new e x y
Aborted-crash env old new e x y h s = subst (λ (a : Stop). Aborted env old new a x y) (sym h) s

pub Aborted-fault :
    (env : Env) (old new : Image) (e : Stop) (x : Disk) (y : Vault)
    → IsFault e
    → Undecided env old new x y
    → Aborted env old new e x y
Aborted-fault env old new crash x y f s = s
Aborted-fault env old new (failed e) x y f s = of e f
  where
    of : (e : Error) → IsFault (failed e) → Aborted env old new (failed e) x y
    of Error.io_error f = s
    of _ f = absurd f

pub Safe-Undecided :
    (env : Env) (old new : Image) (x : Disk) (y : Vault)
    → Safe env old x y
    → Undecided env old new x y
Safe-Undecided env old new x y (i, inl s) = (i, inl s)
Safe-Undecided env old new x y (i, inr r) = (i, inr (inr r))

pub Recoverable-Retains :
    {env : Env} {old : Image} {v y : Vault}
    → Retains v y
    → Recoverable env old v
    → Recoverable env old y
Recoverable-Retains k r = record {
  journal = r.journal;
  pending = k.pending ∙ r.pending;
  manifest = r.manifest;
  holds = Holds-dirs (k.dirs r.journal.snapshot_id) r.holds;
}

pub Records-Accepts :
    {env : Env} {im : Image} {v y : Vault} {m : Manifest} → Records env im v y m → Accepts env im y
Records-Accepts {im = im} {m = m} r = record {
  id = m.id;
  manifest = decoded m;
  image = im;
  baseline = r.baseline;
  holds = r.holds;
  revisions = refl;
}

pub Spares-Accepts :
    {env : Env} {im : Image} {d x : Disk} {v y : Vault}
    → (a : Accepts env im v) → Spares a.id d v x y
    → Accepts env im y
Spares-Accepts a s = record {
  id = a.id;
  manifest = a.manifest;
  image = a.image;
  baseline = s.baseline ∙ a.baseline;
  holds = Holds-dirs (λ z h. s.dir ∙ h) a.holds;
  revisions = a.revisions;
}

-- names of snapshots that `validSnapshotID` admits
abbrev pub NamesValid : Env → Type 0
NamesValid env = (n : ℕ) → valid_snapshot_id (env.new_id n) ≡ true

-- both images can be read back from their snapshots
pub record Recording (env : Env) (old new : Image) : Type 0 where
  pub ids : NamesValid env
  pub before : Recordable env old
  pub after : Recordable env new
