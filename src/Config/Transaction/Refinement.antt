-- ===== src/Config/Transaction/Refinement.antt =====
-- `Store.Apply` on any schedule, then a start of the process on which nothing fails: together they
-- refine one atomic update of an abstract store, which is an image.
use avahi_manager.Prelude.{
  ◌≡◌, refl, sym, ap, ◌∙◌, subst, ◌⊎◌, inl, inr, Bool, true, Option, [], Str, Map, get, All,
}
use avahi_manager.Config.Image.{Env, Image}
use avahi_manager.Config.World.{
  Disk, Vault, World, Stop, failed, restored, absent, Result, ok, err, gets, ◌>>=◌, skip,
}
use avahi_manager.Config.World.Does.{Does, Does-pure, Does-skip, Does-gets, Does-bind}
use avahi_manager.Config.World.Runs.{Runs-at, Outcome, on}
use avahi_manager.Config.Disk.Reading.{IsDisk, Reads, managed}
use avahi_manager.Config.Disk.Within.{IsWithin}
use avahi_manager.Config.Disk.Showing.{Shows, Reads-IsImage}
use avahi_manager.Config.Transaction.{ApplyResult, apply_changes, recover, recover_with}
use avahi_manager.Config.Transaction.Outcomes.{Aborted, Undecided}
use avahi_manager.Config.Transaction.Changes.{
  asked, Changed, Applied, NotApplied, apply_changes-Committed, CanRecord,
}
use avahi_manager.Config.Transaction.Recovery.{Recoverable, Settled}
use avahi_manager.Config.Transaction.Restarting.{IsRestorable, recover-Settled}

-- The abstract store behind a machine: the image that the disk shows while nothing is pending.
abbrev pub Represents : Image → World → Type 0
Represents im w = Settled im w.disk w.vault

-- One atomic update: with a result it happens; without one it happens or it does not.
abbrev pub Updates : Env → Map (Option Str) → Image → Result ApplyResult → Image → Type 0
Updates env changes old (ok _) im = Changed env old changes im
Updates env changes old (err _) im = (im ≡ old) ⊎ Changed env old changes im

-- the machine at the next start of the process, where nothing fails any more
abbrev pub restarted : World → World
restarted w = record w { faults = [] }

-- Where a journal was left, `recover` can read the disk and find the old baseline.
abbrev pub CanRecover : Env → World → Type 0
CanRecover env w =
    (im : Image) (r : Recoverable env im w.vault)
    → IsWithin w.disk × IsRestorable env w.vault r.journal.baseline_id

Does-recover_idle :
    (env : Env) (d : Disk) (v : Vault) → v.pending ≡ absent → Does d v (recover env true) tt d v
unfolding recover
Does-recover_idle env d v h =
    Does-bind skip (λ _. gets (λ w. w.vault.pending) >>= recover_with env true) tt tt Does-skip
      (Does-bind _ (recover_with env true) absent tt
        (subst (λ p. Does d v (gets (λ w. w.vault.pending)) p d v) h
          (Does-gets (λ _ (z : Vault). z.pending)))
        (unfold recover_with in Does-pure tt))

-- the three states in which a transaction that gives no result leaves the directories
Aborted-Undecided :
    (env : Env) (old new : Image) (e : Stop) (x : Disk) (y : Vault)
    → Aborted env old new e x y
    → Undecided env old new x y
Aborted-Undecided env old new (failed restored) x y (i, s) = (i, inl s)
Aborted-Undecided env old new _ x y h = h

Aborted-cases :
    (env : Env) (old new : Image) (e : Stop) (x : Disk) (y : Vault)
    → Aborted env old new e x y
    → Settled old x y ⊎ (Settled new x y ⊎ (IsDisk x × Recoverable env old y))
Aborted-cases env old new e x y h = elim (Aborted-Undecided env old new e x y h).1 [
  | inl s ↦ inl s
  | inr (inl s) ↦ inr (inl s)
  | inr (inr r) ↦ inr (inr ((Aborted-Undecided env old new e x y h).0, r))
]

-- what comes of a restart
abbrev Restarts : Env → Map (Option Str) → Image → Result ApplyResult × World → Type 0
Restarts env changes old (r, w) =
    (z : World) × (im : Image) × (recover env true (restarted w) ≡ (ok tt, z))
    × Updates env changes old r im
    × Represents im z

module _ (env : Env) (root : env.euid ≡ 0) (changes : Map (Option Str)) (old : Image) where
  restart_idle :
      (r : Result ApplyResult) (w : World) (im : Image)
      → Updates env changes old r im
      → Represents im w
      → Restarts env changes old (r, w)
  restart_idle r w im u (sh, p) =
      let (s, k, e) = (Does-recover_idle env w.disk w.vault p).at w.requests w.clock in
      (on w.disk w.vault s k [], im, e, u, (sh, p))

  module _ (d : Disk) (shows : Shows old d) where
    Shows-old : (read : Image) (x : Disk) → Reads read d → Shows read x → Shows old x
    Shows-old read x rd sh p = sh p ∙ rd.lookups p ∙ shows p

    Changed-old :
        (read new : Image)
        → Reads read d
        → Changed env read changes new
        → Changed env old changes new
    Changed-old read new rd ch = record {
      image = ch.image;
      lookups = λ p. ch.lookups p ∙ ap (asked env (get p changes)) (rd.lookups p ∙ shows p);
    }

    restart_journal :
        (e : Stop) (w : World) (read : Image)
        → Reads read d
        → IsDisk w.disk
        → Recoverable env read w.vault
        → CanRecover env w
        → Restarts env changes old (err e, w)
    restart_journal e w read rd disk r can =
        let (within, base) = can read r in
        let (z, ran, (sh, p), b) =
          recover-Settled env read (restarted w) root (Reads-IsImage rd) disk r refl within base in
        (z, old, ran, inl refl, (Shows-old read z.disk rd sh, p))

    restart_failed :
        (e : Stop) (w : World) (v : Vault)
        → v.pending ≡ absent
        → NotApplied env d v changes e w.disk w.vault
        → CanRecover env w
        → Restarts env changes old (err e, w)
    restart_failed e w v p (inl (same_disk, same_vault)) can =
        restart_idle (err e) w old (inl refl)
          (subst (Shows old) (sym same_disk) shows, ap (λ (y : Vault). y.pending) same_vault ∙ p)
    restart_failed e w v p (inr (read, new, rd, ch, aborted)) can =
        elim (Aborted-cases env read new e w.disk w.vault aborted) [
          | inl (sh, q) ↦ restart_idle (err e) w old (inl refl) (Shows-old read w.disk rd sh, q)
          | inr (inl settled) ↦
              restart_idle (err e) w new (inr (Changed-old read new rd ch)) settled
          | inr (inr (disk, r)) ↦ restart_journal e w read rd disk r can
        ]

    restart :
        (out : Result ApplyResult × World) (v : Vault)
        → v.pending ≡ absent
        → Outcome (λ _. Applied env d changes) (NotApplied env d v changes) out
        → CanRecover env out.1
        → Restarts env changes old out
    restart (ok a, w) v p (read, new, rd, ch, committed) can =
        restart_idle (ok a) w new (Changed-old read new rd ch) committed.1
    restart (err e, w) v p o can = restart_failed e w v p o can

-- The abstract store holds an image, and `Store.Apply` runs as root on a disk that shows the
-- image, with changes of managed names, with valid names of snapshots, where the names of the old
-- and the changed image are UTF-8 and cleaned paths and the texts of their manifests are within
-- the limit of `readFile`, on any schedule of failures and stops of the process. If a journal that
-- is left can be recovered from (the disk is within the limits of `read`, the old baseline can be
-- loaded), then the next start of the process, with no further failure, succeeds, and the disk
-- shows again one image of the abstract store: if `Apply` returned a result, the old image with
-- exactly the changes; otherwise the old image or the changed one, and nothing in between.
pub apply_changes-Updates :
    (env : Env) (has_controller : Bool) (expected : Str) (changes : Map (Option Str)) (old : Image)
    (w : World)
    → env.euid ≡ 0
    → IsDisk w.disk
    → All (λ (e : Str × Option Str). managed e.0 ≡ true) changes
    → CanRecord env w.disk changes
    → Represents old w
    → CanRecover env (apply_changes env has_controller expected changes w).1
    → (z : World) × (im : Image) × (recover env true
          (restarted (apply_changes env has_controller expected changes w).1)
        ≡ (ok tt, z))
      × Updates env changes old (apply_changes env has_controller expected changes w).0 im
      × Represents im z
apply_changes-Updates env c expected changes old w root disk a rec (shows, idle) can =
    restart env root changes old w.disk shows (apply_changes env c expected changes w) w.vault idle
      (Runs-at w (apply_changes env c expected changes)
        (apply_changes-Committed env root w.disk w.vault disk c expected changes a rec))
      can
