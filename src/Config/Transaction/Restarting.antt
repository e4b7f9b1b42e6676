-- ===== src/Config/Transaction/Restarting.antt =====
-- Without a failure, `recover` brings the old image back.
use avahi_manager.Prelude.{◌≡◌, refl, ap, ◌∙◌, subst, ◌⊎◌, true, [], Str}
use avahi_manager.Config.Image.{Env, Image, Manifest, Action, restart}
use avahi_manager.Config.World.{
  Disk, Vault, World, absent, stored, ok, gets, ◌>>=◌, ◌>>◌, skip, on_vault, no_controller,
}
use avahi_manager.Config.World.Does.{
  Does, Does-skip, Does-on_vault, Does-request, Does-gets, Does-guard, Does-bind,
}
use avahi_manager.Config.World.Runs.{Runs-at, Outcome, on}
use avahi_manager.Config.Disk.{read, replace}
use avahi_manager.Config.Disk.Reading.{IsDisk}
use avahi_manager.Config.Disk.Within.{IsWithin, Does-read, Does-replace}
use avahi_manager.Config.Disk.Showing.{IsImage}
use avahi_manager.Config.Vault.{set_baseline, load_snapshot}
use avahi_manager.Config.Vault.Loading.{Holds}
use avahi_manager.Config.Vault.Loads.{Does-load_snapshot, Does-set_baseline}
use avahi_manager.Config.Vault.Pointer.{with_baseline, pointing}
use avahi_manager.Config.Transaction.{recover, recover_from, recover_with, clear_pending, activate}
use avahi_manager.Config.Transaction.Recovery.{Recoverable, Settled, recover-Recovers}

-- The baseline that the journal names is none, or a snapshot that can be loaded.
abbrev pub IsRestorable : Env → Vault → Str → Type 0
IsRestorable env v id = (id ≡ []) ⊎ ((m : Manifest) × (im : Image) × Holds env v id m im)

Does-activate : {d : Disk} {v : Vault} (a : Action) → Does d v (activate a) tt d v
unfolding activate
Does-activate a = Does-bind _ (λ _. skip) tt tt (Does-request a) Does-skip

abbrev settled_vault : Vault → Vault
settled_vault v = record v { pending = absent }

Does-clear_pending : {d : Disk} {v : Vault} → Does d v clear_pending tt d (settled_vault v)
unfolding clear_pending
Does-clear_pending =
    Does-bind (on_vault settled_vault settled_vault) (λ _. skip) tt tt
      (Does-on_vault settled_vault settled_vault) Does-skip

module _ (env : Env) (old : Image) (d : Disk) (v : Vault) (r : Recoverable env old v) where
  Does-recover_from :
      IsWithin d
      → IsRestorable env v r.journal.baseline_id
      → (x : Disk) × (y : Vault) × Does d v (recover_from env (stored r.journal)) tt x y
  unfolding recover_from
  Does-recover_from within base =
      let id = r.journal.snapshot_id in
      let loaded : Manifest × Image = (r.manifest, old) in
      let (current, readable) = Does-read {d = d} {v = v} within in
      let (x, replaced) = Does-replace env current old d v within.0 in
      let settling = set_baseline env r.journal.baseline_id >> clear_pending in
      let behind_read = λ (c : Image). replace env c old >> (activate restart >> settling) in
      (
        x,
        settled_vault (with_baseline (pointing r.journal.baseline_id) v),
        Does-bind (load_snapshot env id)
            (λ l. read >>= λ c. replace env c l.1 >> (activate restart >> settling)) loaded tt
            (Does-load_snapshot env id r.manifest old r.holds)
            (Does-bind read behind_read current tt readable (
              Does-bind _ (λ _. activate restart >> settling) tt tt replaced
                (Does-bind _ (λ _. settling) tt tt (Does-activate restart)
                  (Does-bind _ (λ _. clear_pending) tt tt
                    (Does-set_baseline env r.journal.baseline_id base) Does-clear_pending)))),
      )

  Does-recover :
      IsWithin d
      → IsRestorable env v r.journal.baseline_id
      → (x : Disk) × (y : Vault) × Does d v (recover env true) tt x y
  unfolding recover
  Does-recover within base =
      let (x, y, done) = Does-recover_from within base in
      (
        x,
        y,
        Does-bind skip (λ _. gets (λ w. w.vault.pending) >>= recover_with env true) tt tt Does-skip
            (Does-bind _ (recover_with env true) (stored r.journal) tt
              (subst (λ p. Does d v (gets (λ w. w.vault.pending)) p d v) r.pending
                (Does-gets (λ _ (z : Vault). z.pending)))
              (guarded x y done)),
      )
    where
      guarded :
          (x : Disk) (y : Vault)
          → Does d v (recover_from env (stored r.journal)) tt x y
          → Does d v (recover_with env true (stored r.journal)) tt x y
      guarded x y done =
          unfold recover_with in
          Does-bind _ (λ _. recover_from env (stored r.journal)) tt tt
            (Does-guard true no_controller refl) done

-- From a recoverable state with an old image of managed names, run by root with a controller: if
-- no step fails, the disk is within the limits of `read`, and the baseline that the journal names
-- is none or can be loaded, then `recover` returns without an error, and the old image is on the
-- disk, the journal is gone and the baseline is the one of the journal.
pub recover-Settled :
    (env : Env) (old : Image) (w : World)
    → env.euid ≡ 0
    → IsImage old
    → IsDisk w.disk
    → (r : Recoverable env old w.vault) → w.faults ≡ []
    → IsWithin w.disk
    → IsRestorable env w.vault r.journal.baseline_id
    → (z : World) × (recover env true w ≡ (ok tt, z))
      × Settled old z.disk z.vault
      × (z.vault.baseline ≡ pointing r.journal.baseline_id)
recover-Settled env old w root good disk r quiet within base =
    let (x, y, done) = Does-recover env old w.disk w.vault r within base in
    let (s, k, e) = done.at w.requests w.clock in
    let z = on x y s k [] in
    let ran : recover env true w ≡ (ok tt, z) =
      ap (λ fs. recover env true (on w.disk w.vault w.requests w.clock fs)) quiet ∙ e in
    let safe =
      Runs-at w (recover env true)
        (recover-Recovers env root old good w.disk w.vault true disk r) in
    let outcome = subst (Outcome _ _) ran safe in (z, ran, outcome.1, outcome.2)
