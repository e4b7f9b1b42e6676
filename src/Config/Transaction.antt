-- ===== src/Config/Transaction.antt =====
-- Transactions on the configuration: `Apply`, `Restore`, `Recover` of internal/config/apply.go,
-- `Snapshot` of store.go, `Baseline` and `AcceptDisk` of baseline.go. An error carries no
-- `ApplyResult` here: the callers in internal/helper drop it.
pub mod Recovery
pub mod Restarting
pub mod Outcomes
pub mod Atomicity
pub mod Apply
pub mod Operations
pub mod Changes
pub mod Names
pub mod Refinement
pub mod Valid
use avahi_manager.Prelude.{
  Bool, true, false, not, ◌&&◌, Option, none, some, [], ◌∷◌, ◌++◌, Str, codes, same, Map, get, put,
  del, if◌then◌else◌,
}
use avahi_manager.Config.Path.{valid_path}
use avahi_manager.Config.Image.{
  File, Image, Manifest, Env, Action, no_action, restart, change_action, revision, validate_image,
}
use avahi_manager.Config.World.{
  Stored, absent, malformed, stored, Pending, Error, malformed_file, invalid_path, invalid_image,
  conflict, no_controller, restored, rollback_failed, journal_failed, M, pure, raise, gets, attempt,
  ◌>>=◌, ◌>>◌, guard, skip, on_vault, request,
}
use avahi_manager.Config.Disk.{read, replace}
use avahi_manager.Config.Vault.{
  snapshot, load_snapshot, set_baseline, record_baseline, baseline_id, prune, no_pending,
  write_vault,
}

-- `ApplyResult`; the warning is the error of `prune`
pub record ApplyResult : Type 0 where
  pub action : Action
  pub snapshot_id : Str
  pub revision : Str
  pub warning : Option Error

-- `clearPending`
unfoldable pub clear_pending : M (Unit {0})
unfolding skip on_vault ◌>>=◌
clear_pending = do
  on_vault (λ v. record v { pending = absent }) (λ v. record v { pending = absent })
  skip

-- `Controller.Apply`, then `Controller.Healthy`: systemd jobs and D-Bus, which succeed or fail
-- by the schedule
unfoldable pub activate : Action → M (Unit {0})
unfolding request skip ◌>>=◌
activate a = do request a; skip

module _ (env : Env) where
  -- `recover`, with the journal read
  unfoldable pub recover_from : Stored Pending → M (Unit {0})
  unfolding raise load_snapshot read replace activate set_baseline clear_pending
  recover_from absent = pure tt
  recover_from malformed = raise malformed_file
  recover_from (stored p) = do
    loaded ← load_snapshot env p.snapshot_id
    current ← read
    replace env current loaded.1
    activate restart
    set_baseline env p.baseline_id
    clear_pending

  -- without a controller only a journal that is absent is no error
  unfoldable pub recover_with : Bool → Stored Pending → M (Unit {0})
  unfolding recover_from guard
  recover_with has_controller absent = pure tt
  recover_with has_controller malformed = do
    guard has_controller no_controller
    recover_from malformed
  recover_with has_controller (stored p) = do
    guard has_controller no_controller
    recover_from (stored p)

  -- `recover`
  unfoldable pub recover : Bool → M (Unit {0})
  unfolding recover_with gets skip
  recover has_controller = do skip; p ← gets (λ w. w.vault.pending); recover_with has_controller p

  -- whether the baseline holds the image, by its revision; the empty string is no baseline
  unfoldable pub baseline_matches : Image → Str → M Bool
  unfolding load_snapshot revision same
  baseline_matches after [] = pure false
  baseline_matches after (c ∷ id) = do
    loaded ← load_snapshot env (c ∷ id)
    pure (same (revision env loaded.1) (revision env after))

  -- `apply` where nothing changes: the baseline follows the accepted image
  unfoldable pub accept_unchanged : Image → M ApplyResult
  unfolding baseline_id baseline_matches record_baseline prune
  accept_unchanged after = do
    id ← baseline_id
    matches ← baseline_matches after id
    if matches
        then pure tt
        else do record_baseline env after (codes "Managed configuration"); prune env 20
    pure (record {
      action = no_action;
      snapshot_id = [];
      revision = revision env after;
      warning = none;
    })

  -- the part of `apply` that a failure rolls back
  unfoldable pub commit_body : Action → Image → Image → M (Unit {0})
  unfolding replace activate record_baseline
  commit_body action old new = do
    replace env old new
    activate action
    record_baseline env new (codes "Managed configuration")
    pure tt

  abbrev rolled_back : Option Error → M ApplyResult
  rolled_back none = raise restored
  rolled_back (some _) = raise rollback_failed

  -- behind the removal of the journal; a failure of `prune` is a warning
  abbrev finished : Action → Str → Image → Option Error → M ApplyResult
  finished act id new (some _) = raise journal_failed
  finished act id new none = do
    warning ← attempt (prune env 20)
    pure (record { action = act; snapshot_id = id; revision = revision env new; warning = warning })

  unfoldable pub settle : Action → Str → Image → Option Error → M ApplyResult
  unfolding recover clear_pending prune attempt raise revision
  settle act id new (some e) = do failure ← attempt (recover true); rolled_back failure
  settle act id new none = do failure ← attempt clear_pending; finished act id new failure

  -- `apply` where something changes
  unfoldable pub transact : Str → Action → Image → Image → Str → M ApplyResult
  unfolding snapshot read baseline_id write_vault commit_body settle same guard
  transact expected action old new reason = do
    skip
    m ← snapshot env old reason
    current ← read
    guard (same (revision env current) expected) conflict
    old_baseline ← baseline_id
    let journal : Pending = record { snapshot_id = m.id; baseline_id = old_baseline }
    write_vault (λ v. record v { pending = stored journal })
    failure ← attempt (commit_body action old new)
    settle action m.id new failure

  abbrev pub by_action : Bool → Str → Image → Image → Str → Action → M ApplyResult
  by_action has_controller expected old new reason no_action = accept_unchanged new
  by_action has_controller expected old new reason action = do
    guard has_controller no_controller
    transact expected action old new reason

  -- `Store.apply`
  unfoldable pub apply : Bool → Str → Image → Image → Str → M ApplyResult
  unfolding no_pending validate_image accept_unchanged transact change_action
  apply has_controller expected old new reason = do
    guard (not (same expected []) && same expected (revision env old)) conflict
    no_pending
    guard (validate_image env new) invalid_image
    by_action has_controller expected old new reason (change_action old new)

  -- the file that `Apply` writes at a path
  abbrev pub rewritten : Option File → Str → File
  rewritten (some f) bytes = record f { content = bytes }
  rewritten none bytes = record { content = bytes; mode = 420; uid = env.euid; gid = env.egid }

  -- one change of `Apply`; a change to nil deletes
  abbrev pub with_change : Image → Str → Option Str → Image → Image
  with_change old p none after = del p after
  with_change old p (some bytes) after = put p (rewritten (get p old) bytes) after

  -- the loop of `Apply`
  unfoldable pub with_changes : Image → Map (Option Str) → M Image
  unfolding valid_path get put del guard
  with_changes old [] = pure old
  with_changes old ((p, change) ∷ changes) = do
    guard (valid_path p) invalid_path
    after ← with_changes old changes
    pure (with_change old p change after)

  -- `Store.Apply`
  unfoldable pub apply_changes : Bool → Str → Map (Option Str) → M ApplyResult
  unfolding read with_changes apply
  apply_changes has_controller expected changes = do
    old ← read
    new ← with_changes old changes
    apply has_controller expected old new (codes "Save & Apply")

  -- `Store.Restore`
  unfoldable pub restore : Bool → Str → Str → M ApplyResult
  unfolding load_snapshot read apply
  restore has_controller id expected = do
    loaded ← load_snapshot env id
    old ← read
    apply has_controller expected old loaded.1 (codes "Restore " ++ id)

  -- `Store.Snapshot`
  unfoldable pub take_snapshot : Str → M Manifest
  unfolding read no_pending snapshot prune
  take_snapshot reason = do im ← read; no_pending; m ← snapshot env im reason; prune env 20; pure m

  -- `Store.Baseline`
  unfoldable pub managed_baseline : M (Manifest × Image)
  unfolding no_pending baseline_id load_snapshot read record_baseline
  managed_baseline = do
    no_pending
    id ← baseline_id
    if same id []
        then (do im ← read; m ← record_baseline env im (codes "Initial takeover"); pure (m, im))
        else load_snapshot env id

  -- `Store.AcceptDisk`
  unfoldable pub accept_disk : Str → M (Manifest × Image)
  unfolding no_pending read record_baseline prune revision
  accept_disk expected = do
    no_pending
    im ← read
    guard (not (same expected []) && same expected (revision env im)) conflict
    m ← record_baseline env im (codes "Reload from disk")
    prune env 20
    pure (m, im)
