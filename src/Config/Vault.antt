-- ===== src/Config/Vault.antt =====
-- The backup directory: `snapshot`, `loadSnapshot`, `snapshots`, `prune` and `DeleteSnapshot` of
-- internal/config/store.go and apply.go, and the baseline pointer of baseline.go. The write of
-- one file of this directory, `atomicFile`, is a step for its temporary file, the rename, and
-- a step for the sync of the directory.
pub mod Loading
pub mod Loads
pub mod Copies
pub mod Edits
pub mod Saving
pub mod Pointer
pub mod Pruning
use mathlib.Core.List.{reverse}
use avahi_manager.Prelude.{
  ℕ, ◌+◌, ◌-◌, Bool, true, false, not, ◌&&◌, Option, none, some, List, [], ◌∷◌, Str, same, Map, get,
  put, del, keys, length, ltb, leb, if◌then◌else◌,
}
use avahi_manager.Config.Path.{valid_path, valid_snapshot_id, clean}
use avahi_manager.Files.Runes.{as_utf8}
use avahi_manager.Config.Image.{
  File, Image, FileMeta, Manifest, Env, meta_of, max_file_size, max_total_size,
}
use avahi_manager.Config.World.{
  Stored, absent, malformed, stored, SnapDir, Vault, io_error, not_exist, too_large, malformed_file,
  invalid_path, invalid_snapshot, recovery_pending, reason_too_long, baseline_in_use, failed,
  Result, ok, err, M, pure, raise, lift, gets, ◌>>=◌, ◌>>◌, on_error, guard, skip, on_vault, tick,
  join_errors,
}

-- `Mkdir`
abbrev pub add_dir : Str → Vault → Vault
add_dir id v = record v {
  snapshots = put id (record { manifest = absent; copies = [] }) v.snapshots;
}

-- `RemoveAll`; where it fails, the manifest may be gone already
abbrev pub drop_dir : Str → Vault → Vault
drop_dir id v = record v { snapshots = del id v.snapshots }

abbrev pub without_manifest : SnapDir → SnapDir
without_manifest d = record d { manifest = absent }

-- an update of one snapshot directory, if it is there
abbrev pub edit_dir : Str → (SnapDir → SnapDir) → Vault → Vault
edit_dir id f v = elim (get id v.snapshots) [
  | none ↦ v
  | some d ↦ record v { snapshots = put id (f d) v.snapshots }
]

-- a copy stands under the cleaned path, which is how the file system reads a path
abbrev pub with_copy : Str → Str → SnapDir → SnapDir
with_copy p bytes d = record d { copies = put (clean p) bytes d.copies }

-- the names of the files as a decoder of the written JSON has them: wrong UTF-8 is replaced, and
-- of two names that are equal then, the later one in the text counts
unfoldable pub decoded_files : Map FileMeta → Map FileMeta
unfolding as_utf8 get put
decoded_files [] = []
decoded_files ((p, meta) ∷ metas) =
    let rest = decoded_files metas in
    elim (get (as_utf8 p) rest) [ none ↦ put (as_utf8 p) meta rest | some _ ↦ rest ]

-- The manifest that comes back from the JSON of `m`. Names of snapshots and digests are ASCII.
unfoldable pub decoded : Manifest → Manifest
unfolding as_utf8 decoded_files
decoded m = record m { reason = as_utf8 m.reason; files = decoded_files m.files }

-- what `loadSnapshot` finds in a `manifest.json` that was written from `m`: `readFile` refuses a
-- text above its limit
unfoldable pub written_manifest : Env → Manifest → Stored Manifest
unfolding decoded
written_manifest env m =
    if ltb max_file_size (env.manifest_size m) then malformed else stored (decoded m)

abbrev pub with_manifest : Env → Manifest → SnapDir → SnapDir
with_manifest env m d = record d { manifest = written_manifest env m }

-- `atomicFile` in the backup directory or in one of its snapshots
unfoldable pub write_vault : (Vault → Vault) → M (Unit {0})
unfolding skip on_vault ◌>>=◌
write_vault f = do skip; on_vault f f; skip

unfoldable pub remove_all : Str → M (Unit {0})
unfolding on_vault
remove_all id = on_vault (edit_dir id without_manifest) (drop_dir id)

unfoldable pub make_new : Str → Option SnapDir → M (Unit {0})
unfolding on_vault raise
make_new id none = on_vault (add_dir id) (add_dir id)
make_new id (some _) = raise io_error

module _ (env : Env) where
  -- the loop of `snapshot`
  unfoldable pub save_files : Str → Image → M (Map FileMeta)
  unfolding write_vault guard valid_path clean
  save_files id [] = pure []
  save_files id ((p, f) ∷ im) = do
    guard (valid_path p) invalid_path
    skip
    write_vault (edit_dir id (with_copy p f.content))
    metas ← save_files id im
    pure ((p, meta_of env f) ∷ metas)

  -- what `snapshot` does in the directory that it made
  unfoldable pub fill : Str → Str → ℕ → Image → M Manifest
  unfolding save_files written_manifest
  fill id reason now im = do
    skip
    metas ← save_files id im
    let m : Manifest = record { id = id; reason = reason; created = now; files = metas }
    write_vault (edit_dir id (with_manifest env m))
    skip
    pure m

  -- `Store.snapshot`
  unfoldable pub snapshot : Image → Str → M Manifest
  unfolding fill make_new gets remove_all on_error tick ◌>>=◌
  snapshot im reason = do
    now ← tick
    guard (leb (length reason) 512) reason_too_long
    there ← gets (λ w. get (env.new_id now) w.vault.snapshots)
    make_new (env.new_id now) there
    on_error (fill (env.new_id now) reason now im) (remove_all (env.new_id now))

  -- one round of the loop of `loadSnapshot`: the checks of one file
  unfoldable pub load_copy : ℕ → FileMeta → Option Str → Result File
  unfolding same
  load_copy total meta none = err (failed not_exist)
  load_copy total meta (some bytes) =
      if ltb max_file_size (length bytes)
      then err (failed too_large)
      else if not (same (env.digest bytes) meta.sha256)
      then err (failed invalid_snapshot)
      else if ltb max_total_size (total + length bytes)
      then err (failed too_large)
      else ok (record { content = bytes; mode = meta.mode; uid = meta.uid; gid = meta.gid })

  unfoldable pub load_files : SnapDir → ℕ → Map FileMeta → M Image
  unfolding load_copy valid_path get put guard lift clean
  load_files d total [] = pure []
  load_files d total ((p, meta) ∷ metas) = do
    guard (valid_path p && ltb meta.mode 512) invalid_snapshot
    skip
    f ← lift (load_copy total meta (get (clean p) d.copies))
    im ← load_files d (total + length f.content) metas
    pure (put p f im)

  unfoldable pub load_manifest : Str → SnapDir → Stored Manifest → M (Manifest × Image)
  unfolding load_files raise same
  load_manifest id d absent = raise not_exist
  load_manifest id d malformed = raise malformed_file
  load_manifest id d (stored m) = do
    guard (same m.id id) invalid_snapshot
    im ← load_files d 0 m.files
    pure (m, im)

  unfoldable pub load_dir : Str → Option SnapDir → M (Manifest × Image)
  unfolding load_manifest
  load_dir id none = raise not_exist
  load_dir id (some d) = do skip; skip; load_manifest id d d.manifest

  -- `loadSnapshot`
  unfoldable pub load_snapshot : Str → M (Manifest × Image)
  unfolding load_dir valid_snapshot_id
  load_snapshot id = do
    guard (valid_snapshot_id id) invalid_snapshot
    skip
    d ← gets (λ w. get id w.vault.snapshots)
    load_dir id d

  -- the loop of `snapshots`, over the names in the backup directory
  unfoldable pub load_all : List Str → M (List Manifest)
  unfolding load_snapshot
  load_all [] = pure []
  load_all (id ∷ ids) =
      if not (valid_snapshot_id id)
      then load_all ids
      else do loaded ← load_snapshot id; rest ← load_all ids; pure (loaded.0 ∷ rest)

  -- the newest first
  unfoldable pub insert_newest : Manifest → List Manifest → List Manifest
  insert_newest m [] = m ∷ []
  insert_newest m (n ∷ ns) =
      let rest = insert_newest m ns in if ltb m.created n.created then n ∷ rest else m ∷ n ∷ ns

  unfoldable pub newest_first : List Manifest → List Manifest
  unfolding insert_newest
  newest_first [] = []
  newest_first (m ∷ ms) = insert_newest m (newest_first ms)

  -- `snapshots`
  unfoldable pub snapshots : M (List Manifest)
  unfolding load_all newest_first keys
  snapshots = do
    skip
    ids ← gets (λ w. keys w.vault.snapshots)
    list ← load_all ids
    pure (newest_first list)

  -- `setBaseline`
  unfoldable pub set_baseline : Str → M (Unit {0})
  unfolding load_snapshot write_vault
  set_baseline [] = do
    on_vault (λ v. record v { baseline = absent }) (λ v. record v { baseline = absent })
    skip
  set_baseline (c ∷ id) = do
    load_snapshot (c ∷ id)
    write_vault (λ v. record v { baseline = stored (c ∷ id) })

  -- `recordBaseline`
  unfoldable pub record_baseline : Image → Str → M Manifest
  unfolding snapshot set_baseline
  record_baseline im reason = do m ← snapshot im reason; set_baseline m.id; pure m

-- `baselineID`, at what `baseline.json` holds; the empty string is no baseline
unfoldable pub pointer : Stored Str → M Str
unfolding raise pure guard valid_snapshot_id ◌>>=◌
pointer absent = pure []
pointer malformed = raise malformed_file
pointer (stored id) = do guard (valid_snapshot_id id) malformed_file; pure id

unfoldable pub baseline_id : M Str
unfolding pointer gets skip
baseline_id = do skip; b ← gets (λ w. w.vault.baseline); pointer b

-- the loop of `prune`, from the oldest snapshot on
unfoldable pub prune_oldest : ℕ → Str → ℕ → List Manifest → M (Unit {0})
unfolding remove_all guard pure same ◌>>=◌
prune_oldest keep pinned remaining [] = pure tt
prune_oldest keep pinned remaining (m ∷ ms) =
    if leb remaining keep
    then pure tt
    else if same m.id pinned
    then prune_oldest keep pinned remaining ms
    else do
      guard (valid_snapshot_id m.id) invalid_snapshot
      remove_all m.id
      prune_oldest keep pinned (remaining - 1) ms

-- `prune`
unfoldable pub prune : Env → ℕ → M (Unit {0})
unfolding snapshots baseline_id prune_oldest
prune env keep = do
  list ← snapshots env
  pinned ← baseline_id
  prune_oldest keep pinned (length list) (reverse list)
  skip

abbrev pub is_absent : {A : Type 0} → Stored A → Bool
is_absent absent = true
is_absent _ = false

-- `noPending`, and the same test in `apply`, `Snapshot` and `DeleteSnapshot`
unfoldable pub no_pending : M (Unit {0})
unfolding gets skip guard ◌>>=◌
no_pending = do skip; p ← gets (λ w. w.vault.pending); guard (is_absent p) recovery_pending

-- `DeleteSnapshot`
unfoldable pub delete_snapshot : Env → Str → M (Unit {0})
unfolding baseline_id no_pending load_snapshot remove_all join_errors
delete_snapshot env id = do
  pinned ← baseline_id
  guard (not (same id pinned)) baseline_in_use
  no_pending
  load_snapshot env id
  join_errors (remove_all id) skip
