-- ===== src/Config/Vault/Loads.antt =====
-- Without a failure, `loadSnapshot` returns what the snapshot holds, and `setBaseline` succeeds.
use avahi_manager.Prelude.{
  ℕ, ◌+◌, ◌≡◌, refl, sym, subst, ◌⊎◌, inl, inr, true, ◌&&◌, [], ◌∷◌, Str, same, same_iff, Map, get,
  put, length, ltb, lt→ltb, IsSorted,
}
use avahi_manager.Config.World.{
  Disk, Vault, SnapDir, Stored, absent, stored, pure, skip, on_vault, invalid_snapshot,
}
use avahi_manager.Config.World.Does.{
  Does, Does-pure, Does-skip, Does-on_vault, Does-gets, Does-guard, Does-lift, Does-bind,
  Does-write,
}
use avahi_manager.Config.Image.{Env, FileMeta, Manifest, Image, IsStorable}
use avahi_manager.Config.Path.{valid_snapshot_id, valid_path, clean}
use avahi_manager.Config.Vault.{
  load_files, load_copy, load_manifest, load_dir, load_snapshot, set_baseline, write_vault,
  snapshot, decoded,
}
use avahi_manager.Config.Vault.Loading.{Unpacks, Holds, IsCopy-load_copy}
use avahi_manager.Config.Vault.Pointer.{with_baseline, pointing}
use avahi_manager.Config.Vault.Copies.{Recordable}
use avahi_manager.Config.World.Runs.{Runs, Runs-post}
use avahi_manager.Config.Vault.Saving.{Saved, Kept, snapshot-Saved}

module _ (env : Env) {d : Disk} {v : Vault} where
  Does-load_files :
      (s : SnapDir) (t : ℕ) (metas : Map FileMeta) (im : Image)
      → Unpacks env s t metas im
      → Does d v (load_files env s t metas) im d v
  unfolding load_files
  Does-load_files s t [] im u = subst (λ i. Does d v (pure []) i d v) (sym u) (Does-pure [])
  Does-load_files s t ((p, meta) ∷ metas) im (f, rest, valid, mode, copy, u, e) =
      let both : (valid_path p && ltb meta.mode 512) ≡ true =
        rw (valid, lt→ltb meta.mode 512 mode) refl in
      Does-bind _ _ tt im (Does-guard (valid_path p && ltb meta.mode 512) invalid_snapshot both) (
        Does-bind skip _ tt im Does-skip (
          Does-bind _ _ f im
            (Does-lift (load_copy env t meta (get (clean p) s.copies)) f
              (IsCopy-load_copy env t meta (get (clean p) s.copies) f copy))
            (Does-bind _ _ rest im (Does-load_files s (t + length f.content) metas rest u) (
              subst (λ i. Does d v (pure (put p f rest)) i d v) (sym e)
                (Does-pure (put p f rest))))))

  Does-load_manifest :
      (id : Str) (s : SnapDir) (m : Manifest) (im : Image) (o : Stored Manifest)
      → o ≡ stored m
      → m.id ≡ id
      → Unpacks env s 0 m.files im
      → Does d v (load_manifest env id s o) (m, im) d v
  unfolding load_manifest
  Does-load_manifest id s m im o e n u = rw e (
      Does-bind _ _ tt (m, im) (Does-guard (same m.id id) invalid_snapshot ((same_iff m.id id).1 n))
        (Does-bind _ _ im (m, im) (Does-load_files s 0 m.files im u) (Does-pure (m, im))))

  pub Does-load_snapshot :
      (id : Str) (m : Manifest) (im : Image)
      → Holds env v id m im
      → Does d v (load_snapshot env id) (m, im) d v
  unfolding load_snapshot load_dir
  Does-load_snapshot id m im h =
      Does-bind _ _ tt (m, im) (Does-guard (valid_snapshot_id id) invalid_snapshot h.valid)
        (Does-bind skip _ tt (m, im) Does-skip
          (Does-bind _ _ (get id v.snapshots) (m, im) (Does-gets (λ x y. get id y.snapshots))
            (rw h.found (
              Does-bind skip _ tt (m, im) Does-skip
                (Does-bind skip _ tt (m, im) Does-skip
                  (Does-load_manifest id h.dir m im h.dir.manifest h.manifest h.name h.unpacks))))))

  pub Does-set_baseline :
      (id : Str)
      → (id ≡ []) ⊎ ((m : Manifest) × (im : Image) × Holds env v id m im)
      → Does d v (set_baseline env id) tt d (with_baseline (pointing id) v)
  unfolding set_baseline write_vault
  Does-set_baseline [] h =
      Does-bind (on_vault (with_baseline absent) (with_baseline absent)) _ tt tt
        (Does-on_vault (with_baseline absent) (with_baseline absent)) Does-skip
  Does-set_baseline (c ∷ id) (inl e) = absurd (not_nil e)
    where
      not_nil : c ∷ id ≡ [] → ⊥
      not_nil q = cc
  Does-set_baseline (c ∷ id) (inr (m, im, h)) =
      Does-bind _ _ (m, im) tt (Does-load_snapshot (c ∷ id) m im h)
        (Does-write (with_baseline (stored (c ∷ id))))

-- On every schedule, where the names of snapshots are valid, `snapshot` of a storable image with
-- sorted names, which are UTF-8 and cleaned paths, and with manifests within the limit of
-- `readFile`, leaves the disk alone and loses nothing in the backup directory. If it returns a
-- manifest, its name is new, the directory of that name holds each file of the image with its
-- bytes, mode and owner, under the digest that the manifest has for it, and `loadSnapshot`, where
-- no step of it fails, returns the image.
pub snapshot-load_snapshot :
    (env : Env) (d : Disk) (v : Vault) (im : Image) (reason : Str)
    → ((n : ℕ) → valid_snapshot_id (env.new_id n) ≡ true)
    → IsSorted im
    → IsStorable im
    → Recordable env im
    → Runs d v
        (snapshot env im reason)
        (λ m x y.
          (x ≡ d) × Saved env im v y m × Does x y (load_snapshot env m.id) (decoded m, im) x y)
        (Kept env d v)
snapshot-load_snapshot env d v im reason ids o st rec =
    Runs-post _ (snapshot-Saved env d v im reason ids o st rec)
      (λ m x y (q, s). (q, s, Does-load_snapshot env m.id (decoded m) im s.holds)) (λ e x y h. h)
