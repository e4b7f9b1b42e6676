-- ===== src/Config/Vault/Loading.antt =====
-- What `loadSnapshot` returns, as a relation between a backup directory and an image.
use avahi_manager.Prelude.{
  ℕ, ◌+◌, ◌<◌, ◌≡◌, refl, sym, subst, true, ◌&&◌, Option, none, some, [], ◌∷◌, Str, same, same_iff,
  Map, get, put, length, ltb, &&-eq-true, ltb→lt, ◌∙◌, ◌≤◌, false, arith, Bool-cases, inl, inr,
}
use avahi_manager.Config.Image.{Env, FileMeta, Manifest, Image, File, max_file_size, max_total_size}
use avahi_manager.Config.World.{
  SnapDir, Vault, Disk, stored, Stop, ok, invalid_snapshot, Stored, not_exist, malformed_file,
  failed, absent, malformed, err,
}
use avahi_manager.Config.Vault.{load_files, load_copy, load_manifest, load_dir, load_snapshot}
use avahi_manager.Config.World.Runs.{Runs-pure, Runs-raise, Runs-lift}
use avahi_manager.Config.World.Runs.Steps.{Runs-guard, Runs-skip, Runs-gets}
use avahi_manager.Config.World.Runs.Observing.{Observes, Runs-observe, Observes-bind}
use avahi_manager.Config.Path.{valid_snapshot_id, valid_path, clean}

module _ (env : Env) where
  -- `f` is the copy `o` with the mode and the owner of the manifest: its digest is the one of the
  -- manifest, and it is within the limits on a file and on the whole.
  pub record IsCopy (before : ℕ) (meta : FileMeta) (o : Option Str) (f : File) : Type 0 where
    pub copy : o ≡ some f.content
    pub digest : env.digest f.content ≡ meta.sha256
    pub small : length f.content ≤ max_file_size
    pub total : before + length f.content ≤ max_total_size
    pub mode : f.mode ≡ meta.mode
    pub uid : f.uid ≡ meta.uid
    pub gid : f.gid ≡ meta.gid

  IsCopy-unique :
      (t : ℕ) (meta : FileMeta) (o : Option Str) (f g : File)
      → IsCopy t meta o f
      → IsCopy t meta o g
      → f ≡ g
  IsCopy-unique t meta o f g h k =
      file_eq f g (some_inj (sym h.copy ∙ k.copy)) (h.mode ∙ sym k.mode) (h.uid ∙ sym k.uid)
        (h.gid ∙ sym k.gid)
    where
      some_inj : {a b : Str} → some a ≡ some b → a ≡ b
      some_inj e = cc

      file_eq :
          (f g : File)
          → f.content ≡ g.content
          → f.mode ≡ g.mode
          → f.uid ≡ g.uid
          → f.gid ≡ g.gid
          → f ≡ g
      file_eq f g a b c d = cc (a, b, c, d)

  -- a copy that passes the checks of `loadSnapshot`
  load_copy-IsCopy :
      (t : ℕ) (meta : FileMeta) (o : Option Str) (f : File)
      → load_copy env t meta o ≡ ok f
      → IsCopy t meta o f
  unfolding load_copy
  load_copy-IsCopy t meta none f h = cc
  load_copy-IsCopy t meta (some bytes) f h = elim (Bool-cases (ltb max_file_size (length bytes))) [
    | inl a ↦ absurd (wrong (rw a at h))
    | inr a ↦ elim (Bool-cases (same (env.digest bytes) meta.sha256)) [
      | inr b ↦ absurd (wrong (rw (a, b) at h))
      | inl b ↦ elim (Bool-cases (ltb max_total_size (t + length bytes))) [
        | inl c ↦ absurd (wrong (rw (a, b, c) at h))
        | inr c ↦ subst (IsCopy t meta (some bytes)) (ok_inj (rw (a, b, c) at h)) (record {
          copy = refl;
          digest = (same_iff (env.digest bytes) meta.sha256).0 b;
          small = omega (arith, ltb-false→le _ _ a);
          total = omega (arith, ltb-false→le _ _ c);
          mode = refl;
          uid = refl;
          gid = refl;
        })
      ]
    ]
  ]
    where
      wrong : {e : Stop} → err e ≡ ok f → ⊥
      wrong q = cc

      ok_inj : {a b : File} → ok a ≡ ok b → a ≡ b
      ok_inj q = cc

      ltb-false→le : (a b : ℕ) → ltb a b ≡ false → b ≤ a
      ltb-false→le a b q = ground arith

  pub IsCopy-load_copy :
      (t : ℕ) (meta : FileMeta) (o : Option Str) (f : File)
      → IsCopy t meta o f
      → load_copy env t meta o ≡ ok f
  unfolding load_copy
  IsCopy-load_copy t meta o f h = rw h.copy (
      rw
        (
          not_above max_file_size (length f.content) h.small,
          (same_iff (env.digest f.content) meta.sha256).1 h.digest,
          not_above max_total_size (t + length f.content) h.total,
        )
        (file_eq f (sym h.mode) (sym h.uid) (sym h.gid)))
    where
      not_above : (a b : ℕ) → b ≤ a → ltb a b ≡ false
      not_above a b q = ground arith

      file_eq :
          (f : File) {m u g : ℕ}
          → m ≡ f.mode
          → u ≡ f.uid
          → g ≡ f.gid
          → let g : File = record { content = f.content; mode = m; uid = u; gid = g } in ok g ≡ ok f
      file_eq f a b c = cc (a, b, c)

  -- The files of a snapshot directory that a manifest names, each with the digest that the manifest
  -- has for it.
  abbrev pub Unpacks : SnapDir → ℕ → Map FileMeta → Image → Type 0
  Unpacks s total [] im = im ≡ []
  Unpacks s total ((p, meta) ∷ metas) im =
      (f : File) × (rest : Image) × (valid_path p ≡ true)
      × (meta.mode < 512)
      × IsCopy total meta (get (clean p) s.copies) f
      × Unpacks s (total + length f.content) metas rest
      × (im ≡ put p f rest)

  -- The snapshot `id` can be loaded: with the manifest `m` and the image `im`.
  pub record Holds (v : Vault) (id : Str) (m : Manifest) (im : Image) : Type 0 where
    pub valid : valid_snapshot_id id ≡ true
    pub dir : SnapDir
    pub found : get id v.snapshots ≡ some dir
    pub manifest : dir.manifest ≡ stored m
    pub name : m.id ≡ id
    pub unpacks : Unpacks dir 0 m.files im

  unpack_unique :
      (s : SnapDir) (t : ℕ) (metas : Map FileMeta) (im im' : Image)
      → Unpacks s t metas im
      → Unpacks s t metas im'
      → im ≡ im'
  unpack_unique s t [] im im' h k = cc
  unpack_unique s t ((p, meta) ∷ metas) im im' (f, r, _, _, e, u, q) (f', r', _, _, e', u', q') =
      let same_f : f ≡ f' = IsCopy-unique t meta (get (clean p) s.copies) f f' e e' in
      let same_r : r ≡ r' =
        unpack_unique s (t + length f.content) metas r r' u
          (subst (λ g. Unpacks s (t + length g.content) metas r') (sym same_f) u') in
      cc

  -- A name holds one image at most.
  pub Holds-unique :
      {v : Vault} {id : Str} {m m' : Manifest} {im im' : Image}
      → Holds v id m im
      → Holds v id m' im'
      → im ≡ im'
  Holds-unique {v} {id} {m} {m'} {im} {im'} h k =
      let same_dir : h.dir ≡ k.dir = cc (h.found, k.found) in
      let same_manifest : m ≡ m' = cc (h.manifest, k.manifest, same_dir) in
      unpack_unique h.dir 0 m.files im im' h.unpacks (
        subst (λ s. Unpacks s 0 m.files im') (sym same_dir)
          (subst (λ n. Unpacks k.dir 0 n.files im') (sym same_manifest) k.unpacks))

  module _ {d : Disk} {v : Vault} where
    observe_files :
        (s : SnapDir) (t : ℕ) (metas : Map FileMeta)
        → Observes d v (load_files env s t metas) (Unpacks s t metas) (λ _. Unit)
    unfolding load_files
    observe_files s t [] = Runs-pure [] (refl, refl, refl)
    observe_files s t ((p, meta) ∷ metas) =
        let stop = λ (e : Stop). let r : (d ≡ d) × (v ≡ v) × Unit {0} = (refl, refl, tt) in r in
        Runs-guard (valid_path p && ltb meta.mode 512) invalid_snapshot _
          (λ b.
            Runs-skip _ (λ e i. stop e)
              (Runs-observe _ _
                (Runs-lift
                  {Q = λ f x y.
                    (x ≡ d) × (y ≡ v) × (load_copy env t meta (get (clean p) s.copies) ≡ ok f)}
                  (load_copy env t meta (get (clean p) s.copies)) (λ f e. (refl, refl, e))
                  (λ e _. (refl, refl, tt)))
                (λ e k. stop e)
                (λ f loaded.
                  Observes-bind _ _ (observe_files s (t + length f.content) metas) (λ e k. k)
                    (λ rest u. Runs-pure _ (
                      refl,
                      refl,
                      (
                        f,
                        rest,
                        (&&-eq-true (valid_path p) _ b).0,
                        ltb→lt _ _ (&&-eq-true (valid_path p) _ b).1,
                        load_copy-IsCopy t meta (get (clean p) s.copies) f loaded,
                        u,
                        refl,
                      ),
                    )))))
          (λ b. stop (failed invalid_snapshot))

    observe_manifest :
        (id : Str) (s : SnapDir)
        → valid_snapshot_id id ≡ true
        → get id v.snapshots ≡ some s
        → (stored_at : Stored Manifest) → s.manifest ≡ stored_at
        → Observes d v (load_manifest env id s stored_at) (λ l. Holds v id l.0 l.1) (λ _. Unit)
    unfolding load_manifest
    observe_manifest id s ok_id at absent e = Runs-raise not_exist (refl, refl, tt)
    observe_manifest id s ok_id at malformed e = Runs-raise malformed_file (refl, refl, tt)
    observe_manifest id s ok_id at (stored m) e =
        Runs-guard (same m.id id) invalid_snapshot _
          (λ b.
            Observes-bind _ _ (observe_files s 0 m.files) (λ x k. k)
              (λ im u. Runs-pure _ (
                refl,
                refl,
                record {
                  valid = ok_id;
                  dir = s;
                  found = at;
                  manifest = e;
                  name = (same_iff m.id id).0 b;
                  unpacks = u;
                },
              )))
          (λ b. (refl, refl, tt))

    observe_dir :
        (id : Str) (o : Option SnapDir)
        → valid_snapshot_id id ≡ true
        → get id v.snapshots ≡ o
        → Observes d v (load_dir env id o) (λ l. Holds v id l.0 l.1) (λ _. Unit)
    unfolding load_dir
    observe_dir id none ok_id at = Runs-raise not_exist (refl, refl, tt)
    observe_dir id (some s) ok_id at =
        Runs-skip _ (λ e i. (refl, refl, tt))
          (Runs-skip _ (λ e i. (refl, refl, tt)) (observe_manifest id s ok_id at s.manifest refl))

    -- On every schedule, `loadSnapshot` changes nothing, and what it returns is held.
    pub load_snapshot-Holds :
        (id : Str) → Observes d v (load_snapshot env id) (λ l. Holds v id l.0 l.1) (λ _. Unit)
    unfolding load_snapshot
    load_snapshot-Holds id =
        Runs-guard (valid_snapshot_id id) invalid_snapshot _
          (λ b.
            Runs-skip _ (λ e i. (refl, refl, tt))
              (Runs-gets (λ x y. get id y.snapshots) (load_dir env id)
                (observe_dir id (get id v.snapshots) b refl)))
          (λ b. (refl, refl, tt))

-- The backup directory `y` has everything that `v` has, with the same journal and baseline.
pub record Extends (v y : Vault) : Type 0 where
  pub dirs : (id : Str) (s : SnapDir) → get id v.snapshots ≡ some s → get id y.snapshots ≡ some s
  pub pending : y.pending ≡ v.pending
  pub baseline : y.baseline ≡ v.baseline

pub Extends-refl : (v : Vault) → Extends v v
Extends-refl v = record { dirs = λ id s h. h; pending = refl; baseline = refl }

-- What matters of the backup directory but for journal and baseline: nothing is lost.
pub Holds-dirs :
    {env : Env} {v y : Vault} {id : Str} {m : Manifest} {im : Image}
    → ((s : SnapDir) → get id v.snapshots ≡ some s → get id y.snapshots ≡ some s)
    → Holds env v id m im
    → Holds env y id m im
Holds-dirs x h = record {
  valid = h.valid;
  dir = h.dir;
  found = x h.dir h.found;
  manifest = h.manifest;
  name = h.name;
  unpacks = h.unpacks;
}

pub Holds-Extends :
    {env : Env} {v y : Vault} {id : Str} {m : Manifest} {im : Image}
    → Extends v y
    → Holds env v id m im
    → Holds env y id m im
Holds-Extends {id = id} x h = Holds-dirs (x.dirs id) h
