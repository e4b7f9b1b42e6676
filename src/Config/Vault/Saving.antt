-- ===== src/Config/Vault/Saving.antt =====
-- `snapshot` writes a snapshot that `loadSnapshot` reads back, and loses nothing.
use avahi_manager.Prelude.{
  ℕ, ◌≡◌, refl, sym, ap, ◌∙◌, subst, true, Option, none, some, [], ◌∷◌, arith, Str, Map, get,
  length, All, leb, IsSorted, get-put_self, All-of-get, get-put, ◌≤◌, leb→le, All-get, ltb, false,
}
use avahi_manager.Config.Image.{Image, File, Env, FileMeta, Manifest, IsStorable, max_file_size}
use avahi_manager.Config.World.{
  Vault, SnapDir, Disk, Stop, invalid_path, absent, pure, ◌>>=◌, skip, on_error, io_error,
  reason_too_long, stored,
}
use avahi_manager.Config.Vault.{
  with_copy, edit_dir, drop_dir, write_vault, save_files, with_manifest, fill, add_dir, remove_all,
  make_new, snapshot, without_manifest, written_manifest, decoded_files, decoded,
}
use avahi_manager.Config.Vault.Loading.{Extends, Unpacks, Holds, Extends-refl}
use avahi_manager.Config.Path.{valid_path, valid_snapshot_id, clean}
use avahi_manager.Config.World.Runs.{
  Runs, Cond, Runs-pure, Runs-bind, Keeps, Runs-raise, Runs-post, Runs-on_error,
}
use avahi_manager.Config.World.Runs.Steps.{
  Runs-guard, Runs-skip, Runs-on_vault, Runs-then, Runs-last, Runs-tick, Runs-gets,
}
use avahi_manager.Config.Vault.Copies.{
  content_over, copied, get-copied, metas_of, Unpacks-copies, Recordable, IsPlain, manifest_of,
  decoded_files-metas_of,
}
use avahi_manager.Config.Vault.Edits.{
  Around, Around-Extends, Around-edit, Around-drop, run_write, Edits, edit_dir-Edits,
}

-- where `snapshot` stops inside its directory
abbrev Stopped : Disk → Vault → Str → Stop → Cond
Stopped d v id _ x y = (x ≡ d) × Around id v y

module _ (env : Env) where
  run_save :
      (d : Disk) (v : Vault) (id : Str) (im : Image) (s : SnapDir) (y : Vault)
      → Edits id s v y
      → Runs d y
          (save_files env id im)
          (λ metas x z.
            (x ≡ d)
            × Edits id (copied im s) v z
            × (metas ≡ metas_of env im)
            × All (λ (e : Str × File). valid_path e.0 ≡ true) im)
          (Stopped d v id)
  unfolding save_files copied metas_of
  run_save d v id [] s y e = Runs-pure [] (refl, e, refl, tt)
  run_save d v id ((p, f) ∷ im) s y e =
      let g = edit_dir id (with_copy p f.content) in
      let e' = edit_dir-Edits id (with_copy p f.content) s v y e in
      Runs-guard (valid_path p) invalid_path _
        (λ b.
          Runs-skip _ (λ x i. (refl, e.around))
            (Runs-then _ _ (run_write g (λ x i. (refl, e.around)) (λ x i. (refl, e'.around))) (λ _.
              Runs-bind _ _ (run_save d v id im (with_copy p f.content s) (g y) e')
                (λ metas x z (q, r, t, u). Runs-pure _ (q, r, cc, (b, u))))))
        (λ b. (refl, e.around))

  written_lem :
      (m : Manifest)
      → env.manifest_size m ≤ max_file_size
      → written_manifest env m ≡ stored (decoded m)
  unfolding written_manifest
  written_lem m h = rw (not_above max_file_size (env.manifest_size m) h) refl
    where
      not_above : (a b : ℕ) → b ≤ a → ltb a b ≡ false
      not_above a b q = ground arith

  cleaned_names :
      (im : Image)
      → All (λ (e : Str × File). IsPlain e.0) im
      → All (λ (e : Str × File). clean e.0 ≡ e.0) im
  cleaned_names [] h = tt
  cleaned_names ((p, f) ∷ im) ((_, c), hs) = (c, cleaned_names im hs)

  -- a directory as `snapshot` leaves it
  saved-Holds :
      (id reason : Str) (now : ℕ) (im : Image) (m : Manifest) (v z : Vault)
      → valid_snapshot_id id ≡ true
      → IsSorted im
      → IsStorable im
      → All (λ (e : Str × File). IsPlain e.0) im
      → env.manifest_size (manifest_of env id reason now im) ≤ max_file_size
      → All (λ (e : Str × File). valid_path e.0 ≡ true) im
      → m ≡ manifest_of env id reason now im
      → Edits id (with_manifest env m (copied im (record { manifest = absent; copies = [] }))) v z
      → Holds env z id (decoded m) im
  unfolding get decoded
  saved-Holds id reason now im m v z ok_id o st plain sized vs e w =
      let blank : SnapDir = record { manifest = absent; copies = [] } in
      let s : SnapDir = with_manifest env m (copied im blank) in
      let cleaned : All (λ (x : Str × File). clean x.0 ≡ x.0) im = cleaned_names im plain in
      let copies : All (λ (x : Str × File). get (clean x.0) s.copies ≡ some x.1.content) im =
        All-of-get _ im o (λ k f h.
          ap (λ (p : Str). get p s.copies)
            (All-get (λ (x : Str × File). clean x.0 ≡ x.0) k f im cleaned h)
          ∙ get-copied k im blank o cleaned
          ∙ ap (λ (n : Option File). content_over n none) h) in
      record {
        valid = ok_id;
        dir = s;
        found = w.here;
        manifest =
            written_lem m
              (subst (λ (n : Manifest). env.manifest_size n ≤ max_file_size) (sym e) sized);
        name = ap (λ (n : Manifest). n.id) e;
        unpacks =
            subst (λ (fs : Map FileMeta). Unpacks env s 0 fs im)
              (sym (
                ap (λ (n : Manifest). decoded_files n.files) e
                ∙ decoded_files-metas_of env im o plain))
              (Unpacks-copies env s 0 im o copies vs st.small st.modes (omega (arith, st.total)));
      }

  -- `snapshot` made a snapshot of `im`, which loads with the decoded manifest, and lost nothing.
  pub record Saved (im : Image) (v y : Vault) (m : Manifest) : Type 0 where
    pub extends : Extends v y
    pub fresh : get m.id v.snapshots ≡ none
    pub holds : Holds env y m.id (decoded m) im

  -- the end of `fill`: the manifest is written when all copies are there
  run_seal :
      (d x : Disk) (v z : Vault) (id reason : Str) (now : ℕ) (im : Image) (metas : Map FileMeta)
      → valid_snapshot_id id ≡ true
      → IsSorted im
      → IsStorable im
      → All (λ (e : Str × File). IsPlain e.0) im
      → env.manifest_size (manifest_of env id reason now im) ≤ max_file_size
      → get id v.snapshots ≡ none
      → x ≡ d
      → Edits id (copied im (record { manifest = absent; copies = [] })) v z
      → metas ≡ metas_of env im
      → All (λ (e : Str × File). valid_path e.0 ≡ true) im
      → (m : Manifest) → m ≡ (record { id = id; reason = reason; created = now; files = metas })
      → Runs x z
          (write_vault (edit_dir id (with_manifest env m)) >>= λ _. skip >>= λ _. pure m)
          (λ m' x' z'. (x' ≡ d) × Saved im v z' m')
          (Stopped d v id)
  run_seal d x v z id reason now im metas ok_id o st plain sized new q e t vs m em =
      let z' = edit_dir id (with_manifest env m) z in
      let e' : Edits id
          (with_manifest env m (copied im (record { manifest = absent; copies = [] }))) v z' =
        edit_dir-Edits id (with_manifest env m) _ v z e in
      let named : m.id ≡ id = ap (λ (n : Manifest). n.id) em in
      Runs-then _ _
        (run_write (edit_dir id (with_manifest env m)) (λ a i. (q, e.around))
          (λ a i. (q, e'.around)))
        (λ _.
          Runs-skip _ (λ a i. (q, e'.around))
            (Runs-pure m (
              q,
              record {
                extends = Around-Extends new e'.around;
                fresh = subst (λ j. get j v.snapshots ≡ none) (sym named) new;
                holds =
                    subst (λ j. Holds env z' j (decoded m) im) (sym named)
                      (saved-Holds id reason now im m v z' ok_id o st plain sized vs
                        (em
                          ∙ ap
                              (λ (fs : Map FileMeta).
                                let n : Manifest = record {
                                  id = id;
                                  reason = reason;
                                  created = now;
                                  files = fs;
                                } in
                                n)
                              t)
                        e');
              },
            )))

  run_fill :
      (d : Disk) (v y : Vault) (id reason : Str) (now : ℕ) (im : Image)
      → valid_snapshot_id id ≡ true
      → IsSorted im
      → IsStorable im
      → All (λ (e : Str × File). IsPlain e.0) im
      → env.manifest_size (manifest_of env id reason now im) ≤ max_file_size
      → get id v.snapshots ≡ none
      → Edits id (record { manifest = absent; copies = [] }) v y
      → Runs d y (fill env id reason now im) (λ m x z. (x ≡ d) × Saved im v z m) (Stopped d v id)
  unfolding fill
  run_fill d v y id reason now im ok_id o st plain sized new e =
      Runs-skip _ (λ x i. (refl, e.around))
        (Runs-bind _ _ (run_save d v id im _ y e) (λ metas x z (q, r, t, u).
          run_seal d x v z id reason now im metas ok_id o st plain sized new q r t u _ refl))

  abbrev blank_dir : SnapDir
  blank_dir = record { manifest = absent; copies = [] }

  add_dir-Edits : (id : Str) (v : Vault) → Edits id blank_dir v (add_dir id v)
  add_dir-Edits id v = record {
    here = get-put_self id blank_dir v.snapshots;
    around = record {
      elsewhere = λ j ne. rw get-put (rw ne refl);
      pending = refl;
      baseline = refl;
    };
  }

  Around-refl : (id : Str) (v : Vault) → Around id v v
  Around-refl id v = record { elsewhere = λ j ne. refl; pending = refl; baseline = refl }

  run_remove_all :
      (d : Disk) (v : Vault) (id : Str) → Keeps (λ x y. (x ≡ d) × Around id v y) (remove_all id)
  unfolding remove_all
  run_remove_all d v id x y (q, a) = Runs-last _ (
      Runs-on_vault (edit_dir id without_manifest) (drop_dir id) pure (λ e i. (q, a))
        (λ e i. (q, Around-edit id without_manifest v y a))
        (Runs-pure tt (q, Around-drop id v y a)))

  -- what a stop of `snapshot` leaves: everything that was there
  abbrev pub Kept : Disk → Vault → Stop → Cond
  Kept d v _ x y = (x ≡ d) × Extends v y

  run_new :
      (d : Disk) (v : Vault) (id reason : Str) (now : ℕ) (im : Image)
      → valid_snapshot_id id ≡ true
      → IsSorted im
      → IsStorable im
      → All (λ (e : Str × File). IsPlain e.0) im
      → env.manifest_size (manifest_of env id reason now im) ≤ max_file_size
      → (o : Option SnapDir) → get id v.snapshots ≡ o
      → Runs d v
          (make_new id o >>= λ _. on_error (fill env id reason now im) (remove_all id))
          (λ m x y. (x ≡ d) × Saved im v y m)
          (Kept d v)
  unfolding make_new
  run_new d v id reason now im ok_id o st plain sized (some s) e =
      Runs-bind {Q = λ _ _ _. ⊥} _ _ (Runs-raise io_error (refl, Extends-refl v))
        (λ a x y h. absurd h)
  run_new d v id reason now im ok_id o st plain sized none e =
      let start = add_dir-Edits id v in
      let out = λ (x : Disk) (y : Vault) (h : (x ≡ d) × Around id v y).
        let r : (x ≡ d) × Extends v y = (h.0, Around-Extends e h.1) in r in
      Runs-on_vault (add_dir id) (add_dir id) _ (λ a i. (refl, Extends-refl v))
        (λ a i. (refl, Around-Extends e start.around))
        (Runs-post _
          (Runs-on_error _ _
            (run_fill d v (add_dir id v) id reason now im ok_id o st plain sized e start)
            (run_remove_all d v id))
          (λ m x y h. h) (λ a x y h. out x y h))

  -- On every schedule, where the names of snapshots are valid, `snapshot` of a storable image
  -- with sorted names, which are UTF-8 and cleaned paths, and with manifests within the limit of
  -- `readFile`, leaves the disk alone and loses nothing in the backup directory; if it returns a
  -- manifest, the directory of its name holds the image: each file of the image, with its bytes,
  -- mode and owner, under the digest that the manifest in the directory has for it.
  pub snapshot-Saved :
      (d : Disk) (v : Vault) (im : Image) (reason : Str)
      → ((n : ℕ) → valid_snapshot_id (env.new_id n) ≡ true)
      → IsSorted im
      → IsStorable im
      → Recordable env im
      → Runs d v (snapshot env im reason) (λ m x y. (x ≡ d) × Saved im v y m) (Kept d v)
  unfolding snapshot
  snapshot-Saved d v im reason ids o st rec = Runs-tick _ (λ now.
      Runs-guard (leb (length reason) 512) reason_too_long _
        (λ b.
          let short = leb→le (length reason) 512 b in
          Runs-gets (λ _ y. get (env.new_id now) y.snapshots)
            (λ there. make_new (env.new_id now) there >>= λ _.
              on_error (fill env (env.new_id now) reason now im) (remove_all (env.new_id now)))
            (run_new d v (env.new_id now) reason now im (ids now) o st rec.names
              (rec.fits now now reason short) _ refl))
        (λ b. (refl, Extends-refl v)))
