-- ===== src/Config/Vault/Pruning.antt =====
-- What `prune` and `recordBaseline` leave in the backup directory.
use avahi_manager.Prelude.{
  ℕ, ◌-◌, ◌≡◌, refl, sym, ◌∙◌, subst, inl, inr, true, false, not, Option, none, some, List, [], ◌∷◌,
  Str, same, get, put, length, leb, get-put, get-del, IsSorted, not-eq-true,
}
use avahi_manager.Config.Image.{Env, Image, Manifest, IsStorable}
use avahi_manager.Config.Path.{valid_snapshot_id}
use avahi_manager.Config.World.{
  Vault, SnapDir, Disk, absent, stored, pure, ◌>>=◌, invalid_snapshot, skip, baseline_in_use,
  join_errors,
}
use avahi_manager.Config.Vault.{
  record_baseline, prune, prune_oldest, remove_all, edit_dir, drop_dir, without_manifest, reverse,
  delete_snapshot, decoded,
}
use avahi_manager.Config.Vault.Loading.{Holds, Holds-dirs, load_snapshot-Holds}
use avahi_manager.Config.Vault.Saving.{Saved, snapshot-Saved}
use avahi_manager.Config.Vault.Pointer.{
  observe_baseline_id, observe_snapshots, run_set_baseline, with_baseline, pointing, Points,
  observe_no_pending,
}
use avahi_manager.Config.World.Runs.{Runs, Runs-pure, Runs-bind, Runs-post, Runs-if, Keeps}
use avahi_manager.Config.World.Runs.Steps.{Runs-guard, Runs-skip, Runs-on_vault, Runs-last}
use avahi_manager.Config.World.Runs.Observing.{Runs-observe}
use avahi_manager.Config.World.Runs.Joining.{Runs-join_errors}
use avahi_manager.Config.Vault.Copies.{Recordable}

-- The disk is `d`; journal, baseline and the snapshot `id` are those of `v`.
pub record Spares (id : Str) (d : Disk) (v : Vault) (x : Disk) (y : Vault) : Type 0 where
  pub disk : x ≡ d
  pub pending : y.pending ≡ v.pending
  pub baseline : y.baseline ≡ v.baseline
  pub dir : get id y.snapshots ≡ get id v.snapshots

Spares-refl : (id : Str) (d : Disk) (v : Vault) → Spares id d v d v
Spares-refl id d v = record { disk = refl; pending = refl; baseline = refl; dir = refl }

module _ (id : Str) (d : Disk) (v : Vault) where
  Spares-edit :
      (j : Str) (f : SnapDir → SnapDir) (x : Disk) (y : Vault)
      → same j id ≡ false
      → Spares id d v x y
      → Spares id d v x (edit_dir j f y)
  Spares-edit j f x y ne s = go (get j y.snapshots)
    where
      go :
          (o : Option SnapDir)
          → Spares id d v x
              (elim o [ none ↦ y | some e ↦ record y { snapshots = put j (f e) y.snapshots } ])
      go none = s
      go (some e) = record {
        disk = s.disk;
        pending = s.pending;
        baseline = s.baseline;
        dir = rw get-put (rw ne s.dir);
      }

  Spares-drop :
      (j : Str) (x : Disk) (y : Vault)
      → same j id ≡ false
      → Spares id d v x y
      → Spares id d v x (drop_dir j y)
  Spares-drop j x y ne s = record {
    disk = s.disk;
    pending = s.pending;
    baseline = s.baseline;
    dir = rw get-del (rw ne s.dir);
  }

  remove_all-Spares : (j : Str) → same j id ≡ false → Keeps (Spares id d v) (remove_all j)
  unfolding remove_all
  remove_all-Spares j ne x y s = Runs-last _ (
      Runs-on_vault (edit_dir j without_manifest) (drop_dir j) pure (λ e i. s)
        (λ e i. Spares-edit j without_manifest x y ne s) (Runs-pure tt (Spares-drop j x y ne s)))

  prune_oldest-Spares :
      (keep n : ℕ) (ms : List Manifest) → Keeps (Spares id d v) (prune_oldest keep id n ms)
  unfolding prune_oldest
  prune_oldest-Spares keep n [] x y s = Runs-pure tt s
  prune_oldest-Spares keep n (m ∷ ms) x y s =
      Runs-if (leb n keep) (pure tt) _ (λ b. Runs-pure tt s)
        (λ b.
          Runs-if (same m.id id) (prune_oldest keep id n ms) _
            (λ c. prune_oldest-Spares keep n ms x y s)
            (λ c.
              Runs-guard (valid_snapshot_id m.id) invalid_snapshot
                (λ _. remove_all m.id >>= λ _. prune_oldest keep id (n - 1) ms)
                (λ g.
                  Runs-bind _ _ (remove_all-Spares m.id c x y s)
                    (λ _ x' y' s'. prune_oldest-Spares keep (n - 1) ms x' y' s'))
                (λ g. s)))

module _ (env : Env) (d : Disk) (v : Vault) where
  -- On every schedule, `prune` leaves the disk, the journal, the baseline and the snapshot
  -- that the baseline names.
  pub prune-Spares :
      (id : Str) (keep : ℕ)
      → v.baseline ≡ stored id
      → Runs d v (prune env keep) (λ _. Spares id d v) (λ _. Spares id d v)
  unfolding prune
  prune-Spares id keep b =
      Runs-observe _ _ (observe_snapshots env d v) (λ e h. Spares-refl id d v)
        (λ list u.
          Runs-observe _ _ (observe_baseline_id env d v) (λ e h. Spares-refl id d v)
            (λ pinned h.
              Runs-bind _ _ (spare list pinned h)
                (λ _ x y s. Runs-last _ (Runs-skip pure (λ e i. s) (Runs-pure tt s)))))
    where
      no_baseline : stored id ≡ absent → ⊥
      no_baseline h = cc

      stored_inj : {a c : Str} → stored a ≡ stored c → a ≡ c
      stored_inj h = cc

      spare :
          (list : List Manifest) (pinned : Str)
          → Points env d v pinned
          → Runs d v
              (prune_oldest keep pinned (length list) (reverse list))
              (λ _. Spares id d v)
              (λ _. Spares id d v)
      spare list pinned (inl (h, k)) = absurd (no_baseline (sym b ∙ k))
      spare list pinned (inr h) =
          subst
            (λ (j : Str).
              Runs d v (prune_oldest keep j (length list) (reverse list)) (λ _. Spares id d v)
                (λ _. Spares id d v))
            (stored_inj (sym b ∙ h))
            (prune_oldest-Spares id d v keep (length list) (reverse list) d v (Spares-refl id d v))

module _ (env : Env) (d : Disk) (v : Vault) (b : Str) (at : v.baseline ≡ stored b) where
  sync :
      (x : Disk) (y : Vault)
      → Spares b d v x y
      → Runs x y skip (λ _. Spares b d v) (λ _. Spares b d v)
  sync x y s = Runs-last _ (Runs-skip pure (λ e i. s) (Runs-pure tt s))

  run_delete :
      (id : Str)
      → same id b ≡ false
      → Runs d v (join_errors (remove_all id) skip) (λ _. Spares b d v) (λ _. Spares b d v)
  run_delete id ne =
      Runs-join_errors skip _ (remove_all-Spares b d v id ne d v (Spares-refl b d v)) sync sync

  -- `DeleteSnapshot` never takes the snapshot that the baseline names, nor the journal or the
  -- baseline, on any schedule.
  pub delete_snapshot-Spares :
      (id : Str) → Runs d v (delete_snapshot env id) (λ _. Spares b d v) (λ _. Spares b d v)
  unfolding delete_snapshot
  delete_snapshot-Spares id =
      Runs-observe _ _ (observe_baseline_id env d v) (λ e h. Spares-refl b d v)
        (λ pinned h.
          Runs-guard (not (same id pinned)) baseline_in_use _
            (λ g.
              Runs-observe _ _ (observe_no_pending env d v) (λ e k. Spares-refl b d v)
                (λ _ p.
                  Runs-observe _ _ (load_snapshot-Holds env id) (λ e k. Spares-refl b d v)
                    (λ l k. run_delete id (other pinned h g))))
            (λ g. Spares-refl b d v))
    where
      other :
          (pinned : Str) → Points env d v pinned → not (same id pinned) ≡ true → same id b ≡ false
      other pinned (inl (_, k)) g = absurd (no_baseline (sym at ∙ k))
        where
          no_baseline : stored b ≡ absent → ⊥
          no_baseline h = cc
      other pinned (inr h) g =
          subst (λ (j : Str). same id j ≡ false) (stored_inj (sym h ∙ at))
            (not-eq-true (same id pinned) g)
        where
          stored_inj : {x y : Str} → stored x ≡ stored y → x ≡ y
          stored_inj h = cc

-- All snapshots of `v` are in `y`, with the same journal; the baseline may be another.
pub record Retains (v y : Vault) : Type 0 where
  pub dirs : (id : Str) (s : SnapDir) → get id v.snapshots ≡ some s → get id y.snapshots ≡ some s
  pub pending : y.pending ≡ v.pending

-- `recordBaseline` made the snapshot `m` of the image, and the baseline names it.
pub record Records (env : Env) (im : Image) (v y : Vault) (m : Manifest) : Type 0 where
  pub retains : Retains v y
  pub baseline : y.baseline ≡ stored m.id
  pub holds : Holds env y m.id (decoded m) im

module _ (env : Env) where
  pointing_valid : (id : Str) → valid_snapshot_id id ≡ true → pointing id ≡ stored id
  unfolding valid_snapshot_id
  pointing_valid [] h = cc
  pointing_valid (c ∷ id) h = refl

  -- On every schedule, where the names of snapshots are valid and the image is sorted and
  -- storable, with names that are UTF-8 and cleaned paths and with manifests within the limit: if
  -- `recordBaseline` returns a manifest, the baseline names a snapshot that loads as the image,
  -- and all older snapshots and the journal are as before; if it stops, no snapshot is lost, and
  -- the disk and the journal are as before.
  pub record_baseline-Records :
      (d : Disk) (v : Vault) (im : Image) (reason : Str)
      → ((n : ℕ) → valid_snapshot_id (env.new_id n) ≡ true)
      → IsSorted im
      → IsStorable im
      → Recordable env im
      → Runs d v
          (record_baseline env im reason)
          (λ m x y. (x ≡ d) × Records env im v y m)
          (λ _ x y. (x ≡ d) × Retains v y)
  unfolding record_baseline
  record_baseline-Records d v im reason ids o st rec =
      Runs-bind _ _
        (Runs-post _ (snapshot-Saved env d v im reason ids o st rec) (λ m x y h. h)
          (λ e x y (p, h). (p, record { dirs = h.dirs; pending = h.pending })))
        (λ m x y (p, s).
          Runs-bind _ _
            (Runs-post _ (run_set_baseline env x y m.id) (λ a x' y' h. h)
              (λ e x' y' (q, r, t). (
                q ∙ p,
                record {
                  dirs = λ id z h. rw r (s.extends.dirs id z h);
                  pending = t ∙ s.extends.pending;
                },
              )))
            (λ _ x' y' (q, r). Runs-pure m (q ∙ p, recorded m y y' s r)))
    where
      recorded :
          (m : Manifest) (y y' : Vault)
          → Saved env im v y m
          → y' ≡ with_baseline (pointing m.id) y
          → Records env im v y' m
      recorded m y y' s r =
          subst (λ z. Records env im v z m) (sym r)
            (record {
              retains = record { dirs = s.extends.dirs; pending = s.extends.pending };
              baseline = pointing_valid m.id s.holds.valid;
              holds = Holds-dirs (λ z h. h) s.holds;
            })
