-- ===== src/Config/Vault/Pointer.antt =====
-- The baseline pointer and the journal, and that `prune` spares what the baseline names.
use avahi_manager.Prelude.{◌≡◌, refl, ◌⊎◌, inl, inr, true, not, List, [], ◌∷◌, Str, keys}
use avahi_manager.Config.Image.{Env}
use avahi_manager.Config.World.{
  Vault, Disk, Stop, Stored, absent, malformed, stored, malformed_file, recovery_pending, pure,
  ◌>>=◌, guard,
}
use avahi_manager.Config.Vault.{
  set_baseline, baseline_id, pointer, no_pending, snapshots, load_all, is_absent, load_snapshot,
  newest_first,
}
use avahi_manager.Config.Vault.Loading.{load_snapshot-Holds}
use avahi_manager.Config.Vault.Edits.{run_write}
use avahi_manager.Config.World.Runs.{Runs, Cond, Runs-pure, Runs-raise, Runs-if}
use avahi_manager.Config.World.Runs.Steps.{
  Runs-guard, Runs-skip, Runs-on_vault, Runs-gets, Runs-last,
}
use avahi_manager.Config.World.Runs.Observing.{Observes, Runs-observe, Observes-bind}
use avahi_manager.Config.Path.{valid_snapshot_id}

abbrev pub with_baseline : Stored Str → Vault → Vault
with_baseline b v = record v { baseline = b }

-- the pointer that an identifier stands for; the empty one clears it
abbrev pub pointing : Str → Stored Str
pointing [] = absent
pointing (c ∷ id) = stored (c ∷ id)

-- the directories are `d` and `v`, or `v` with another baseline
abbrev pub Rebased : Disk → Vault → Stop → Cond
Rebased d v _ x y = (x ≡ d) × (y.snapshots ≡ v.snapshots) × (y.pending ≡ v.pending)

module _ (env : Env) (d : Disk) (v : Vault) where
  pub run_set_baseline :
      (id : Str)
      → Runs d v
          (set_baseline env id)
          (λ _ x y. (x ≡ d) × (y ≡ with_baseline (pointing id) v))
          (Rebased d v)
  unfolding set_baseline
  run_set_baseline [] =
      Runs-on_vault _ _ _ (λ e i. (refl, refl, refl)) (λ e i. (refl, refl, refl))
        (Runs-last _ (Runs-skip pure (λ e i. (refl, refl, refl)) (Runs-pure tt (refl, refl))))
  run_set_baseline (c ∷ id) =
      Runs-observe _ _ (load_snapshot-Holds env (c ∷ id)) (λ e h. (refl, refl, refl))
        (λ l h.
          run_write (with_baseline (stored (c ∷ id))) (λ e i. (refl, refl, refl))
            (λ e i. (refl, refl, refl)))

  -- what the pointer holds, by what `baselineID` returns
  abbrev pub Points : Str → Type 0
  Points id = ((id ≡ []) × (v.baseline ≡ absent)) ⊎ (v.baseline ≡ stored id)

  observe_pointer :
      (b : Stored Str) → v.baseline ≡ b → Observes d v (pointer b) (λ id. Points id) (λ _. Unit)
  unfolding pointer
  observe_pointer absent e = Runs-pure [] (refl, refl, inl (refl, e))
  observe_pointer malformed e = Runs-raise malformed_file (refl, refl, tt)
  observe_pointer (stored id) e =
      Runs-guard _ malformed_file (λ _. pure id) (λ b. Runs-pure id (refl, refl, inr e))
        (λ b. (refl, refl, tt))

  pub observe_baseline_id : Observes d v baseline_id (λ id. Points id) (λ _. Unit)
  unfolding baseline_id
  observe_baseline_id =
      Runs-skip _ (λ e i. (refl, refl, tt))
        (Runs-gets (λ x y. y.baseline) pointer (observe_pointer v.baseline refl))

  is_absent_sound : {A : Type 0} (s : Stored A) → is_absent s ≡ true → s ≡ absent
  is_absent_sound absent h = refl
  is_absent_sound malformed h = cc
  is_absent_sound (stored _) h = cc

  pub observe_no_pending : Observes d v no_pending (λ _. v.pending ≡ absent) (λ _. Unit)
  unfolding no_pending
  observe_no_pending =
      Runs-skip _ (λ e i. (refl, refl, tt))
        (Runs-gets (λ x y. y.pending) (λ p. guard (is_absent p) recovery_pending)
          (Runs-last _ (
            Runs-guard (is_absent v.pending) recovery_pending pure
              (λ b. Runs-pure tt (refl, refl, is_absent_sound v.pending b))
              (λ b. (refl, refl, tt)))))

  observe_load_all : (ids : List Str) → Observes d v (load_all env ids) (λ _. Unit) (λ _. Unit)
  unfolding load_all
  observe_load_all [] = Runs-pure [] (refl, refl, tt)
  observe_load_all (id ∷ ids) =
      Runs-if (not (valid_snapshot_id id)) (load_all env ids)
        (load_snapshot env id >>= λ l. load_all env ids >>= λ rest. pure (l.0 ∷ rest))
        (λ b. observe_load_all ids)
        (λ b.
          Observes-bind _ _ (load_snapshot-Holds env id) (λ e k. tt)
            (λ l h.
              Observes-bind _ _ (observe_load_all ids) (λ e k. k)
                (λ rest u. Runs-pure _ (refl, refl, tt))))

  pub observe_snapshots : Observes d v (snapshots env) (λ _. Unit) (λ _. Unit)
  unfolding snapshots
  observe_snapshots =
      Runs-skip _ (λ e i. (refl, refl, tt))
        (Runs-gets (λ x y. keys y.snapshots)
          (λ ids. load_all env ids >>= λ list. pure (newest_first env list))
          (Observes-bind _ _ (observe_load_all (keys v.snapshots)) (λ e k. k)
            (λ l u. Runs-pure _ (refl, refl, tt))))
