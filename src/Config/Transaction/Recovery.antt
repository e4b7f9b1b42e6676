-- ===== src/Config/Transaction/Recovery.antt =====
-- `recover`: from a journal that names a snapshot of the old image, the old image comes back, and
-- until it is back the journal stays.
use avahi_manager.Prelude.{◌≡◌, refl, sym, ap, ◌∙◌, subst, ◌⊎◌, inl, inr, Bool, Str}
use avahi_manager.Config.Image.{Env, Image, Manifest, Action, restart}
use avahi_manager.Config.World.{
  Vault, Disk, Stop, Stored, Pending, absent, stored, no_controller, pure, ◌>>=◌,
}
use avahi_manager.Config.Disk.Reading.{IsDisk, read-Reads, Reads}
use avahi_manager.Config.Disk.Replacing.{replace-Runs, replaced, IsDisk-directory}
use avahi_manager.Config.Disk.Showing.{IsImage, Shows, replaced-Shows}
use avahi_manager.Config.Vault.{set_baseline}
use avahi_manager.Config.Vault.Loading.{Holds, load_snapshot-Holds, Holds-unique, Holds-dirs}
use avahi_manager.Config.Vault.Pointer.{run_set_baseline, with_baseline, pointing}
use avahi_manager.Config.Transaction.{recover, recover_from, recover_with, clear_pending, activate}
use avahi_manager.Config.World.Runs.{Runs, Cond, IsFault, Runs-pure, Runs-bind, Runs-post}
use avahi_manager.Config.World.Runs.Steps.{
  Runs-guard, Runs-skip, Runs-on_vault, Runs-then, Runs-gets, Runs-last, Runs-request,
}
use avahi_manager.Config.World.Runs.Observing.{Runs-observe}

-- The journal names a snapshot that holds the image.
pub record Recoverable (env : Env) (old : Image) (v : Vault) : Type 0 where
  pub journal : Pending
  pub pending : v.pending ≡ stored journal
  pub manifest : Manifest
  pub holds : Holds env v journal.snapshot_id manifest old

-- The disk shows the image, and no transaction is pending.
abbrev pub Settled : Image → Cond
Settled im x y = Shows im x × (y.pending ≡ absent)

-- The old image stands on the disk, or it can be recovered.
abbrev pub Safe : Env → Image → Cond
Safe env old x y = IsDisk x × (Settled old x y ⊎ Recoverable env old y)

pub Recoverable-rebased :
    {env : Env} {old : Image} {v y : Vault}
    → y.snapshots ≡ v.snapshots
    → y.pending ≡ v.pending
    → Recoverable env old v
    → Recoverable env old y
Recoverable-rebased {y = y} p q r = record {
  journal = r.journal;
  pending = q ∙ r.pending;
  manifest = r.manifest;
  holds = Holds-dirs (λ s h. rw p h) r.holds;
}

-- a step behind which the journal is gone
pub run_clear_pending :
    {d : Disk} {v : Vault} {E : Stop → Cond}
    → ((e : Stop) → IsFault e → E e d v)
    → ((e : Stop) → IsFault e → E e d (record v { pending = absent }))
    → Runs d v clear_pending (λ _ x y. (x ≡ d) × (y ≡ record v { pending = absent })) E
unfolding clear_pending
run_clear_pending h k =
    Runs-on_vault _ _ _ h k (Runs-last _ (Runs-skip pure k (Runs-pure tt (refl, refl))))

pub run_activate :
    {d : Disk} {v : Vault} {E : Stop → Cond} (a : Action)
    → ((e : Stop) → IsFault e → E e d v)
    → Runs d v (activate a) (λ _ x y. (x ≡ d) × (y ≡ v)) E
unfolding activate
run_activate a h = Runs-request a _ h (Runs-last _ (Runs-skip pure h (Runs-pure tt (refl, refl))))

module _ (env : Env) (root : env.euid ≡ 0) (old : Image) (good : IsImage old) where
  -- the end of `recover`, with the old image on the disk
  recover_end :
      (d : Disk) (v : Vault) (id : Str)
      → IsDisk d
      → Shows old d
      → Recoverable env old v
      → Runs d v
          (activate restart >>= λ _. set_baseline env id >>= λ _. clear_pending)
          (λ _ x y. IsDisk x × Settled old x y × (y.baseline ≡ pointing id))
          (λ _. Safe env old)
  recover_end d v id i sh r = Runs-then _ _ (run_activate restart (λ e f. (i, inr r))) (λ _.
      Runs-bind _ _
        (Runs-post _ (run_set_baseline env d v id) (λ a x y h. h)
          (λ e x y (p, q, t). (subst IsDisk (sym p) i, inr (Recoverable-rebased q t r))))
        (λ _ x y (p, q). at x y p q))
    where
      at :
          (x : Disk) (y : Vault)
          → x ≡ d
          → y ≡ with_baseline (pointing id) v
          → Runs x y clear_pending
              (λ _ x y. IsDisk x × Settled old x y × (y.baseline ≡ pointing id))
              (λ _. Safe env old)
      at x y p q =
          let i' = subst IsDisk (sym p) i in
          let sh' = subst (Shows old) (sym p) sh in
          Runs-post _
            (run_clear_pending
              (λ e f. (
                i',
                inr (
                    Recoverable-rebased (ap (λ (z : Vault). z.snapshots) q)
                      (ap (λ (z : Vault). z.pending) q) r),
              ))
              (λ e f. (i', inl (sh', refl))))
            (λ a x' y' (s, t). (
              subst IsDisk (sym s) i',
              (subst (Shows old) (sym s) sh', ap (λ (z : Vault). z.pending) t),
              ap (λ (z : Vault). z.baseline) t ∙ ap (λ (z : Vault). z.baseline) q,
            ))
            (λ e x' y' h. h)

  Shows-again :
      (d x : Disk) (current im : Image)
      → Reads current d
      → im ≡ old
      → x ≡ replaced env current im d
      → Shows old x
  Shows-again d x current im c e s =
      subst (Shows old) (sym (s ∙ ap (λ (o : Image). replaced env current o d) e))
        (replaced-Shows env root current old d (λ p. sym (c.lookups p)) good)

  recover_journal :
      (d : Disk) (v : Vault) (p : Pending) (m : Manifest)
      → IsDisk d
      → v.pending ≡ stored p
      → Holds env v p.snapshot_id m old
      → Runs d v
          (recover_from env (stored p))
          (λ _ x y. IsDisk x × Settled old x y × (y.baseline ≡ pointing p.baseline_id))
          (λ _. Safe env old)
  unfolding recover_from
  recover_journal d v p m i e h =
      let r : Recoverable env old v = record {
        journal = p;
        pending = e;
        manifest = m;
        holds = h;
      } in
      Runs-observe _ _ (load_snapshot-Holds env p.snapshot_id) (λ e k. (i, inr r))
        (λ l k.
          Runs-observe _ _ (read-Reads i) (λ e k. (i, inr r))
            (λ current c.
              Runs-bind _ _
                (Runs-post _ (replace-Runs env current l.1 d v i) (λ a x y h. h)
                  (λ e x y (s, t). (s, inr (subst (Recoverable env old) (sym t) r))))
                (λ _ x y (s, t, u).
                  recover_end x y p.baseline_id (IsDisk-directory x u)
                    (Shows-again d x current l.1 c (Holds-unique env k h) s)
                    (subst (Recoverable env old) (sym t) r))))

  recover_guarded :
      (d : Disk) (v : Vault) (has_controller : Bool) (r : Recoverable env old v)
      → IsDisk d
      → Runs d v
          (recover_with env has_controller (stored r.journal))
          (λ _ x y. IsDisk x × Settled old x y × (y.baseline ≡ pointing r.journal.baseline_id))
          (λ _. Safe env old)
  unfolding recover_with
  recover_guarded d v has_controller r i =
      Runs-guard has_controller no_controller (λ _. recover_from env (stored r.journal))
        (λ b. recover_journal d v r.journal r.manifest i r.pending r.holds) (λ b. (i, inr r))

  -- From a recoverable state, with an old image of managed names, run by root, on every schedule:
  -- if `recover` returns without an error, the old image is on the disk, the journal is gone and
  -- the baseline is the one of the journal; wherever it stops, the old image is on the disk or can
  -- still be recovered.
  pub recover-Recovers :
      (d : Disk) (v : Vault) (has_controller : Bool)
      → IsDisk d
      → (r : Recoverable env old v)
      → Runs d v
          (recover env has_controller)
          (λ _ x y. IsDisk x × Settled old x y × (y.baseline ≡ pointing r.journal.baseline_id))
          (λ _. Safe env old)
  unfolding recover
  recover-Recovers d v has_controller i r =
      Runs-skip _ (λ e f. (i, inr r))
        (Runs-gets (λ x y. y.pending) (recover_with env has_controller)
          (with_journal v.pending r.pending))
    where
      with_journal :
          (p : Stored Pending)
          → p ≡ stored r.journal
          → Runs d v
              (recover_with env has_controller p)
              (λ _ x y. IsDisk x × Settled old x y × (y.baseline ≡ pointing r.journal.baseline_id))
              (λ _. Safe env old)
      with_journal p e =
          subst
            (λ (q : Stored Pending).
              Runs d v (recover_with env has_controller q)
                (λ _ x y.
                  IsDisk x × Settled old x y × (y.baseline ≡ pointing r.journal.baseline_id))
                (λ _. Safe env old))
            (sym e) (recover_guarded d v has_controller r i)
