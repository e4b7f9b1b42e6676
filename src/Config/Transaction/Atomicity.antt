-- ===== src/Config/Transaction/Atomicity.antt =====
-- `apply` as a transaction: what is on the disk and in the journal wherever it ends.
use avahi_manager.Prelude.{
  ◌≡◌, refl, sym, ap, ◌∙◌, subst, ◌⊎◌, inl, inr, true, Option, none, some, Str, codes,
}
use avahi_manager.Config.Image.{Env, Image, Action, revision, IsStorable}
use avahi_manager.Config.World.{
  Vault, Disk, Error, absent, restored, rollback_failed, journal_failed, pure, attempt, ◌>>=◌,
}
use avahi_manager.Config.Disk.Reading.{IsDisk}
use avahi_manager.Config.Disk.Replacing.{replace-Runs, IsDisk-directory}
use avahi_manager.Config.Disk.Showing.{IsImage, Shows, replaced-Shows}
use avahi_manager.Config.Vault.{prune}
use avahi_manager.Config.Vault.Loading.{Holds-dirs}
use avahi_manager.Config.Vault.Pointer.{pointing}
use avahi_manager.Config.Vault.Pruning.{record_baseline-Records, Spares, prune-Spares}
use avahi_manager.Config.Transaction.{
  ApplyResult, clear_pending, commit_body, settle, finished, rolled_back,
}
use avahi_manager.Config.Transaction.Recovery.{
  Recoverable, Settled, Safe, run_clear_pending, run_activate, recover-Recovers,
}
use avahi_manager.Config.World.Runs.{
  Runs, Cond, Runs-pure, Runs-raise, Runs-bind, Runs-post, Runs-attempt, Caught,
}
use avahi_manager.Config.World.Runs.Steps.{Runs-then}
use avahi_manager.Config.Transaction.Outcomes.{
  Aborted, Aborted-crash, Undecided, Safe-Undecided, Accepts, Committed, Spares-Accepts,
  Records-Accepts, Recoverable-Retains, Recording,
}

module _ (env : Env) (root : env.euid ≡ 0) (old new : Image) (rec : Recording env old new)
    (good_old : IsImage old) (good : IsImage new) (fits : IsStorable new) where
  pub run_commit :
      (d : Disk) (v : Vault) (act : Action)
      → IsDisk d
      → Shows old d
      → Recoverable env old v
      → Runs d v
          (commit_body env act old new)
          (λ _ x y. IsDisk x × Shows new x × Recoverable env old y × Accepts env new y)
          (λ _ x y. IsDisk x × Recoverable env old y)
  unfolding commit_body
  run_commit d v act i sh r =
      Runs-bind _ _
        (Runs-post _ (replace-Runs env old new d v i) (λ a x y h. h)
          (λ e x y (s, t). (s, subst (Recoverable env old) (sym t) r)))
        (λ _ x y (s, t, u).
          let i' = IsDisk-directory x u in
          let r' = subst (Recoverable env old) (sym t) r in
          let sh' = subst (Shows new) (sym s) (replaced-Shows env root old new d sh good) in
          Runs-then _ _ (run_activate act (λ e f. (i', r'))) (λ _.
            Runs-bind _ _
              (Runs-post _
                (record_baseline-Records env x y new (codes "Managed configuration") rec.ids
                  good.sorted fits rec.after)
                (λ m x' y' h. h)
                (λ e x' y' (p, k). (subst IsDisk (sym p) i', Recoverable-Retains k r')))
              (λ m x' y' (p, k). Runs-pure tt (
                subst IsDisk (sym p) i',
                subst (Shows new) (sym p) sh',
                Recoverable-Retains k.retains r',
                Records-Accepts k,
              ))))

  -- The journal is written, and the new image is on the disk and accepted.
  abbrev Ready : Cond
  Ready x y = IsDisk x × Shows new x × Recoverable env old y × Accepts env new y

  run_prune :
      (d : Disk) (v : Vault) (act : Action) (id : Str)
      → IsDisk d
      → Settled new d v
      → (a : Accepts env new v)
      → Runs d v
          (attempt (prune env 20) >>= λ warning. pure (
            let r : ApplyResult = record {
              action = act;
              snapshot_id = id;
              revision = revision env new;
              warning = warning;
            } in
            r))
          (λ _. Committed env new)
          (Aborted env old new)
  run_prune d v act id i (sh, e) a =
      Runs-bind _ _
        (Runs-post _ (Runs-attempt _ (prune-Spares env d v a.id 20 a.baseline))
          (λ o x y h. either o x y h)
          (λ e' x y (c, s). Aborted-crash env old new e' x y c (spared x y s)))
        (λ o x y h. Runs-pure _ h)
    where
      spared : (x : Disk) (y : Vault) → Spares a.id d v x y → Undecided env old new x y
      spared x y s = (
        subst IsDisk (sym s.disk) i,
        inr (inl (subst (Shows new) (sym s.disk) sh, s.pending ∙ e)),
      )

      kept : (x : Disk) (y : Vault) → Spares a.id d v x y → Committed env new x y
      kept x y s = (
        subst IsDisk (sym s.disk) i,
        (subst (Shows new) (sym s.disk) sh, s.pending ∙ e),
        Spares-Accepts a s,
      )

      either :
          (o : Option Error) (x : Disk) (y : Vault)
          → Caught {A = Unit {0}} (λ _. Spares a.id d v) (λ _. Spares a.id d v) o x y
          → Committed env new x y
      either none x y (_, s) = kept x y s
      either (some e') x y s = kept x y s

  run_finished :
      (act : Action) (id : Str) (o : Option Error) (x : Disk) (y : Vault)
      → Caught {A = Unit {0}}
          (λ _. Committed env new)
          (λ _ x y. IsDisk x × (Settled new x y ⊎ Recoverable env old y))
          o
          x
          y
      → Runs x y (finished env act id new o) (λ _. Committed env new) (Aborted env old new)
  run_finished act id (some e) x y (i, h) = Runs-raise journal_failed (i, inr h)
  run_finished act id none x y (_, (i, s, a)) = run_prune x y act id i s a

  pub run_settle :
      (act : Action) (id : Str) (o : Option Error) (x : Disk) (y : Vault)
      → Caught {A = Unit {0}} (λ _. Ready) (λ _ x y. IsDisk x × Recoverable env old y) o x y
      → Runs x y (settle env act id new o) (λ _. Committed env new) (Aborted env old new)
  unfolding settle
  run_settle act id none x y (_, (i, sh, r, a)) =
      Runs-bind _ _
        (Runs-post _
          (Runs-attempt clear_pending (
            Runs-post {Q' = λ _. Committed env new}
              {E' = λ _ x y. IsDisk x × (Settled new x y ⊎ Recoverable env old y)} clear_pending
              (run_clear_pending {E = λ _ x y. IsDisk x × (Settled new x y ⊎ Recoverable env old y)}
                (λ e f. (i, inr r)) (λ e f. (i, inl (sh, refl))))
              (λ u x' y' (p, q). (
                subst IsDisk (sym p) i,
                (subst (Shows new) (sym p) sh, ap (λ (z : Vault). z.pending) q),
                subst (Accepts env new) (sym q) (accepts_still a),
              ))
              (λ e x' y' h. h)))
          (λ o x' y' h. h) (λ e x' y' (c, (j, h)). Aborted-crash env old new e x' y' c (j, inr h)))
        (λ o x' y' h. run_finished act id o x' y' h)
    where
      accepts_still : Accepts env new y → Accepts env new (record y { pending = absent })
      accepts_still a = record {
        id = a.id;
        manifest = a.manifest;
        image = a.image;
        baseline = a.baseline;
        holds = Holds-dirs (λ z h. h) a.holds;
        revisions = a.revisions;
      }
  run_settle act id (some e) x y (i, r) =
      Runs-bind _ _
        (Runs-post _ (Runs-attempt _ (recover-Recovers env root old good_old x y true i r))
          (λ o x' y' h. h)
          (λ e' x' y' (c, s).
            Aborted-crash env old new e' x' y' c (Safe-Undecided env old new x' y' s)))
        (λ o x' y' h. back o x' y' h)
    where
      back :
          (o : Option Error) (x' : Disk) (y' : Vault)
          → Caught {A = Unit {0}}
              (λ _ x y. IsDisk x × Settled old x y × (y.baseline ≡ pointing r.journal.baseline_id))
              (λ _. Safe env old)
              o
              x'
              y'
          → Runs x' y' (rolled_back env o) (λ _. Committed env new) (Aborted env old new)
      back none x' y' (_, (j, s, _)) = Runs-raise restored (j, s)
      back (some e') x' y' s = Runs-raise rollback_failed (Safe-Undecided env old new x' y' s)
