-- ===== src/Config/Transaction/Apply.antt =====
-- `apply` on every branch: refused, unchanged, committed, rolled back or interrupted.
use avahi_manager.Prelude.{
  ℕ, ◌+◌, ◌≤◌, ◌≡◌, refl, sym, ◌∙◌, subst, ◌⊎◌, inl, inr, Bool, true, false, not, ◌&&◌, ◌||◌,
  Option, none, some, [], ◌∷◌, arith, Str, codes, same, same_iff, get, length, All, ltb,
}
use avahi_manager.Config.Image.{
  Env, Image, Manifest, Action, revision, IsStorable, entries_ok, validate_image, total_size, File,
  max_file_size, max_total_size, content_ok,
}
use avahi_manager.Config.World.{
  Vault, Disk, Stop, Pending, absent, stored, failed, conflict, attempt, ◌>>=◌, guard, pure,
}
use avahi_manager.Config.Disk.{read}
use avahi_manager.Config.Disk.Reading.{IsDisk, read-Reads, Reads}
use avahi_manager.Config.Disk.Showing.{IsImage, Shows, Reads-IsImage}
use avahi_manager.Config.Vault.{baseline_id, write_vault, record_baseline, prune, decoded}
use avahi_manager.Config.Vault.Loading.{Holds, Holds-dirs, load_snapshot-Holds}
use avahi_manager.Config.Vault.Edits.{run_write}
use avahi_manager.Config.Vault.Saving.{snapshot-Saved}
use avahi_manager.Config.Vault.Pointer.{observe_baseline_id, Points}
use avahi_manager.Config.Transaction.{
  commit_body, settle, transact, baseline_matches, accept_unchanged,
}
use avahi_manager.Config.Transaction.Recovery.{Recoverable, Settled}
use avahi_manager.Config.Transaction.Outcomes.{
  Committed, Aborted, Aborted-settled, Aborted-fault, Aborted-crash, Accepts, Records-Accepts,
  Spares-Accepts, Recording,
}
use avahi_manager.Config.Transaction.Atomicity.{run_commit, run_settle}
use avahi_manager.Config.World.Runs.{Runs, Runs-bind, Runs-post, Runs-attempt, Runs-if, Runs-pure}
use avahi_manager.Config.World.Runs.Steps.{Runs-guard, Runs-skip, Runs-then}
use avahi_manager.Config.World.Runs.Observing.{Runs-observe, Observes, Observes-bind}
use avahi_manager.Config.Path.{valid_path, daemon_conf}
use avahi_manager.Config.Vault.Pruning.{record_baseline-Records, prune-Spares}

abbrev pub with_journal : Pending → Vault → Vault
with_journal p v = record v { pending = stored p }

module _ (env : Env) (root : env.euid ≡ 0) (old new : Image) (rec : Recording env old new)
    (good : IsImage new) (fits : IsStorable new) where
  -- from the journal on
  run_journaled :
      (d : Disk) (v : Vault) (act : Action) (m kept : Manifest) (b : Str)
      → IsDisk d
      → Reads old d
      → v.pending ≡ absent
      → Holds env v m.id kept old
      → Runs d v
          (write_vault (with_journal (record { snapshot_id = m.id; baseline_id = b })) >>= λ _.
            attempt (commit_body env act old new) >>= λ failure. settle env act m.id new failure)
          (λ _. Committed env new)
          (Aborted env old new)
  run_journaled d v act m kept b i rd p h =
      let j : Pending = record { snapshot_id = m.id; baseline_id = b } in
      let sh : Shows old d = λ q. sym (rd.lookups q) in
      let r : Recoverable env old (with_journal j v) = record {
        journal = j;
        pending = refl;
        manifest = kept;
        holds = Holds-dirs (λ s k. k) h;
      } in
      Runs-then _ _
        (run_write (with_journal j) (λ e f. Aborted-settled env old new e d v i (sh, p))
          (λ e f. Aborted-fault env old new e d (with_journal j v) f (i, inr (inr r))))
        (λ _.
          Runs-bind _ _
            (Runs-post _
              (Runs-attempt _ (
                run_commit env root old new rec (Reads-IsImage rd) good fits d (with_journal j v)
                  act i sh r))
              (λ o x y k. k)
              (λ e x y (c, (k, s)). Aborted-crash env old new e x y c (k, inr (inr s))))
            (λ o x y k.
              run_settle env root old new rec (Reads-IsImage rd) good fits act m.id o x y k))

  pub run_transact :
      (d : Disk) (v : Vault) (expected : Str) (act : Action) (reason : Str)
      → IsDisk d
      → Reads old d
      → v.pending ≡ absent
      → Runs d v
          (transact env expected act old new reason)
          (λ _. Committed env new)
          (Aborted env old new)
  unfolding transact
  run_transact d v expected act reason i rd p =
      let sh : Shows old d = λ q. sym (rd.lookups q) in
      Runs-skip _ (λ e f. Aborted-settled env old new e d v i (sh, p))
        (Runs-bind _ _
          (Runs-post _ (snapshot-Saved env d v old reason rec.ids rd.sorted rd.storable rec.before)
            (λ m x y h. h)
            (λ e x y (q, k).
              Aborted-settled env old new e x y (subst IsDisk (sym q) i)
                (subst (Shows old) (sym q) sh, k.pending ∙ p)))
          (λ m x y (q, s).
            after_snapshot x y m (subst IsDisk (sym q) i) (subst (Reads old) (sym q) rd)
              (s.extends.pending ∙ p) s.holds))
    where
      after_snapshot :
          (x : Disk) (y : Vault) (m : Manifest)
          → IsDisk x
          → Reads old x
          → y.pending ≡ absent
          → Holds env y m.id (decoded m) old
          → Runs x y
              (read >>= λ current. guard (same (revision env current) expected) conflict >>= λ _.
                baseline_id >>= λ b.
                write_vault (with_journal (record { snapshot_id = m.id; baseline_id = b })) >>= λ _.
                attempt (commit_body env act old new) >>= λ failure.
                settle env act m.id new failure)
              (λ _. Committed env new)
              (Aborted env old new)
      after_snapshot x y m i rd p h =
          let stop =
            λ (e : Stop). Aborted-settled env old new e x y i ((λ q. sym (rd.lookups q)), p) in
          Runs-observe _ _ (read-Reads i) (λ e k. stop e)
            (λ current c.
              Runs-guard (same (revision env current) expected) conflict _
                (λ t.
                  Runs-observe _ _ (observe_baseline_id env x y) (λ e k. stop e)
                    (λ b k. run_journaled x y act m (decoded m) b i rd p h))
                (λ t. stop (failed conflict)))

entries_ok-IsStorable :
    (env : Env) (total : ℕ) (im : Image)
    → entries_ok env total im ≡ true
    → All (λ (e : Str × File). length e.1.content ≤ max_file_size) im
      × ((total ≤ max_total_size) → total + total_size im ≤ max_total_size)
unfolding entries_ok total_size
entries_ok-IsStorable env total [] h = (tt, λ k. omega (arith, k))
entries_ok-IsStorable env total ((p, f) ∷ im) h =
    let b =
      all_four (valid_path p)
        (not
          (ltb max_file_size (length f.content) || ltb max_total_size (total + length f.content)))
        (content_ok env p f) (entries_ok env (total + length f.content) im) h in
    let rest = entries_ok-IsStorable env (total + length f.content) im b.1 in
    let small = sizes (length f.content) (total + length f.content) b.0 in
    ((small.0, rest.0), λ k. omega (arith, rest.1 small.1))
  where
    all_four : (a b c d : Bool) → (a && b && c && d) ≡ true → (b ≡ true) × (d ≡ true)
    all_four a b c d h = (ground arith, ground arith)

    sizes :
        (n t : ℕ)
        → not (ltb max_file_size n || ltb max_total_size t) ≡ true
        → (n ≤ max_file_size) × (t ≤ max_total_size)
    sizes n t h = (ground arith, ground arith)

-- An image of managed names that passes `ValidateImage` is within the limits on files and on the
-- whole that `loadSnapshot` checks, so that its snapshot can be read back.
pub validate_image-IsStorable :
    (env : Env) (im : Image) → IsImage im → validate_image env im ≡ true → IsStorable im
unfolding validate_image
validate_image-IsStorable env im good h = passed (get daemon_conf im) h
  where
    passed :
        (o : Option File)
        → elim o [ none ↦ false | some _ ↦ entries_ok env 0 im ] ≡ true
        → IsStorable im
    passed none h = cc
    passed (some f) h =
        let s = entries_ok-IsStorable env 0 im h in
        record { small = s.0; modes = good.modes; total = omega (arith, s.1 (omega arith)) }

module _ (env : Env) (root : env.euid ≡ 0) (old new : Image) (rec : Recording env old new)
    (good : IsImage new) (fits : IsStorable new) where
  observe_matches :
      (d : Disk) (v : Vault) (id : Str)
      → Points env d v id
      → Observes d v (baseline_matches env new id) (λ b. b ≡ true → Accepts env new v) (λ _. Unit)
  unfolding baseline_matches
  observe_matches d v [] h = Runs-pure false (refl, refl, λ e. cc)
  observe_matches d v (c ∷ id) h =
      Observes-bind _ _ (load_snapshot-Holds env (c ∷ id)) (λ e k. tt)
        (λ l k. Runs-pure _ (
          refl,
          refl,
          λ e. record {
            id = c ∷ id;
            manifest = l.0;
            image = l.1;
            baseline = pointed h;
            holds = k;
            revisions = (same_iff (revision env l.1) (revision env new)).0 e;
          },
        ))
    where
      pointed :
          ((c ∷ id ≡ []) × (v.baseline ≡ absent)) ⊎ (v.baseline ≡ stored (c ∷ id))
          → v.baseline ≡ stored (c ∷ id)
      pointed (inl (e, k)) = cc
      pointed (inr e) = e

  run_record_unchanged :
      (d : Disk) (v : Vault)
      → IsDisk d
      → Settled new d v
      → Runs d v
          (record_baseline env new (codes "Managed configuration") >>= λ _. prune env 20)
          (λ _. Committed env new)
          (λ _ x y. (x ≡ d) × (y.pending ≡ absent))
  run_record_unchanged d v i (sh, p) =
      Runs-bind _ _
        (Runs-post _ (record_baseline-Records env d v new _ rec.ids good.sorted fits rec.after)
          (λ m x y h. h) (λ e x y (q, k). (q, k.pending ∙ p)))
        (λ m x y (q, r).
          let a : Accepts env new y = Records-Accepts r in
          Runs-post _ (prune-Spares env x y a.id 20 a.baseline)
            (λ _ x' y' s. (
              subst IsDisk (sym (s.disk ∙ q)) i,
              (subst (Shows new) (sym (s.disk ∙ q)) sh, s.pending ∙ r.retains.pending ∙ p),
              Spares-Accepts a s,
            ))
            (λ e x' y' s. (s.disk ∙ q, s.pending ∙ r.retains.pending ∙ p)))

  pub run_unchanged :
      (d : Disk) (v : Vault)
      → IsDisk d
      → Settled new d v
      → Runs d v
          (accept_unchanged env new)
          (λ _. Committed env new)
          (λ _ x y. (x ≡ d) × (y.pending ≡ absent))
  unfolding accept_unchanged
  run_unchanged d v i (sh, p) =
      Runs-observe _ _ (observe_baseline_id env d v) (λ e k. (refl, p))
        (λ id h.
          Runs-observe _ _ (observe_matches d v id h) (λ e k. (refl, p))
            (λ b k.
              Runs-bind _ _
                (Runs-if b (pure tt)
                  (record_baseline env new (codes "Managed configuration") >>= λ _. prune env 20)
                  (λ e. Runs-pure {Q = λ _. Committed env new} tt (i, (sh, p), k e))
                  (λ e. run_record_unchanged d v i (sh, p)))
                (λ _ x y h. Runs-pure _ h)))
