-- ===== src/Config/Disk/Replacing.antt =====
-- `replace` makes the disk show the new image, and where it stops it has touched no snapshot.
use avahi_manager.Prelude.{
  ◌≡◌, refl, ap, ◌∙◌, inl, inr, true, Option, none, some, [], ◌∷◌, Str, get, if◌then◌else◌,
  Bool-cases,
}
use avahi_manager.Config.Image.{Env, Image, File, same_entry}
use avahi_manager.Config.World.{
  Disk, Vault, directory, Stop, pure, Entry, M, skip, ◌>>=◌, missing, not_directory, not_regular,
  ◌>>◌, guard, join_errors,
}
use avahi_manager.Config.Disk.{
  stage, stage_changed, rename_all, staged_file, move_in, unlink, remove_unless, remove_gone,
  make_services, replace, ensured, is_directory,
}
use avahi_manager.Config.World.Runs.{Runs-pure, Runs, IsFault, Runs-post}
use avahi_manager.Config.World.Runs.Steps.{
  Runs-skip, Runs-on_disk, Runs-last, Runs-then, Runs-gets, Runs-guard,
}
use avahi_manager.Config.World.Runs.Observing.{Observes, Observes-bind, Runs-observe}
use avahi_manager.Config.Disk.Reading.{IsDisk}
use avahi_manager.Config.World.Runs.Joining.{Runs-join_errors}

module _ (env : Env) where
  -- what the first loop stages
  unfoldable pub changed : Image → Image → Image
  changed old [] = []
  changed old ((p, f) ∷ new) =
      let rest = changed old new in
      if same_entry (get p old) (some f) then rest else (p, staged_file env true f) ∷ rest

  observe_stage :
      {d : Disk} {v : Vault} (f : File)
      → Observes d v (stage env true f) (λ g. g ≡ staged_file env true f) (λ _. Unit)
  unfolding stage
  observe_stage {d} {v} f =
      let stop = λ (e : Stop) (i : IsFault e).
        let r : (d ≡ d) × (v ≡ v) × Unit {0} = (refl, refl, tt) in r in
      Runs-skip _ stop (
        Runs-skip _ stop (
          Runs-skip _ stop (
            Runs-skip _ stop
              (Runs-skip _ stop (Runs-skip _ stop (Runs-pure _ (refl, refl, refl)))))))

  observe_changed :
      {d : Disk} {v : Vault} (old new : Image)
      → Observes d v (stage_changed env old new) (λ s. s ≡ changed old new) (λ _. Unit)
  unfolding stage_changed changed
  observe_changed old [] = Runs-pure [] (refl, refl, refl)
  observe_changed {d} {v} old ((p, f) ∷ new) = elim (Bool-cases (same_entry (get p old) (some f))) [
    | inl e ↦ rw e (observe_changed old new)
    | inr e ↦ rw e (
        Observes-bind _ _ (observe_stage f) (λ x k. k)
          (λ g h.
            Observes-bind _ _ (observe_changed old new) (λ x k. k)
              (λ s k. Runs-pure _ (refl, refl, cc))))
  ]

unfoldable pub after_renames : Image → Disk → Disk
after_renames [] d = d
after_renames ((p, f) ∷ s) d = after_renames s (move_in p f d)

abbrev pub unless : Option File → Str → Disk → Disk
unless (some _) p d = d
unless none p d = unlink p d

unfoldable pub after_removals : Image → Image → Disk → Disk
after_removals new [] d = d
after_removals new ((p, f) ∷ old) d = after_removals new old (unless (get p new) p d)

-- Where a loop stops, the directory `services` is still there.
run_renames :
    (d : Disk) (v : Vault) (s : Image)
    → d.services ≡ directory
    → Runs d v
        (rename_all s)
        (λ _ x y. (x ≡ after_renames s d) × (y ≡ v))
        (λ _ x y. (x.services ≡ directory) × (y ≡ v))
unfolding rename_all after_renames
run_renames d v [] h = Runs-pure tt (refl, refl)
run_renames d v ((p, f) ∷ s) h =
    Runs-on_disk (move_in p f) (λ _. rename_all s) (λ e i. (h, refl)) (λ e i. (h, refl))
      (run_renames (move_in p f d) v s h)

run_removal :
    (d : Disk) (v : Vault) (o : Option File) (p : Str)
    → d.services ≡ directory
    → Runs d v
        (remove_unless o p)
        (λ _ x y. (x ≡ unless o p d) × (y ≡ v))
        (λ _ x y. (x.services ≡ directory) × (y ≡ v))
unfolding remove_unless
run_removal d v (some f) p h = Runs-pure tt (refl, refl)
run_removal d v none p h =
    Runs-last _ (
      Runs-on_disk (unlink p) pure (λ e i. (h, refl)) (λ e i. (h, refl))
        (Runs-pure tt (refl, refl)))

services-removal : (d : Disk) (o : Option File) (p : Str) → (unless o p d).services ≡ d.services
services-removal d none p = refl
services-removal d (some f) p = refl

run_removals :
    (d : Disk) (v : Vault) (new old : Image)
    → d.services ≡ directory
    → Runs d v
        (remove_gone new old)
        (λ _ x y. (x ≡ after_removals new old d) × (y ≡ v))
        (λ _ x y. (x.services ≡ directory) × (y ≡ v))
unfolding remove_gone after_removals
run_removals d v new [] h = Runs-pure tt (refl, refl)
run_removals d v new ((p, f) ∷ old) h =
    Runs-then _ _ (run_removal d v (get p new) p h)
      (λ _. run_removals (unless (get p new) p d) v new old (services-removal d (get p new) p ∙ h))

services-renames : (s : Image) (d : Disk) → (after_renames s d).services ≡ d.services
unfolding after_renames
services-renames [] d = refl
services-renames ((p, f) ∷ s) d = services-renames s (move_in p f d)

services-removals : (new old : Image) (d : Disk) → (after_removals new old d).services ≡ d.services
unfolding after_removals
services-removals new [] d = refl
services-removals new ((p, f) ∷ old) d =
    services-removals new old _ ∙ services-removal d (get p new) p

-- the disk that `replace` leaves
unfoldable pub replaced : Env → Image → Image → Disk → Disk
replaced env old new d =
    after_removals new old (after_renames (changed env old new) (make_services d))

pub services-replaced :
    (env : Env) (old new : Image) (d : Disk)
    → (make_services d).services ≡ directory
    → (replaced env old new d).services ≡ directory
unfolding replaced
services-replaced env old new d h =
    services-removals new old _ ∙ services-renames (changed env old new) (make_services d) ∙ h

is_directory_sound : (s : Entry) → is_directory s ≡ true → s ≡ directory
is_directory_sound directory h = refl
is_directory_sound missing h = cc
is_directory_sound not_directory h = cc

pub IsDisk-directory : (d : Disk) → d.services ≡ directory → IsDisk d
IsDisk-directory d h k = absurd (k h)

in_directory :
    {A : Type 0} {m : M A} {d : Disk} {v : Vault} {Q : A → Disk → Vault → Type 0}
    → Runs d v m Q (λ _ x y. (x.services ≡ directory) × (y ≡ v))
    → Runs d v m Q (λ _ x y. IsDisk x × (y ≡ v))
in_directory t = Runs-post _ t (λ a x y h. h) (λ e x y (h, k). (IsDisk-directory x h, k))

-- the rest of `replace` behind the look at `services`
abbrev after_check : Env → Image → Image → Entry → M (Unit {0})
after_check env old new s = do
  guard (is_directory s) not_regular
  staged ← stage_changed env old new
  rename_all staged
  remove_gone new old
  join_errors skip skip

finish :
    (env : Env) (old new : Image) (d : Disk) (v : Vault)
    → (make_services d).services ≡ directory
    → Runs
        (replaced env old new d)
        v
        (join_errors skip skip)
        (λ _ x y. (x ≡ replaced env old new d) × (y ≡ v) × (x.services ≡ directory))
        (λ _ x y. IsDisk x × (y ≡ v))
finish env old new d v h =
    Runs-join_errors skip skip (sync (replaced env old new d) v (refl, refl, h')) sync missed
  where
    h' : (replaced env old new d).services ≡ directory
    h' = services-replaced env old new d h

    Done : Disk → Vault → Type 0
    Done x y = (x ≡ replaced env old new d) × (y ≡ v) × (x.services ≡ directory)

    sync :
        (x : Disk) (y : Vault) → Done x y → Runs x y skip (λ _. Done) (λ _ a b. IsDisk a × (b ≡ v))
    sync x y (p, q, r) =
        Runs-last _ (Runs-skip pure (λ e i. (IsDisk-directory x r, q)) (Runs-pure tt (p, q, r)))

    missed :
        (x : Disk) (y : Vault)
        → IsDisk x × (y ≡ v)
        → Runs x y skip (λ _ a b. IsDisk a × (b ≡ v)) (λ _ a b. IsDisk a × (b ≡ v))
    missed x y f = Runs-last _ (Runs-skip pure (λ e i. f) (Runs-pure tt f))

-- On every schedule, `replace` leaves the backup directory alone, and if it returns without an
-- error the disk is the one that its three loops make.
pub replace-Runs :
    (env : Env) (old new : Image) (d : Disk) (v : Vault)
    → IsDisk d
    → Runs d v
        (replace env old new)
        (λ _ x y. (x ≡ replaced env old new d) × (y ≡ v) × (x.services ≡ directory))
        (λ _ x y. IsDisk x × (y ≡ v))
unfolding replace replaced
replace-Runs env old new d v good =
    let d₁ = make_services d in
    let good₁ : IsDisk d₁ = λ h p e. good (λ k. h (ap ensured k)) p e in
    let stop = λ (e : Stop) (i : IsFault e). let r : IsDisk d₁ × (v ≡ v) = (good₁, refl) in r in
    Runs-on_disk make_services _ (λ e i. (good, refl)) stop
      (Runs-skip _ stop (
        Runs-gets (λ x y. x.services) (after_check env old new)
          (Runs-guard (is_directory d₁.services) not_regular _
            (λ b.
              let h = is_directory_sound d₁.services b in
              Runs-observe _ _ (observe_changed env old new) (λ e k. (good₁, refl))
                (λ s e. rw e (
                  Runs-then _ _ (in_directory (run_renames d₁ v (changed env old new) h)) (λ _.
                    Runs-then _ _
                      (in_directory (run_removals _ v new old (services-renames _ d₁ ∙ h)))
                      (λ _. finish env old new d v h)))))
            (λ b. (good₁, refl)))))
