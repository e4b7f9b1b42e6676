-- ===== src/Config/Transaction/Changes.antt =====
-- `Store.Apply` and `Store.Restore`: the image that they make, and the transaction.
use avahi_manager.Prelude.{
  ◌<◌, ◌≡◌, refl, ap, ◌∙◌, subst, ◌⊎◌, inl, inr, Bool, true, Option, none, some, [], ◌∷◌, ◌++◌,
  arith, Str, codes, same, same_iff, Map, get, All, if◌then◌else◌, Bool-cases, All-get,
  del-IsSorted, get-del, get-put, All-del, put-IsSorted, All-put,
}
use avahi_manager.Config.Image.{Env, Image, File, Manifest}
use avahi_manager.Config.World.{Vault, Disk, invalid_path, Stop}
use avahi_manager.Config.Disk.Reading.{IsDisk, read-Reads, Reads, managed}
use avahi_manager.Config.Disk.Showing.{IsImage, Reads-IsImage}
use avahi_manager.Config.Vault.Loading.{Holds, load_snapshot-Holds, Holds-unique}
use avahi_manager.Config.Transaction.{
  apply, apply_changes, with_change, with_changes, rewritten, restore,
}
use avahi_manager.Config.Transaction.Outcomes.{Committed, Aborted, Recording}
use avahi_manager.Config.Transaction.Operations.{apply-Committed}
use avahi_manager.Config.World.Runs.{Runs, Runs-pure, Runs-post, Cond}
use avahi_manager.Config.World.Runs.Steps.{Runs-guard}
use avahi_manager.Config.World.Runs.Observing.{Observes, Runs-observe}
use avahi_manager.Config.Path.{valid_path}

-- what a change asks for under a name
abbrev pub asked : Env → Option (Option Str) → Option File → Option File
asked env none o = o
asked env (some none) o = none
asked env (some (some bytes)) o = some (rewritten env o bytes)

-- `new` is `old` with the changes, and nothing else.
pub record Changed (env : Env) (old : Image) (changes : Map (Option Str)) (new : Image)
    : Type 0 where
  pub image : IsImage new
  pub lookups : (p : Str) → get p new ≡ asked env (get p changes) (get p old)

module _ (env : Env) (old : Image) (good : IsImage old) where
  rewritten_mode :
      (p bytes : Str) (o : Option File) → get p old ≡ o → (rewritten env o bytes).mode < 512
  rewritten_mode p bytes none e = omega arith
  rewritten_mode p bytes (some f) e = All-get _ p f old good.modes e

  with_change-IsImage :
      (p : Str) (c : Option Str) (im : Image)
      → managed p ≡ true
      → IsImage im
      → IsImage (with_change env old p c im)
  with_change-IsImage p none im h i = record {
    sorted = del-IsSorted p im i.sorted;
    modes = All-del _ p im i.modes;
    names = λ q m. rw get-del (ground (arith, i.names q m));
  }
  with_change-IsImage p (some bytes) im h i = record {
    sorted = put-IsSorted p _ im i.sorted;
    modes = All-put _ p _ im (rewritten_mode p bytes (get p old) refl) i.modes;
    names = λ q m. rw get-put (ground (arith, i.names q m, (same_iff p q).0));
  }

  get-with_change :
      (p q : Str) (c : Option Str) (im : Image)
      → get q (with_change env old p c im)
        ≡ (if same p q then asked env (some c) (get p old) else get q im)
  get-with_change p q none im = get-del q p im
  get-with_change p q (some bytes) im = get-put q p _ im

  chosen :
      (p q : Str) (c : Option Str) (changes : Map (Option Str)) (im : Image)
      → get q im ≡ asked env (get q changes) (get q old)
      → get q (with_change env old p c im) ≡ asked env (get q ((p, c) ∷ changes)) (get q old)
  unfolding get
  chosen p q c changes im h = get-with_change p q c im ∙ elim (Bool-cases (same p q)) [
    | inl e ↦ rw e (ap (λ (k : Str). asked env (some c) (get k old)) ((same_iff p q).0 e))
    | inr e ↦ rw e h
  ]

  pub observe_changes :
      (d : Disk) (v : Vault) (changes : Map (Option Str))
      → All (λ (e : Str × Option Str). managed e.0 ≡ true) changes
      → Observes d v (with_changes env old changes) (Changed env old changes) (λ _. Unit)
  unfolding with_changes get
  observe_changes d v [] a =
      Runs-pure old (refl, refl, record { image = good; lookups = λ p. refl })
  observe_changes d v ((p, c) ∷ changes) (a, h) =
      Runs-guard (valid_path p) invalid_path _
        (λ b.
          Runs-observe _ _ (observe_changes d v changes h) (λ e k. (refl, refl, tt))
            (λ im k. Runs-pure (with_change env old p c im) (
              refl,
              refl,
              record {
                image = with_change-IsImage p c im a k.image;
                lookups = λ q. chosen p q c changes im (k.lookups q);
              },
            )))
        (λ b. (refl, refl, tt))

-- The names on the disk and in the changes are UTF-8 and cleaned paths, the names of snapshots are
-- valid, and the texts of the manifests are within the limit of `readFile`: `Recording` of the
-- image that `read` gives and of the changed one.
abbrev pub CanRecord : Env → Disk → Map (Option Str) → Type 0
CanRecord env d changes =
    (old new : Image) → Reads old d → Changed env old changes new → Recording env old new

-- how `Store.Apply` ends with a result, and without one
abbrev pub Applied : Env → Disk → Map (Option Str) → Cond
Applied env d changes x y =
    (old new : Image) × Reads old d × Changed env old changes new × Committed env new x y

abbrev pub NotApplied : Env → Disk → Vault → Map (Option Str) → Stop → Cond
NotApplied env d v changes e x y =
    ((x ≡ d) × (y ≡ v))
    ⊎ ((old new : Image) × Reads old d × Changed env old changes new × Aborted env old new e x y)

-- how `Store.Restore` ends without a result
abbrev pub NotRestored : Env → Disk → Vault → Image → Stop → Cond
NotRestored env d v im e x y =
    ((x ≡ d) × (y ≡ v)) ⊎ ((old : Image) × Reads old d × Aborted env old im e x y)

module _ (env : Env) (root : env.euid ≡ 0) (d : Disk) (v : Vault) (i : IsDisk d) where
  -- `Store.Apply` with changes of managed names, run by root, with valid names of snapshots, where
  -- the names of the old and the changed image are UTF-8 and cleaned paths and the texts of their
  -- manifests are within the limit of `readFile`, on every schedule of failures and stops: a
  -- result is returned only where the disk shows what it showed before with exactly the changes
  -- that were asked for, no journal is left, and the baseline names a snapshot of an image of that
  -- revision. Otherwise nothing has changed, or the old or the new image stands without a journal,
  -- or the journal names a snapshot that holds the old image; the error that says so means that
  -- the old image is back.
  pub apply_changes-Committed :
      (has_controller : Bool) (expected : Str) (changes : Map (Option Str))
      → All (λ (e : Str × Option Str). managed e.0 ≡ true) changes
      → CanRecord env d changes
      → Runs d v
          (apply_changes env has_controller expected changes)
          (λ _ x y.
            (old new : Image) × Reads old d × Changed env old changes new × Committed env new x y)
          (λ e x y.
            ((x ≡ d) × (y ≡ v))
            ⊎ ((old new : Image) × Reads old d
                × Changed env old changes new
                × Aborted env old new e x y))
  unfolding apply_changes
  apply_changes-Committed c expected changes a can =
      Runs-observe _ _ (read-Reads i) (λ e k. inl (refl, refl))
        (λ old rd.
          Runs-observe _ _ (observe_changes env old (Reads-IsImage rd) d v changes a)
            (λ e k. inl (refl, refl))
            (λ new ch.
              Runs-post _
                (apply-Committed env root old new (can old new rd ch) ch.image d v i rd c expected
                  (codes "Save & Apply"))
                (λ _ x y h. (old, new, rd, ch, h))
                (λ e x y h. elim h [ inl k ↦ inl k | inr k ↦ inr (old, new, rd, ch, k) ])))

  -- `Store.Restore` of a snapshot that holds an image of managed names, run by root, with valid
  -- names of snapshots, where the names of both images are UTF-8 and cleaned paths and the texts
  -- of their manifests are within the limit of `readFile`, on every schedule: a result is returned
  -- only where the disk shows that image, no journal is left and the baseline names a snapshot of
  -- an image of that revision. Otherwise nothing has changed, or the old or the restored image
  -- stands without a journal, or the journal names a snapshot that holds the old image.
  pub restore-Committed :
      (has_controller : Bool) (id expected : Str) (m : Manifest) (im : Image)
      → Holds env v id m im
      → IsImage im
      → ((old : Image) → Reads old d → Recording env old im)
      → Runs d v
          (restore env has_controller id expected)
          (λ _. Committed env im)
          (NotRestored env d v im)
  unfolding restore
  restore-Committed c id expected m im h good can =
      Runs-observe _ _ (load_snapshot-Holds env id) (λ e k. inl (refl, refl))
        (λ l k.
          Runs-observe _ _ (read-Reads i) (λ e k. inl (refl, refl))
            (λ old rd. run_restore l.1 (Holds-unique env h k) old rd))
    where
      run_restore :
          (new : Image)
          → im ≡ new
          → (old : Image) → Reads old d
          → Runs d v
              (apply env c expected old new (codes "Restore " ++ id))
              (λ _. Committed env im)
              (λ e x y.
                ((x ≡ d) × (y ≡ v)) ⊎ ((old : Image) × Reads old d × Aborted env old im e x y))
      run_restore new e old rd =
          subst
            (λ (n : Image).
              Runs d v (apply env c expected old n (codes "Restore " ++ id)) (λ _. Committed env im)
                (λ e x y.
                  ((x ≡ d) × (y ≡ v)) ⊎ ((old : Image) × Reads old d × Aborted env old im e x y)))
            e
            (Runs-post _
              (apply-Committed env root old im (can old rd) good d v i rd c expected
                (codes "Restore " ++ id))
              (λ _ x y h. h) (λ e x y h. elim h [ inl k ↦ inl k | inr k ↦ inr (old, rd, k) ]))
