-- ===== src/Config/Disk/Showing.antt =====
-- The disk that `replace` makes shows the new image, and nothing else has changed on it.
use avahi_manager.Prelude.{
  ◌<◌, ◌≡◌, refl, sym, ap, ◌∙◌, inl, inr, true, false, Option, none, some, [], ◌∷◌, arith, Str,
  same, same_iff, get, All, if◌then◌else◌, Bool-cases, IsSorted, IsAbove, get-del, get-IsAbove,
  get-put, All-get, subst,
}
use avahi_manager.Config.Image.{File, Env, Image, same_entry, same_file}
use avahi_manager.Config.Disk.Replacing.{
  after_renames, after_removals, changed, replaced, unless, replace-Runs,
}
use avahi_manager.Config.World.{Node, Disk, regular, Vault}
use avahi_manager.Config.Disk.{staged_file, perm, move_in, make_services, replace}
use avahi_manager.Config.Disk.Collecting.{node_file}
use avahi_manager.Config.Disk.Reading.{managed, shown, Reads, IsDisk}
use avahi_manager.Config.World.Runs.{Runs, Runs-post}

abbrev over : Option File → Option Node → Option Node
over none n = n
over (some f) n = some (regular f)

abbrev gone : Option File → Option File → Option Node → Option Node
gone (some _) none n = none
gone _ _ n = n

get-after_renames :
    (p : Str) (s : Image) (d : Disk)
    → IsSorted s
    → get p (after_renames s d).files ≡ over (get p s) (get p d.files)
unfolding after_renames get
get-after_renames p [] d h = refl
get-after_renames p ((q, f) ∷ s) d (a, h) =
    get-after_renames p s (move_in q f d) h
    ∙ rw get-put (ground (arith, get-IsAbove q s a, same_iff q p))

abbrev missing_unless : Option File → Option Node → Option Node
missing_unless (some _) n = n
missing_unless none n = none

get-unless :
    (p q : Str) (o : Option File) (d : Disk)
    → get p (unless o q d).files
      ≡ (if same q p then missing_unless o (get p d.files) else get p d.files)
get-unless p q (some f) d = ground arith
get-unless p q none d = get-del p q d.files

get-after_removals :
    (p : Str) (new old : Image) (d : Disk)
    → get p (after_removals new old d).files ≡ gone (get p old) (get p new) (get p d.files)
unfolding after_removals get
get-after_removals p new [] d = refl
get-after_removals p new ((q, f) ∷ old) d =
    get-after_removals p new old (unless (get q new) q d)
    ∙ rw get-unless (ground (arith, same_iff q p))

module _ (env : Env) where
  -- what is staged for a name
  abbrev pick : Option File → Option File → Option File
  pick o none = none
  pick o (some f) = if same_entry o (some f) then none else some (staged_file env true f)

  IsAbove-changed : (k : Str) (old new : Image) → IsAbove k new → IsAbove k (changed env old new)
  unfolding changed
  IsAbove-changed k old [] a = tt
  IsAbove-changed k old ((p, f) ∷ new) (b, a) =
      elim (Bool-cases (same_entry (get p old) (some f))) [
        | inl e ↦ rw e (IsAbove-changed k old new a)
        | inr e ↦ rw e (b, IsAbove-changed k old new a)
      ]

  changed-IsSorted : (old new : Image) → IsSorted new → IsSorted (changed env old new)
  unfolding changed
  changed-IsSorted old [] h = tt
  changed-IsSorted old ((p, f) ∷ new) (a, h) = elim (Bool-cases (same_entry (get p old) (some f))) [
    | inl e ↦ rw e (changed-IsSorted old new h)
    | inr e ↦ rw e (IsAbove-changed p old new a, changed-IsSorted old new h)
  ]

  get-changed :
      (p : Str) (old new : Image)
      → IsSorted new
      → get p (changed env old new) ≡ pick (get p old) (get p new)
  unfolding changed get
  get-changed p old [] h = refl
  get-changed p old ((q, f) ∷ new) (a, h) =
      ground (arith, get-IsAbove q new a, get-changed p old new h, same_iff q p)

  get-replaced :
      (p : Str) (old new : Image) (d : Disk)
      → IsSorted new
      → get p (replaced env old new d).files
        ≡ gone (get p old) (get p new) (over (pick (get p old) (get p new)) (get p d.files))
  unfolding replaced
  get-replaced p old new d h =
      get-after_removals p new old _
      ∙ ap (gone (get p old) (get p new)) (
          get-after_renames p (changed env old new) (make_services d) (changed-IsSorted old new h)
          ∙ ap (λ o. over o (get p d.files)) (get-changed p old new h))

  same_file_sound : (a b : File) → same_file a b ≡ true → a ≡ b
  unfolding same_file
  same_file_sound a b h = ground (arith, same_iff a.content b.content)

  perm-staged_file : (f : File) → env.euid ≡ 0 → f.mode < 512 → perm (staged_file env true f) ≡ f
  unfolding staged_file
  perm-staged_file f r h = ground arith

  entry_lem :
      (o n : Option File) (x : Option Node)
      → env.euid ≡ 0
      → node_file x ≡ o
      → ((f : File) → n ≡ some f → f.mode < 512)
      → node_file (gone o n (over (pick o n) x)) ≡ n
  unfolding same_entry
  entry_lem none none x r e h = e
  entry_lem (some g) none x r e h = refl
  entry_lem none (some f) x r e h = ap some (perm-staged_file f r (h f refl))
  entry_lem (some g) (some f) x r e h = elim (Bool-cases (same_file g f)) [
    | inl eq ↦ rw eq (e ∙ ap some (same_file_sound g f eq))
    | inr ne ↦ rw ne (ap some (perm-staged_file f r (h f refl)))
  ]

-- an image that can stand on the disk: of managed names alone, with plain permission bits
pub record IsImage (im : Image) : Type 0 where
  pub sorted : IsSorted im
  pub modes : All (λ (e : Str × File). e.1.mode < 512) im
  pub names : (p : Str) → managed p ≡ false → get p im ≡ none

-- the disk shows the image, under every name
abbrev pub Shows : Image → Disk → Type 0
Shows im d = (p : Str) → shown d p ≡ get p im

pub Reads-IsImage : {im : Image} {d : Disk} → Reads im d → IsImage im
unfolding shown
Reads-IsImage {im} {d} r = record {
  sorted = r.sorted;
  modes = r.storable.modes;
  names = λ p h. r.lookups p ∙ rw h;
}

module _ (env : Env) (root : env.euid ≡ 0) (old new : Image) (d : Disk) where
  module _ (before : Shows old d) (good : IsImage new) where
    shows_managed :
        (p : Str) → managed p ≡ true → node_file (get p (replaced env old new d).files) ≡ get p new
    unfolding shown
    shows_managed p h = rw (get-replaced env p old new d good.sorted) (
        entry_lem env (get p old) (get p new) (get p d.files) root (ground (arith, before p))
          (λ f e. All-get _ p f new good.modes e))

    pub replaced-Shows : Shows new (replaced env old new d)
    unfolding shown
    replaced-Shows p = elim (Bool-cases (managed p)) [
      | inl h ↦ rw h (shows_managed p h)
      | inr h ↦ rw h (sym (good.names p h))
    ]

    -- a file under any other name stays as it is
    pub replaced_elsewhere :
        (p : Str) → managed p ≡ false → get p (replaced env old new d).files ≡ get p d.files
    unfolding shown
    replaced_elsewhere p h =
        get-replaced env p old new d good.sorted ∙ ground (arith, before p, good.names p h)

-- On every schedule, `replace` run by root on a disk that shows the old image, to a new
-- image of managed names, leaves the backup
-- directory alone; if it returns, the disk shows the new image, and under every name that the
-- program does not manage there is what was there before.
pub replace-Shows :
    (env : Env) (old new : Image) (d : Disk) (v : Vault)
    → env.euid ≡ 0
    → IsDisk d
    → Shows old d
    → IsImage new
    → Runs d v
        (replace env old new)
        (λ _ x y.
          Shows new x × (y ≡ v) × ((p : Str) → managed p ≡ false → get p x.files ≡ get p d.files))
        (λ _ x y. IsDisk x × (y ≡ v))
replace-Shows env old new d v root i before good =
    Runs-post _ (replace-Runs env old new d v i)
      (λ _ x y (p, q, _). (
        subst (Shows new) (sym p) (replaced-Shows env root old new d before good),
        q,
        λ k h.
            ap (λ (z : Disk). get k z.files) p
            ∙ replaced_elsewhere env root old new d before good k h,
      ))
      (λ e x y h. h)
