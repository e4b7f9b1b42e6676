-- ===== src/Config/Disk/Within.antt =====
-- Without a failure, `read` returns an image of every disk within the limits, and `replace`
-- succeeds.
use avahi_manager.Prelude.{
  ℕ, ◌+◌, ◌≡◌, refl, subst, ◌≢◌, Bool, true, false, not, ◌&&◌, ◌||◌, Option, none, some, List, [],
  ◌∷◌, arith, Str, Map, get, put, keys, length, ltb, if◌then◌else◌,
}
use avahi_manager.Config.World.{
  Disk, Vault, Node, regular, special, Entry, missing, directory, not_directory, pure, gets,
  optional, ◌>>=◌, skip, not_exist, raise, too_large, not_regular, ◌>>◌, guard, on_disk,
  join_errors,
}
use avahi_manager.Config.World.Does.{
  Does, Does-pure, Does-skip, Does-on_disk, Does-gets, Does-guard, Does-bind, Does-found,
  Does-missing, Fails-raise, Fails-bind, Does-join_errors,
}
use avahi_manager.Config.Image.{Env, Image, File, max_file_size, max_total_size, same_entry}
use avahi_manager.Config.Path.{daemon_conf, hosts_file}
use avahi_manager.Config.Disk.{
  perm, read_node, read_file, add_found, read_names, list_services, service_entries, read,
  make_services, ensured, is_directory, stage, staged_file, stage_changed, move_in, unlink,
  rename_all, remove_unless, remove_gone, replace,
}

-- what stands under a name fits behind `total` bytes, and so does the rest
abbrev fits_node : ℕ → Option Node → (ℕ → Bool) → Bool
fits_node total none rest = rest total
fits_node total (some special) rest = false
fits_node total (some (regular f)) rest =
    not (ltb max_file_size (length f.content) || ltb max_total_size (total + length f.content))
    && rest (total + length f.content)

unfoldable pub fits : Map Node → ℕ → List Str → Bool
unfolding get
fits files total [] = true
fits files total (p ∷ ps) = fits_node total (get p files) (λ t. fits files t ps)

abbrev pub listed : Map Node → Entry → List Str
listed files missing = []
listed files directory = service_entries (keys files)
listed files not_directory = []

-- The managed names hold regular files within the limits of a file and of all files.
abbrev pub IsWithin : Disk → Type 0
IsWithin d =
    (d.services ≢ not_directory)
    × (fits d.files 0 (daemon_conf ∷ hosts_file ∷ listed d.files d.services) ≡ true)

abbrev found_at : Option Node → Option File
found_at none = none
found_at (some special) = none
found_at (some (regular f)) = some (perm f)

module _ {d : Disk} {v : Vault} where
  Does-node :
      (p : Str) (o : Option Node)
      → get p d.files ≡ o
      → Does d v (gets (λ w. get p w.disk.files)) o d v
  Does-node p o h =
      subst (λ q. Does d v (gets (λ w. get p w.disk.files)) q d v) h
        (Does-gets (λ x y. get p x.files))

  Does-no_file : (p : Str) → get p d.files ≡ none → Does d v (optional (read_file p)) none d v
  unfolding read_file read_node
  Does-no_file p h = Does-missing (read_file p) (
      Fails-bind skip _ tt not_exist Does-skip
        (Fails-bind _ read_node none not_exist (Does-node p none h) (Fails-raise not_exist)))

  Does-read_node :
      (f : File)
      → ltb max_file_size (length f.content) ≡ false
      → Does d v (read_node (some (regular f))) (perm f) d v
  unfolding read_node
  Does-read_node f small = Does-bind skip _ tt (perm f) Does-skip (
      Does-bind skip _ tt (perm f) Does-skip (
        Does-bind skip
          (λ _. if ltb max_file_size (length f.content) then raise too_large else pure (perm f)) tt
          (perm f) Does-skip (rw small (Does-pure (perm f)))))

  Does-regular :
      (p : Str) (f : File)
      → get p d.files ≡ some (regular f)
      → ltb max_file_size (length f.content) ≡ false
      → Does d v (optional (read_file p)) (some (perm f)) d v
  unfolding read_file
  Does-regular p f h small = Does-found (read_file p) (perm f) (
      Does-bind skip _ tt (perm f) Does-skip (
        Does-bind _ read_node (some (regular f)) (perm f) (Does-node p (some (regular f)) h)
          (Does-read_node f small)))

  Does-read_names :
      (ps : List Str) (total : ℕ)
      → fits d.files total ps ≡ true
      → (im : Image) × Does d v (read_names total ps) im d v
  unfolding read_names fits add_found
  Does-read_names [] total h = ([], Does-pure [])
  Does-read_names (p ∷ ps) total h = at (get p d.files) refl h (λ t. Does-read_names ps t)
    where
      at :
          (o : Option Node)
          → get p d.files ≡ o
          → fits_node total o (λ t. fits d.files t ps) ≡ true
          → ((t : ℕ) → fits d.files t ps ≡ true → (im : Image) × Does d v (read_names t ps) im d v)
          → (im : Image) × Does d v
              (optional (read_file p) >>= λ found. add_found p total found (λ t. read_names t ps))
              im
              d
              v
      at none e q later =
          let (im, rest) = later total q in (im, Does-bind _ _ none im (Does-no_file p e) rest)
      at (some special) e q later = absurd (not_both q)
        where
          not_both : false ≡ true → ⊥
          not_both x = cc
      at (some (regular f)) e q later =
          let small : ltb max_file_size (length f.content) ≡ false = ground arith in
          let few : ltb max_total_size (total + length f.content) ≡ false = ground arith in
          let enough : fits d.files (total + length f.content) ps ≡ true = ground arith in
          let (im, rest) = later (total + length f.content) enough in
          (
            put p (perm f) im,
            Does-bind _ _ (some (perm f)) (put p (perm f) im) (Does-regular p f e small) (
                rw (add_found, few)
                  (Does-bind _ _ im (put p (perm f) im) rest (Does-pure (put p (perm f) im)))),
          )

  Does-list_services :
      (e : Entry)
      → d.services ≡ e
      → e ≢ not_directory
      → Does d v (list_services e) (listed d.files e) d v
  unfolding list_services
  Does-list_services missing h ne = Does-pure []
  Does-list_services not_directory h ne = absurd (ne refl)
  Does-list_services directory h ne =
      Does-bind skip _ tt (service_entries (keys d.files)) Does-skip (
        Does-bind skip _ tt (service_entries (keys d.files)) Does-skip
          (Does-gets (λ x y. service_entries (keys x.files))))

  -- A disk within the limits can be read.
  pub Does-read : IsWithin d → (im : Image) × Does d v read im d v
  unfolding read
  Does-read (ne, h) =
      let reading = λ (names : List Str). read_names 0 (daemon_conf ∷ hosts_file ∷ names) in
      let (im, names) =
        Does-read_names (daemon_conf ∷ hosts_file ∷ listed d.files d.services) 0 h in
      (
        im,
        Does-bind skip (λ _. gets (λ w. w.disk.services) >>= λ e. list_services e >>= reading) tt im
            Does-skip
            (Does-bind _ (λ e. list_services e >>= reading) d.services im
              (Does-gets (λ x y. x.services))
              (Does-bind _ reading (listed d.files d.services) im
                (Does-list_services d.services refl ne) names)),
      )

-- `replace` succeeds where `services` is not something else than a directory.
Does-stage :
    (env : Env) {d : Disk} {v : Vault} (f : File)
    → Does d v (stage env true f) (staged_file env true f) d v
unfolding stage
Does-stage env f =
    let end = staged_file env true f in
    Does-bind skip _ tt end Does-skip (
      Does-bind skip _ tt end Does-skip (
        Does-bind skip _ tt end Does-skip (
          Does-bind skip _ tt end Does-skip (
            Does-bind skip _ tt end Does-skip
              (Does-bind skip _ tt end Does-skip (Does-pure end))))))

Does-stage_changed :
    (env : Env) {d : Disk} {v : Vault} (old new : Image)
    → (st : Image) × Does d v (stage_changed env old new) st d v
unfolding stage_changed
Does-stage_changed env old [] = ([], Does-pure [])
Does-stage_changed env old ((p, f) ∷ new) =
    at (same_entry (get p old) (some f)) (Does-stage_changed env old new)
  where
    at :
        {d : Disk} {v : Vault} (b : Bool)
        → ((st : Image) × Does d v (stage_changed env old new) st d v)
        → (st : Image) × Does d v
            (if b then stage_changed env old new else (do
              tmp ← stage env true f
              rest ← stage_changed env old new
              pure ((p, tmp) ∷ rest)))
            st
            d
            v
    at true later = later
    at false (st, later) =
        let all = (p, staged_file env true f) ∷ st in
        (
          all,
          Does-bind _ _ (staged_file env true f) all (Does-stage env f)
              (Does-bind _ _ st all later (Does-pure all)),
        )

Does-rename_all : {d : Disk} {v : Vault} (st : Image) → (x : Disk) × Does d v (rename_all st) tt x v
unfolding rename_all
Does-rename_all {d = d} [] = (d, Does-pure tt)
Does-rename_all {d = d} ((p, f) ∷ st) =
    let (x, later) = Does-rename_all {d = move_in p f d} st in
    (x, Does-bind _ _ tt tt (Does-on_disk (move_in p f)) later)

Does-remove_unless :
    {d : Disk} {v : Vault} (o : Option File) (p : Str)
    → (x : Disk) × Does d v (remove_unless o p) tt x v
unfolding remove_unless
Does-remove_unless {d = d} none p = (unlink p d, Does-on_disk (unlink p))
Does-remove_unless {d = d} (some f) p = (d, Does-pure tt)

Does-remove_gone :
    {d : Disk} {v : Vault} (new old : Image) → (x : Disk) × Does d v (remove_gone new old) tt x v
unfolding remove_gone
Does-remove_gone {d = d} new [] = (d, Does-pure tt)
Does-remove_gone {d = d} new ((p, f) ∷ old) =
    let (x, first) = Does-remove_unless {d = d} (get p new) p in
    let (z, later) = Does-remove_gone {d = x} new old in (z, Does-bind _ _ tt tt first later)

ensured-directory : (e : Entry) → e ≢ not_directory → is_directory (ensured e) ≡ true
ensured-directory missing h = refl
ensured-directory directory h = refl
ensured-directory not_directory h = absurd (h refl)

pub Does-replace :
    (env : Env) (old new : Image) (d : Disk) (v : Vault)
    → d.services ≢ not_directory
    → (x : Disk) × Does d v (replace env old new) tt x v
unfolding replace
Does-replace env old new d v ne =
    let made = make_services d in
    let (st, staged) = Does-stage_changed env {d = made} {v = v} old new in
    let (x, renamed) = Does-rename_all {d = made} {v = v} st in
    let (z, removed) = Does-remove_gone {d = x} {v = v} new old in
    let behind_staging =
      λ (s : Image). rename_all s >> (remove_gone new old >> join_errors skip skip) in
    let behind_check = λ (e : Entry).
      guard (is_directory e) not_regular >> (stage_changed env old new >>= behind_staging) in
    (
      z,
      Does-bind (on_disk make_services) _ tt tt (Does-on_disk make_services) (
          Does-bind skip (λ _. gets (λ w. w.disk.services) >>= behind_check) tt tt Does-skip
            (Does-bind _ behind_check (ensured d.services) tt (Does-gets (λ x y. x.services)) (
              Does-bind _ (λ _. stage_changed env old new >>= behind_staging) tt tt
                (Does-guard (is_directory (ensured d.services)) not_regular
                  (ensured-directory d.services ne))
                (Does-bind _ behind_staging st tt staged (
                  Does-bind _ (λ _. remove_gone new old >> join_errors skip skip) tt tt renamed
                    (Does-bind _ (λ _. join_errors skip skip) tt tt removed
                      (Does-join_errors skip skip Does-skip Does-skip))))))),
    )
