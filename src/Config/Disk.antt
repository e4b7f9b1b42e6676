-- ===== src/Config/Disk.antt =====
-- The configuration directory: `readFile`, `read`, `stage` and `replace` of
-- internal/config/store.go and apply.go. A staged temporary file is represented by what it
-- holds: its name, `.awm-*.tmp`, is read by nothing. Another process does not write between
-- two calls of one operation.
pub mod Collecting
pub mod Reading
pub mod Within
pub mod Replacing
pub mod Showing
use avahi_manager.Prelude.{
  ℕ, ◌+◌, ◌%◌, Bool, true, false, not, ◌&&◌, Option, none, some, List, [], ◌∷◌, Str, codes,
  has_prefix, has_suffix, contains, get, put, del, keys, length, drop, ltb, ◌==◌, if◌then◌else◌,
}
use avahi_manager.Config.Path.{daemon_conf, hosts_file}
use avahi_manager.Config.Image.{File, Image, Env, same_entry, max_file_size, max_total_size}
use avahi_manager.Config.World.{
  Node, regular, special, Entry, missing, directory, not_directory, Disk, not_exist, not_regular,
  too_large, M, pure, raise, gets, optional, ◌>>=◌, ◌>>◌, guard, skip, on_disk, join_errors,
}

-- what `ReadDir("services")` yields, of the names that `read` keeps
unfoldable pub service_entry : Str → Bool
unfolding has_prefix has_suffix contains
service_entry p =
    has_prefix p (codes "services/")
    && not (contains (drop 9 p) b'/')
    && has_suffix (drop 9 p) (codes ".service")

unfoldable pub service_entries : List Str → List Str
unfolding service_entry
service_entries [] = []
service_entries (p ∷ ps) =
    let rest = service_entries ps in if service_entry p then p ∷ rest else rest

-- `info.Mode().Perm()`
abbrev pub perm : File → File
perm f = record f { mode = f.mode % 512 }

-- `readFile`, at what stands under the name
unfoldable pub read_node : Option Node → M File
unfolding pure raise skip ◌>>=◌
read_node none = raise not_exist
read_node (some special) = raise not_regular
read_node (some (regular f)) = do
  skip
  skip
  skip
  if ltb max_file_size (length f.content) then raise too_large else pure (perm f)

unfoldable pub read_file : Str → M File
unfolding read_node get
read_file p = do skip; n ← gets (λ w. get p w.disk.files); read_node n

-- what `read` does with one file; one that is gone since is left out
unfoldable pub add_found : Str → ℕ → Option File → (ℕ → M Image) → M Image
unfolding put pure raise ◌>>=◌
add_found p total none rest = rest total
add_found p total (some f) rest =
    if ltb max_total_size (total + length f.content)
    then raise too_large
    else do im ← rest (total + length f.content); pure (put p f im)

-- the loop of `read`
unfoldable pub read_names : ℕ → List Str → M Image
unfolding read_file optional add_found
read_names total [] = pure []
read_names total (p ∷ ps) = do
  found ← optional (read_file p)
  add_found p total found (λ t. read_names t ps)

-- the names under `services`
unfoldable pub list_services : Entry → M (List Str)
unfolding service_entries keys
list_services missing = pure []
list_services not_directory = raise not_regular
list_services directory = do skip; skip; gets (λ w. service_entries (keys w.disk.files))

-- `Store.read`
unfoldable pub read : M Image
unfolding read_names list_services
read = do
  skip
  s ← gets (λ w. w.disk.services)
  names ← list_services s
  read_names 0 (daemon_conf ∷ hosts_file ∷ names)

-- `MkdirAll("services")`
abbrev pub ensured : Entry → Entry
ensured missing = directory
ensured directory = directory
ensured not_directory = not_directory

abbrev pub make_services : Disk → Disk
make_services d = record d { services = ensured d.services }

abbrev pub is_directory : Entry → Bool
is_directory directory = true
is_directory _ = false

-- `Rename` of a staged file
abbrev pub move_in : Str → File → Disk → Disk
move_in p f d = record d { files = put p (regular f) d.files }

-- `Remove`; a name that is not there is no error
abbrev pub unlink : Str → Disk → Disk
unlink p d = record d { files = del p d.files }

module _ (env : Env) where
  -- what the temporary file holds: only root gives a file away
  unfoldable pub staged_file : Bool → File → File
  staged_file owner f =
      if owner && env.euid == 0 then perm f else record (perm f) { uid = env.euid; gid = env.egid }

  -- `stage`: open, write, chown, chmod, sync, close
  unfoldable pub stage : Bool → File → M File
  unfolding staged_file pure skip ◌>>=◌
  stage owner f = do skip; skip; skip; skip; skip; skip; pure (staged_file owner f)

  -- the first loop of `replace`: everything is staged before anything is renamed
  unfoldable pub stage_changed : Image → Image → M Image
  unfolding stage same_entry get
  stage_changed old [] = pure []
  stage_changed old ((p, f) ∷ new) =
      if same_entry (get p old) (some f)
      then stage_changed old new
      else do tmp ← stage true f; rest ← stage_changed old new; pure ((p, tmp) ∷ rest)

-- the second loop
unfoldable pub rename_all : Image → M (Unit {0})
unfolding pure on_disk put ◌>>=◌
rename_all [] = pure tt
rename_all ((p, f) ∷ staged) = do on_disk (move_in p f); rename_all staged

-- the third loop
unfoldable pub remove_unless : Option File → Str → M (Unit {0})
unfolding pure on_disk del
remove_unless (some _) p = pure tt
remove_unless none p = on_disk (unlink p)

unfoldable pub remove_gone : Image → Image → M (Unit {0})
unfolding remove_unless get ◌>>=◌
remove_gone new [] = pure tt
remove_gone new ((p, f) ∷ old) = do remove_unless (get p new) p; remove_gone new old

-- `Store.replace`
unfoldable pub replace : Env → Image → Image → M (Unit {0})
unfolding stage_changed rename_all remove_gone guard gets join_errors
replace env old new = do
  on_disk make_services
  skip
  s ← gets (λ w. w.disk.services)
  guard (is_directory s) not_regular
  staged ← stage_changed env old new
  rename_all staged
  remove_gone new old
  join_errors skip skip
