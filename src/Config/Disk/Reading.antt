-- ===== src/Config/Disk/Reading.antt =====
-- `read` returns exactly what the disk shows under the managed names, and changes nothing.
use avahi_manager.Config.Disk.{read_names, list_services, read, service_entry, service_entries}
use avahi_manager.Config.World.Runs.{Runs-raise, Runs-pure, Runs-post}
use avahi_manager.Config.World.Runs.Steps.{Runs-skip, Runs-gets, Runs-gets_last}
use avahi_manager.Config.World.Runs.Observing.{Observes, Observes-bind}
use avahi_manager.Prelude.{
  Str, Option, Bool, ◌≢◌, get, same, if◌then◌else◌, ◌≡◌, none, true, IsSorted, ◌||◌, subst, List,
  false, ◌∷◌, [], arith, same_iff, ◌&&◌, keys, ◌∙◌, Map, refl,
}
use avahi_manager.Config.World.{
  Disk, Node, Vault, directory, not_regular, Entry, ◌>>=◌, missing, not_directory,
}
use avahi_manager.Config.Image.{Image, File, IsStorable}
use avahi_manager.Config.Path.{daemon_conf, hosts_file}
use avahi_manager.Config.Disk.Collecting.{node_file, mem, Collects, observe_names}

-- the names that `read` looks at
unfoldable pub managed : Str → Bool
managed p = same p daemon_conf || same p hosts_file || service_entry p

-- the file that stands under a managed name
unfoldable pub shown : Disk → Str → Option File
unfolding managed
shown d p = if managed p then node_file (get p d.files) else none

-- Nothing stands in a directory `services` that is not there.
abbrev pub IsDisk : Disk → Type 0
IsDisk d = d.services ≢ directory → (p : Str) → service_entry p ≡ true → get p d.files ≡ none

-- an image that `read` can return
pub record Reads (im : Image) (d : Disk) : Type 0 where
  pub lookups : (p : Str) → get p im ≡ shown d p
  pub sorted : IsSorted im
  pub storable : IsStorable im

mem-service_entries :
    (p : Str) (ks : List Str) → mem p (service_entries ks) ≡ (service_entry p && mem p ks)
unfolding mem service_entries
mem-service_entries p [] = ground arith
mem-service_entries p (k ∷ ks) = ground (arith, mem-service_entries p ks, same_iff k p)

mem-keys : (p : Str) (m : Map Node) → mem p (keys m) ≡ false → get p m ≡ none
unfolding mem keys get
mem-keys p [] h = refl
mem-keys p ((k, n) ∷ m) h = ground (arith, mem-keys p m)

-- The names collected are those that are managed, as far as there is something to collect.
module _ (d : Disk) where
  Reads-directory :
      (im : Image)
      → Collects d 0 (daemon_conf ∷ hosts_file ∷ service_entries (keys d.files)) im
      → Reads im d
  unfolding mem shown
  Reads-directory im c = record {
    lookups = λ p.
        c.lookups p
        ∙ ground (
          arith,
          mem-service_entries p (keys d.files),
          mem-keys p d.files,
          same_iff daemon_conf p,
          same_iff hosts_file p,
          same_iff p daemon_conf,
          same_iff p hosts_file,
        );
    sorted = c.sorted;
    storable = record { small = c.small; modes = c.modes; total = omega (arith, c.total) };
  }

  Reads-no_directory :
      (im : Image)
      → ((p : Str) → service_entry p ≡ true → get p d.files ≡ none)
      → Collects d 0 (daemon_conf ∷ hosts_file ∷ []) im
      → Reads im d
  unfolding mem shown
  Reads-no_directory im empty c = record {
    lookups = λ p.
        c.lookups p
        ∙ ground (
          arith,
          empty p,
          same_iff daemon_conf p,
          same_iff hosts_file p,
          same_iff p daemon_conf,
          same_iff p hosts_file,
        );
    sorted = c.sorted;
    storable = record { small = c.small; modes = c.modes; total = omega (arith, c.total) };
  }

-- the names that `list_services` returns
abbrev Lists : Disk → Entry → List Str → Type 0
Lists d directory names = names ≡ service_entries (keys d.files)
Lists d missing names = names ≡ []
Lists d not_directory names = ⊥

module _ (d : Disk) (good : IsDisk d) where
  Reads-listed :
      (s : Entry) (names : List Str) (im : Image)
      → d.services ≡ s
      → Lists d s names
      → Collects d 0 (daemon_conf ∷ hosts_file ∷ names) im
      → Reads im d
  Reads-listed missing names im e h c =
      Reads-no_directory d im (good (λ k. cc))
        (subst (λ ns. Collects d 0 (daemon_conf ∷ hosts_file ∷ ns) im) h c)
  Reads-listed not_directory names im e h c = absurd h
  Reads-listed directory names im e h c =
      Reads-directory d im (subst (λ ns. Collects d 0 (daemon_conf ∷ hosts_file ∷ ns) im) h c)

module _ {d : Disk} {v : Vault} where
  observe_services : (s : Entry) → Observes d v (list_services s) (Lists d s) (λ _. Unit)
  unfolding list_services
  observe_services missing = Runs-pure [] (refl, refl, refl)
  observe_services not_directory = Runs-raise not_regular (refl, refl, tt)
  observe_services directory =
      Runs-skip _ (λ e i. (refl, refl, tt))
        (Runs-skip _ (λ e i. (refl, refl, tt))
          (Runs-gets_last (λ x y. service_entries (keys x.files)) (refl, refl, refl)))

module _ {d : Disk} {v : Vault} (good : IsDisk d) where
  observe_listing :
      (s : Entry)
      → d.services ≡ s
      → Observes d v
          (list_services s >>= λ names. read_names 0 (daemon_conf ∷ hosts_file ∷ names))
          (λ im. Reads im d)
          (λ _. Unit)
  observe_listing s e =
      Observes-bind _ _ (observe_services s) (λ x k. tt)
        (λ names h.
          Runs-post _ (observe_names 0 (daemon_conf ∷ hosts_file ∷ names) (omega arith))
            (λ im x y (p, q, c). (p, q, Reads-listed d good s names im e h c)) (λ x y z k. k))

  -- On a disk where nothing stands under `services` unless it is a directory, and on every
  -- schedule, `read` leaves both directories alone, and an image that it returns holds
  -- under each managed name what the disk has there, and nothing under any other name.
  pub read-Reads : Observes d v read (λ im. Reads im d) (λ _. Unit)
  unfolding read
  read-Reads =
      Runs-skip _ (λ e i. (refl, refl, tt))
        (Runs-gets (λ x y. x.services)
          (λ s. list_services s >>= λ names. read_names 0 (daemon_conf ∷ hosts_file ∷ names))
          (observe_listing d.services refl))
