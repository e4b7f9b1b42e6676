-- ===== src/Config/Disk/Collecting.antt =====
-- What the loop of `read` over the names collects.
use avahi_manager.Config.Disk.{read_node, read_file, read_names, perm, add_found}
use avahi_manager.Config.World.Runs.{IsFault, Runs-raise, Runs-if, Runs-pure, Runs-post}
use avahi_manager.Config.World.Runs.Steps.{Runs-skip, Runs-gets}
use avahi_manager.Config.World.Runs.Observing.{Observes, Perhaps, Observes-bind, Observes-optional}
use avahi_manager.Prelude.{
  Str, Option, Bool, get, same, some, if◌then◌else◌, ◌≡◌, none, IsSorted, ◌||◌, subst, List, ℕ,
  false, ◌∷◌, [], arith, put, same_iff, get-put, put-IsSorted, refl, ◌+◌, length, ltb, ◌≤◌, ◌<◌,
  All-put, All,
}
use avahi_manager.Config.World.{
  Disk, Stop, Node, Vault, failed, regular, not_exist, special, not_regular, M, too_large, ◌>>=◌,
  raise, pure,
}
use avahi_manager.Config.Image.{Image, File, max_total_size, max_file_size, total_size}

abbrev pub node_file : Option Node → Option File
node_file none = none
node_file (some special) = none
node_file (some (regular f)) = some (perm f)

-- what `readFile` promises of a file that it returns
abbrev pub IsFile : Option Node → File → Type 0
IsFile n f = (node_file n ≡ some f) × (length f.content ≤ max_file_size) × (f.mode < 512)

abbrev pub IsFileAt : Disk → Str → File → Type 0
IsFileAt d p f = IsFile (get p d.files) f

fault-not-missing {ℓ} : {A : Type ℓ} (e : Stop) → IsFault e → e ≡ failed not_exist → A
fault-not-missing e i h = absurd (subst IsFault h i)

module _ {d : Disk} {v : Vault} where
  observe_node :
      (n : Option Node)
      → Observes d v (read_node n) (IsFile n) (λ e. e ≡ failed not_exist → n ≡ none)
  unfolding read_node
  observe_node none = Runs-raise not_exist (refl, refl, λ _. refl)
  observe_node (some special) = Runs-raise not_regular (refl, refl, λ e. cc)
  observe_node (some (regular f)) =
      let stop = λ (e : Stop) (i : IsFault e).
        let r : (d ≡ d) × (v ≡ v) × (e ≡ failed not_exist → some (regular f) ≡ none) =
          (refl, refl, fault-not-missing e i) in
        r in
      Runs-skip _ stop (
        Runs-skip _ stop (
          Runs-skip _ stop (
            Runs-if (ltb max_file_size (length f.content)) (raise too_large) (pure (perm f))
              (λ _. Runs-raise too_large (refl, refl, λ e. cc))
              (λ b. Runs-pure (perm f) (refl, refl, (refl, ground arith, omega arith))))))

  observe_file :
      (p : Str)
      → Observes d v (read_file p) (IsFileAt d p) (λ e. e ≡ failed not_exist → get p d.files ≡ none)
  unfolding read_file
  observe_file p =
      Runs-skip _ (λ e i. (refl, refl, fault-not-missing e i))
        (Runs-gets (λ x y. get p x.files) read_node (observe_node (get p d.files)))

unfoldable pub mem : Str → List Str → Bool
mem p [] = false
mem p (q ∷ qs) = same q p || mem p qs

-- what a run over `names` collects, where the files before it have `before` bytes
pub record Collects (d : Disk) (before : ℕ) (names : List Str) (im : Image) : Type 0 where
  pub lookups : (p : Str) → get p im ≡ (if mem p names then node_file (get p d.files) else none)
  pub sorted : IsSorted im
  pub small : All (λ (e : Str × File). length e.1.content ≤ max_file_size) im
  pub modes : All (λ (e : Str × File). e.1.mode < 512) im
  pub total : before + total_size im ≤ max_total_size

total_size-put :
    (q : Str) (f : File) (im : Image) → total_size (put q f im) ≤ length f.content + total_size im
unfolding total_size put
total_size-put q f [] = omega arith
total_size-put q f ((p, g) ∷ im) = ground (arith, total_size-put q f im)

module _ (d : Disk) where
  collect_missing :
      (q : Str) (qs : List Str) (t : ℕ) (im : Image)
      → get q d.files ≡ none
      → Collects d t qs im
      → Collects d t (q ∷ qs) im
  unfolding mem
  collect_missing q qs t im gone c = record {
    lookups = λ p. ground (arith, c.lookups p, same_iff q p);
    sorted = c.sorted;
    small = c.small;
    modes = c.modes;
    total = c.total;
  }

  collect_found :
      (q : Str) (qs : List Str) (t : ℕ) (f : File) (im : Image)
      → node_file (get q d.files) ≡ some f
      → length f.content ≤ max_file_size
      → f.mode < 512
      → Collects d (t + length f.content) qs im
      → Collects d t (q ∷ qs) (put q f im)
  unfolding mem
  collect_found q qs t f im there fits ordinary c = record {
    lookups = λ p. rw get-put (ground (arith, c.lookups p, same_iff q p));
    sorted = put-IsSorted q f im c.sorted;
    small = All-put _ q f im fits c.small;
    modes = All-put _ q f im ordinary c.modes;
    total = omega (arith, total_size-put q f im, c.total);
  }

module _ {d : Disk} {v : Vault} where
  observe_found :
      (q : Str) (qs : List Str) (total : ℕ) (o : Option File) (rest : ℕ → M Image)
      → total ≤ max_total_size
      → ((t : ℕ) → t ≤ max_total_size → Observes d v (rest t) (Collects d t qs) (λ _. Unit))
      → Perhaps (IsFileAt d q) (failed not_exist ≡ failed not_exist → get q d.files ≡ none) o
      → Observes d v (add_found q total o rest) (Collects d total (q ∷ qs)) (λ _. Unit)
  unfolding add_found
  observe_found q qs total none rest l ih h =
      Runs-post _ (ih total l)
        (λ im x y (p, r, c). (p, r, collect_missing d q qs total im (h refl) c)) (λ e x y k. k)
  observe_found q qs total (some f) rest l ih h =
      let sum = total + length f.content in
      Runs-if (ltb max_total_size sum) (raise too_large) (do im ← rest sum; pure (put q f im))
        (λ _. Runs-raise too_large (refl, refl, tt))
        (λ b.
          Observes-bind (rest sum) _ (ih sum (ground arith)) (λ e k. k)
            (λ im c. Runs-pure _ (refl, refl, collect_found d q qs total f im h.0 h.1 h.2 c)))

  pub observe_names :
      (total : ℕ) (names : List Str)
      → total ≤ max_total_size
      → Observes d v (read_names total names) (Collects d total names) (λ _. Unit)
  unfolding read_names mem total_size
  observe_names total [] l = Runs-pure [] (
    refl,
    refl,
    record {
      lookups = λ p. ground arith;
      sorted = tt;
      small = tt;
      modes = tt;
      total = omega arith;
    },
  )
  observe_names total (q ∷ qs) l =
      Observes-bind _ _ (Observes-optional _ (observe_file q)) (λ e k. tt)
        (λ o h. observe_found q qs total o _ l (λ t k. observe_names t qs k) h)
