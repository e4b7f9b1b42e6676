-- ===== src/Config/Transaction/Names.antt =====
-- Which images can be read back from their snapshots: plain names on the disk and in the changes
-- are plain names in the image that `read` gives and in the changed one.
use avahi_manager.Config.Transaction.Changes.{asked, CanRecord}
use avahi_manager.Config.Transaction.Outcomes.{NamesValid}
use avahi_manager.Config.Vault.Copies.{IsPlain}
use avahi_manager.Config.Disk.Reading.{shown, Reads, managed}
use avahi_manager.Prelude.{
  Str, Map, All, Option, ◌≡◌, get, some, ◌≢◌, none, ◌≤◌, Bool-cases, All-get, sym, ◌∙◌, All-of-get,
  refl, inl, inr,
}
use avahi_manager.Config.Image.{Env, File, Image, Manifest, max_file_size}
use avahi_manager.Config.World.{Disk, Node}

shown-get : (d : Disk) (p : Str) (f : File) → shown d p ≡ some f → get p d.files ≢ none
unfolding shown
shown-get d p f h k = elim (Bool-cases (managed p)) [
  | inl e ↦ nothing (rw (e, k) at h)
  | inr e ↦ nothing (rw e at h)
]
  where
    nothing : none ≡ some f → ⊥
    nothing q = cc

-- a name that stands in a map of plain names
stands-IsPlain :
    {V : Type 0} (p : Str) (m : Map V)
    → All (λ (e : Str × V). IsPlain e.0) m
    → (o : Option V) → get p m ≡ o
    → o ≢ none
    → IsPlain p
stands-IsPlain {V = V} p m a none h n = absurd (n refl)
stands-IsPlain {V = V} p m a (some x) h n = All-get (λ (e : Str × V). IsPlain e.0) p x m a h

module _ (env : Env) (d : Disk) (changes : Map (Option Str))
    (names : All (λ (e : Str × Node). IsPlain e.0) d.files)
    (asked_names : All (λ (e : Str × Option Str). IsPlain e.0) changes) where
  read-IsPlain : (old : Image) → Reads old d → (p : Str) (f : File) → get p old ≡ some f → IsPlain p
  read-IsPlain old rd p f h =
      stands-IsPlain p d.files names (get p d.files) refl (shown-get d p f (sym (rd.lookups p) ∙ h))

  changed-IsPlain :
      (old : Image)
      → Reads old d
      → (p : Str) (f : File) (c : Option (Option Str)) → get p changes ≡ c
      → asked env c (get p old) ≡ some f
      → IsPlain p
  changed-IsPlain old rd p f none h k = read-IsPlain old rd p f k
  changed-IsPlain old rd p f (some c) h k =
      stands-IsPlain p changes asked_names (some c) h (λ e. cc)

  -- Where the names are plain and no manifest is too long, the changes can be recorded.
  pub IsPlain-CanRecord :
      NamesValid env
      → ((m : Manifest) → env.manifest_size m ≤ max_file_size)
      → CanRecord env d changes
  IsPlain-CanRecord ids sizes old new rd ch = record {
    ids = ids;
    before = record {
      names = All-of-get (λ (e : Str × File). IsPlain e.0) old rd.sorted (read-IsPlain old rd);
      fits = λ n now reason h. sizes _;
    };
    after = record {
      names =
          All-of-get (λ (e : Str × File). IsPlain e.0) new ch.image.sorted
            (λ p f e. changed-IsPlain old rd p f (get p changes) refl (sym (ch.lookups p) ∙ e));
      fits = λ n now reason h. sizes _;
    };
  }
