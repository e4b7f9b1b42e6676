-- ===== src/Config/Vault/Edits.antt =====
-- Changes of one snapshot directory, which leave all others alone.
use avahi_manager.Prelude.{
  ◌≡◌, refl, false, Option, none, some, arith, Str, same, same_iff, get, put, get-put, get-del,
  get-put_self,
}
use avahi_manager.Config.World.{Vault, SnapDir, Disk, Stop, pure}
use avahi_manager.Config.Vault.{edit_dir, drop_dir, write_vault}
use avahi_manager.Config.Vault.Loading.{Extends}
use avahi_manager.Config.World.Runs.{Runs, Cond, Runs-pure, IsFault}
use avahi_manager.Config.World.Runs.Steps.{Runs-skip, Runs-on_vault, Runs-last}

-- `y` is `v` but for the directory `id`.
pub record Around (id : Str) (v y : Vault) : Type 0 where
  pub elsewhere : (j : Str) → same id j ≡ false → get j y.snapshots ≡ get j v.snapshots
  pub pending : y.pending ≡ v.pending
  pub baseline : y.baseline ≡ v.baseline

pub Around-Extends :
    {id : Str} {v y : Vault} → get id v.snapshots ≡ none → Around id v y → Extends v y
Around-Extends {id} {v} {y} h a = record {
  dirs = λ j s e. ground (arith, a.elsewhere j, same_iff id j);
  pending = a.pending;
  baseline = a.baseline;
}

pub Around-edit :
    (id : Str) (f : SnapDir → SnapDir) (v y : Vault) → Around id v y → Around id v (edit_dir id f y)
Around-edit id f v y a = around (get id y.snapshots)
  where
    around :
        (o : Option SnapDir)
        → Around id v
            (elim o [ none ↦ y | some d ↦ record y { snapshots = put id (f d) y.snapshots } ])
    around none = a
    around (some d) = record {
      elsewhere = λ j ne. rw get-put (rw ne (a.elsewhere j ne));
      pending = a.pending;
      baseline = a.baseline;
    }

pub Around-drop : (id : Str) (v y : Vault) → Around id v y → Around id v (drop_dir id y)
Around-drop id v y a = record {
  elsewhere = λ j ne. rw get-del (rw ne (a.elsewhere j ne));
  pending = a.pending;
  baseline = a.baseline;
}

-- the write of one file, by its three steps
pub run_write :
    {d : Disk} {v : Vault} {E : Stop → Cond} (f : Vault → Vault)
    → ((e : Stop) → IsFault e → E e d v)
    → ((e : Stop) → IsFault e → E e d (f v))
    → Runs d v (write_vault f) (λ _ x y. (x ≡ d) × (y ≡ f v)) E
unfolding write_vault
run_write f h k =
    Runs-skip _ h
      (Runs-on_vault f f _ h k (Runs-last _ (Runs-skip pure k (Runs-pure tt (refl, refl)))))

-- The directory `id` holds `s`, and all else is as in `v`.
pub record Edits (id : Str) (s : SnapDir) (v y : Vault) : Type 0 where
  pub here : get id y.snapshots ≡ some s
  pub around : Around id v y

pub edit_dir-Edits :
    (id : Str) (f : SnapDir → SnapDir) (s : SnapDir) (v y : Vault)
    → Edits id s v y
    → Edits id (f s) v (edit_dir id f y)
edit_dir-Edits id f s v y e = record {
  here = rw (e.here, edit_dir) (get-put_self id (f s) y.snapshots);
  around = Around-edit id f v y e.around;
}
