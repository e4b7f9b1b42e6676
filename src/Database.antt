-- ===== src/Database.antt =====
-- internal/database/sqlite.go: the tables `operation_jobs` and `managed_files`. A statement is a
-- function on the rows; a failure of the database leaves them as they are. The checks of the
-- columns are those of migrations/001_initial.sql.
pub mod Jobs
pub mod Drift
mod Examples
use avahi_manager.Prelude.{
  ℕ, zero, suc, ◌+◌, ◌-◌, ◌*◌, ◌/◌, ◌%◌, ◌^◌, ◌≤◌, ◌<◌, ◌≡◌, refl, sym, ap, ◌∙◌, subst, ◌≢◌, ◌↔◌,
  ◌⊎◌, inl, inr, Bool, true, false, not, ◌&&◌, ◌||◌, Option, none, some, List, [], ◌∷◌, ◌++◌, map,
  arith, Str, codes, same, same_refl, same_iff, Map, get, put, del, keys, length, All, leb, ltb,
  ◌==◌, if◌then◌else◌, Bool-cases, &&-eq-true, ltb→lt, leb→le, le→leb, Option-cases,
}

pub data JobState : Type 0 where
  queued running succeeded failed interrupted : JobState

pub record Job : Type 0 where
  pub kind : Str
  pub state : JobState
  pub progress : ℕ
  pub result : Str
  pub created_at : ℕ
  pub finished_at : Option ℕ

-- `state IN ('queued','running')`
abbrev pub is_live : JobState → Bool
is_live queued = true
is_live running = true
is_live _ = false

-- `CreateJob`: whether it succeeds, and the table
unfoldable pub insert_job : ℕ → Str → Str → Option Job → Map Job → Bool × Map Job
unfolding put
insert_job now id kind (some j) jobs = (false, jobs)
insert_job now id kind none jobs = (
  true,
  put id
      (record {
        kind = kind;
        state = queued;
        progress = 0;
        result = [];
        created_at = now;
        finished_at = none;
      })
      jobs,
)

unfoldable pub create_job : Bool → ℕ → Str → Str → Map Job → Bool × Map Job
unfolding insert_job get
create_job db_ok now id kind jobs =
    if db_ok then insert_job now id kind (get id jobs) jobs else (false, jobs)

abbrev pub finish_time : ℕ → JobState → Option ℕ
finish_time now s = if is_live s then none else some now

-- `UpdateJob`: it fails where no live row has the identifier
unfoldable pub update_row : ℕ → Str → JobState → ℕ → Str → Option Job → Map Job → Bool × Map Job
unfolding put
update_row now id s progress result none jobs = (false, jobs)
update_row now id s progress result (some j) jobs =
    if is_live j.state && leb progress 100
    then (
      true,
      put id
          (record j {
            state = s;
            progress = progress;
            result = result;
            finished_at = finish_time now s;
          })
          jobs,
    )
    else (false, jobs)

unfoldable pub update_job : Bool → ℕ → Str → JobState → ℕ → Str → Map Job → Bool × Map Job
unfolding update_row get
update_job db_ok now id s progress result jobs =
    if db_ok then update_row now id s progress result (get id jobs) jobs else (false, jobs)

abbrev interrupted_job : ℕ → Job → Job
interrupted_job now j =
    if is_live j.state
    then record j {
      state = interrupted;
      result = codes "Manager restarted before job completion; inspect host state before retrying";
      finished_at = some now;
    }
    else j

unfoldable pub interrupt_rows : ℕ → Map Job → Map Job
interrupt_rows now [] = []
interrupt_rows now ((id, j) ∷ jobs) = (id, interrupted_job now j) ∷ interrupt_rows now jobs

-- `InterruptJobs`
unfoldable pub interrupt_jobs : Bool → ℕ → Map Job → Bool × Map Job
unfolding interrupt_rows
interrupt_jobs db_ok now jobs = if db_ok then (true, interrupt_rows now jobs) else (false, jobs)

-- a row of `managed_files`
pub record ManagedFile : Type 0 where
  pub sha256 : Str
  pub last_seen_at : ℕ
  pub externally_modified : Bool

pub record Drifted : Type 0 where
  pub path : Str
  pub managed_hash : Str
  pub disk_hash : Str

-- the rows that `AcceptFiles` inserts
unfoldable pub accepted : ℕ → Map Str → Map ManagedFile
accepted now [] = []
accepted now ((p, h) ∷ hashes) =
    (p, record { sha256 = h; last_seen_at = now; externally_modified = false })
    ∷ accepted now hashes

-- `AcceptFiles`
unfoldable pub accept_files : Bool → ℕ → Map Str → Map ManagedFile → Bool × Map ManagedFile
unfolding accepted
accept_files db_ok now hashes files = if db_ok then (true, accepted now hashes) else (false, files)

-- `hashes[p]`
abbrev pub hash_of : Option Str → Str
hash_of none = []
hash_of (some h) = h

-- the loop of `ObserveFiles` over the rows: the drift, and the rows
unfoldable pub known_drift : Map Str → Map ManagedFile → List Drifted
unfolding same get
known_drift hashes [] = []
known_drift hashes ((p, f) ∷ files) =
    let rest = known_drift hashes files in
    if same (hash_of (get p hashes)) f.sha256
    then rest
    else record { path = p; managed_hash = f.sha256; disk_hash = hash_of (get p hashes) } ∷ rest

unfoldable pub observed : ℕ → Map Str → Map ManagedFile → Map ManagedFile
unfolding same get
observed now hashes [] = []
observed now hashes ((p, f) ∷ files) =
    (
      p,
      record f {
        last_seen_at = now;
        externally_modified = not (same (hash_of (get p hashes)) f.sha256);
      },
    )
    ∷ observed now hashes files

-- the loop over the files found
unfoldable pub new_drift : Map ManagedFile → Map Str → List Drifted
unfolding get
new_drift files [] = []
new_drift files ((p, h) ∷ hashes) =
    let rest = new_drift files hashes in
    elim (get p files) [
      | none ↦ record { path = p; managed_hash = []; disk_hash = h } ∷ rest
      | some _ ↦ rest
    ]

-- `ObserveFiles`
unfoldable pub observe_files :
    Bool → ℕ → Map Str → Map ManagedFile → Option (List Drifted) × Map ManagedFile
unfolding known_drift observed new_drift
observe_files db_ok now hashes files =
    if db_ok
    then (some (known_drift hashes files ++ new_drift files hashes), observed now hashes files)
    else (none, files)
