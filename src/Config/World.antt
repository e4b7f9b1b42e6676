-- ===== src/Config/World.antt =====
-- The machine that internal/config runs on, and the effects of its code. Every system call
-- takes the next item of a schedule: it succeeds, fails, or the process stops there; in the two
-- latter cases its effect may have happened or not. Theorems hold for every schedule.
pub mod Runs
pub mod Does
use avahi_manager.Prelude.{
  ℕ, ◌+◌, Bool, true, false, Option, none, some, List, [], ◌∷◌, Str, Map, if◌then◌else◌,
}
use avahi_manager.Config.Image.{File, Manifest, Action}

-- what a name in the configuration directory stands for
pub data Node : Type 0 where
  regular : File → Node
  special : Node

-- what `services` stands for
pub data Entry : Type 0 where
  missing directory not_directory : Entry

-- A file of the backup directory that holds JSON, by the value that a decoder finds in it. A file
-- that is not regular, too large or no JSON of the type wanted is `malformed`.
pub data Stored (A : Type 0) : Type 0 where
  absent malformed : Stored A
  stored : A → Stored A

-- `pending`
pub record Pending : Type 0 where
  pub snapshot_id : Str
  pub baseline_id : Str

-- a directory of the backup directory: `manifest.json` and the copies of the files
pub record SnapDir : Type 0 where
  pub manifest : Stored Manifest
  pub copies : Map Str

-- the configuration directory
pub record Disk : Type 0 where
  pub files : Map Node
  pub services : Entry

-- the backup directory: `pending.json`, `baseline.json` and the snapshots
pub record Vault : Type 0 where
  pub snapshots : Map SnapDir
  pub pending : Stored Pending
  pub baseline : Stored Str

pub data Fault : Type 0 where
  pass : Fault
  fail halt : Bool → Fault

pub record World : Type 0 where
  pub disk : Disk
  pub vault : Vault
  -- the requests made to the runtime controller, the latest first
  pub requests : List Action
  pub clock : ℕ
  pub faults : List Fault

pub data Error : Type 0 where
  io_error not_exist not_regular too_large malformed_file invalid_path : Error
  invalid_image invalid_snapshot conflict recovery_pending no_controller : Error
  reason_too_long baseline_in_use restored rollback_failed journal_failed : Error

-- Why no value came back: the process stopped, and no deferred call ran; or an error.
pub data Stop : Type 0 where
  crash : Stop
  failed : Error → Stop

pub data Result (A : Type 0) : Type 0 where
  ok : A → Result A
  err : Stop → Result A

abbrev pub M : Type 0 → Type 0
M A = World → Result A × World

-- `errors.Is(err, fs.ErrNotExist)`
abbrev pub is_missing : Error → Bool
is_missing not_exist = true
is_missing _ = false

module _ {A : Type 0} where
  unfoldable pub pure : A → M A
  pure a w = (ok a, w)

  unfoldable pub raise : Error → M A
  raise e w = (err (failed e), w)

  unfoldable pub lift : Result A → M A
  lift r w = (r, w)

  unfoldable pub gets : (World → A) → M A
  gets f w = (ok (f w), w)

  -- `err != nil` handled: the error as a value. A stop of the process is not handled.
  abbrev caught : Result A × World → Result (Option Error) × World
  caught (ok a, w) = (ok none, w)
  caught (err crash, w) = (err crash, w)
  caught (err (failed e), w) = (ok (some e), w)

  unfoldable pub attempt : M A → M (Option Error)
  attempt m w = caught (m w)

  -- `errors.Is(err, fs.ErrNotExist)` handled
  abbrev if_missing : Result A × World → Result (Option A) × World
  if_missing (ok a, w) = (ok (some a), w)
  if_missing (err crash, w) = (err crash, w)
  if_missing (err (failed e), w) = if is_missing e then (ok none, w) else (err (failed e), w)

  unfoldable pub optional : M A → M (Option A)
  optional m w = if_missing (m w)

module _ {A B : Type 0} where
  abbrev continue : Result A → (A → M B) → M B
  continue (ok a) f w = f a w
  continue (err e) f w = (err e, w)

  infixl 10 ◌>>=◌ ◌>>◌
  unfoldable pub ◌>>=◌ : M A → (A → M B) → M B
  unfolding pure raise lift gets
  ◌>>=◌ m f w = let (r, w') = m w in continue r f w'

  abbrev pub ◌>>◌ : M A → M B → M B
  m >> n = m >>= λ _. n

-- a deferred call that runs when the function returns an error; its own error is dropped
module _ {A : Type 0} where
  abbrev keep_error : Error → Result (Unit {0}) × World → Result A × World
  keep_error e (ok _, w) = (err (failed e), w)
  keep_error e (err crash, w) = (err crash, w)
  keep_error e (err (failed _), w) = (err (failed e), w)

  abbrev cleaned : M (Unit {0}) → Result A × World → Result A × World
  cleaned handler (ok a, w) = (ok a, w)
  cleaned handler (err crash, w) = (err crash, w)
  cleaned handler (err (failed e), w) = keep_error e (handler w)

  unfoldable pub on_error : M A → M (Unit {0}) → M A
  on_error m handler w = cleaned handler (m w)

unfoldable pub guard : Bool → Error → M (Unit {0})
unfolding pure raise
guard true e = pure tt
guard false e = raise e

-- the error of two calls that were both made
unfoldable pub joined : Option Error → Option Error → M (Unit {0})
unfolding pure raise
joined none none = pure tt
joined none (some e) = raise e
joined (some e) _ = raise e

-- `errors.Join(m, n)`: the second call is made where the first fails as well
unfoldable pub join_errors : M (Unit {0}) → M (Unit {0}) → M (Unit {0})
unfolding attempt joined ◌>>=◌
join_errors m n = do first ← attempt m; second ← attempt n; joined first second

-- One system call: `full` is its effect, `part` what may be left of it where it fails.
perform : List Fault → (part full : World → World) → M (Unit {0})
perform [] part full w = (ok tt, full w)
perform (pass ∷ fs) part full w = (ok tt, full (record w { faults = fs }))
perform (fail took ∷ fs) part full w = (
  err (failed io_error),
  if took then part (record w { faults = fs }) else record w { faults = fs },
)
perform (halt took ∷ fs) part full w =
    (err crash, if took then part (record w { faults = fs }) else record w { faults = fs })

-- a call that changes nothing the program can see
unfoldable pub skip : M (Unit {0})
unfolding perform
skip w = perform w.faults (λ s. s) (λ s. s) w

unfoldable pub on_disk : (Disk → Disk) → M (Unit {0})
unfolding perform
on_disk e w =
    perform w.faults (λ s. record s { disk = e s.disk }) (λ s. record s { disk = e s.disk }) w

unfoldable pub on_vault : (part full : Vault → Vault) → M (Unit {0})
unfolding perform
on_vault part full w =
    perform w.faults (λ s. record s { vault = part s.vault })
      (λ s. record s { vault = full s.vault }) w

-- a request to the runtime controller, which touches neither directory
unfoldable pub request : Action → M (Unit {0})
unfolding perform
request a w =
    perform w.faults (λ s. record s { requests = a ∷ s.requests })
      (λ s. record s { requests = a ∷ s.requests }) w

-- `time.Now()` and the random source: no two readings are the same
unfoldable pub tick : M ℕ
tick w = (ok w.clock, record w { clock = w.clock + 1 })
