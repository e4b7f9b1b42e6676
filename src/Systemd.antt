-- ===== src/Systemd.antt =====
-- internal/systemd/manager.go: the jobs and the control of the two units, and the controller of
-- the transactions. The bus is a list of answers, taken in order; a list that has ended answers
-- with an error.
pub mod Control
mod Examples
use avahi_manager.Prelude.{
  ℕ, zero, suc, ◌+◌, ◌-◌, ◌*◌, ◌/◌, ◌%◌, ◌^◌, ◌≤◌, ◌<◌, ◌≡◌, refl, sym, ap, ◌∙◌, subst, ◌≢◌, ◌↔◌,
  ◌⊎◌, inl, inr, Bool, true, false, not, ◌&&◌, ◌||◌, Option, none, some, List, [], ◌∷◌, ◌++◌, map,
  arith, Str, codes, same, same_refl, same_iff, Map, get, put, del, keys, length, All, leb, ltb,
  ◌==◌, if◌then◌else◌, Bool-cases, &&-eq-true, ltb→lt, leb→le, le→leb, Option-cases,
}
use avahi_manager.Config.Image.{Action, no_action, reload, restart}

pub data UnitName : Type 0 where
  service_unit socket_unit : UnitName

pub data JobKind : Type 0 where
  start_job stop_job restart_job reload_job : JobKind

-- what the program asks the bus for
pub data Call : Type 0 where
  job_call : JobKind → UnitName → Call
  state_call : UnitName → Call
  enable_call disable_call reload_units : Call

-- An answer of the bus: for a job its result, "done" or another; for the state of a unit
-- whether it is active; an error for anything.
pub data Reply : Type 0 where
  bus_error : Reply
  job_result : Str → Reply
  unit_active : Bool → Reply
  accepted : Reply

pub record Bus : Type 0 where
  pub calls : List Call
  pub replies : List Reply

-- the program's view: no error, or an error
pub data Outcome : Type 0 where
  succeeded failed : Outcome

abbrev next_reply : List Reply → Reply × List Reply
next_reply [] = (bus_error, [])
next_reply (r ∷ rs) = (r, rs)

unfoldable pub ask : Call → Bus → Reply × Bus
ask c b = let (r, rs) = next_reply b.replies in (r, record { calls = c ∷ b.calls; replies = rs })

abbrev job_outcome : Reply → Outcome
job_outcome (job_result s) = if same s (codes "done") then succeeded else failed
job_outcome _ = failed

-- `Manager.job`
unfoldable pub job : JobKind → UnitName → Bus → Outcome × Bus
unfolding ask same
job k u b = let (r, b') = ask (job_call k u) b in (job_outcome r, b')

abbrev is_active : Reply → Bool
is_active (unit_active a) = a
is_active _ = false

-- `unit(ctx, name).ActiveState == "active"`
unfoldable pub active : UnitName → Bus → Bool × Bus
unfolding ask
active u b = let (r, b') = ask (state_call u) b in (is_active r, b')

abbrev unit_files : Reply → Outcome
unit_files accepted = succeeded
unit_files _ = failed

abbrev both : Outcome → Outcome → Outcome
both succeeded succeeded = succeeded
both _ _ = failed

-- behind the job of the socket in `Control("start")`
unfoldable pub start_service : Outcome × Bus → Outcome × Bus
unfolding job
start_service (succeeded, b) = job start_job service_unit b
start_service (failed, b) = (failed, b)

-- behind both jobs in `Control("stop")`
abbrev stop_again : Bool × Bus → Outcome × Bus
stop_again (true, b) = job stop_job service_unit b
stop_again (false, b) = (succeeded, b)

unfoldable pub stop_rest : Outcome → Outcome → Bus → Outcome × Bus
unfolding job active
stop_rest succeeded succeeded b = stop_again (active service_unit b)
stop_rest x y b = (failed, b)

unfoldable pub stop_units : Bus → Outcome × Bus
unfolding job stop_rest
stop_units b =
    let (x, b1) = job stop_job service_unit b in
    let (y, b2) = job stop_job socket_unit b1 in stop_rest x y b2

-- behind the change of the unit files
unfoldable pub reload_manager : Outcome × Bus → Outcome × Bus
unfolding ask
reload_manager (failed, b) = (failed, b)
reload_manager (succeeded, b) = let (r, b') = ask reload_units b in (unit_files r, b')

unfoldable pub change_files : Call → Bus → Outcome × Bus
unfolding ask reload_manager
change_files c b = let (r, b') = ask c b in reload_manager (unit_files r, b')

-- `Manager.Control`
unfoldable pub control : Str → Bus → Outcome × Bus
unfolding start_service stop_units change_files job same
control a b =
    if same a (codes "start")
    then start_service (job start_job socket_unit b)
    else if same a (codes "stop")
    then stop_units b
    else if same a (codes "restart")
    then job restart_job service_unit b
    else if same a (codes "reload")
    then job reload_job service_unit b
    else if same a (codes "enable")
    then change_files enable_call b
    else if same a (codes "disable")
    then change_files disable_call b
    else (failed, b)

-- `Controller.Apply`
unfoldable pub apply : Action → Bus → Outcome × Bus
unfolding control
apply no_action b = (succeeded, b)
apply reload b = control (codes "reload") b
apply restart b = control (codes "restart") b
