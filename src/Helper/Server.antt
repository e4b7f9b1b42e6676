-- ===== src/Helper/Server.antt =====
-- The server of the privileged helper: internal/helper/server.go. It checks the peer of every
-- connection, recovers before it serves, decodes one call at a time and answers it. Timeouts and
-- the shutdown of the HTTP server are left out; so is the lifecycle of the units, which does not
-- touch the store (`lifecycle` has it on its own).
pub mod Serving
mod Examples
use avahi_manager.Prelude.{
  ℕ, zero, suc, ◌+◌, ◌-◌, ◌*◌, ◌/◌, ◌%◌, ◌^◌, ◌≤◌, ◌<◌, ◌≡◌, refl, sym, ap, ◌∙◌, subst, ◌≢◌, ◌↔◌,
  ◌⊎◌, inl, inr, Bool, true, false, not, ◌&&◌, ◌||◌, Option, none, some, List, [], ◌∷◌, ◌++◌, map,
  arith, Str, codes, same, same_refl, same_iff, Map, get, put, del, keys, length, All, leb, ltb,
  ◌==◌, if◌then◌else◌, Bool-cases, &&-eq-true, ltb→lt, leb→le, le→leb, Option-cases,
}
use avahi_manager.Config.Image.{Env, Image, Manifest}
use avahi_manager.Config.World.{
  M, World, Error, Stop, crash, failed, conflict, Result, ok, err, pure, ◌>>=◌, ◌>>◌,
}
use avahi_manager.Config.Disk.{read}
use avahi_manager.Config.Vault.{snapshots, load_snapshot, delete_snapshot}
use avahi_manager.Config.Transaction.{
  ApplyResult, recover, restore, take_snapshot, managed_baseline, accept_disk,
}
use avahi_manager.Helper.{write_daemon, write_hosts, write_service, delete_service}

-- a connection that a peer opens: the user that the kernel names, if it does
abbrev pub Peer : Type 0
Peer = Option ℕ

-- what `Accept` leads to: the connections that it closed, and the one that it returns
pub data Accepted : Type 0 where
  accepted : (closed : List Peer) (behind : List Peer) → Accepted
  listener_error : (closed : List Peer) → Accepted

abbrev from_user : ℕ → Peer → Bool
from_user uid none = false
from_user uid (some n) = n == uid

abbrev pub and_closed : Peer → Accepted → Accepted
and_closed p (accepted closed behind) = accepted (p ∷ closed) behind
and_closed p (listener_error closed) = listener_error (p ∷ closed)

-- `peerListener.Accept`, on the connections up to the error of the listener
unfoldable pub accept : ℕ → List Peer → Accepted
accept uid [] = listener_error []
accept uid (p ∷ peers) =
    let rest = accept uid peers in if from_user uid p then accepted [] peers else and_closed p rest

-- the calls that touch the store, with forms of the types `F`, `H` and `G`
pub data Call (F H G : Type 0) : Type 0 where
  read_baseline read_configuration list_snapshots : Call F H G
  accept_disk_at : (rev : Str) → Call F H G
  write_daemon_config : (rev : Str) → Option F → Call F H G
  write_hosts_file : (rev : Str) → Option H → Call F H G
  write_one_service : (rev id : Str) → G → Call F H G
  delete_one_service : (rev id : Str) → Call F H G
  create_snapshot : (reason : Str) → Call F H G
  view_snapshot remove_snapshot : (id : Str) → Call F H G
  restore_snapshot : (rev id : Str) → Call F H G

-- what an answer holds
pub data Reply : Type 0 where
  empty_reply : Reply
  content_reply : Manifest × Image → Reply
  image_reply : Image → Reply
  apply_reply : ApplyResult → Reply
  manifest_reply : Manifest → Reply
  list_reply : List Manifest → Reply

-- the status that `failure` writes; there is none where the process stops
abbrev pub failure_status : Stop → Option ℕ
failure_status crash = none
failure_status (failed conflict) = some 409
failure_status (failed _) = some 422

abbrev pub reply_status : Result Reply × World → Option ℕ × World
reply_status (ok _, w) = (some 200, w)
reply_status (err e, w) = (failure_status e, w)

module _ (env : Env) {F H G : Type 0} (marshal_daemon : F → Option Str)
    (marshal_hosts : H → Option Str) (marshal_group : G → Option Str) (fresh : Str) where
  -- the functions of the table in `handler`
  unfoldable pub perform_call : Call F H G → M Reply
  unfolding managed_baseline accept_disk read write_daemon write_hosts write_service delete_service
      take_snapshot snapshots load_snapshot delete_snapshot restore pure
  perform_call read_baseline = do x ← managed_baseline env; pure (content_reply x)
  perform_call (accept_disk_at rev) = do x ← accept_disk env rev; pure (content_reply x)
  perform_call read_configuration = do im ← read; pure (image_reply im)
  perform_call (write_daemon_config rev form) = do
    a ← write_daemon env marshal_daemon rev form
    pure (apply_reply a)
  perform_call (write_hosts_file rev form) = do
    a ← write_hosts env marshal_hosts rev form
    pure (apply_reply a)
  perform_call (write_one_service rev id group) = do
    a ← write_service env marshal_group rev fresh id group
    pure (apply_reply a)
  perform_call (delete_one_service rev id) = do a ← delete_service env rev id; pure (apply_reply a)
  perform_call (create_snapshot reason) = do m ← take_snapshot env reason; pure (manifest_reply m)
  perform_call list_snapshots = do ms ← snapshots env; pure (list_reply ms)
  perform_call (view_snapshot id) = do x ← load_snapshot env id; pure (content_reply x)
  perform_call (remove_snapshot id) = do delete_snapshot env id; pure empty_reply
  perform_call (restore_snapshot rev id) = do a ← restore env true id rev; pure (apply_reply a)

  -- `rpc`: a body that is no call is rejected before anything is done
  unfoldable pub rpc : Option (Call F H G) → World → Option ℕ × World
  unfolding perform_call
  rpc none w = (some 400, w)
  rpc (some c) w = reply_status (perform_call c w)

  -- the handler under its lock: a call whose client has gone is dropped
  unfoldable pub handle_call : Bool → Option (Call F H G) → World → Option ℕ × World
  unfolding rpc
  handle_call true c w = (none, w)
  handle_call false c w = rpc c w

  -- no answer to a client that is there: the process has stopped
  abbrev stopped : Bool → Option ℕ → Bool
  stopped true s = false
  stopped false none = true
  stopped false (some _) = false

  -- the statuses that the calls of a life of the server are answered with, one behind the other;
  -- none is answered after a stop of the process
  unfoldable pub answer_calls : List (Bool × Option (Call F H G)) → World → List (Option ℕ) × World
  unfolding handle_call
  answer_calls [] w = ([], w)
  answer_calls ((gone, c) ∷ calls) w =
      let (s, v) = handle_call gone c w in
      let (answers, z) = answer_calls calls v in
      if stopped gone s then (s ∷ [], v) else (s ∷ answers, z)

  abbrev pub begin :
      List (Bool × Option (Call F H G)) → Result (Unit {0}) × World → List (Option ℕ) × World
  begin calls (ok _, w) = answer_calls calls w
  begin calls (err e, w) = ([], w)

  -- `Serve`: recovery first, then the calls
  unfoldable pub serve_calls : List (Bool × Option (Call F H G)) → World → List (Option ℕ) × World
  unfolding answer_calls recover
  serve_calls calls w = begin calls (recover env true w)

-- a call for the units: `Control`, and where the daemon then runs, `Healthy`
module _ {W : Type 0} (control healthy : Str → W → Bool × W) where
  abbrev starts : Str → Bool
  starts action =
      same action (codes "start") || (same action (codes "restart") || same action (codes "reload"))

  unfoldable pub lifecycle : Str → W → Bool × W
  unfolding same
  lifecycle action w =
      let (done, v) = control action w in
      if done && starts action then healthy action v else (done, v)
