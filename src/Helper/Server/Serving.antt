-- ===== src/Helper/Server/Serving.antt =====
-- Whom the helper serves, and what it answers.
use avahi_manager.Prelude.{
  ℕ, ◌≡◌, refl, ap, ◌≢◌, ◌⊎◌, inl, inr, Bool, true, false, Option, none, some, List, [], ◌∷◌, ◌++◌,
  arith, Str, All, ◌==◌, if_lem, ==_iff,
}
use avahi_manager.Config.Image.{Env, Image}
use avahi_manager.Config.World.{World, Result, ok, err, Stop}
use avahi_manager.Config.World.Runs.{Runs-at, Outcome}
use avahi_manager.Config.Disk.Reading.{IsDisk}
use avahi_manager.Config.Disk.Showing.{IsImage}
use avahi_manager.Config.Vault.Pointer.{pointing}
use avahi_manager.Config.Transaction.{recover}
use avahi_manager.Config.Transaction.Recovery.{Recoverable, Settled, Safe, recover-Recovers}
use avahi_manager.Helper.Server.{
  Peer, Accepted, accepted, listener_error, and_closed, accept, Call, begin, serve_calls,
  answer_calls,
}

-- `Accept` closed some connections, none of them of the user, and returns the first one of the
-- user.
abbrev pub Admits : ℕ → List Peer → Accepted → Type 0
Admits uid peers (accepted closed behind) =
    (peers ≡ closed ++ some uid ∷ behind) × All (λ (p : Peer). p ≢ some uid) closed
Admits uid peers (listener_error closed) =
    (peers ≡ closed) × All (λ (p : Peer). p ≢ some uid) closed

Admits-and_closed :
    (uid : ℕ) (p : Peer) (peers : List Peer) (a : Accepted)
    → p ≢ some uid
    → Admits uid peers a
    → Admits uid (p ∷ peers) (and_closed p a)
Admits-and_closed uid p peers (accepted closed behind) ne (e, others) = (ap (◌∷◌ p) e, (ne, others))
Admits-and_closed uid p peers (listener_error closed) ne (e, others) = (ap (◌∷◌ p) e, (ne, others))

-- On any connections, `Accept` returns the first one whose peer the kernel names as the user of
-- the manager, closes every one before it, and closes no other.
pub accept-Admits : (uid : ℕ) (peers : List Peer) → Admits uid peers (accept uid peers)
unfolding accept
accept-Admits uid [] = (refl, tt)
accept-Admits uid (none ∷ peers) =
    Admits-and_closed uid none peers (accept uid peers) no_user (accept-Admits uid peers)
  where
    no_user : none ≢ some uid
    no_user q = cc
accept-Admits uid (some n ∷ peers) =
    if_lem (Admits uid (some n ∷ peers)) (n == uid) _ _
      (λ e. (ap (λ m. some m ∷ peers) ((==_iff n uid).0 e), tt))
      (λ e.
        Admits-and_closed uid (some n) peers (accept uid peers) (other e) (accept-Admits uid peers))
  where
    other : (n == uid) ≡ false → some n ≢ some uid
    other e q = ground (arith, e, q)

module _ (env : Env) {F H G : Type 0} (marshal_daemon : F → Option Str)
    (marshal_hosts : H → Option Str) (marshal_group : G → Option Str) (fresh : Str) where
  abbrev pub run_calls : List (Bool × Option (Call F H G)) → World → List (Option ℕ) × World
  run_calls = answer_calls env marshal_daemon marshal_hosts marshal_group fresh

  abbrev pub run_serve : List (Bool × Option (Call F H G)) → World → List (Option ℕ) × World
  run_serve = serve_calls env marshal_daemon marshal_hosts marshal_group fresh

  -- The helper starts as root where a journal was left, with an old image of managed names, on any
  -- schedule: either `Recover` returns without an error, the old image is on the disk, no journal
  -- is left and the baseline is the one of the journal, and all calls are answered from that
  -- state; or `Recover` fails, no call is answered, the state is the one that it left, and the old
  -- image stands there or can still be recovered.
  pub serve_calls-Settled :
      (old : Image) (w : World)
      → env.euid ≡ 0
      → IsImage old
      → IsDisk w.disk
      → (r : Recoverable env old w.vault) → (calls : List (Bool × Option (Call F H G)))
      → ((v : World) × (recover env true w ≡ (ok tt, v))
          × (run_serve calls w ≡ run_calls calls v)
          × Settled old v.disk v.vault
          × (v.vault.baseline ≡ pointing r.journal.baseline_id))
        ⊎ ((e : Stop) × (v : World) × (recover env true w ≡ (err e, v))
            × (run_serve calls w ≡ ([], v))
            × Safe env old v.disk v.vault)
  unfolding serve_calls
  serve_calls-Settled old w root good disk r calls =
      begun (recover env true w) refl (
        Runs-at w (recover env true)
          (recover-Recovers env root old good w.disk w.vault true disk r))
    where
      began : Result (Unit {0}) × World → List (Option ℕ) × World
      began = begin env marshal_daemon marshal_hosts marshal_group fresh calls

      begun :
          (out : Result (Unit {0}) × World)
          → recover env true w ≡ out
          → Outcome
              (λ _ x y. IsDisk x × Settled old x y × (y.baseline ≡ pointing r.journal.baseline_id))
              (λ _. Safe env old)
              out
          → ((v : World) × (recover env true w ≡ (ok tt, v))
              × (run_serve calls w ≡ run_calls calls v)
              × Settled old v.disk v.vault
              × (v.vault.baseline ≡ pointing r.journal.baseline_id))
            ⊎ ((e : Stop) × (v : World) × (recover env true w ≡ (err e, v))
                × (run_serve calls w ≡ ([], v))
                × Safe env old v.disk v.vault)
      begun (ok _, v) h (i, settled, b) = inl (v, h, ap began h, settled, b)
      begun (err e, v) h safe = inr (e, v, h, ap began h, safe)
