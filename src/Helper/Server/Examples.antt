-- ===== src/Helper/Server/Examples.antt =====
-- The server of the helper at the sample machine.
use avahi_manager.Prelude.{
  ◌≡◌, refl, ◌⊎◌, Bool, true, false, Option, none, some, List, [], ◌∷◌, Str, codes,
}
use avahi_manager.Config.World.{World, pass, halt, ok, stored, Stop, err}
use avahi_manager.Config.Samples.{
  sample_env, sample_disk, sample_image, pending_vault, sample_disk-IsDisk, sample_id,
}
use avahi_manager.Config.Facts.{sample_good, sample_recoverable}
use avahi_manager.Config.Transaction.Recovery.{Settled, Safe}
use avahi_manager.Helper.Server.{
  Peer, accept, Call, read_configuration, create_snapshot, serve_calls, answer_calls,
}
use avahi_manager.Helper.Server.Serving.{Admits, accept-Admits, serve_calls-Settled}
use avahi_manager.Config.Transaction.{recover}

abbrev three_peers : List Peer
three_peers = some 0 ∷ none ∷ some 1001 ∷ []

accept-Admits_example : Admits 1001 three_peers (accept 1001 three_peers)
accept-Admits_example = accept-Admits 1001 three_peers

abbrev as_sent : Str → Option Str
as_sent s = some s

abbrev left_pending : World
left_pending = record {
  disk = sample_disk;
  vault = pending_vault;
  requests = [];
  clock = 3;
  faults = pass ∷ pass ∷ halt true ∷ [];
}

abbrev reading : Option (Call Str Str Str)
reading = some read_configuration

abbrev two_calls : List (Bool × Option (Call Str Str Str))
two_calls = (false, reading) ∷ (false, some (create_snapshot [])) ∷ []

serve_calls-Settled_example :
    ((v : World) × (recover sample_env true left_pending ≡ (ok tt, v))
      × (serve_calls sample_env as_sent as_sent as_sent (codes "x.service") two_calls left_pending
          ≡ answer_calls sample_env as_sent as_sent as_sent (codes "x.service") two_calls v)
      × Settled sample_image v.disk v.vault
      × (v.vault.baseline ≡ stored (sample_id 0)))
    ⊎ ((e : Stop) × (v : World) × (recover sample_env true left_pending ≡ (err e, v))
        × (serve_calls sample_env as_sent as_sent as_sent (codes "x.service") two_calls left_pending
            ≡ ([], v))
        × Safe sample_env sample_image v.disk v.vault)
unfolding sample_recoverable
serve_calls-Settled_example =
    serve_calls-Settled sample_env as_sent as_sent as_sent (codes "x.service") sample_image
      left_pending refl sample_good sample_disk-IsDisk sample_recoverable two_calls
