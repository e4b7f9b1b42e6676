-- ===== src/Database/Examples.antt =====
-- The theorems on jobs and drift, where their hypotheses hold.
use avahi_manager.Prelude.{◌≡◌, refl, true, none, some, [], ◌∷◌, Str, codes, same, Map, get}
use avahi_manager.Database.{
  Job, running, succeeded, update_job, interrupt_jobs, accept_files, observe_files,
}
use avahi_manager.Database.Jobs.{stay, update, interrupt, Steps-ended}
use avahi_manager.Database.Drift.{
  managed_hash, observe_files-managed_hash, accept_files-observe_files,
}

abbrev ended_job : Job
ended_job = record {
  kind = codes "apply";
  state = succeeded;
  progress = 100;
  result = [];
  created_at = 1;
  finished_at = some 2;
}

abbrev live_job : Job
live_job = record {
  kind = codes "apply";
  state = running;
  progress = 10;
  result = [];
  created_at = 3;
  finished_at = none;
}

abbrev two_jobs : Map Job
two_jobs = (codes "a", ended_job) ∷ (codes "b", live_job) ∷ []

abbrev after_update : Map Job
after_update = (update_job true 9 (codes "a") running 50 [] two_jobs).1

abbrev after_both : Map Job
after_both = (interrupt_jobs true 10 after_update).1

an_ended_job : get (codes "a") two_jobs ≡ some ended_job
unfolding get same
an_ended_job = refl

Steps-ended_example : get (codes "a") after_both ≡ some ended_job
Steps-ended_example =
    Steps-ended (codes "a") ended_job two_jobs after_both
      (update true 9 (codes "a") running 50 [] two_jobs after_both
        (interrupt true 10 after_update after_both (stay after_both)))
      an_ended_job refl

abbrev some_hashes : Map Str
some_hashes = (codes "hosts", codes "1") ∷ []

observe_files-managed_hash_example :
    managed_hash
      (get (codes "hosts") (observe_files true 2 [] (accept_files true 1 some_hashes []).1).1)
    ≡ managed_hash (get (codes "hosts") (accept_files true 1 some_hashes []).1)
observe_files-managed_hash_example =
    observe_files-managed_hash true 2 (codes "hosts") [] (accept_files true 1 some_hashes []).1

accept_files-observe_files_example :
    (observe_files true 2 some_hashes (accept_files true 1 some_hashes []).1).0 ≡ some []
accept_files-observe_files_example = accept_files-observe_files 1 2 some_hashes [] (tt, tt)
