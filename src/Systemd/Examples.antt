-- ===== src/Systemd/Examples.antt =====
-- The theorems on the control of units, for a bus that answers.
use avahi_manager.Prelude.{false, [], ◌∷◌, codes}
use avahi_manager.Systemd.{
  Bus, job_result, unit_active, control, job_call, stop_job, socket_unit, service_unit,
}
use avahi_manager.Systemd.Control.{Since, control-stop, Started, control-Started}

abbrev done_bus : Bus
done_bus = record {
  calls = [];
  replies = job_result (codes "done") ∷ job_result (codes "done") ∷ unit_active false ∷ [];
}

control-stop_example :
    Since
      (job_call stop_job socket_unit ∷ job_call stop_job service_unit ∷ [])
      (control (codes "stop") done_bus).1
control-stop_example = control-stop done_bus

control-Started_example : Started done_bus (control (codes "start") done_bus)
control-Started_example = control-Started done_bus
