-- ===== src/Detect/Examples.antt =====
-- `Classify` at a status.
use avahi_manager.Prelude.{◌≡◌, refl, true, false, codes}
use avahi_manager.Detect.{Status, classify, running}

abbrev good_status : Status
good_status = record {
  installed = true;
  config_errors = 0;
  systemd_available = true;
  service_error = false;
  load_state = codes "loaded";
  service_state = codes "active";
  socket_state = codes "active";
  avahi_available = true;
  avahi_state = 2;
  update_available = false;
}

classify_run : classify good_status ≡ running
unfolding classify
classify_run = refl
