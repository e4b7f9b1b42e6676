-- ===== src/Avahi/Examples.antt =====
-- The theorems on the browser, in a state that it reaches.
use avahi_manager.Prelude.{◌≡◌, refl, ◌≢◌, true, false, none, some, [], ◌∷◌, codes, same, get, del}
use avahi_manager.Avahi.{
  Discovery, Browse, Identity, plus, Request, item_new, item_remove, handle, reset, key,
  generation_of, current, remove,
}
use avahi_manager.Avahi.Browsing.{IsBrowse, Reachable, start, next, signal, Reachable-IsBrowse}
use avahi_manager.Avahi.Delivery.{IsFresh, run, run-IsFresh, upserting, remove-deliver}

abbrev printer : Identity
printer = record {
  interface = plus 2;
  protocol = plus 0;
  name = codes "p";
  kind = codes "_ipp";
  domain = codes "local";
}

abbrev no_discovery : Discovery
no_discovery = record {
  services = [];
  connected = false;
  error = [];
  subscribers = (codes "a", none) ∷ [];
}

abbrev at_start : Browse
at_start = record {
  discovery = reset true [] no_discovery;
  types = [];
  generations = [];
  generation = 0;
  in_flight = [];
}

-- the printer was found
abbrev found : Browse
found = elim (handle 3 (item_new printer 0 true) at_start) [ none ↦ at_start | some b ↦ b ]

-- and it is gone again, while its request has no result yet
abbrev gone : Browse
gone = elim (handle 4 (item_remove printer) found) [ none ↦ found | some b ↦ b ]

abbrev a_request : Request
a_request = record { identity = printer; generation = 1 }

found_run : handle 3 (item_new printer 0 true) at_start ≡ some found
unfolding handle
found_run = refl

gone_run : handle 4 (item_remove printer) found ≡ some gone
unfolding handle
gone_run = refl

gone_reached : Reachable gone
gone_reached =
    next found gone
      (next at_start found (start no_discovery)
        (signal 3 (item_new printer 0 true) at_start found found_run))
      (signal 4 (item_remove printer) found gone gone_run)

Reachable-IsBrowse_example : IsBrowse gone
Reachable-IsBrowse_example = Reachable-IsBrowse gone gone_reached

late : generation_of (get (key printer) gone.generations) ≢ 1
unfolding handle key get del same
late h = cc

fresh : IsFresh no_discovery
fresh = (tt, tt)

run-IsFresh_example : IsFresh (
    run
      (upserting 3 (record {
        identity = printer;
        resolved = [];
        flags = 0;
        first_seen = 0;
        last_seen = 0;
        error = [];
      }))
      no_discovery)
run-IsFresh_example =
    run-IsFresh
      (upserting 3 (record {
        identity = printer;
        resolved = [];
        flags = 0;
        first_seen = 0;
        last_seen = 0;
        error = [];
      }))
      no_discovery fresh

subscribed : get (codes "a") no_discovery.subscribers ≡ some none
unfolding get same
subscribed = refl

remove-deliver_example :
    get (codes "a") (remove printer no_discovery).subscribers
    ≡ some (some (current (remove printer no_discovery)))
remove-deliver_example = remove-deliver (codes "a") printer no_discovery none subscribed
