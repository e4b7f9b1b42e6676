-- ===== src/Avahi.antt =====
-- internal/avahi/browser.go: the table of discovered services, its subscribers, and the loop of
-- `browse` as a function on events. `Identity` and `Service` are those of client.go.
pub mod Browsing
pub mod Delivery
mod Examples
use avahi_manager.Prelude.{
  ℕ, zero, suc, ◌+◌, ◌-◌, ◌*◌, ◌/◌, ◌%◌, ◌^◌, ◌≤◌, ◌<◌, ◌≡◌, refl, sym, ap, ◌∙◌, subst, ◌≢◌, ◌↔◌,
  ◌⊎◌, inl, inr, Bool, true, false, not, ◌&&◌, ◌||◌, Option, none, some, List, [], ◌∷◌, ◌++◌, map,
  arith, Str, codes, same, same_refl, same_iff, Map, get, put, del, keys, length, All, leb, ltb,
  ◌==◌, if◌then◌else◌, Bool-cases, &&-eq-true, ltb→lt, leb→le, le→leb, Option-cases,
}
use avahi_manager.Config.Image.{decimal}

-- an `int32`
pub data Int32 : Type 0 where
  plus minus : ℕ → Int32

pub record Identity : Type 0 where
  pub interface : Int32
  pub protocol : Int32
  pub name : Str
  pub kind : Str
  pub domain : Str

-- the fields of `Service` that the table looks at; what was resolved is one text
pub record Service : Type 0 where
  pub identity : Identity
  pub resolved : Str
  pub flags : ℕ
  pub first_seen : ℕ
  pub last_seen : ℕ
  pub error : Str

unfoldable pub print_int : Int32 → Str
unfolding decimal
print_int (plus n) = decimal n
print_int (minus n) = b'-' ∷ decimal n

-- `Identity.Key`
unfoldable pub key : Identity → Str
unfolding print_int
key i =
    print_int i.interface
    ++ 0 ∷ (print_int i.protocol ++ 0 ∷ (i.name ++ 0 ∷ (i.kind ++ 0 ∷ i.domain)))

-- `DiscoveryState`: the services in the order of their keys
pub record Snapshot : Type 0 where
  pub services : Map Service
  pub connected : Bool
  pub error : Str

-- `Discovery`; the channel of a subscriber holds one state at most
pub record Discovery : Type 0 where
  pub services : Map Service
  pub connected : Bool
  pub error : Str
  pub subscribers : Map (Option Snapshot)

unfoldable pub current : Discovery → Snapshot
current d = record { services = d.services; connected = d.connected; error = d.error }

-- the loop of `notify`: a channel that is full is emptied first
unfoldable pub deliver : Snapshot → Map (Option Snapshot) → Map (Option Snapshot)
deliver s [] = []
deliver s ((c, held) ∷ subs) = (c, some s) ∷ deliver s subs

unfoldable pub notify : Discovery → Discovery
unfolding deliver current
notify d = record d { subscribers = deliver (current d) d.subscribers }

-- `Subscribe`, and the function that it returns
unfoldable pub subscribe : Str → Discovery → Discovery
unfolding put current
subscribe c d = record d { subscribers = put c (some (current d)) d.subscribers }

unfoldable pub unsubscribe : Str → Discovery → Discovery
unfolding del
unsubscribe c d = record d { subscribers = del c d.subscribers }

-- a subscriber reads its channel
unfoldable pub receive : Str → Discovery → Discovery
unfolding put
receive c d = record d { subscribers = put c none d.subscribers }

-- `reset`
unfoldable pub reset : Bool → Str → Discovery → Discovery
unfolding notify
reset connected error d = notify (record d { services = []; connected = connected; error = error })

-- the times of a service: zero is no time
abbrev seen : ℕ → Option Service → Service → Service
seen now (some old) s = record s { first_seen = old.first_seen; last_seen = now }
seen now none s = record s {
  first_seen = if s.first_seen == 0 then now else s.first_seen;
  last_seen = now;
}

-- `upsert`
unfoldable pub upsert : ℕ → Service → Discovery → Discovery
unfolding notify key get put
upsert now s d = notify (record d {
  services = put (key s.identity) (seen now (get (key s.identity) d.services) s) d.services;
})

-- `remove`
unfoldable pub remove : Identity → Discovery → Discovery
unfolding notify key del
remove i d = notify (record d { services = del (key i) d.services })

-- `resolveRequest`
pub record Request : Type 0 where
  pub identity : Identity
  pub generation : ℕ

-- the variables of `browse`, with the requests that have no result yet
pub record Browse : Type 0 where
  pub discovery : Discovery
  pub types : Map Str
  pub generations : Map ℕ
  pub generation : ℕ
  pub in_flight : List Request

-- What arrives on the signal channel for a known object. For a new type: the path that the call
-- for its browser returns, if it does. For a new item: whether the queue takes a request.
pub data Event : Type 0 where
  type_new : (kind domain : Str) → Option Str → Event
  item_new : Identity → (flags : ℕ) → (queued : Bool) → Event
  item_remove : Identity → Event
  ignored stopped : Event

-- an item that was not resolved yet
abbrev unresolved : Identity → ℕ → Service
unresolved i flags = record {
  identity = i;
  resolved = [];
  flags = flags;
  first_seen = 0;
  last_seen = 0;
  error = [];
}

abbrev add_type : Str → Option Str → Browse → Option Browse
add_type k none b = none
add_type k (some path) b = some (record b { types = put k path b.types })

abbrev type_known : Str → Option Str → Option Str → Browse → Option Browse
type_known k path (some _) b = some b
type_known k path none b = if leb 256 (length b.types) then none else add_type k path b

-- a new item, where there is room
abbrev pub handled_item : ℕ → Identity → ℕ → Browse → Option Browse
handled_item now i flags b = some (record b {
  generation = b.generation + 1;
  generations = put (key i) (b.generation + 1) b.generations;
  discovery = upsert now (unresolved i flags) b.discovery;
  in_flight = record { identity = i; generation = b.generation + 1 } ∷ b.in_flight;
})

-- the cases of the switch; without a result `browse` returns an error
unfoldable pub handle : ℕ → Event → Browse → Option Browse
unfolding upsert remove key get put del
handle now (type_new kind domain path) b =
    type_known (kind ++ 0 ∷ domain) path (get (kind ++ 0 ∷ domain) b.types) b
handle now (item_remove i) b =
    some (record b { generations = del (key i) b.generations; discovery = remove i b.discovery })
handle now (item_new i flags queued) b =
    if leb 4096 (length b.generations) || not queued then none else handled_item now i flags b
handle now ignored b = some b
handle now stopped b = none

-- `generations[key]`
abbrev pub generation_of : Option ℕ → ℕ
generation_of none = 0
generation_of (some g) = g

abbrev outcome : Request → Option Service → Str → Service
outcome r (some s) error = s
outcome r none error = record {
  identity = r.identity;
  resolved = [];
  flags = 0;
  first_seen = 0;
  last_seen = 0;
  error = error;
}

-- a result of `Resolve`: a service, or an error
unfoldable pub handle_result : ℕ → Request → Option Service → Str → Browse → Browse
unfolding upsert key get
handle_result now r s error b =
    if not (generation_of (get (key r.identity) b.generations) == r.generation)
    then b
    else record b { discovery = upsert now (outcome r s error) b.discovery }
