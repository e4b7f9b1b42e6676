-- ===== src/Avahi/Delivery.antt =====
-- What the subscribers of the table find in their channels.
use avahi_manager.Prelude.{
  ℕ, ◌≡◌, refl, ◌∙◌, inl, inr, Bool, Option, none, some, [], ◌∷◌, Str, same, Map, get, All,
  Bool-cases, All-put, All-del,
}
use avahi_manager.Avahi.{
  Discovery, Snapshot, Service, Identity, current, deliver, notify, subscribe, unsubscribe, receive,
  reset, upsert, remove,
}

-- A channel is empty or holds the current state.
abbrev IsCurrent : Snapshot → Str × Option Snapshot → Type 0
IsCurrent s (c, none) = Unit
IsCurrent s (c, some held) = held ≡ s

abbrev pub IsFresh : Discovery → Type 0
IsFresh d = All (IsCurrent (current d)) d.subscribers

-- the operations on the table
pub data Operation : Type 0 where
  subscribing unsubscribing receiving : Str → Operation
  resetting : Bool → Str → Operation
  upserting : ℕ → Service → Operation
  removing : Identity → Operation

unfoldable pub run : Operation → Discovery → Discovery
run (subscribing c) d = subscribe c d
run (unsubscribing c) d = unsubscribe c d
run (receiving c) d = receive c d
run (resetting connected error) d = reset connected error d
run (upserting now s) d = upsert now s d
run (removing i) d = remove i d

delivered : (s : Snapshot) (subs : Map (Option Snapshot)) → All (IsCurrent s) (deliver s subs)
unfolding deliver
delivered s [] = tt
delivered s ((c, held) ∷ subs) = (refl, delivered s subs)

notify-IsFresh : (d : Discovery) → IsFresh (notify d)
unfolding notify current
notify-IsFresh d = delivered (current d) d.subscribers

-- No operation leaves an old state in the channel of a subscriber: what is in it is the current
-- state, or it is empty.
pub run-IsFresh : (o : Operation) (d : Discovery) → IsFresh d → IsFresh (run o d)
unfolding run subscribe unsubscribe receive reset upsert remove current
run-IsFresh (subscribing c) d h =
    All-put (IsCurrent (current d)) c (some (current d)) d.subscribers refl h
run-IsFresh (unsubscribing c) d h = All-del (IsCurrent (current d)) c d.subscribers h
run-IsFresh (receiving c) d h = All-put (IsCurrent (current d)) c none d.subscribers tt h
run-IsFresh (resetting connected error) d h = notify-IsFresh _
run-IsFresh (upserting now s) d h = notify-IsFresh _
run-IsFresh (removing i) d h = notify-IsFresh _

abbrev filled : Option (Option Snapshot) → Snapshot → Option (Option Snapshot)
filled none s = none
filled (some _) s = some (some s)

get-deliver :
    (c : Str) (s : Snapshot) (subs : Map (Option Snapshot))
    → get c (deliver s subs) ≡ filled (get c subs) s
unfolding deliver get
get-deliver c s [] = refl
get-deliver c s ((k, held) ∷ subs) = elim (Bool-cases (same k c)) [
  | inl e ↦ rw e refl
  | inr e ↦ rw e (get-deliver c s subs)
]

-- After every change of the table, the channel of each subscriber holds the new state, whether it
-- was read before or not.
pub remove-deliver :
    (c : Str) (i : Identity) (d : Discovery) (held : Option Snapshot)
    → get c d.subscribers ≡ some held
    → get c (remove i d).subscribers ≡ some (some (current (remove i d)))
unfolding remove notify current
remove-deliver c i d held h = get-deliver c _ d.subscribers ∙ rw h refl
