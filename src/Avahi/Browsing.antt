-- ===== src/Avahi/Browsing.antt =====
-- The invariant of `browse`: the table of services and the generations have the same keys.
use avahi_manager.Prelude.{
  ℕ, suc, ◌+◌, ◌≤◌, ◌<◌, ◌≡◌, refl, sym, ap, ◌∙◌, subst, ◌≢◌, ◌↔◌, inl, inr, Bool, true, false, not,
  ◌||◌, Option, none, some, List, [], ◌∷◌, ◌++◌, arith, Str, same, same_iff, Map, get, put, del,
  length, All, leb, ◌==◌, if◌then◌else◌, Bool-cases, get-put, get-del, if_lem, ==_iff, not-eq-false,
}
use avahi_manager.Avahi.{
  Browse, Discovery, Service, Identity, Request, Event, type_new, item_new, item_remove, ignored,
  stopped, handle, handle_result, upsert, remove, notify, key, add_type, type_known, reset,
  handled_item, generation_of, outcome,
}

-- Avahi resolves a service under the identity that was asked for.
abbrev pub Answers : Request → Option Service → Type 0
Answers r none = Unit
Answers r (some s) = s.identity ≡ r.identity

pub record IsBrowse (b : Browse) : Type 0 where
  pub keys : (k : Str) → (get k b.discovery.services ≡ none) ↔ (get k b.generations ≡ none)
  pub started : All (λ (r : Request). 1 ≤ r.generation) b.in_flight
  pub services_bound : length b.generations ≤ 4096
  pub types_bound : length b.types ≤ 256

-- a request that has no result yet
pub data InFlight (r : Request) : List Request → Type 0 where
  here : (rs : List Request) → InFlight r (r ∷ rs)
  there : (q : Request) (rs : List Request) → InFlight r rs → InFlight r (q ∷ rs)

All-InFlight :
    (P : Request → Type 0) (r : Request) (rs : List Request) → InFlight r rs → All P rs → P r
All-InFlight P r _ (here rs) a = a.0
All-InFlight P r _ (there q rs m) a = All-InFlight P r rs m a.1

-- the events and results that change the state
pub data Step : Browse → Browse → Type 0 where
  signal : (now : ℕ) (e : Event) (b b' : Browse) → handle now e b ≡ some b' → Step b b'
  result :
      (now : ℕ) (r : Request) (s : Option Service) (error : Str) (b : Browse)
      → InFlight r b.in_flight
      → Answers r s
      → Step b (handle_result now r s error b)

-- what can be reached from the start of a browser
pub data Reachable : Browse → Type 0 where
  start :
      (d : Discovery)
      → Reachable (record {
        discovery = reset true [] d;
        types = [];
        generations = [];
        generation = 0;
        in_flight = [];
      })
  next : (b b' : Browse) → Reachable b → Step b b' → Reachable b'

length-put : {V : Type 0} (k : Str) (v : V) (m : Map V) → length (put k v m) ≤ suc (length m)
unfolding put
length-put k v [] = omega arith
length-put k v ((j, w) ∷ m) = ground (arith, length-put k v m)

length-del : {V : Type 0} (k : Str) (m : Map V) → length (del k m) ≤ length m
unfolding del
length-del k [] = omega arith
length-del k ((j, w) ∷ m) = ground (arith, length-del k m)

none-put :
    {V W : Type 0} (k j : Str) (v : V) (w : W) (m : Map V) (n : Map W)
    → (get k m ≡ none) ↔ (get k n ≡ none)
    → (get k (put j v m) ≡ none) ↔ (get k (put j w n) ≡ none)
none-put k j v w m n h = rw get-put (rw get-put (ground (arith, h.0, h.1)))

none-del :
    {V W : Type 0} (k j : Str) (m : Map V) (n : Map W)
    → (get k m ≡ none) ↔ (get k n ≡ none)
    → (get k (del j m) ≡ none) ↔ (get k (del j n) ≡ none)
none-del k j m n h = rw get-del (rw get-del (ground (arith, h.0, h.1)))

some_inj : {b b' : Browse} → some b ≡ some b' → b ≡ b'
some_inj h = cc

add_type-IsBrowse :
    (k : Str) (path : Option Str) (b b' : Browse)
    → length b.types < 256
    → IsBrowse b
    → add_type k path b ≡ some b'
    → IsBrowse b'
add_type-IsBrowse k none b b' l i h = cc
add_type-IsBrowse k (some path) b b' l i h = subst IsBrowse (some_inj h) (record {
  keys = i.keys;
  started = i.started;
  services_bound = i.services_bound;
  types_bound = omega (arith, l, length-put k path b.types);
})

type_known-IsBrowse :
    (k : Str) (path o : Option Str) (b b' : Browse)
    → IsBrowse b
    → type_known k path o b ≡ some b'
    → IsBrowse b'
type_known-IsBrowse k path (some p) b b' i h = subst IsBrowse (some_inj h) i
type_known-IsBrowse k path none b b' i h = full (leb 256 (length b.types)) refl h
  where
    full :
        (c : Bool)
        → leb 256 (length b.types) ≡ c
        → (if c then none else add_type k path b) ≡ some b'
        → IsBrowse b'
    full true e h = cc
    full false e h = add_type-IsBrowse k path b b' (ground arith) i h

module _ (now : ℕ) where
  -- the state behind a new item
  item_new-IsBrowse :
      (i : Identity) (flags : ℕ) (queued : Bool) (b b' : Browse)
      → IsBrowse b
      → handle now (item_new i flags queued) b ≡ some b'
      → IsBrowse b'
  unfolding handle upsert notify
  item_new-IsBrowse i flags queued b b' ok h = full (leb 4096 (length b.generations)) queued refl h
    where
      full :
          (c q : Bool)
          → leb 4096 (length b.generations) ≡ c
          → (if c || not q then none else handled_item now i flags b) ≡ some b'
          → IsBrowse b'
      full true q e h = cc
      full false false e h = cc
      full false true e h = subst IsBrowse (some_inj h) (record {
        keys = λ k. none-put k (key i) _ _ b.discovery.services b.generations (ok.keys k);
        started = (omega arith, ok.started);
        services_bound = ground (arith, length-put (key i) (b.generation + 1) b.generations);
        types_bound = ok.types_bound;
      })

  handle-IsBrowse :
      (e : Event) (b b' : Browse) → IsBrowse b → handle now e b ≡ some b' → IsBrowse b'
  unfolding handle remove notify
  handle-IsBrowse (type_new kind domain path) b b' i h =
      type_known-IsBrowse (kind ++ 0 ∷ domain) path (get (kind ++ 0 ∷ domain) b.types) b b' i h
  handle-IsBrowse (item_new j flags queued) b b' i h = item_new-IsBrowse j flags queued b b' i h
  handle-IsBrowse (item_remove j) b b' i h = subst IsBrowse (some_inj h) (record {
    keys = λ k. none-del k (key j) b.discovery.services b.generations (i.keys k);
    started = i.started;
    services_bound = omega (arith, length-del (key j) b.generations, i.services_bound);
    types_bound = i.types_bound;
  })
  handle-IsBrowse ignored b b' i h = subst IsBrowse (some_inj h) i
  handle-IsBrowse stopped b b' i h = cc

  -- a key that is there already
  none-put_there :
      (k j : Str) (v : Service) (m : Map Service) (n : Map ℕ)
      → (get k m ≡ none) ↔ (get k n ≡ none)
      → get j n ≢ none
      → (get k (put j v m) ≡ none) ↔ (get k n ≡ none)
  none-put_there k j v m n h present = elim (Bool-cases (same j k)) [
    | inl e ↦
        let q = (same_iff j k).0 e in
        rw get-put (rw e ((λ x. cc), (λ x. absurd (present (ap (λ (i : Str). get i n) q ∙ x)))))
    | inr e ↦ rw get-put (rw e h)
  ]

  known : (o : Option ℕ) (g : ℕ) → (generation_of o == g) ≡ true → 1 ≤ g → o ≢ none
  known none g e l h = ground arith
  known (some x) g e l h = cc

  outcome-identity :
      (r : Request) (s : Option Service) (error : Str)
      → Answers r s
      → (outcome r s error).identity ≡ r.identity
  outcome-identity r (some s) error h = h
  outcome-identity r none error h = refl

  handle_result-IsBrowse :
      (r : Request) (s : Option Service) (error : Str) (b : Browse)
      → InFlight r b.in_flight
      → Answers r s
      → IsBrowse b
      → IsBrowse (handle_result now r s error b)
  unfolding handle_result upsert notify
  handle_result-IsBrowse r s error b m a i =
      if_lem IsBrowse (not (generation_of (get (key r.identity) b.generations) == r.generation)) _ _
        (λ e. i)
        (λ e. record {
          keys = λ k.
              none-put_there k (key (outcome r s error).identity) _ b.discovery.services
                b.generations (i.keys k)
                (subst (λ (j : Identity). get (key j) b.generations ≢ none)
                  (sym (outcome-identity r s error a))
                  (known (get (key r.identity) b.generations) r.generation (not-eq-false _ e)
                    (All-InFlight _ r b.in_flight m i.started)));
          started = i.started;
          services_bound = i.services_bound;
          types_bound = i.types_bound;
        })

start-IsBrowse :
    (d : Discovery)
    → IsBrowse (record {
      discovery = reset true [] d;
      types = [];
      generations = [];
      generation = 0;
      in_flight = [];
    })
unfolding reset notify get
start-IsBrowse d = record {
  keys = λ k. ((λ x. refl), (λ x. refl));
  started = tt;
  services_bound = omega arith;
  types_bound = omega arith;
}

-- In every state that `browse` reaches, if Avahi resolves a service under the identity asked for:
-- the table has a service exactly where a generation is kept, so that no service is left that the
-- browser has reported as gone, whatever late results come in; and there are at most 4096
-- services and 256 types.
pub Reachable-IsBrowse : (b : Browse) → Reachable b → IsBrowse b
Reachable-IsBrowse _ (start d) = start-IsBrowse d
Reachable-IsBrowse _ (next b _ h (signal now e _ b' eq)) =
    handle-IsBrowse now e b b' (Reachable-IsBrowse b h) eq
Reachable-IsBrowse _ (next b _ h (result now r s error _ m a)) =
    handle_result-IsBrowse now r s error b m a (Reachable-IsBrowse b h)

-- A result that comes in after its service was removed, or was found anew, changes nothing.
pub handle_result-stale :
    (now : ℕ) (r : Request) (s : Option Service) (error : Str) (b : Browse)
    → generation_of (get (key r.identity) b.generations) ≢ r.generation
    → handle_result now r s error b ≡ b
unfolding handle_result
handle_result-stale now r s error b h =
    if_lem (λ (x : Browse). x ≡ b)
      (not (generation_of (get (key r.identity) b.generations) == r.generation)) _ _ (λ e. refl)
      (λ e. absurd (h ((==_iff _ r.generation).0 (not-eq-false _ e))))
