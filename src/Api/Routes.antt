-- ===== src/Api/Routes.antt =====
-- internal/api/routes.go: how a handler reads its body, calls the helper and answers, and the
-- changes of the list of static hosts. The helper and the database are parameters: functions on a
-- state. An answer is its status.
pub mod Hosts
mod Examples
use avahi_manager.Prelude.{
  ℕ, zero, suc, ◌+◌, ◌-◌, ◌*◌, ◌/◌, ◌%◌, ◌^◌, ◌≤◌, ◌<◌, ◌≡◌, refl, sym, ap, ◌∙◌, subst, ◌≢◌, ◌↔◌,
  ◌⊎◌, inl, inr, Bool, true, false, not, ◌&&◌, ◌||◌, Option, none, some, List, [], ◌∷◌, ◌++◌, map,
  arith, Str, codes, same, same_refl, same_iff, Map, get, put, del, keys, length, All, leb, ltb,
  ◌==◌, if◌then◌else◌, Bool-cases, &&-eq-true, ltb→lt, leb→le, le→leb, Option-cases,
}
use avahi_manager.Files.Hosts.{Host}

-- why a call of the helper failed: its `RPCError`, by the code, or no answer
pub data CallError : Type 0 where
  rpc_error : Str → CallError
  no_answer : CallError

-- the status that `fail` writes
unfoldable pub fail_status : CallError → ℕ
unfolding same
fail_status (rpc_error code) = if same code (codes "conflict") then 409 else 422
fail_status no_answer = 503

-- what `body` looks at: the content type, and the object that the text decodes to
pub record Body (A : Type 0) : Type 0 where
  pub content_type : Str
  pub decoded : Option A

-- what `body` leads to: the status of a rejection, or the object
unfoldable pub body : {A : Type 0} → Body A → ℕ ⊎ A
unfolding same
body b =
    if not (same b.content_type (codes "application/json"))
    then inl 415
    else elim b.decoded [ none ↦ inl 400 | some a ↦ inr a ]

-- the status that `mutate` writes
abbrev pub answer : Option CallError → Bool → ℕ
answer (some e) synced = fail_status e
answer none false = 503
answer none true = 200

module _ {W : Type 0} where
  -- `syncBaseline`: the baseline of the helper is written to the database
  unfoldable pub sync_baseline :
      {B : Type 0} → (W → (CallError ⊎ B) × W) → (B → W → Bool × W) → W → Bool × W
  sync_baseline read_baseline save w =
      let (r, v) = read_baseline w in elim r [ inl e ↦ (false, v) | inr b ↦ save b v ]

  -- `mutate`: the call, then the baseline whatever the call said
  unfoldable pub mutate : (W → Option CallError × W) → (W → Bool × W) → W → ℕ × W
  unfolding fail_status
  mutate call sync w = let (e, v) = call w in let (synced, u) = sync v in (answer e synced, u)

  -- a handler of a mutation: its body, then `mutate`
  unfoldable pub mutation :
      {A : Type 0} → (A → W → Option CallError × W) → (W → Bool × W) → Body A → W → ℕ × W
  unfolding body mutate
  mutation call sync b w = elim (body b) [
    | inl status ↦ (status, w)
    | inr a ↦ mutate (call a) sync w
  ]

  -- a handler that asks the helper for something
  unfoldable pub query : {B : Type 0} → (W → (CallError ⊎ B) × W) → W → (ℕ ⊎ B) × W
  unfolding fail_status
  query call w =
      let (r, v) = call w in elim r [ inl e ↦ (inl (fail_status e), v) | inr b ↦ (inr b, v) ]

  -- the handler of a new service or of a change of one: `id` is the one of the path, empty for a
  -- new one
  unfoldable pub write_service_route :
      {A : Type 0}
      → (A → Str)
      → (Str → A → A)
      → (A → W → Option CallError × W)
      → (W → Bool × W)
      → Str
      → Body A
      → W
      → ℕ × W
  unfolding body mutate same
  write_service_route id_of with_id call sync id b w = elim (body b) [
    | inl status ↦ (status, w)
    | inr a ↦
        if not (same (id_of a) []) && not (same (id_of a) id)
        then (400, w)
        else mutate (call (with_id id a)) sync w
  ]

  -- `configuration`: the first call of all copies the baseline, then the configuration of the
  -- helper with its drift and the managed snapshot
  abbrev with_snapshot :
      {C D : Type 0} → C → D → (Option Str ⊎ CallError) × W → Option (C × D × Str) × W
  with_snapshot c d (inl (some s), w) = (some (c, d, s), w)
  with_snapshot c d (_, w) = (none, w)

  abbrev with_drift :
      {C D : Type 0}
      → (W → (Option Str ⊎ CallError) × W)
      → C
      → Option D × W
      → Option (C × D × Str) × W
  with_drift setting c (none, w) = (none, w)
  with_drift setting c (some d, w) = with_snapshot c d (setting w)

  abbrev with_configuration :
      {C D : Type 0}
      → (W → (Option Str ⊎ CallError) × W)
      → (C → W → Option D × W)
      → (CallError ⊎ C) × W
      → Option (C × D × Str) × W
  with_configuration setting observe (inl e, w) = (none, w)
  with_configuration setting observe (inr c, w) = with_drift setting c (observe c w)

  abbrev first_sync : (W → Bool × W) → (Option Str ⊎ CallError) × W → Bool × W
  first_sync sync (inl (some s), w) = (true, w)
  first_sync sync (inl none, w) = sync w
  first_sync sync (inr e, w) = (false, w)

  unfoldable pub configuration :
      {C D : Type 0}
      → (W → (Option Str ⊎ CallError) × W)
      → (W → Bool × W)
      → (W → (CallError ⊎ C) × W)
      → (C → W → Option D × W)
      → W
      → Option (C × D × Str) × W
  configuration setting sync read observe w =
      let (ready, v) = first_sync sync (setting w) in
      if ready then with_configuration setting observe (read v) else (none, v)
