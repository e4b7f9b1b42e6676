-- ===== src/Api/Routes/Hosts/Editing.antt =====
-- What `hostsChange` writes.
use avahi_manager.Prelude.{
  ℕ, ◌≤◌, ◌≡◌, refl, ap, ◌≢◌, ◌⊎◌, inl, inr, Bool, true, false, not, Option, none, some, List, [],
  ◌∷◌, ◌++◌, arith, Str, same, same_iff, All, Bool-cases, if_lem, not-eq-false,
}
use avahi_manager.Files.Hosts.{Host}
use avahi_manager.Api.Routes.{CallError, fail_status, Body, body, mutate}
use avahi_manager.Api.Routes.Hosts.{
  HostsForm, HostsView, Method, post, put_method, delete_method, host_id, change_first,
  changed_hosts, onto_host, lacks_host, with_hosts, with_view, with_form, hosts_change,
}

module _ (digest : Str → Str) where
  -- the host with the id that stands first, and what is on both sides of it
  pub record FirstAt (id : Str) (hosts : List Host) : Type 0 where
    pub before : List Host
    pub host : Host
    pub after : List Host
    pub splits : hosts ≡ before ++ host ∷ after
    pub named : host_id digest host ≡ id
    pub others : All (λ (h : Host). host_id digest h ≢ id) before

  -- the list that a method makes of another
  abbrev pub Edited : Method → Str → Option Host → List Host → List Host → Type 0
  Edited post id (some h) old new = new ≡ old ++ h ∷ []
  Edited post id none old new = ⊥
  Edited put_method id (some h) old new = (f : FirstAt id old) × (new ≡ f.before ++ h ∷ f.after)
  Edited put_method id none old new = ⊥
  Edited delete_method id _ old new = (f : FirstAt id old) × (new ≡ f.before ++ f.after)

  abbrev in_place : Option Host → List Host → List Host
  in_place none hosts = hosts
  in_place (some h) hosts = h ∷ hosts

  change_first-FirstAt :
      (id : Str) (x : Option Host) (old new : List Host)
      → change_first digest id x old ≡ some new
      → (f : FirstAt id old) × (new ≡ f.before ++ in_place x f.after)
  unfolding change_first
  change_first-FirstAt id x [] new e = absurd (missing e)
    where
      missing : {new : List Host} → none ≡ some new → ⊥
      missing q = cc
  change_first-FirstAt id x (h ∷ old) new e = elim (Bool-cases (same (host_id digest h) id)) [
    | inl q ↦ (
      record {
        before = [];
        host = h;
        after = old;
        splits = refl;
        named = (same_iff (host_id digest h) id).0 q;
        others = tt;
      },
      here x (rw (change_first, q) at e),
    )
    | inr q ↦
        later q (change_first digest id x old) refl (rw (change_first, q) at e)
          (λ rest p. change_first-FirstAt id x old rest p)
  ]
    where
      here :
          (x : Option Host)
          → elim x [ none ↦ some old | some y ↦ some (y ∷ old) ] ≡ some new
          → new ≡ in_place x old
      here none p = ground (arith, p)
      here (some y) p = ground (arith, p)

      differs : same (host_id digest h) id ≡ false → host_id digest h ≢ id
      differs q p = ground (arith, (same_iff (host_id digest h) id).1 p)

      later :
          same (host_id digest h) id ≡ false
          → (o : Option (List Host)) → change_first digest id x old ≡ o
          → onto_host digest h o ≡ some new
          → ((rest : List Host)
              → change_first digest id x old ≡ some rest
              → (f : FirstAt id old) × (rest ≡ f.before ++ in_place x f.after))
          → (f : FirstAt id (h ∷ old)) × (new ≡ f.before ++ in_place x f.after)
      later q none p r again = absurd (missing r)
        where
          missing : none ≡ some new → ⊥
          missing y = cc
      later q (some rest) p r again =
          let (f, made) = again rest p in
          (
            record {
              before = h ∷ f.before;
              host = f.host;
              after = f.after;
              splits = ap (◌∷◌ h) f.splits;
              named = f.named;
              others = (differs q, f.others);
            },
            ground (arith, r, made),
          )

  changed_hosts-Edited :
      (m : Method) (id : Str) (x : Option Host) (old new : List Host)
      → lacks_host digest m x ≡ false
      → changed_hosts digest m id x old ≡ some new
      → Edited m id x old new
  unfolding changed_hosts
  changed_hosts-Edited post id none old new h e = absurd (lacks h)
    where
      lacks : true ≡ false → ⊥
      lacks q = cc
  changed_hosts-Edited post id (some x) old new h e = ground (arith, e)
  changed_hosts-Edited put_method id none old new h e = absurd (lacks h)
    where
      lacks : true ≡ false → ⊥
      lacks q = cc
  changed_hosts-Edited put_method id (some x) old new h e =
      change_first-FirstAt id (some x) old new e
  changed_hosts-Edited delete_method id x old new h e = change_first-FirstAt id none old new e

  fail_status-error : (e : CallError) → 400 ≤ fail_status e
  unfolding fail_status
  fail_status-error e = ground arith

  body-error : (b : Body HostsForm) (n : ℕ) → body b ≡ inl n → 400 ≤ n
  unfolding body
  body-error b n e = ground (arith, e)

  module _ {W : Type 0} (read : W → (CallError ⊎ HostsView) × W)
      (write_hosts : Str → List Host → W → Option CallError × W) (sync : W → Bool × W) where
    -- Nothing was written: the answer is an error, and at most the helper was asked.
    abbrev pub Declined : W → ℕ × W → Type 0
    Declined w out = (400 ≤ out.0) × ((out.1 ≡ w) ⊎ (out.1 ≡ (read w).1))

    -- One list was written, made from the list that was read at the revision of the form.
    abbrev pub Written : Method → Str → Body HostsForm → W → ℕ × W → Type 0
    Written m id b w out =
        (form : HostsForm) × (v : HostsView) × (new : List Host) × (body b ≡ inr form)
        × ((read w).0 ≡ inr v)
        × (v.revision ≡ form.revision)
        × Edited m id form.host v.hosts new
        × (out ≡ mutate (write_hosts form.revision new) sync (read w).1)

    -- A change of the list of hosts writes at most one list. If it writes one, the form has the
    -- revision of the list that was just read, and the list written is that list with the host at
    -- the end (`POST`), with the first host of that id replaced (`PUT`) or without it (`DELETE`),
    -- and nothing else changed; if it writes none, the answer is an error.
    pub hosts_change-Written :
        (m : Method) (id : Str) (b : Body HostsForm) (w : W)
        → Declined w (hosts_change digest read write_hosts sync m id b w)
          ⊎ Written m id b w (hosts_change digest read write_hosts sync m id b w)
    unfolding hosts_change
    hosts_change-Written m id b w = by_body (body b) refl
      where
        by_hosts :
            (form : HostsForm) (v : HostsView)
            → body b ≡ inr form
            → (read w).0 ≡ inr v
            → v.revision ≡ form.revision
            → lacks_host digest m form.host ≡ false
            → (o : Option (List Host)) → changed_hosts digest m id form.host v.hosts ≡ o
            → Declined w (with_hosts digest read write_hosts sync form.revision o (read w).1)
              ⊎ Written m id b w
                  (with_hosts digest read write_hosts sync form.revision o (read w).1)
        by_hosts form v eb er es el none e = inl (omega arith, inr refl)
        by_hosts form v eb er es el (some new) e =
            inr
              (form, v, new, eb, er, es, changed_hosts-Edited m id form.host v.hosts new el e, refl)

        by_view :
            (form : HostsForm)
            → body b ≡ inr form
            → lacks_host digest m form.host ≡ false
            → (r : CallError ⊎ HostsView) → (read w).0 ≡ r
            → Declined w (with_view digest read write_hosts sync m id form (r, (read w).1))
              ⊎ Written m id b w (with_view digest read write_hosts sync m id form (r, (read w).1))
        by_view form eb el (inl e) er = inl (fail_status-error e, inr refl)
        by_view form eb el (inr v) er =
            if_lem (λ (out : ℕ × W). Declined w out ⊎ Written m id b w out)
              (not (same v.revision form.revision)) _ _ (λ q. inl (omega arith, inr refl))
              (λ q.
                by_hosts form v eb er
                  ((same_iff v.revision form.revision).0
                    (not-eq-false (same v.revision form.revision) q))
                  el (changed_hosts digest m id form.host v.hosts) refl)

        by_body :
            (r : ℕ ⊎ HostsForm)
            → body b ≡ r
            → Declined w (with_form digest read write_hosts sync m id r w)
              ⊎ Written m id b w (with_form digest read write_hosts sync m id r w)
        by_body (inl n) e = inl (body-error b n e, inl refl)
        by_body (inr form) e =
            if_lem (λ (out : ℕ × W). Declined w out ⊎ Written m id b w out)
              (lacks_host digest m form.host) _ _ (λ q. inl (omega arith, inl refl))
              (λ q. by_view form e q (read w).0 refl)
