-- ===== src/Detect.antt =====
-- `Classify` of internal/detect/detect.go: the state of the daemon that the interface shows.
mod Examples
use avahi_manager.Prelude.{
  ℕ, zero, suc, ◌+◌, ◌-◌, ◌*◌, ◌/◌, ◌%◌, ◌^◌, ◌≤◌, ◌<◌, ◌≡◌, refl, sym, ap, ◌∙◌, subst, ◌≢◌, ◌↔◌,
  ◌⊎◌, inl, inr, Bool, true, false, not, ◌&&◌, ◌||◌, Option, none, some, List, [], ◌∷◌, ◌++◌, map,
  arith, Str, codes, same, same_refl, same_iff, Map, get, put, del, keys, length, All, leb, ltb,
  ◌==◌, if◌then◌else◌, Bool-cases, &&-eq-true, ltb→lt, leb→le, le→leb, Option-cases, if_lem, ==_iff,
  not-eq-true, not-eq-false,
}

-- the parts of `Status` that it reads; errors are counted
pub record Status : Type 0 where
  pub installed : Bool
  pub config_errors : ℕ
  pub systemd_available : Bool
  pub service_error : Bool
  pub load_state : Str
  pub service_state : Str
  pub socket_state : Str
  pub avahi_available : Bool
  pub avahi_state : ℕ
  pub update_available : Bool

pub data State : Type 0 where
  not_installed config_error dbus_unavailable running_degraded installed_stopped update_available
        running :
      State

unfoldable pub classify : Status → State
unfolding same
classify s =
    if not s.installed
    then not_installed
    else if ltb 0 s.config_errors
    then config_error
    else if not s.systemd_available
    then dbus_unavailable
    else if s.service_error || same s.load_state (codes "not-found")
    then running_degraded
    else if not (same s.service_state (codes "active"))
    then (if same s.service_state (codes "failed") then running_degraded else installed_stopped)
    else if not s.avahi_available
    then dbus_unavailable
    else if not (s.avahi_state == 2) || not (same s.socket_state (codes "active"))
    then running_degraded
    else if s.update_available
    then State.update_available
    else running

-- the daemon runs as it should
pub record IsHealthy (s : Status) : Type 0 where
  pub installed : s.installed ≡ true
  pub config : s.config_errors ≡ 0
  pub systemd : s.systemd_available ≡ true
  pub service : s.service_state ≡ codes "active"
  pub socket : s.socket_state ≡ codes "active"
  pub avahi : s.avahi_available ≡ true
  pub avahi_running : s.avahi_state ≡ 2

-- what a state says
abbrev pub Says : Status → State → Type 0
Says s not_installed = s.installed ≡ false
Says s config_error = (s.installed ≡ true) × (0 < s.config_errors)
Says s dbus_unavailable = (s.systemd_available ≡ false) ⊎ (s.avahi_available ≡ false)
Says s running_degraded = s.installed ≡ true
Says s installed_stopped =
    (s.installed ≡ true) × (s.service_state ≢ codes "active") × (s.service_state ≢ codes "failed")
Says s State.update_available = IsHealthy s × (s.update_available ≡ true)
Says s running = IsHealthy s × (s.update_available ≡ false)

unequal : (a b : Str) → same a b ≡ false → a ≢ b
unequal a b h e = ground (arith, (same_iff a b).1 e)

both_true : (a b : Bool) → (not a || not b) ≡ false → (a ≡ true) × (b ≡ true)
both_true a b h = (ground arith, ground arith)

-- `Classify` answers that the daemon runs only where it is installed, its files are valid,
-- systemd has both units active and Avahi answers that it is running; that it has stopped only
-- where the unit is neither active nor failed; and that a bus is missing or files are invalid
-- only where they are.
pub classify-Says : (s : Status) → Says s (classify s)
unfolding classify
classify-Says s =
    if_lem (Says s) (not s.installed) _ _ (λ b. not-eq-true s.installed b)
      (λ b.
        let i = not-eq-false s.installed b in
        if_lem (Says s) (ltb 0 s.config_errors) _ _ (λ c. (i, ltb→lt 0 s.config_errors c))
          (λ c.
            if_lem (Says s) (not s.systemd_available) _ _
              (λ d. inl (not-eq-true s.systemd_available d))
              (λ d.
                if_lem (Says s) (s.service_error || same s.load_state (codes "not-found")) _ _
                  (λ e. i)
                  (λ e.
                    if_lem (Says s) (not (same s.service_state (codes "active"))) _ _
                      (λ f.
                        if_lem (Says s) (same s.service_state (codes "failed")) _ _ (λ g. i)
                          (λ g. (
                            i,
                            unequal s.service_state (codes "active") (not-eq-true _ f),
                            unequal s.service_state (codes "failed") g,
                          )))
                      (λ f.
                        if_lem (Says s) (not s.avahi_available) _ _
                          (λ g. inr (not-eq-true s.avahi_available g))
                          (λ g.
                            if_lem (Says s)
                              (not (s.avahi_state == 2)
                                || not (same s.socket_state (codes "active")))
                              _ _ (λ h. i)
                              (λ h.
                                let healthy : IsHealthy s = record {
                                  installed = i;
                                  config = none_left s.config_errors c;
                                  systemd = not-eq-false s.systemd_available d;
                                  service =
                                      (same_iff s.service_state (codes "active")).0
                                        (not-eq-false _ f);
                                  socket =
                                      (same_iff s.socket_state (codes "active")).0
                                        (both_true (s.avahi_state == 2)
                                          (same s.socket_state (codes "active")) h).1;
                                  avahi = not-eq-false s.avahi_available g;
                                  avahi_running =
                                      (==_iff s.avahi_state 2).0
                                        (both_true (s.avahi_state == 2)
                                          (same s.socket_state (codes "active")) h).0;
                                } in
                                if_lem (Says s) s.update_available _ _ (λ k. (healthy, k))
                                  (λ k. (healthy, k)))))))))
  where
    none_left : (n : ℕ) → ltb 0 n ≡ false → n ≡ 0
    none_left n h = ground arith
