-- ===== src/Helper/Services.antt =====
-- What the operations on services change: one file, which is the one that was asked for.
use avahi_manager.Prelude.{
  ◌≡◌, refl, ◌∙◌, subst, ◌≢◌, ◌⊎◌, inl, inr, Bool, true, false, ◌&&◌, Option, none, some, [], ◌∷◌,
  arith, Str, codes, same, same_iff, get, length, ◌==◌, if◌then◌else◌, Bool-cases, &&-eq-true,
  has_prefix, if_lem,
}
use avahi_manager.Helper.{find_service, service_path, service_found, delete_service}
use avahi_manager.Config.Image.{Env, Image, File}
use avahi_manager.Config.World.{Disk, Vault, not_exist, invalid_path}
use avahi_manager.Config.World.Runs.{Runs, Runs-pure, Runs-raise, Runs-post}
use avahi_manager.Config.World.Runs.Steps.{Runs-guard}
use avahi_manager.Config.World.Runs.Observing.{Observes, Runs-observe, Observes-bind}
use avahi_manager.Config.Disk.Reading.{IsDisk, Reads, read-Reads, managed, shown}
use avahi_manager.Config.Transaction.Changes.{
  Applied, NotApplied, apply_changes-Committed, CanRecord,
}

-- the path of a published service that has the identifier
pub record IsService (env : Env) (id p : Str) : Type 0 where
  pub place : has_prefix p (codes "services/") ≡ true
  pub digest : env.digest p ≡ id
  pub managed_path : managed p ≡ true

module _ (env : Env) (id : Str) where
  find_service-get :
      (im : Image) (p : Str)
      → find_service env id im ≡ some p
      → (has_prefix p (codes "services/") ≡ true) × (env.digest p ≡ id) × (get p im ≢ none)
  unfolding find_service get
  find_service-get [] p h = cc
  find_service-get ((q, f) ∷ im) p h =
      at_head (has_prefix q (codes "services/") && same (env.digest q) id) refl
        (find_service-get im p) h
    where
      skipped : (get p im ≢ none) → get p ((q, f) ∷ im) ≢ none
      skipped n = if_lem (λ (o : Option File). o ≢ none) (same q p) _ _ (λ b e. cc) (λ b. n)

      itself : q ≡ p → get p ((q, f) ∷ im) ≢ none
      itself e =
          if_lem (λ (o : Option File). o ≢ none) (same q p) _ _ (λ b k. cc)
            (λ b. absurd (apart ((same_iff q p).1 e) b))
        where
          apart : {c : Bool} → c ≡ true → c ≡ false → ⊥
          apart h k = ground arith

      at_head :
          (b : Bool)
          → (has_prefix q (codes "services/") && same (env.digest q) id) ≡ b
          → (find_service env id im ≡ some p
              → (has_prefix p (codes "services/") ≡ true) × (env.digest p ≡ id) × (get p im ≢ none))
          → (if b then some q else find_service env id im) ≡ some p
          → (has_prefix p (codes "services/") ≡ true)
            × (env.digest p ≡ id)
            × (get p ((q, f) ∷ im) ≢ none)
      at_head false e r h = let (x, y, z) = r h in (x, y, skipped z)
      at_head true e r h =
          let q_is_p : q ≡ p = cc in
          let t = &&-eq-true (has_prefix q (codes "services/")) _ e in
          (
            subst (λ (k : Str). has_prefix k (codes "services/") ≡ true) q_is_p t.0,
            subst (λ (k : Str). env.digest k ≡ id) q_is_p ((same_iff (env.digest q) id).0 t.1),
            itself q_is_p,
          )

  found-managed :
      (d : Disk) (im : Image) (p : Str) → Reads im d → get p im ≢ none → managed p ≡ true
  unfolding shown
  found-managed d im p r n = elim (Bool-cases (managed p)) [
    | inl e ↦ e
    | inr e ↦ absurd (n (r.lookups p ∙ rw e refl))
  ]

  module _ (d : Disk) (v : Vault) (i : IsDisk d) where
    observe_found :
        (o : Option Str) (im : Image)
        → Reads im d
        → find_service env id im ≡ o
        → Observes d v (service_found env o) (IsService env id) (λ _. Unit)
    observe_found none im r h = Runs-raise not_exist (refl, refl, tt)
    observe_found (some p) im r h =
        let (x, y, z) = find_service-get im p h in
        Runs-pure p
          (refl, refl, record { place = x; digest = y; managed_path = found-managed d im p r z })

    observe_service_path : Observes d v (service_path env id) (IsService env id) (λ _. Unit)
    unfolding service_path
    observe_service_path =
        Runs-guard (length id == 64) invalid_path _
          (λ b.
            Observes-bind _ _ (read-Reads i) (λ e k. k)
              (λ im r. observe_found (find_service env id im) im r refl))
          (λ b. (refl, refl, tt))

    -- `DeleteService`, run by root, with valid names of snapshots, where the names on the disk are
    -- UTF-8 and cleaned paths and the texts of the manifests are within the limit of `readFile`,
    -- on every schedule: a result is returned only where exactly the file was deleted that is a
    -- service with the identifier asked for, and committed. Otherwise nothing has changed, or the
    -- deletion of that file was aborted as `Apply` aborts.
    pub delete_service-Applied :
        (rev : Str)
        → env.euid ≡ 0
        → ((p : Str) → IsService env id p → CanRecord env d ((p, none) ∷ []))
        → Runs d v
            (delete_service env rev id)
            (λ _ x y. (p : Str) × IsService env id p × Applied env d ((p, none) ∷ []) x y)
            (λ e x y.
              ((x ≡ d) × (y ≡ v))
              ⊎ ((p : Str) × IsService env id p × NotApplied env d v ((p, none) ∷ []) e x y))
    unfolding delete_service
    delete_service-Applied rev root can =
        Runs-observe _ _ observe_service_path (λ e k. inl (refl, refl))
          (λ p s.
            Runs-post _
              (apply_changes-Committed env root d v i true rev ((p, none) ∷ []) (s.managed_path, tt)
                (can p s))
              (λ a x y h. (p, s, h)) (λ e x y h. inr (p, s, h)))
