-- ===== src/Helper/Model/Accepted.antt =====
-- `ValidateImage` and `model` agree: what the one accepts, the other shows without an error.
use avahi_manager.Helper.Model.{
  Formats, PublishedService, is_parsed, is_service, data_at, insert_service, daemon_accepted,
  hosts_read, service_read, with_checks, published, service_reports, model,
}
use avahi_manager.Config.Image.{
  Env, entries_ok, content_ok, File, Image, validate_image, max_file_size, max_total_size,
}
use avahi_manager.Prelude.{
  get, Str, ℕ, same, ◌≡◌, has_prefix, List, true, All, false, Option, some, Bool-cases, sym, [],
  ◌∷◌, refl, ◌+◌, none, inr, ◌∙◌, inl, before?, Option-cases, length, subst, ap, not, same_iff, ltb,
  ◌||◌, ◌&&◌, &&-eq-true,
}
use avahi_manager.Files.Hosts.{parse_hosts}
use avahi_manager.Config.Path.{daemon_conf, hosts_file, valid_path}

abbrev PassesIn : Env → Str × File → Type 0
PassesIn env e = content_ok env e.0 e.1 ≡ true

entries_ok-Passes :
    (env : Env) (total : ℕ) (im : Image) → entries_ok env total im ≡ true → All (PassesIn env) im
unfolding entries_ok
entries_ok-Passes env total [] h = tt
entries_ok-Passes env total ((p, f) ∷ im) h =
    let sum = total + length f.content in
    let small = not (ltb max_file_size (length f.content) || ltb max_total_size sum) in
    let checked = valid_path p && small && content_ok env p f in
    let all = &&-eq-true checked (entries_ok env sum im) h in
    let own = &&-eq-true (valid_path p && small) (content_ok env p f) all.0 in
    (own.1, entries_ok-Passes env sum im all.1)

pub get-Passes :
    (P : Str × File → Type 0) (im : Image) (p : Str) (f : File)
    → All P im
    → get p im ≡ some f
    → P (p, f)
unfolding get
get-Passes P [] p f all h = absurd (nothing h)
  where
    nothing : none ≡ some f → ⊥
    nothing q = cc
get-Passes P ((j, g) ∷ im) p f all h = elim (Bool-cases (same j p)) [
  | inl e ↦
      subst (λ (k : Str). P (k, f)) ((same_iff j p).0 e)
        (subst (λ (k : File). P (j, k)) (found (rw e at h)) all.0)
  | inr e ↦ get-Passes P im p f all.1 (rw e at h)
]
  where
    found : {a b : File} → some a ≡ some b → a ≡ b
    found q = cc

daemon_conf-checked :
    (env : Env) (f : File) → content_ok env daemon_conf f ≡ env.daemon_ok f.content
unfolding content_ok same
daemon_conf-checked env f = refl

hosts_file-checked : (env : Env) (f : File) → content_ok env hosts_file f ≡ env.hosts_ok f.content
unfolding content_ok same
hosts_file-checked env f = refl

-- a service file has none of the two other names
service-differs : (p q : Str) → is_service q ≡ false → is_service p ≡ true → same p q ≡ false
service-differs p q away here = elim (Bool-cases (same p q)) [
  | inr e ↦ e
  | inl e ↦ absurd (not_both (sym away ∙ ap is_service (sym ((same_iff p q).0 e)) ∙ here))
]
  where
    not_both : false ≡ true → ⊥
    not_both h = cc

service-checked :
    (env : Env) (p : Str) (f : File)
    → is_service p ≡ true
    → content_ok env p f ≡ env.service_ok f.content
unfolding content_ok has_prefix
service-checked env p f here =
    rw (service-differs p daemon_conf refl here, service-differs p hosts_file refl here) refl

-- a service that is shown with a group
abbrev pub IsShown : PublishedService → Type 0
IsShown s = is_parsed s.group ≡ true

module _ (formats : Formats) (env : Env) where
  abbrev pub Passes : Str × File → Type 0
  Passes = PassesIn (with_checks formats env)

  service-Passes :
      (p : Str) (f : File)
      → Passes (p, f)
      → is_service p ≡ true
      → is_parsed (service_read formats f.content) ≡ true
  unfolding with_checks
  service-Passes p f h here = sym (service-checked (with_checks formats env) p f here) ∙ h

  service_reports-none : (im : Image) → All Passes im → service_reports formats im ≡ []
  unfolding service_reports
  service_reports-none [] all = refl
  service_reports-none ((p, f) ∷ im) all = elim (Bool-cases (is_service p)) [
    | inl here ↦ rw (here, service-Passes p f all.0 here) (service_reports-none im all.1)
    | inr away ↦ rw away (service_reports-none im all.1)
  ]

  insert_service-Shown :
      (s : PublishedService) (ts : List PublishedService)
      → IsShown s
      → All IsShown ts
      → All IsShown (insert_service s ts)
  unfolding insert_service
  insert_service-Shown s [] h all = (h, tt)
  insert_service-Shown s (t ∷ ts) h all = elim (Bool-cases (before? t.filename s.filename)) [
    | inl e ↦ rw e (all.0, insert_service-Shown s ts h all.1)
    | inr e ↦ rw e (h, all)
  ]

  published-Shown : (im : Image) → All Passes im → All IsShown (published formats env.digest im)
  unfolding published
  published-Shown [] all = tt
  published-Shown ((p, f) ∷ im) all = elim (Bool-cases (is_service p)) [
    | inl here ↦
        rw here
          (insert_service-Shown _ _ (service-Passes p f all.0 here) (published-Shown im all.1))
    | inr away ↦ rw away (published-Shown im all.1)
  ]

  hosts-Passes :
      (im : Image) (o : Option File)
      → All Passes im
      → get hosts_file im ≡ o
      → is_parsed (hosts_read formats (data_at o)) ≡ true
  unfolding hosts_read parse_hosts with_checks
  hosts-Passes im none all h = refl
  hosts-Passes im (some f) all h =
      sym (hosts_file-checked (with_checks formats env) f) ∙ get-Passes Passes im hosts_file f all h

  daemon-Passes :
      (im : Image) (f : File)
      → All Passes im
      → get daemon_conf im ≡ some f
      → daemon_accepted formats f.content ≡ true
  unfolding with_checks
  daemon-Passes im f all h =
      sym (daemon_conf-checked (with_checks formats env) f)
      ∙ get-Passes Passes im daemon_conf f all h

  -- an image whose entries pass
  pub image-Shown :
      (im : Image) (f : File)
      → get daemon_conf im ≡ some f
      → All Passes im
      → ((model formats env im).errors ≡ [])
        × (is_parsed (model formats env im).hosts ≡ true)
        × All IsShown (model formats env im).services
  unfolding model
  image-Shown im f e all =
      let hosts = hosts-Passes im (get hosts_file im) all refl in
      (
        rw (e, daemon-Passes im f all e, hosts) (service_reports-none im all),
        hosts,
        published-Shown im all,
      )

  pub validate_image-Passes :
      (im : Image)
      → validate_image (with_checks formats env) im ≡ true
      → (f : File) × (get daemon_conf im ≡ some f) × All Passes im
  unfolding validate_image
  validate_image-Passes im h = elim (Option-cases (get daemon_conf im)) [
    | inl e ↦ absurd (not_both (rw (e, validate_image) at h))
    | inr (f, e) ↦
        (f, e, entries_ok-Passes (with_checks formats env) 0 im (rw (e, validate_image) at h))
  ]
    where
      not_both : false ≡ true → ⊥
      not_both q = cc
