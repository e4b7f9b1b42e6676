-- ===== src/Database/Drift.antt =====
-- Drift: `ObserveFiles` against the files that `AcceptFiles` took.
use avahi_manager.Prelude.{
  ℕ, ◌≡◌, refl, sym, ap, ◌∙◌, subst, ◌≢◌, inl, inr, Bool, true, false, Option, none, some, List, [],
  ◌∷◌, ◌++◌, Str, same, same_refl, same_iff, Map, get, All, if◌then◌else◌, Bool-cases, IsSorted,
  All-of-get,
}
use avahi_manager.Database.{
  ManagedFile, Drifted, accepted, accept_files, known_drift, observed, new_drift, observe_files,
  hash_of,
}

-- the accepted hash of a file
abbrev pub managed_hash : Option ManagedFile → Str
managed_hash none = []
managed_hash (some f) = f.sha256

get-observed :
    (now : ℕ) (p : Str) (hashes : Map Str) (files : Map ManagedFile)
    → managed_hash (get p (observed now hashes files)) ≡ managed_hash (get p files)
unfolding observed get
get-observed now p hashes [] = refl
get-observed now p hashes ((q, f) ∷ files) = elim (Bool-cases (same q p)) [
  | inl e ↦ rw e refl
  | inr e ↦ rw e (get-observed now p hashes files)
]

-- Observing never accepts: whatever is found on the disk, the hash that was accepted for a file
-- stays the same.
pub observe_files-managed_hash :
    (db_ok : Bool) (now : ℕ) (p : Str) (hashes : Map Str) (files : Map ManagedFile)
    → managed_hash (get p (observe_files db_ok now hashes files).1) ≡ managed_hash (get p files)
unfolding observe_files
observe_files-managed_hash true now p hashes files = get-observed now p hashes files
observe_files-managed_hash false now p hashes files = refl

get-accepted :
    (now : ℕ) (p : Str) (hashes : Map Str)
    → get p (accepted now hashes) ≡ elim (get p hashes) [
      | none ↦ none
      | some h ↦ some (record { sha256 = h; last_seen_at = now; externally_modified = false })
    ]
unfolding accepted get
get-accepted now p [] = refl
get-accepted now p ((q, h) ∷ hashes) = elim (Bool-cases (same q p)) [
  | inl e ↦ rw e refl
  | inr e ↦ rw e (get-accepted now p hashes)
]

-- where nothing is reported, nothing differs
known_drift-none :
    (hashes : Map Str) (files : Map ManagedFile) (p : Str) (f : ManagedFile)
    → known_drift hashes files ≡ []
    → get p files ≡ some f
    → hash_of (get p hashes) ≡ f.sha256
unfolding known_drift get
known_drift-none hashes [] p f h g = cc
known_drift-none hashes ((q, x) ∷ files) p f h g =
    go (λ h' g'. known_drift-none hashes files p f h' g') (same (hash_of (get q hashes)) x.sha256)
      refl (same q p) refl h g
  where
    go :
        (known_drift hashes files ≡ [] → get p files ≡ some f → hash_of (get p hashes) ≡ f.sha256)
        → (b : Bool) → same (hash_of (get q hashes)) x.sha256 ≡ b
        → (c : Bool) → same q p ≡ c
        → (if b
            then known_drift hashes files
            else record { path = q; managed_hash = x.sha256; disk_hash = hash_of (get q hashes) }
              ∷ known_drift hashes files)
          ≡ []
        → (if c then some x else get p files) ≡ some f
        → hash_of (get p hashes) ≡ f.sha256
    go r false eb c ec h g = cc
    go r true eb false ec h g = r h g
    go r true eb true ec h g =
        let q_is_p : q ≡ p = (same_iff q p).0 ec in
        let e : hash_of (get q hashes) ≡ x.sha256 =
          (same_iff (hash_of (get q hashes)) x.sha256).0 eb in
        let x_is_f : x ≡ f = cc in
        ap (λ (k : Str). hash_of (get k hashes)) (sym q_is_p)
        ∙ e
        ∙ ap (λ (y : ManagedFile). y.sha256) x_is_f

new_drift-none :
    (files : Map ManagedFile) (hashes : Map Str) (p h : Str)
    → new_drift files hashes ≡ []
    → get p hashes ≡ some h
    → get p files ≢ none
unfolding new_drift get
new_drift-none files [] p h d g = cc
new_drift-none files ((q, x) ∷ hashes) p h d g =
    go (λ d' g'. new_drift-none files hashes p h d' g') (get q files) refl (same q p) refl d g
  where
    go :
        (new_drift files hashes ≡ [] → get p hashes ≡ some h → get p files ≢ none)
        → (o : Option ManagedFile) → get q files ≡ o
        → (c : Bool) → same q p ≡ c
        → elim o [
          | none ↦ record { path = q; managed_hash = []; disk_hash = x } ∷ new_drift files hashes
          | some _ ↦ new_drift files hashes
        ]
          ≡ []
        → (if c then some x else get p hashes) ≡ some h
        → get p files ≢ none
    go r none eo c ec d g = cc
    go r (some f) eo false ec d g = r d g
    go r (some f) eo true ec d g = λ n.
        some_not_none (sym (subst (λ (k : Str). get k files ≡ some f) ((same_iff q p).0 ec) eo) ∙ n)
      where
        some_not_none : some f ≡ none → ⊥
        some_not_none e = cc

append-nil : {A : Type 0} (xs ys : List A) → xs ++ ys ≡ [] → (xs ≡ []) × (ys ≡ [])
append-nil [] ys h = (refl, h)
append-nil (x ∷ xs) ys h = cc

-- Where `ObserveFiles` reports no drift, every file has the hash that was accepted for it, and no
-- file is there that was not accepted.
pub observe_files-none :
    (now : ℕ) (p : Str) (hashes : Map Str) (files : Map ManagedFile)
    → (observe_files true now hashes files).0 ≡ some []
    → hash_of (get p hashes) ≡ managed_hash (get p files)
unfolding observe_files
observe_files-none now p hashes files h =
    let e = append-nil (known_drift hashes files) (new_drift files hashes) (some_inj h) in
    agree (get p files) refl (get p hashes) refl (λ f g. known_drift-none hashes files p f e.0 g)
      (λ x g. new_drift-none files hashes p x e.1 g)
  where
    some_inj : {xs : List Drifted} → some xs ≡ some [] → xs ≡ []
    some_inj h = cc

    agree :
        (o : Option ManagedFile)
        → get p files ≡ o
        → (k : Option Str) → get p hashes ≡ k
        → ((f : ManagedFile) → get p files ≡ some f → hash_of (get p hashes) ≡ f.sha256)
        → ((x : Str) → get p hashes ≡ some x → get p files ≢ none)
        → hash_of k ≡ managed_hash o
    agree none eo none ek r n = refl
    agree none eo (some x) ek r n = absurd (n x ek eo)
    agree (some f) eo k ek r n = ap hash_of (sym ek) ∙ r f eo

-- the files are those accepted at the same hashes, from some entry on
known_drift-accepted :
    (now : ℕ) (full hashes : Map Str)
    → All (λ (e : Str × Str). get e.0 full ≡ some e.1) hashes
    → known_drift full (accepted now hashes) ≡ []
unfolding known_drift accepted
known_drift-accepted now full [] h = refl
known_drift-accepted now full ((p, x) ∷ hashes) (e, h) =
    rw e (rw (same_refl x) (known_drift-accepted now full hashes h))

new_drift-accepted :
    (now : ℕ) (full hashes : Map Str)
    → All (λ (e : Str × Str). get e.0 full ≡ some e.1) hashes
    → new_drift (accepted now full) hashes ≡ []
unfolding new_drift
new_drift-accepted now full [] h = refl
new_drift-accepted now full ((p, x) ∷ hashes) (e, h) =
    let found : get p (accepted now full)
        ≡ some (record { sha256 = x; last_seen_at = now; externally_modified = false }) =
      get-accepted now p full ∙ rw e refl in
    rw (found, new_drift) (new_drift-accepted now full hashes h)

-- Files that were just accepted show no drift.
pub accept_files-observe_files :
    (now later : ℕ) (hashes : Map Str) (files : Map ManagedFile)
    → IsSorted hashes
    → (observe_files true later hashes (accept_files true now hashes files).1).0 ≡ some []
unfolding observe_files accept_files
accept_files-observe_files now later hashes files o =
    let each : All (λ (e : Str × Str). get e.0 hashes ≡ some e.1) hashes =
      All-of-get _ hashes o (λ k x h. h) in
    rw (known_drift-accepted now hashes hashes each)
      (rw (new_drift-accepted now hashes hashes each) refl)
