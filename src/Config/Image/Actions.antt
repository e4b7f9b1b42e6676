-- ===== src/Config/Image/Actions.antt =====
-- What the answer of `ChangeAction` says about two images.
use avahi_manager.Prelude.{
  ◌≡◌, refl, ap, subst, ◌≢◌, ◌⊎◌, inl, inr, Bool, true, false, ◌||◌, Option, none, some, List, [],
  ◌∷◌, arith, Str, same, same_refl, same_iff, Map, get, keys, All, Bool-cases, ◌++◌, Option-cases,
}
use avahi_manager.Config.Image.{
  File, Image, Action, no_action, reload, restart, same_file, same_entry, change_among,
  change_action,
}
use avahi_manager.Config.Path.{daemon_conf, hosts_file}

All-of-key :
    {A : Type 0} (P : Str → Type 0) (k : Str) (im : Map A)
    → All P (keys im)
    → (get k im ≢ none)
    → P k
unfolding get keys
All-of-key P k [] a h = absurd (h refl)
All-of-key P k ((j, x) ∷ im) (a, rest) h = elim (Bool-cases (same j k)) [
  | inl e ↦ subst P ((same_iff j k).0 e) a
  | inr e ↦ All-of-key P k im rest (λ n. h (rw e n))
]

pub same_file_sound : (a b : File) → same_file a b ≡ true → a ≡ b
unfolding same_file
same_file_sound a b h = ground (arith, same_iff a.content b.content)

pub same_entry_sound : (a b : Option File) → same_entry a b ≡ true → a ≡ b
unfolding same_entry
same_entry_sound none none h = refl
same_entry_sound none (some b) h = cc
same_entry_sound (some a) none h = cc
same_entry_sound (some a) (some b) h = ap some (same_file_sound a b h)

same_file_refl : (a : File) → same_file a a ≡ true
unfolding same_file
same_file_refl a = ground (arith, same_refl a.content)

same_entry_refl : (a : Option File) → same_entry a a ≡ true
unfolding same_entry
same_entry_refl none = refl
same_entry_refl (some a) = same_file_refl a

abbrev Differs : Image → Image → Str → Type 0
Differs old new p = get p old ≢ get p new

-- what an action says about the images
abbrev pub Explains : Image → Image → Action → Type 0
Explains old new no_action = (p : Str) → get p old ≡ get p new
Explains old new reload =
    (get daemon_conf old ≡ get daemon_conf new)
    × (get hosts_file old ≡ get hosts_file new)
    × (p : Str) × (get p old ≢ get p new)
Explains old new restart =
    (get daemon_conf old ≢ get daemon_conf new) ⊎ (get hosts_file old ≢ get hosts_file new)

module _ (old new : Image) where
  abbrev agree : Str → Bool
  agree p = same_entry (get p old) (get p new)

  -- the answer over some of the keys, from an answer so far
  abbrev Among : Action → List Str → Action → Type 0
  Among a ps no_action = (a ≡ no_action) × All (λ p. agree p ≡ true) ps
  Among a ps reload =
      All (λ p. (same p daemon_conf || same p hosts_file) ≡ true → agree p ≡ true) ps
      × ((a ≡ reload) ⊎ ((p : Str) × (agree p ≡ false)))
  Among a ps restart =
      (a ≡ restart)
      ⊎ ((p : Str) × ((same p daemon_conf || same p hosts_file) ≡ true) × (agree p ≡ false))

  Among-same :
      (a : Action) (p : Str) (ps : List Str) (r : Action)
      → agree p ≡ true
      → Among a ps r
      → Among a (p ∷ ps) r
  Among-same a p ps no_action h (e, rest) = (e, (h, rest))
  Among-same a p ps reload h (rest, o) = (((λ _. h), rest), o)
  Among-same a p ps restart h o = o

  Among-other :
      (a : Action) (p : Str) (ps : List Str) (r : Action)
      → agree p ≡ false
      → (same p daemon_conf || same p hosts_file) ≡ false
      → Among reload ps r
      → Among a (p ∷ ps) r
  Among-other a p ps no_action h k (e, rest) = cc
  Among-other a p ps reload h k (rest, o) = (((λ t. cc), rest), inr (p, h))
  Among-other a p ps restart h k (inl e) = cc
  Among-other a p ps restart h k (inr o) = inr o

  among_lem : (a : Action) (ps : List Str) → a ≢ restart → Among a ps (change_among old new a ps)
  unfolding change_among
  among_lem no_action [] h = (refl, tt)
  among_lem reload [] h = (tt, inl refl)
  among_lem restart [] h = absurd (h refl)
  among_lem a (p ∷ ps) h = elim (Bool-cases (agree p)) [
    | inl e ↦ rw (Among, e) (Among-same a p ps _ e (among_lem a ps h))
    | inr e ↦ elim (Bool-cases (same p daemon_conf || same p hosts_file)) [
      | inl k ↦ rw (Among, e, k) (inr (p, k, e))
      | inr k ↦ rw (Among, e, k) (Among-other a p ps _ e k (among_lem reload ps (λ t. cc)))
    ]
  ]

  agree_sound : (p : Str) → agree p ≡ true → get p old ≡ get p new
  agree_sound p h = same_entry_sound (get p old) (get p new) h

  differ_sound : (p : Str) → agree p ≡ false → get p old ≢ get p new
  differ_sound p h e =
      ground (arith, same_entry_refl (get p new), subst (λ o. same_entry o (get p new) ≡ false) e h)

  All-right : (P : Str → Type 0) (ps qs : List Str) → All P (ps ++ qs) → All P qs
  All-right P [] qs h = h
  All-right P (q ∷ ps) qs (a, h) = All-right P ps qs h

  All-left : (P : Str → Type 0) (ps qs : List Str) → All P (ps ++ qs) → All P ps
  All-left P [] qs h = tt
  All-left P (q ∷ ps) qs (a, h) = (a, All-left P ps qs h)

  agrees_at :
      (C : Str → Bool) (p : Str)
      → All (λ p. C p ≡ true → agree p ≡ true) (keys old ++ keys new)
      → C p ≡ true
      → get p old ≡ get p new
  agrees_at C p h c = elim (Option-cases (get p old)) [
    | inl e ↦ elim (Option-cases (get p new)) [
      | inl k ↦ cc
      | inr (f, k) ↦
          agree_sound p (All-of-key _ p new (All-right _ (keys old) (keys new) h) (λ t. cc) c)
    ]
    | inr (f, e) ↦
        agree_sound p (All-of-key _ p old (All-left _ (keys old) (keys new) h) (λ t. cc) c)
  ]

  always :
      (ps : List Str) → All (λ p. agree p ≡ true) ps → All (λ p. true ≡ true → agree p ≡ true) ps
  always [] h = tt
  always (p ∷ ps) (a, h) = ((λ _. a), always ps h)

  main_differs :
      (p : Str)
      → (same p daemon_conf || same p hosts_file) ≡ true
      → agree p ≡ false
      → Explains old new restart
  main_differs p m h = elim (Bool-cases (same p daemon_conf)) [
    | inl e ↦ inl (subst (Differs old new) ((same_iff p daemon_conf).0 e) (differ_sound p h))
    | inr e ↦
        inr (subst (Differs old new) ((same_iff p hosts_file).0 (ground arith)) (differ_sound p h))
  ]

  explained : (r : Action) → Among no_action (keys old ++ keys new) r → Explains old new r
  unfolding same
  explained no_action (_, h) = λ p. agrees_at (λ _. true) p (always _ h) refl
  explained reload (h, o) =
      let main = λ (p : Str). same p daemon_conf || same p hosts_file in
      (
        agrees_at main daemon_conf h refl,
        agrees_at main hosts_file h refl,
        (other o).0,
        (other o).1,
      )
    where
      other :
          (no_action ≡ reload) ⊎ ((p : Str) × (agree p ≡ false))
          → (p : Str) × (get p old ≢ get p new)
      other (inl e) = cc
      other (inr (p, e)) = (p, differ_sound p e)
  explained restart (inl e) = cc
  explained restart (inr (p, m, e)) = main_differs p m e

  -- `ChangeAction` answers that nothing is to be done only where the images have the same file
  -- under every name; a reload only where `avahi-daemon.conf` and `hosts` are the same and some
  -- file is not; and a restart only where one of these two differs.
  pub change_action-Explains : Explains old new (change_action old new)
  unfolding change_action
  change_action-Explains = explained _ (among_lem no_action (keys old ++ keys new) (λ t. cc))
