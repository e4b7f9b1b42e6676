-- ===== src/Files/Service/Shape/Walks.antt =====
-- The loop of `ParseService` over the tokens of a tree does what a walk over the tree does.

use avahi_manager.Prelude.{
  ℕ, ◌+◌, ◌≡◌, refl, ◌∙◌, Bool, true, false, not, ◌&&◌, ◌||◌, List, [], ◌∷◌, ◌++◌, arith, Str, same,
  Map, put, if◌then◌else◌, trim_space, ap, get,
}
use avahi_manager.Files.Service.Shape.{
  Token, start_token, end_token, text_token, other_token, Frame, next, bad_shape, count, allowed,
  no_text, on_token, on_tokens, Next, on_text,
}
use avahi_manager.Files.Service.Shape.Trees.{
  Nodes, nil, element, text, remark, tokens, names_onto, head_ok, complete, is_shaped, Tracks,
  on_end-complete, allowed-named, on_tokens-next, on_tokens-bad_shape, on_start-in,
  on_tokens_middle, Tracks-put,
}

-- What a run of the loop comes to at the content of an open element: an error, or what is behind
-- the content, with the children counted.
abbrev pub Walks : Str → List Str → List Frame → ℕ → List Token → Next → Bool → Type 0
Walks p names st r rest run true =
    (d : Map ℕ) × Tracks d names × (run ≡ on_tokens rest ((p, d) ∷ st) r)
Walks p names st r rest run false = run ≡ bad_shape

module _ (p : Str) (names : List Str) (st : List Frame) (r : ℕ) (rest : List Token) where
  Walks-from :
      (run run_after : Next) (b : Bool)
      → run ≡ run_after
      → Walks p names st r rest run_after b
      → Walks p names st r rest run b
  Walks-from run run_after true e (d, t, w) = (d, t, e ∙ w)
  Walks-from run run_after false e w = e ∙ w

  Walks-and :
      (run : Next) (a b : Bool)
      → (a ≡ false → run ≡ bad_shape)
      → (a ≡ true → Walks p names st r rest run b)
      → Walks p names st r rest run (a && b)
  Walks-and run true b h k = k refl
  Walks-and run false b h k = h refl

  Walks-element :
      (run : Next) (h i k l : Bool)
      → (h ≡ false → run ≡ bad_shape)
      → (h ≡ true → i ≡ false → run ≡ bad_shape)
      → (h ≡ true → i ≡ true → k ≡ false → run ≡ bad_shape)
      → (h ≡ true → i ≡ true → k ≡ true → Walks p names st r rest run l)
      → Walks p names st r rest run ((h && (i && k)) && l)
  Walks-element run false i k l a b c d = a refl
  Walks-element run true false k l a b c d = b refl refl
  Walks-element run true true false l a b c d = c refl refl refl
  Walks-element run true true true l a b c d = d refl refl refl

  pub Walks-true :
      (run : Next) (b : Bool)
      → b ≡ true
      → Walks p names st r rest run b
      → (d : Map ℕ) × Tracks d names × (run ≡ on_tokens rest ((p, d) ∷ st) r)
  Walks-true run true e w = w
  Walks-true run false e w = absurd (not_both e)
    where
      not_both : false ≡ true → ⊥
      not_both q = cc

  pub Walks-false :
      (run : Next) (b : Bool) → b ≡ false → Walks p names st r rest run b → run ≡ bad_shape
  Walks-false run false e w = w
  Walks-false run true e w = absurd (not_both e)
    where
      not_both : true ≡ false → ⊥
      not_both q = cc

on_text-fine :
    (s p : Str) (c : Map ℕ) (st : List Frame) (r : ℕ)
    → on_text s ((p, c) ∷ st) r
      ≡ (if not (no_text p) || same (trim_space s) [] then next ((p, c) ∷ st) r else bad_shape)
unfolding on_text
on_text-fine s p c st r = bits (no_text p) (same (trim_space s) [])
  where
    bits :
        (a b : Bool)
        → (if a && not b then bad_shape else next ((p, c) ∷ st) r)
          ≡ (if not a || b then next ((p, c) ∷ st) r else bad_shape)
    bits true true = refl
    bits true false = refl
    bits false b = refl

pub walks :
    (ns : Nodes) (p : Str) (c : Map ℕ) (before : List Str) (st : List Frame) (r : ℕ)
    → same p [] ≡ false
    → Tracks c before
    → (rest : List Token)
    → Walks p
        (names_onto before ns)
        st
        r
        rest
        (on_tokens (tokens ns ++ rest) ((p, c) ∷ st) r)
        (is_shaped p before ns)
unfolding is_shaped tokens names_onto on_token
walks nil p c before st r named t rest = (c, t, refl)
walks (remark later) p c before st r named t rest =
    Walks-from p (names_onto before later) st r rest _ _ (is_shaped p before later)
      (on_tokens-next other_token (tokens later ++ rest) ((p, c) ∷ st) ((p, c) ∷ st) r r refl)
      (walks later p c before st r named t rest)
walks (text s later) p c before st r named t rest =
    let fine = not (no_text p) || same (trim_space s) [] in
    Walks-and p (names_onto before later) st r rest _ fine (is_shaped p before later)
      (λ e.
        on_tokens-bad_shape (text_token s) (tokens later ++ rest) ((p, c) ∷ st) r
          (on_text-fine s p c st r ∙ rw e refl))
      (λ e.
        Walks-from p (names_onto before later) st r rest _ _ (is_shaped p before later)
          (on_tokens-next (text_token s) (tokens later ++ rest) ((p, c) ∷ st) ((p, c) ∷ st) r r
            (on_text-fine s p c st r ∙ rw e refl))
          (walks later p c before st r named t rest))
walks (element space local attrs inside later) p c before st r named t rest =
    let head = head_ok p before space local attrs in
    let counted = put local (count local c + 1) c in
    let behind_start = (tokens inside ++ end_token local ∷ tokens later) ++ rest in
    let behind_inside = end_token local ∷ (tokens later ++ rest) in
    let outer = (p, counted) ∷ st in
    let start = on_start-in p c before st r named t space local attrs in
    let open_run : head ≡ true
        → on_tokens (start_token space local attrs ∷ behind_start) ((p, c) ∷ st) r
          ≡ on_tokens (tokens inside ++ behind_inside) ((local, []) ∷ outer) r =
      λ h.
        on_tokens-next (start_token space local attrs) behind_start ((p, c) ∷ st)
          ((local, []) ∷ outer) r r (start ∙ rw h refl)
        ∙ ap (λ ts. on_tokens ts ((local, []) ∷ outer) r)
            (on_tokens_middle (tokens inside) local (tokens later) rest) in
    let in_walk : head ≡ true
        → Walks local (names_onto [] inside) outer r behind_inside
            (on_tokens (tokens inside ++ behind_inside) ((local, []) ∷ outer) r)
            (is_shaped local [] inside) =
      λ h.
        walks inside local [] [] outer r (allowed-named p local (head-allowed h))
          (λ n. unfold count get in refl) behind_inside in
    Walks-element p (names_onto (local ∷ before) later) st r rest _ head (is_shaped local [] inside)
      (complete local inside) (is_shaped p (local ∷ before) later)
      (λ h.
        on_tokens-bad_shape (start_token space local attrs) behind_start ((p, c) ∷ st) r
          (start ∙ rw h refl))
      (λ h i.
        open_run h
        ∙ Walks-false local (names_onto [] inside) outer r behind_inside _ _ i (in_walk h))
      (λ h i k.
        let (d, tracked, ran) =
          Walks-true local (names_onto [] inside) outer r behind_inside _ _ i (in_walk h) in
        open_run h
        ∙ ran
        ∙ on_tokens-bad_shape (end_token local) (tokens later ++ rest) ((local, d) ∷ outer) r
            (on_end-complete local d inside outer r tracked ∙ rw k refl))
      (λ h i k.
        let (d, tracked, ran) =
          Walks-true local (names_onto [] inside) outer r behind_inside _ _ i (in_walk h) in
        Walks-from p (names_onto (local ∷ before) later) st r rest _ _
          (is_shaped p (local ∷ before) later)
          (open_run h
            ∙ ran
            ∙ on_tokens-next (end_token local) (tokens later ++ rest) ((local, d) ∷ outer) outer r r
                (on_end-complete local d inside outer r tracked ∙ rw k refl))
          (walks later p counted (local ∷ before) st r named (Tracks-put c before local t) rest))
  where
    head-allowed : head_ok p before space local attrs ≡ true → allowed p local ≡ true
    head-allowed h = ground arith
