-- ===== src/Files/Service/Shape/Documents.antt =====
-- Whole documents: the loop of `ParseService` from its start, where no element is open.

use avahi_manager.Prelude.{
  ℕ, ◌+◌, ◌≡◌, refl, sym, ◌∙◌, inl, inr, Bool, true, false, not, ◌&&◌, ◌||◌, List, [], ◌∷◌, ◌++◌,
  arith, Str, codes, same, same_iff, get, ltb, if◌then◌else◌, Bool-cases, trim_space,
}
use avahi_manager.Files.Service.Shape.{
  start_token, end_token, text_token, other_token, Next, next, bad_shape, count, allowed, attrs_ok,
  on_start, no_text, on_text, on_token, on_tokens, stands_in,
}
use avahi_manager.Files.Service.Shape.Trees.{
  Nodes, nil, element, text, remark, tokens, names_onto, head_ok, complete, is_shaped,
  on_tokens-next, on_tokens-bad_shape, on_end-complete, allowed-named,
}
use avahi_manager.Files.Service.Shape.Walks.{Walks, Walks-true, Walks-false, walks}

abbrev root_name : Str
root_name = codes "service-group"

allowed-root : (local : Str) → allowed [] local ≡ same local root_name
unfolding allowed same
allowed-root local = bits (same local root_name)
  where
    bits : (a : Bool) → (a || (false || false)) ≡ a
    bits true = refl
    bits false = refl

-- the start of a root, behind `r` others
on_start-root :
    (before : List Str) (r : ℕ)
    → stands_in root_name before ≡ ltb 0 r
    → (space local : Str) (attrs : List (Str × Str))
    → on_start space local attrs [] r
      ≡ (if head_ok [] before space local attrs then next ((local, []) ∷ []) (r + 1) else bad_shape)
unfolding on_start same
on_start-root before r t space local attrs = elim (Bool-cases (same local root_name)) [
  | inl e ↦ rw ((same_iff local root_name).0 e) (
      let twice : ltb 1 (r + 1) ≡ ltb 0 r = ground arith in
      rw (twice, t) (bits (same space []) (ltb 0 r) (attrs_ok root_name [] attrs) _))
  | inr e ↦ let denied : allowed [] local ≡ false = allowed-root local ∙ e in rw denied refl
]
  where
    bits :
        (s u a : Bool) (x : Next)
        → (if not true || not s
            then bad_shape
            else if u
            then bad_shape
            else if a
            then x
            else bad_shape)
          ≡ (if (true && s) && ((false || not u) && a) then x else bad_shape)
    bits true true a x = refl
    bits true false a x = refl
    bits false u a x = refl

-- what a run over a document comes to
abbrev pub Ends : Next → Bool → Type 0
Ends run true = (k : ℕ) × (run ≡ next [] k)
Ends run false = run ≡ bad_shape

Ends-from : (run run_after : Next) (b : Bool) → run ≡ run_after → Ends run_after b → Ends run b
Ends-from run run_after true e (k, w) = (k, e ∙ w)
Ends-from run run_after false e w = e ∙ w

Ends-and :
    (run : Next) (a b : Bool)
    → (a ≡ false → run ≡ bad_shape)
    → (a ≡ true → Ends run b)
    → Ends run (a && b)
Ends-and run true b h k = k refl
Ends-and run false b h k = h refl

Ends-element :
    (run : Next) (h i k l : Bool)
    → (h ≡ false → run ≡ bad_shape)
    → (h ≡ true → i ≡ false → run ≡ bad_shape)
    → (h ≡ true → i ≡ true → k ≡ false → run ≡ bad_shape)
    → (h ≡ true → i ≡ true → k ≡ true → Ends run l)
    → Ends run ((h && (i && k)) && l)
Ends-element run false i k l a b c d = a refl
Ends-element run true false k l a b c d = b refl refl
Ends-element run true true false l a b c d = c refl refl refl
Ends-element run true true true l a b c d = d refl refl refl

on_text-root :
    (s : Str) (r : ℕ)
    → on_text s [] r ≡ (if not (no_text []) || same (trim_space s) [] then next [] r else bad_shape)
unfolding on_text same
on_text-root s r = bits (same (trim_space s) [])
  where
    bits :
        (b : Bool)
        → (if true && not b then bad_shape else next [] r)
          ≡ (if not true || b then next [] r else bad_shape)
    bits true = refl
    bits false = refl

roots :
    (ns : Nodes) (before : List Str) (r : ℕ)
    → stands_in root_name before ≡ ltb 0 r
    → Ends (on_tokens (tokens ns) [] r) (is_shaped [] before ns)
unfolding is_shaped tokens names_onto on_token
roots nil before r t = (r, unfold on_tokens in refl)
roots (remark later) before r t =
    Ends-from _ _ (is_shaped [] before later)
      (on_tokens-next other_token (tokens later) [] [] r r refl) (roots later before r t)
roots (text s later) before r t =
    Ends-and _ (not (no_text []) || same (trim_space s) []) (is_shaped [] before later)
      (λ e. on_tokens-bad_shape (text_token s) (tokens later) [] r (on_text-root s r ∙ rw e refl))
      (λ e.
        Ends-from _ _ (is_shaped [] before later)
          (on_tokens-next (text_token s) (tokens later) [] [] r r (on_text-root s r ∙ rw e refl))
          (roots later before r t))
roots (element space local attrs inside later) before r t =
    let head = head_ok [] before space local attrs in
    let behind_start = tokens inside ++ end_token local ∷ tokens later in
    let behind_inside = end_token local ∷ tokens later in
    let start = on_start-root before r t space local attrs in
    let open_run : head ≡ true
        → on_tokens (start_token space local attrs ∷ behind_start) [] r
          ≡ on_tokens behind_start ((local, []) ∷ []) (r + 1) =
      λ h.
        on_tokens-next (start_token space local attrs) behind_start [] ((local, []) ∷ []) r (r + 1)
          (start ∙ rw h refl) in
    let in_walk : head ≡ true
        → Walks local (names_onto [] inside) [] (r + 1) behind_inside
            (on_tokens behind_start ((local, []) ∷ []) (r + 1)) (is_shaped local [] inside) =
      λ h.
        walks inside local [] [] [] (r + 1) (allowed-named [] local (head-allowed h))
          (λ n. unfold count get in refl) behind_inside in
    Ends-element _ head (is_shaped local [] inside) (complete local inside)
      (is_shaped [] (local ∷ before) later)
      (λ h.
        on_tokens-bad_shape (start_token space local attrs) behind_start [] r (start ∙ rw h refl))
      (λ h i.
        open_run h
        ∙ Walks-false local (names_onto [] inside) [] (r + 1) behind_inside _ _ i (in_walk h))
      (λ h i k.
        let (d, tracked, ran) =
          Walks-true local (names_onto [] inside) [] (r + 1) behind_inside _ _ i (in_walk h) in
        open_run h
        ∙ ran
        ∙ on_tokens-bad_shape (end_token local) (tokens later) ((local, d) ∷ []) (r + 1)
            (on_end-complete local d inside [] (r + 1) tracked ∙ rw k refl))
      (λ h i k.
        let (d, tracked, ran) =
          Walks-true local (names_onto [] inside) [] (r + 1) behind_inside _ _ i (in_walk h) in
        Ends-from _ _ (is_shaped [] (local ∷ before) later)
          (open_run h
            ∙ ran
            ∙ on_tokens-next (end_token local) (tokens later) ((local, d) ∷ []) [] (r + 1) (r + 1)
                (on_end-complete local d inside [] (r + 1) tracked ∙ rw k refl))
          (roots later (local ∷ before) (r + 1) (one_more (head-allowed h))))
  where
    head-allowed : head_ok [] before space local attrs ≡ true → allowed [] local ≡ true
    head-allowed h = ground arith

    one_more : allowed [] local ≡ true → stands_in root_name (local ∷ before) ≡ ltb 0 (r + 1)
    one_more h =
        let is_root : same local root_name ≡ true = sym (allowed-root local) ∙ h in
        ground (arith, is_root)

-- On the tokens of any tree the loop of `ParseService` ends without an index out of range: with no
-- open element if the tree has the shape of a service file, and with an error otherwise. The shape
-- is at most one root `service-group`, in it one `name` at most and services, in each of them
-- exactly one `type` and one `port`, the other elements as allowed, no attribute twice and no text
-- but blanks between elements.
pub on_tokens-is_shaped : (ns : Nodes) → Ends (on_tokens (tokens ns) [] 0) (is_shaped [] [] ns)
on_tokens-is_shaped ns = roots ns [] 0 refl
