-- ===== src/Journal/Capped.antt =====
-- The buffer of the error stream.
use mathlib.Core.List.{append-nil, append_assoc}
use avahi_manager.Prelude.{
  ℕ, zero, suc, ◌+◌, ◌-◌, ◌≤◌, ◌≡◌, refl, sym, ap, ◌∙◌, List, [], ◌∷◌, ◌++◌, arith, Str, length,
  ltb, take, if_lem, length-append,
}
use avahi_manager.Journal.{capped_write, capped_writes}

-- how many bytes some texts have together
abbrev pub bytes_of : List Str → ℕ
bytes_of [] = 0
bytes_of (l ∷ ls) = length l + bytes_of ls

abbrev pub all_bytes : List Str → Str
all_bytes [] = []
all_bytes (p ∷ ps) = p ++ all_bytes ps

take-append : (n m : ℕ) (k y : Str) → n ≡ length k + m → take n (k ++ y) ≡ k ++ take m y
take-append n m [] y h = ap (λ i. take i y) (omega (arith, h))
take-append zero m (x ∷ k) y h = absurd (omega (arith, h))
take-append (suc n) m (x ∷ k) y h = ap (◌∷◌ x) (take-append n m k y (omega (arith, h)))

take_capped : (n : ℕ) (p rest : Str) → take n (take n p ++ rest) ≡ take n (p ++ rest)
take_capped zero p rest = refl
take_capped (suc n) [] rest = refl
take_capped (suc n) (x ∷ p) rest = ap (◌∷◌ x) (take_capped n p rest)

length-take : (n : ℕ) (p : Str) → length (take n p) ≤ n
length-take zero p = omega arith
length-take (suc n) [] = omega arith
length-take (suc n) (x ∷ p) = omega (arith, length-take n p)

-- one write keeps what fits
write_fits :
    (kept p : Str)
    → length kept ≤ 8192
    → (capped_write kept p).0 ≡ kept ++ take (8192 - length kept) p
unfolding capped_write
write_fits kept p h =
    if_lem (λ (r : Str × ℕ). r.0 ≡ kept ++ take (8192 - length kept) p) (ltb (length kept) 8192) _ _
      (λ e. refl)
      (λ e. let full : 8192 - length kept ≡ 0 = ground arith in rw (full, append-nil) refl)

writes_from :
    (ps : List Str) (kept : Str)
    → length kept ≤ 8192
    → capped_writes kept ps ≡ take 8192 (kept ++ all_bytes ps)
unfolding capped_writes
writes_from [] kept h = sym (
    take-append 8192 (8192 - length kept) kept [] (omega (arith, h))
    ∙ nothing_more (8192 - length kept))
  where
    nothing_more : (m : ℕ) → kept ++ take m [] ≡ kept
    nothing_more zero = append-nil kept
    nothing_more (suc m) = append-nil kept
writes_from (p ∷ ps) kept h =
    let m = 8192 - length kept in
    let room : 8192 ≡ length kept + m = omega (arith, h) in
    let new = kept ++ take m p in
    let small : length new ≤ 8192 =
      omega (arith, room, length-append kept (take m p), length-take m p) in
    ap (λ k. capped_writes k ps) (write_fits kept p h)
    ∙ writes_from ps new small
    ∙ ap (take 8192) (append_assoc kept (take m p) (all_bytes ps))
    ∙ take-append 8192 m kept (take m p ++ all_bytes ps) room
    ∙ ap (λ t. kept ++ t) (take_capped m p (all_bytes ps))
    ∙ sym (take-append 8192 m kept (p ++ all_bytes ps) room)

-- However the error stream is cut into writes, the buffer keeps its first 8192 bytes.
pub capped_writes-take : (ps : List Str) → capped_writes [] ps ≡ take 8192 (all_bytes ps)
capped_writes-take ps = writes_from ps [] (omega arith)

length-all_bytes : (ps : List Str) → length (all_bytes ps) ≡ bytes_of ps
length-all_bytes [] = refl
length-all_bytes (p ∷ ps) = omega (arith, length-append p (all_bytes ps), length-all_bytes ps)

take_some : (n : ℕ) (p : Str) → length (take (suc n) p) ≡ 0 → length p ≡ 0
take_some n [] h = h
take_some n (x ∷ p) h = absurd (omega (arith, h))

-- Where the buffer is empty, nothing was written.
pub silent_stream : (ps : List Str) → length (capped_writes [] ps) ≡ 0 → bytes_of ps ≡ 0
silent_stream ps h =
    sym (length-all_bytes ps)
    ∙ take_some 8191 (all_bytes ps) (ap length (sym (capped_writes-take ps)) ∙ h)
