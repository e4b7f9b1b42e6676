-- ===== src/Journal/Reading.antt =====
-- What `Read` returns.
use avahi_manager.Prelude.{
  ℕ, ◌+◌, ◌≤◌, ◌≡◌, refl, ap, subst, ◌⊎◌, Bool, true, false, Option, none, some, List, [], ◌∷◌, map,
  arith, Str, same, length, ltb, if_lem,
}
use avahi_manager.Journal.{
  Ended, ReadError, onto_entry, parsed_line, read_lines, verdict, concluded, read_journal,
  capped_writes,
}
use avahi_manager.Journal.Capped.{bytes_of, silent_stream}

module _ {E : Type 0} (parse : Str → Option E) where
  -- Every line was read, and is an entry.
  abbrev pub AllParsed : List Str → List E → Type 0
  AllParsed lines es = map parse lines ≡ map some es

  -- what the loop says where it ends without an error
  abbrev Finished : ℕ → List Str → Bool → List E × Option ReadError × ℕ → Type 0
  Finished t ls gave_up (es, some e, total) = Unit
  Finished t ls gave_up (es, none, total) =
      AllParsed ls es × (gave_up ≡ false) × (total ≡ t + bytes_of ls) × (total ≤ 8388608)

  Finished-entry :
      (t : ℕ) (l : Str) (ls : List Str) (gave_up : Bool) (e : E) (r : List E × Option ReadError × ℕ)
      → parse l ≡ some e
      → Finished (t + length l) ls gave_up r
      → Finished t (l ∷ ls) gave_up (onto_entry parse e r)
  Finished-entry t l ls gave_up e (es, some x, total) p f = tt
  Finished-entry t l ls gave_up e (es, none, total) p (a, g, n, s) =
      (rw (p, a) refl, g, omega (arith, n), s)

  Finished-line :
      (t : ℕ) (l : Str) (ls : List Str) (gave_up : Bool) (o : Option E)
      (r : List E × Option ReadError × ℕ)
      → parse l ≡ o
      → Finished (t + length l) ls gave_up r
      → Finished t (l ∷ ls) gave_up (parsed_line parse o r (t + length l))
  Finished-line t l ls gave_up none r p f = tt
  Finished-line t l ls gave_up (some e) r p f = Finished-entry t l ls gave_up e r p f

  read_lines-Finished :
      (ls : List Str) (t : ℕ) (gave_up : Bool)
      → t ≤ 8388608
      → Finished t ls gave_up (read_lines parse t ls gave_up)
  unfolding read_lines
  read_lines-Finished [] t true h = tt
  read_lines-Finished [] t false h = (refl, refl, omega arith, h)
  read_lines-Finished (l ∷ ls) t gave_up h =
      if_lem (Finished t (l ∷ ls) gave_up) (ltb 8388608 (t + length l)) _ _ (λ e. tt)
        (λ e.
          Finished-line t l ls gave_up (parse l) (read_lines parse (t + length l) ls gave_up) refl
            (read_lines-Finished ls (t + length l) gave_up (ground arith)))

  -- how the process has ended where `Read` gives no error
  abbrev pub EndsWell : Str → List Str → Ended → Type 0
  EndsWell search lines end =
      (end.cancelled ≡ false)
      × ((end.code ≡ 0)
          ⊎ ((end.code ≡ 1)
              × (bytes_of lines ≡ 0)
              × (bytes_of end.stderr ≡ 0)
              × (same search [] ≡ false)))

  -- `Read` returns entries without an error only if it was not cancelled and `journalctl` ended
  -- with code 0, or with code 1 where a search was made and nothing at all was written to either
  -- stream; then every line was an entry, all entries are there in their order, the scanner
  -- reached the end and the lines have at most 8 MiB.
  pub read_journal-AllParsed :
      (search : Str) (lines : List Str) (gave_up : Bool) (end : Ended) (es : List E)
      → read_journal parse search lines gave_up end ≡ (es, none)
      → AllParsed lines es
        × (gave_up ≡ false)
        × (bytes_of lines ≤ 8388608)
        × EndsWell search lines end
  unfolding read_journal
  read_journal-AllParsed search lines gave_up end es h =
      ended (read_lines parse 0 lines gave_up) (read_lines-Finished lines 0 gave_up (omega arith)) h
    where
      judged :
          (total : ℕ)
          → total ≡ bytes_of lines
          → verdict parse search total end ≡ none
          → EndsWell search lines end
      judged total n v =
          let silent : length (capped_writes [] end.stderr) ≡ 0 → bytes_of end.stderr ≡ 0 =
            silent_stream end.stderr in
          ground (arith, n, v, silent)

      ended :
          (r : List E × Option ReadError × ℕ)
          → Finished 0 lines gave_up r
          → concluded parse search end r ≡ (es, none)
          → AllParsed lines es
            × (gave_up ≡ false)
            × (bytes_of lines ≤ 8388608)
            × EndsWell search lines end
      ended (fs, some e, total) f q =
          absurd (differ_in (ap (λ (p : List E × Option ReadError). p.1) q))
        where
          differ_in : some e ≡ none → ⊥
          differ_in x = cc
      ended (fs, none, total) (a, g, n, s) q =
          let same_entries : fs ≡ es = ap (λ (p : List E × Option ReadError). p.0) q in
          (
            subst (AllParsed lines) same_entries a,
            g,
            omega (arith, n, s),
            judged total (omega (arith, n)) (ap (λ (p : List E × Option ReadError). p.1) q),
          )
