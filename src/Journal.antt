-- ===== src/Journal.antt =====
-- The journal reader: internal/journal/reader.go. `journalctl` is a process that writes lines and
-- ends with a code; times and JSON come from the standard library and are parameters.
pub mod Reading
pub mod Capped
mod Examples
use avahi_manager.Config.Image.{decimal}
use avahi_manager.Prelude.{
  ℕ, zero, suc, ◌+◌, ◌-◌, ◌*◌, ◌/◌, ◌%◌, ◌^◌, ◌≤◌, ◌<◌, ◌≡◌, refl, sym, ap, ◌∙◌, subst, ◌≢◌, ◌↔◌,
  ◌⊎◌, inl, inr, Bool, true, false, not, ◌&&◌, ◌||◌, Option, none, some, List, [], ◌∷◌, ◌++◌, map,
  arith, Str, codes, same, same_refl, same_iff, Map, get, put, del, keys, length, All, leb, ltb,
  ◌==◌, if◌then◌else◌, Bool-cases, &&-eq-true, ltb→lt, leb→le, le→leb, Option-cases, contains, take,
}

-- `Query`; the limit is an `int`
pub data Limit : Type 0 where
  limit : ℕ → Limit
  negative : Limit

pub record Query : Type 0 where
  pub search : Str
  pub priority : Str
  pub since : Str
  pub until : Str
  pub limit : Limit

-- the limit that is used, if it is allowed
unfoldable pub checked_limit : Limit → Option ℕ
checked_limit negative = none
checked_limit (limit zero) = some 200
checked_limit (limit (suc n)) = if leb (suc n) 1000 then some (suc n) else none

-- `regexp.QuoteMeta`
unfoldable pub quote_meta : Str → Str
unfolding contains
quote_meta [] = []
quote_meta (x ∷ xs) =
    let rest = quote_meta xs in
    if contains (codes "\\.+*?()|[]{}^$") x then b'\\' ∷ x ∷ rest else x ∷ rest

-- the table of levels; the empty string is no filter
unfoldable pub level : Str → Option Str
unfolding same
level p =
    if same p (codes "info")
    then some (codes "6")
    else if same p (codes "warning")
    then some (codes "4")
    else if same p (codes "error")
    then some (codes "3")
    else if same p (codes "all") || same p []
    then some []
    else none

abbrev flag : Str → Str → List Str
flag name [] = []
flag name (c ∷ value) = name ∷ (c ∷ value) ∷ []

abbrev pub both : Option (List Str) → Option (List Str) → Option (List Str)
both none _ = none
both (some a) none = none
both (some a) (some b) = some (a ++ b)

module _ {T : Type 0} (parse_time : Str → Option T) (format_time : T → Str) (later : T → T → Bool)
    (is_zero : T → Bool) where
  abbrev time_flag : Str → Str → Option (List Str)
  time_flag name [] = some []
  time_flag name (c ∷ value) = elim (parse_time (c ∷ value)) [
    | none ↦ none
    | some t ↦ some (name ∷ format_time t ∷ [])
  ]

  abbrev out_of_order : Option T → Option T → Bool
  out_of_order (some s) (some u) = not (is_zero s) && (not (is_zero u) && later s u)
  out_of_order _ _ = false

  abbrev search_flags : Str → Option (List Str)
  search_flags s =
      if ltb 256 (length s) || contains s 0
      then none
      else if same s []
      then some []
      else some (codes "--grep" ∷ quote_meta s ∷ codes "--case-sensitive=no" ∷ [])

  abbrev level_flags : Option Str → Option (List Str)
  level_flags none = none
  level_flags (some p) = some (flag (codes "--priority") p)

  abbrev line_flags : (ℕ → Str) → Bool → ℕ → List Str
  line_flags decimal true n = codes "--follow" ∷ codes "--lines=0" ∷ []
  line_flags decimal false n = codes "--lines" ∷ decimal n ∷ []

  abbrev fixed_flags : List Str
  fixed_flags =
      codes "--unit"
      ∷ codes "avahi-daemon.service"
      ∷ codes "--output=json"
      ∷ codes "--no-pager"
      ∷ codes "--all"
      ∷ []

  -- `Arguments`
  unfoldable pub arguments : Query → Bool → Option (List Str)
  unfolding checked_limit level quote_meta contains same decimal
  arguments q follow = elim (checked_limit q.limit) [
    | none ↦ none
    | some n ↦
        let times =
          both (time_flag (codes "--since") q.since) (time_flag (codes "--until") q.until) in
        let all =
          both (some (fixed_flags ++ line_flags decimal follow n))
            (both (search_flags q.search) (both (level_flags (level q.priority)) times)) in
        if out_of_order (parse_time q.since) (parse_time q.until) then none else all
  ]

-- `cappedBuffer.Write`: what is kept of what comes, and what it says that it wrote
unfoldable pub capped_write : Str → Str → Str × ℕ
capped_write kept p =
    if ltb (length kept) 8192
    then (kept ++ take (8192 - length kept) p, length p)
    else (kept, length p)

-- a life of the buffer
unfoldable pub capped_writes : Str → List Str → Str
unfolding capped_write
capped_writes kept [] = kept
capped_writes kept (p ∷ ps) = capped_writes (capped_write kept p).0 ps

-- how `journalctl` ends: its code, what it wrote to the error stream, and whether the caller's
-- context has ended
pub record Ended : Type 0 where
  pub code : ℕ
  pub stderr : List Str
  pub cancelled : Bool

pub data ReadError : Type 0 where
  bad_query too_much bad_entry broken_stream cancelled_read process_failed : ReadError

module _ {E : Type 0} (parse : Str → Option E) where
  abbrev pub onto_entry : E → List E × Option ReadError × ℕ → List E × Option ReadError × ℕ
  onto_entry e (es, r, total) = (e ∷ es, r, total)

  abbrev pub parsed_line :
      Option E → List E × Option ReadError × ℕ → ℕ → List E × Option ReadError × ℕ
  parsed_line none later total = ([], some bad_entry, total)
  parsed_line (some e) later total = onto_entry e later

  -- the loop of `run` without `follow`, with an `emit` that keeps the entries; `gave_up` is the
  -- error of the scanner
  unfoldable pub read_lines : ℕ → List Str → Bool → List E × Option ReadError × ℕ
  read_lines total [] gave_up = ([], (if gave_up then some broken_stream else none), total)
  read_lines total (l ∷ ls) gave_up =
      let now = total + length l in
      let later = read_lines now ls gave_up in
      if ltb 8388608 now then ([], some too_much, now) else parsed_line (parse l) later now

  -- the end of `run`: the errors in the order of the code
  abbrev pub verdict : Str → ℕ → Ended → Option ReadError
  verdict search total end =
      if end.cancelled
      then some cancelled_read
      else if end.code == 1
          && (total == 0 && (length (capped_writes [] end.stderr) == 0 && not (same search [])))
      then none
      else if end.code == 0
      then none
      else some process_failed

  abbrev pub concluded : Str → Ended → List E × Option ReadError × ℕ → List E × Option ReadError
  concluded search end (es, some e, total) = (es, some e)
  concluded search end (es, none, total) = (es, verdict search total end)

  -- `Reader.Read`, with arguments that are allowed: the entries, and the error
  unfoldable pub read_journal : Str → List Str → Bool → Ended → List E × Option ReadError
  unfolding read_lines capped_writes same
  read_journal search lines gave_up end = concluded search end (read_lines 0 lines gave_up)
