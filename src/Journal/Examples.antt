-- ===== src/Journal/Examples.antt =====
-- The journal reader at small outputs.
use avahi_manager.Prelude.{
  ℕ, ◌≤◌, ◌≡◌, refl, Bool, true, false, Option, none, some, List, [], ◌∷◌, Str, codes,
}
use avahi_manager.Journal.{Ended, read_journal, arguments, Query, limit}
use avahi_manager.Journal.Reading.{AllParsed, EndsWell, read_journal-AllParsed}
use avahi_manager.Journal.Capped.{bytes_of}

abbrev two_writes : List Str
two_writes = codes "No " ∷ codes "entries" ∷ []

abbrev first_byte : Str → Option ℕ
first_byte [] = none
first_byte (x ∷ xs) = some x

abbrev ended_well : Ended
ended_well = record { code = 0; stderr = []; cancelled = false }

abbrev two_lines : List Str
two_lines = codes "a" ∷ codes "b" ∷ []

two_entries : read_journal first_byte [] two_lines false ended_well ≡ (b'a' ∷ b'b' ∷ [], none)
unfolding read_journal
two_entries = refl

read_journal-AllParsed_example :
    AllParsed first_byte two_lines (b'a' ∷ b'b' ∷ [])
    × (false ≡ false)
    × (bytes_of two_lines ≤ 8388608)
    × EndsWell first_byte [] two_lines ended_well
read_journal-AllParsed_example =
    read_journal-AllParsed first_byte [] two_lines false ended_well (b'a' ∷ b'b' ∷ []) two_entries

abbrev no_time : Str → Option ℕ
no_time s = none

abbrev printed : ℕ → Str
printed n = []

abbrev never : ℕ → ℕ → Bool
never a b = false

abbrev not_zero : ℕ → Bool
not_zero n = false

abbrev dangerous : Query
dangerous = record {
  search = codes "-x.*";
  priority = codes "error";
  since = [];
  until = [];
  limit = limit 0;
}

-- what is searched for is one argument, and no pattern
search_run :
    arguments no_time printed never not_zero dangerous true
    ≡ some (
        codes "--unit"
        ∷ codes "avahi-daemon.service"
        ∷ codes "--output=json"
        ∷ codes "--no-pager"
        ∷ codes "--all"
        ∷ codes "--follow"
        ∷ codes "--lines=0"
        ∷ codes "--grep"
        ∷ codes "-x\\.\\*"
        ∷ codes "--case-sensitive=no"
        ∷ codes "--priority"
        ∷ codes "3"
        ∷ [])
unfolding arguments
search_run = refl
