-- ===== src/Config/Path.antt =====
-- Paths of managed files and snapshot names: `validPath` and `validSnapshotID` of
-- internal/config/store.go, with the functions of Go's package `path` that they call.
use mathlib.Core.List.{reverse}
use avahi_manager.Prelude.{
  ℕ, Bool, true, false, not, ◌&&◌, ◌||◌, List, [], ◌∷◌, ◌++◌, Str, codes, same, has_prefix,
  has_suffix, contains, contains_any, contains_str, length, ltb, ◌==◌, if◌then◌else◌, split,
}

abbrev slash : ℕ
slash = b'/'

-- `strings.Join(ss, "/")`
join_path : List Str → Str
join_path [] = []
join_path (s ∷ []) = s
join_path (s ∷ t ∷ ss) = s ++ slash ∷ join_path (t ∷ ss)

-- `..` inside `path.Clean`: it removes the element before it, if there is one
abbrev step_up : Bool → List Str → List Str
step_up true [] = []
step_up false [] = codes ".." ∷ []
step_up rooted (q ∷ qs) = if same q (codes "..") then codes ".." ∷ q ∷ qs else qs

-- the elements of a cleaned path, the last one first
clean_onto : Bool → List Str → List Str → List Str
clean_onto rooted out [] = out
clean_onto rooted out (s ∷ ss) =
    clean_onto rooted
      (if same s [] || same s (codes ".")
        then out
        else if same s (codes "..")
        then step_up rooted out
        else s ∷ out)
      ss

-- `path.Clean`
unfoldable pub clean : Str → Str
unfolding split join_path clean_onto has_prefix same
clean s =
    let rooted = has_prefix s (slash ∷ []) in
    let body = join_path (reverse (clean_onto rooted [] (split slash s))) in
    if rooted then slash ∷ body else if same body [] then codes "." else body

-- what stands up to the last slash, and behind it
unfoldable pub dir_part : Str → Str
unfolding contains
dir_part [] = []
dir_part (x ∷ xs) =
    let rest = dir_part xs in
    if contains xs slash then x ∷ rest else if x == slash then x ∷ [] else []

unfoldable pub base_part : Str → Str
unfolding contains
base_part [] = []
base_part (x ∷ xs) =
    let rest = base_part xs in if contains xs slash then rest else if x == slash then xs else x ∷ xs

-- drops the slashes at the end
trim_slashes : Str → Str
unfolding same
trim_slashes [] = []
trim_slashes (x ∷ xs) =
    let rest = trim_slashes xs in if x == slash && same rest [] then [] else x ∷ rest

-- `path.Dir`
unfoldable pub dir : Str → Str
unfolding clean dir_part
dir p = clean (dir_part p)

-- `path.Base`
unfoldable pub base : Str → Str
unfolding trim_slashes base_part same
base p =
    if same p []
    then codes "."
    else let b = base_part (trim_slashes p) in if same b [] then codes "/" else b

abbrev pub daemon_conf : Str
daemon_conf = codes "avahi-daemon.conf"

abbrev pub hosts_file : Str
hosts_file = codes "hosts"

-- `validPath`
unfoldable pub valid_path : Str → Bool
unfolding dir base same has_prefix has_suffix contains_any
valid_path p =
    same p daemon_conf
    || same p hosts_file
    || (has_prefix p (codes "services/")
        && same (dir p) (codes "services")
        && has_suffix p (codes ".service")
        && ltb 8 (length (base p))
        && not (contains_any p (b'\\' ∷ 0 ∷ b'\r' ∷ b'\n' ∷ [])))

-- `validSnapshotID`
unfoldable pub valid_snapshot_id : Str → Bool
unfolding base same contains_any contains_str
valid_snapshot_id id =
    ltb 30 (length id)
    && ltb (length id) 100
    && same (base id) id
    && not (contains_any id (slash ∷ b'\\' ∷ 0 ∷ []))
    && contains_str id (codes "Z-")
