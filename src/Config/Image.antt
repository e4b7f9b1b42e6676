-- ===== src/Config/Image.antt =====
-- The data of internal/config/store.go and apply.go: files, images, manifests, and what is
-- computed from images alone.
pub mod Actions
use avahi_manager.Prelude.{
  ℕ, zero, suc, ◌+◌, ◌/◌, ◌%◌, Bool, true, false, not, ◌&&◌, ◌||◌, Option, none, some, List, [],
  ◌∷◌, ◌++◌, Str, same, Map, get, keys, length, ltb, ◌==◌, if◌then◌else◌, All, ◌≤◌, ◌<◌,
}
use avahi_manager.Config.Path.{valid_path, daemon_conf, hosts_file}

abbrev pub max_file_size : ℕ
max_file_size = 1048576

abbrev pub max_total_size : ℕ
max_total_size = 16777216

-- `File`; the mode holds the nine permission bits
pub record File : Type 0 where
  pub content : Str
  pub mode : ℕ
  pub uid : ℕ
  pub gid : ℕ

-- `Image`
abbrev pub Image : Type 0
Image = Map File

pub record FileMeta : Type 0 where
  pub sha256 : Str
  pub mode : ℕ
  pub uid : ℕ
  pub gid : ℕ

-- `Manifest`; `created` is the reading of the clock at `CreatedAt`
pub record Manifest : Type 0 where
  pub id : Str
  pub reason : Str
  pub created : ℕ
  pub files : Map FileMeta

-- `Action`
pub data Action : Type 0 where
  no_action reload restart : Action

-- What the program takes from outside: the name that a snapshot gets at a reading of the clock
-- and of the random source, SHA-256 in hexadecimal, how long the text is that `json.MarshalIndent`
-- makes of a manifest, the identity of the process, and the checks
-- of the three kinds of files (`ParseDaemon` with `Validate`, `ParseHosts`, `ParseService`).
pub record Env : Type 0 where
  pub new_id : ℕ → Str
  pub digest : Str → Str
  pub manifest_size : Manifest → ℕ
  pub euid : ℕ
  pub egid : ℕ
  pub daemon_ok : Str → Bool
  pub hosts_ok : Str → Bool
  pub service_ok : Str → Bool

-- the comparison that `ChangeAction` and `replace` make of two files
unfoldable pub same_file : File → File → Bool
unfolding same
same_file a b = same a.content b.content && a.mode == b.mode && a.uid == b.uid && a.gid == b.gid

-- the same of two results of a lookup
unfoldable pub same_entry : Option File → Option File → Bool
unfolding same_file
same_entry none none = true
same_entry (some a) (some b) = same_file a b
same_entry _ _ = false

-- the loop of `ChangeAction` over the keys of both images
unfoldable pub change_among : Image → Image → Action → List Str → Action
unfolding same_entry get same
change_among old new a [] = a
change_among old new a (p ∷ ps) = elim (same_entry (get p old) (get p new)) [
  | true ↦ change_among old new a ps
  | false ↦ elim (same p daemon_conf || same p hosts_file) [
    | true ↦ restart
    | false ↦ change_among old new reload ps
  ]
]

-- `ChangeAction`
unfoldable pub change_action : Image → Image → Action
unfolding change_among keys
change_action old new = change_among old new no_action (keys old ++ keys new)

-- the digits of a number, most significant first; `fuel` bounds their number
digits : ℕ → ℕ → ℕ → Str
digits zero radix n = []
digits (suc fuel) radix n =
    let rest = digits fuel radix (n / radix) in
    if ltb n radix then (n + b'0') ∷ [] else rest ++ (n % radix + b'0') ∷ []

-- `%d` and `%o`
unfoldable pub decimal : ℕ → Str
unfolding digits
decimal n = digits (suc n) 10 n

unfoldable pub octal : ℕ → Str
unfolding digits
octal n = digits (suc n) 8 n

module _ (env : Env) where
  -- the line that `Revision` hashes for one file
  unfoldable pub revision_line : Str → File → Str
  unfolding decimal octal
  revision_line p f =
      p
      ++ 0
        ∷ (env.digest f.content
            ++ 0 ∷ (octal f.mode ++ b':' ∷ (decimal f.uid ++ b':' ∷ (decimal f.gid ++ b'\n' ∷ []))))

  unfoldable pub revision_text : Image → Str
  unfolding revision_line
  revision_text [] = []
  revision_text ((p, f) ∷ im) = revision_line p f ++ revision_text im

  -- `Image.Revision`
  unfoldable pub revision : Image → Str
  unfolding revision_text
  revision im = env.digest (revision_text im)

  -- the switch of `ValidateImage`
  unfoldable pub content_ok : Str → File → Bool
  unfolding same
  content_ok p f =
      if same p daemon_conf
      then env.daemon_ok f.content
      else if same p hosts_file
      then env.hosts_ok f.content
      else env.service_ok f.content

  unfoldable pub entries_ok : ℕ → Image → Bool
  unfolding content_ok valid_path
  entries_ok total [] = true
  entries_ok total ((p, f) ∷ im) =
      let sum = total + length f.content in
      let rest = entries_ok sum im in
      valid_path p
      && not (ltb max_file_size (length f.content) || ltb max_total_size sum)
      && content_ok p f
      && rest

  -- `ValidateImage`: whether it returns nil
  unfoldable pub validate_image : Image → Bool
  unfolding entries_ok get
  validate_image im = elim (get daemon_conf im) [ none ↦ false | some _ ↦ entries_ok 0 im ]

  -- the entry that `snapshot` puts into the manifest
  abbrev pub meta_of : File → FileMeta
  meta_of f = record { sha256 = env.digest f.content; mode = f.mode; uid = f.uid; gid = f.gid }

-- the bytes of all files together
unfoldable pub total_size : Image → ℕ
total_size [] = 0
total_size ((p, f) ∷ im) = length f.content + total_size im

-- what fits into a snapshot that can be loaded again
pub record IsStorable (im : Image) : Type 0 where
  pub small : All (λ (e : Str × File). length e.1.content ≤ max_file_size) im
  pub modes : All (λ (e : Str × File). e.1.mode < 512) im
  pub total : total_size im ≤ max_total_size
