-- ===== src/Config/Vault/Copies.antt =====
-- The copies that `snapshot` makes, and that they unpack to the image they were made from.
use avahi_manager.Prelude.{
  ℕ, ◌+◌, ◌≤◌, ◌<◌, ◌≡◌, refl, sym, ◌∙◌, true, Option, none, some, [], ◌∷◌, arith, Str, same_iff,
  Map, get, length, All, IsSorted, get-put, put-IsAbove, get-IsAbove, IsAbove, put, ap,
}
use avahi_manager.Config.Image.{
  Image, File, Env, FileMeta, total_size, meta_of, max_file_size, max_total_size, Manifest,
}
use avahi_manager.Config.World.{SnapDir}
use avahi_manager.Config.Vault.{with_copy, decoded_files}
use avahi_manager.Config.Vault.Loading.{Unpacks, IsCopy}
use avahi_manager.Config.Path.{valid_path, clean}
use avahi_manager.Files.Runes.{as_utf8}

-- the copies that the loop of `snapshot` makes
unfoldable pub copied : Image → SnapDir → SnapDir
copied [] s = s
copied ((p, f) ∷ im) s = copied im (with_copy p f.content s)

abbrev pub content_over : Option File → Option Str → Option Str
content_over (some f) o = some f.content
content_over none o = o

pub get-copied :
    (p : Str) (im : Image) (s : SnapDir)
    → IsSorted im
    → All (λ (e : Str × File). clean e.0 ≡ e.0) im
    → get p (copied im s).copies ≡ content_over (get p im) (get p s.copies)
unfolding copied get
get-copied p [] s h c = refl
get-copied p ((q, f) ∷ im) s (a, h) (c, cs) =
    get-copied p im (with_copy q f.content s) h cs
    ∙ rw (c, get-put) (ground (arith, get-IsAbove q im a, same_iff q p))

pub manifest-copied : (im : Image) (s : SnapDir) → (copied im s).manifest ≡ s.manifest
unfolding copied
manifest-copied [] s = refl
manifest-copied ((p, f) ∷ im) s = manifest-copied im (with_copy p f.content s)

unfoldable pub metas_of : Env → Image → Map FileMeta
metas_of env [] = []
metas_of env ((p, f) ∷ im) = (p, meta_of env f) ∷ metas_of env im

module _ (env : Env) where
  own-IsCopy :
      (t : ℕ) (f : File)
      → length f.content ≤ max_file_size
      → t + length f.content ≤ max_total_size
      → IsCopy env t (meta_of env f) (some f.content) f
  own-IsCopy t f h k = record {
    copy = refl;
    digest = refl;
    small = h;
    total = k;
    mode = refl;
    uid = refl;
    gid = refl;
  }

  -- A directory with a copy of each file of a storable image unpacks to that image.
  pub Unpacks-copies :
      (s : SnapDir) (t : ℕ) (im : Image)
      → IsSorted im
      → All (λ (e : Str × File). get (clean e.0) s.copies ≡ some e.1.content) im
      → All (λ (e : Str × File). valid_path e.0 ≡ true) im
      → All (λ (e : Str × File). length e.1.content ≤ max_file_size) im
      → All (λ (e : Str × File). e.1.mode < 512) im
      → t + total_size im ≤ max_total_size
      → Unpacks env s t (metas_of env im) im
  unfolding metas_of total_size
  Unpacks-copies s t [] o c v l m h = refl
  Unpacks-copies s t ((p, f) ∷ im) (a, o) (c, cs) (v, vs) (l, ls) (m, ms) h = (
    f,
    im,
    v,
    m,
    rw c (own-IsCopy t f l (omega (arith, h))),
    Unpacks-copies s (t + length f.content) im o cs vs ls ms (omega (arith, h)),
    sym (put-IsAbove p f im a),
  )

-- a name that the JSON of a manifest keeps and that is a cleaned path
abbrev pub IsPlain : Str → Type 0
IsPlain p = (as_utf8 p ≡ p) × (clean p ≡ p)

-- the manifest that `snapshot` makes
abbrev pub manifest_of : Env → Str → Str → ℕ → Image → Manifest
manifest_of env id reason now im = record {
  id = id;
  reason = reason;
  created = now;
  files = metas_of env im;
}

-- The snapshots of an image can be read back: its names are plain, and the text of no manifest of
-- it is above the limit of `readFile`.
pub record Recordable (env : Env) (im : Image) : Type 0 where
  pub names : All (λ (e : Str × File). IsPlain e.0) im
  pub fits :
      (n now : ℕ) (reason : Str)
      → length reason ≤ 512
      → env.manifest_size (manifest_of env (env.new_id n) reason now im) ≤ max_file_size

-- Plain names come back from the JSON as they are.
metas_of-IsAbove : (env : Env) (p : Str) (im : Image) → IsAbove p im → IsAbove p (metas_of env im)
unfolding metas_of
metas_of-IsAbove env p [] a = a
metas_of-IsAbove env p ((q, f) ∷ im) (b, a) = (b, metas_of-IsAbove env p im a)

decoded_entry :
    (p q : Str) (meta : FileMeta) (read metas : Map FileMeta)
    → q ≡ p
    → read ≡ metas
    → IsAbove p metas
    → elim (get q read) [ none ↦ put q meta read | some _ ↦ read ] ≡ (p, meta) ∷ metas
decoded_entry p q meta read metas e h a =
    ap (λ k. elim (get k read) [ none ↦ put k meta read | some _ ↦ read ]) e
    ∙ ap (λ r. elim (get p r) [ none ↦ put p meta r | some _ ↦ r ]) h
    ∙ rw (get-IsAbove p metas a) (put-IsAbove p meta metas a)

pub decoded_files-metas_of :
    (env : Env) (im : Image)
    → IsSorted im
    → All (λ (e : Str × File). IsPlain e.0) im
    → decoded_files (metas_of env im) ≡ metas_of env im
unfolding decoded_files metas_of
decoded_files-metas_of env [] o h = refl
decoded_files-metas_of env ((p, f) ∷ im) (a, o) ((u, c), hs) =
    decoded_entry p (as_utf8 p) (meta_of env f) (decoded_files (metas_of env im)) (metas_of env im)
      u (decoded_files-metas_of env im o hs) (metas_of-IsAbove env p im a)
