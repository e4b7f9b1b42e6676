-- ===== src/Helper/Model/Saved.antt =====
-- What is shown of the configuration after it was written: `Store.Apply` and then
-- `Backend.Configuration`.
use avahi_manager.Helper.Model.{
  Formats, Configuration, is_parsed, data_at, hosts_read, with_checks, model, backend_configuration,
}
use avahi_manager.Helper.Model.Accepted.{
  Passes, image-Shown, get-Passes, validate_image-Passes, IsShown,
}
use avahi_manager.Prelude.{
  Map, Option, Str, ◌≡◌, [], true, some, All, none, Bool, get, refl, ◌∙◌, All-of-get, sym, ap,
}
use avahi_manager.Config.Image.{Env, File, Image}
use avahi_manager.Config.World.{Disk, Vault, ◌>>=◌, pure}
use avahi_manager.Config.Transaction.Changes.{asked, CanRecord}
use avahi_manager.Config.Transaction.Valid.{Stands, apply_changes-Stands}
use avahi_manager.Config.Disk.Reading.{IsDisk, Reads, managed, read-Reads}
use avahi_manager.Config.Path.{daemon_conf, hosts_file}
use avahi_manager.Config.World.Runs.{Runs, Runs-bind, Runs-pure}
use avahi_manager.Config.Transaction.{apply_changes}
use avahi_manager.Config.World.Runs.Observing.{Runs-observe}
use avahi_manager.Config.Disk.{read}

-- The configuration that is shown has no error, and what was asked to be written is what is
-- shown: the text of the daemon's file, and the hosts.
pub record ShowsSaved (formats : Formats) (changes : Map (Option Str)) (c : Configuration)
    : Type 0 where
  pub no_errors : c.errors ≡ []
  pub hosts_fine : is_parsed c.hosts ≡ true
  pub services_fine : All IsShown c.services
  pub raw_saved : (bytes : Str) → get daemon_conf changes ≡ some (some bytes) → c.raw ≡ bytes
  pub hosts_saved :
      (bytes : Str)
      → get hosts_file changes ≡ some (some bytes)
      → c.hosts ≡ hosts_read formats bytes

module _ (formats : Formats) (env : Env) where
  asked-data :
      (bytes : Str) (o : Option File)
      → data_at (asked (with_checks formats env) (some (some bytes)) o) ≡ bytes
  asked-data bytes none = refl
  asked-data bytes (some f) = refl

  -- an image read from the disk on which the changed image stands
  saved :
      (changes : Map (Option Str)) (x : Disk) (y : Vault) (im : Image)
      → Stands (with_checks formats env) changes x y
      → Reads im x
      → ShowsSaved formats changes (model formats env im)
  unfolding model
  saved changes x y im s rd = record {
    no_errors = fine.0;
    hosts_fine = fine.1;
    services_fine = fine.2;
    raw_saved = λ bytes h. saved_data daemon_conf bytes h;
    hosts_saved = λ bytes h. ap (hosts_read formats) (saved_data hosts_file bytes h);
  }
    where
      agree : (p : Str) → get p im ≡ get p s.new
      agree p = rd.lookups p ∙ s.shows p

      valid : (f : File) × (get daemon_conf s.new ≡ some f) × All (Passes formats env) s.new
      valid = validate_image-Passes formats env s.new s.valid

      passes : All (Passes formats env) im
      passes =
          All-of-get (Passes formats env) im rd.sorted
            (λ p f e. get-Passes (Passes formats env) s.new p f valid.2 (sym (agree p) ∙ e))

      fine :
          ((model formats env im).errors ≡ [])
          × (is_parsed (model formats env im).hosts ≡ true)
          × All IsShown (model formats env im).services
      fine = image-Shown formats env im valid.0 (agree daemon_conf ∙ valid.1) passes

      saved_data : (p bytes : Str) → get p changes ≡ some (some bytes) → data_at (get p im) ≡ bytes
      saved_data p bytes h =
          ap data_at (agree p ∙ s.changed.lookups p)
          ∙ ap (λ o. data_at (asked (with_checks formats env) o (get p s.old))) h
          ∙ asked-data bytes (get p s.old)

  -- `Store.Apply` with changes of managed names, run by root with the parsers of the program, and
  -- then `Backend.Configuration`, on every schedule of failures and stops: a configuration that
  -- is returned has no error, and where the file of the daemon or the hosts were written, it has
  -- the text and the hosts that were written.
  pub apply_changes-Saved :
      (d : Disk) (v : Vault)
      → env.euid ≡ 0
      → IsDisk d
      → (c : Bool) (expected : Str) (changes : Map (Option Str))
      → All (λ (e : Str × Option Str). managed e.0 ≡ true) changes
      → CanRecord (with_checks formats env) d changes
      → Runs d v
          (apply_changes (with_checks formats env) c expected changes >>= λ _.
            backend_configuration formats env)
          (λ shown _ _. ShowsSaved formats changes shown)
          (λ _ _ _. Unit)
  unfolding backend_configuration with_checks
  apply_changes-Saved d v root i c expected changes a can =
      let checked = with_checks formats env in
      Runs-bind (apply_changes checked c expected changes) _
        (apply_changes-Stands checked d v root i c expected changes a can)
        (λ _ x y s.
          Runs-observe read (λ im. pure (model formats env im)) (read-Reads s.disk) (λ e k. tt)
            (λ im rd. Runs-pure (model formats env im) (saved changes x y im s rd)))
