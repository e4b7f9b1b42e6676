-- ===== src/Helper/Examples.antt =====
-- The writes of the helper at a small machine.
use avahi_manager.Prelude.{
  ◌≡◌, refl, ◌⊎◌, true, Option, none, some, [], ◌∷◌, Str, codes, same, Map, before?, Bool, subst,
  false, arith, sym,
}
use avahi_manager.Config.Samples.{
  sample_env, sample_disk, sample_vault, sample_ids, sample_disk-IsDisk, sample_image, conf,
}
use avahi_manager.Config.Path.{daemon_conf, clean}
use avahi_manager.Config.World.Runs.{Runs, on}
use avahi_manager.Config.Disk.Reading.{managed, IsDisk}
use avahi_manager.Config.Transaction.Changes.{Applied, NotApplied, CanRecord}
use avahi_manager.Helper.{delete_service}
use avahi_manager.Helper.Services.{IsService, delete_service-Applied}
use avahi_manager.Helper.Model.{Formats, with_checks, Configuration, backend_configuration}
use avahi_manager.Config.World.{Result, World, ◌>>=◌, ok, err, Disk, regular, directory}
use avahi_manager.Config.Transaction.{apply_changes, ApplyResult}
use avahi_manager.Helper.Model.Saved.{ShowsSaved, apply_changes-Saved}
use avahi_manager.Config.Image.{revision, File, Image}
use avahi_manager.Files.Runes.{as_utf8}
use avahi_manager.Config.Facts.{conf-IsPlain}
use avahi_manager.Config.Transaction.Names.{IsPlain-CanRecord}
use avahi_manager.Config.Vault.Copies.{IsPlain}

-- the path of a service; the digest of the sample machine leaves it as it is, and it has the 64
-- characters of an identifier
abbrev printer_path : Str
printer_path = codes "services/the-printer-of-the-second-floor-000000000000000.service"

abbrev printer_file : File
printer_file = record { content = codes "<service-group/>"; mode = 420; uid = 0; gid = 0 }

abbrev printer_disk : Disk
printer_disk = record {
  files = (daemon_conf, regular conf) ∷ (printer_path, regular printer_file) ∷ [];
  services = directory;
}

printer_disk-IsDisk : IsDisk printer_disk
printer_disk-IsDisk h p e = absurd (h refl)

printer-IsPlain : IsPlain printer_path
unfolding as_utf8 clean
printer-IsPlain = (refl, refl)

printer_can :
    (p : Str)
    → IsService sample_env printer_path p
    → CanRecord sample_env printer_disk ((p, none) ∷ [])
printer_can p s =
    IsPlain-CanRecord sample_env printer_disk ((p, none) ∷ []) (conf-IsPlain, (printer-IsPlain, tt))
      (subst IsPlain (sym s.digest) printer-IsPlain, tt) sample_ids (λ m. omega arith)

delete_service-Applied_example :
    Runs printer_disk sample_vault
      (delete_service sample_env (codes "rev") printer_path)
      (λ _ x y.
        (p : Str) × IsService sample_env printer_path p
        × Applied sample_env printer_disk ((p, none) ∷ []) x y)
      (λ e x y.
        ((x ≡ printer_disk) × (y ≡ sample_vault))
        ⊎ ((p : Str) × IsService sample_env printer_path p
            × NotApplied sample_env printer_disk sample_vault ((p, none) ∷ []) e x y))
delete_service-Applied_example =
    delete_service-Applied sample_env printer_path printer_disk sample_vault printer_disk-IsDisk
      (codes "rev") refl printer_can

-- without a failure, the service is found and deleted
abbrev applied : Result ApplyResult → Bool
applied (ok _) = true
applied (err _) = false

abbrev printer_image : Image
printer_image = (daemon_conf, conf) ∷ (printer_path, printer_file) ∷ []

delete_run :
    applied
      (delete_service sample_env
        (revision sample_env printer_image)
        printer_path
        (on printer_disk sample_vault [] 1 [])).0
    ≡ true
unfolding delete_service revision before?
delete_run = refl

abbrev as_text : Str → Option Str
as_text s = some s

-- parsers that know no address and take every XML text for an empty one
abbrev sample_formats : Formats
sample_formats = record { parse_addr = λ _. none; tokenize = λ _. ([], true); decode = λ _. none }

abbrev new_conf : Str
new_conf = codes "[server]\nuse-ipv6=no\n"

abbrev conf_changes : Map (Option Str)
conf_changes = (daemon_conf, some new_conf) ∷ []

apply_changes-Saved_example :
    Runs sample_disk sample_vault
      (apply_changes
          (with_checks sample_formats sample_env)
          true
          (revision sample_env sample_image)
          conf_changes
        >>= λ _. backend_configuration sample_formats sample_env)
      (λ shown _ _. ShowsSaved sample_formats conf_changes shown)
      (λ _ _ _. Unit)
unfolding managed same with_checks
apply_changes-Saved_example =
    apply_changes-Saved sample_formats sample_env sample_disk sample_vault refl sample_disk-IsDisk
      true (revision sample_env sample_image) conf_changes (refl, tt)
      (IsPlain-CanRecord (with_checks sample_formats sample_env) sample_disk conf_changes
        (conf-IsPlain, tt) (conf-IsPlain, tt) sample_ids (λ m. omega arith))

-- where no step fails, the new text is shown
abbrev text_shown : Result Configuration × World → Option Str
text_shown (ok c, w) = some c.raw
text_shown (err e, w) = none

new_conf_shown :
    text_shown (
      (apply_changes
            (with_checks sample_formats sample_env)
            true
            (revision sample_env sample_image)
            conf_changes
          >>= λ _. backend_configuration sample_formats sample_env)
        (on sample_disk sample_vault [] 1 []))
    ≡ some new_conf
unfolding apply_changes backend_configuration with_checks
new_conf_shown = refl
