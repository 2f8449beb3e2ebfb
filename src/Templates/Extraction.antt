-- ===== src/Templates/Extraction.antt =====
-- Extracting a template package into a directory of its own
-- (crates/controller/src/templates.rs).
use Prim.Native.String
use webtop_manager.Prelude.{true, ℕ, String, Bool, not, Option, List, [], ◌∷◌}
use webtop_manager.Prelude.Results.{Result}
use webtop_manager.Prelude.Actions.{
  ◌>>=◌, ◌>>◌, pure, gets, lift, reject_if, or_clean, attempt, map_err,
}
use webtop_manager.Prelude.Text.{decimal}
use webtop_manager.Contracts.Errors.{ErrorCode, ApiError, ApiFailure, plain_error}
use webtop_manager.Contracts.Packages.{TemplateManifest, TemplateImportPreflight}
use webtop_manager.Database.Templates.{template_name_exists}
use webtop_manager.Controller.State.{AppState, Handler, Fallible}
use webtop_manager.Controller.Docker.{Call}
use webtop_manager.Controller.Frpc.{call}
use webtop_manager.Templates.Host.{join, try}
use webtop_manager.Templates.Packages.{Bytes, Entry, Written, accept_entry, check_package}

-- The file system, for archives: `read_archive` opens a file and reads it as a tar archive.
pub record ArchiveFiles (D : Type 0) : Type 0 where
  pub is_file : String → D → Bool
  pub exists : String → D → Bool
  pub create_dir : String → Call D (Unit {0})
  pub read_archive : String → Call D (List Entry)
  pub write_file : String → Bytes → Call D (Unit {0})
  pub remove_file : String → Call D (Unit {0})
  pub remove_dir_all : String → Call D (Unit {0})

abbrev pub package_error : ApiError
package_error = plain_error ErrorCode.template_package_invalid

abbrev pub package_failure : ApiFailure
package_failure = record { status = 400; error = package_error }

module _ {D : Type 0} (files : ArchiveFiles D) (parse_manifest : Bytes → Option TemplateManifest)
    (sha256 : Bytes → String) where
  -- The loop over the entries.
  unfoldable pub extract_entries : String → List Entry → Written → Fallible D Written
  unfolding accept_entry
  extract_entries destination [] written = pure written
  extract_entries destination (e ∷ es) written = do
    lift (accept_entry written e)
    call (files.write_file (join destination e.path) e.contents)
    extract_entries destination es ((e.path, e.contents) ∷ written)

  abbrev extract_all : String → String → Fallible D TemplateManifest
  extract_all archive destination = do
    entries ← call (files.read_archive archive)
    written ← extract_entries destination entries []
    lift (check_package parse_manifest sha256 written)

  abbrev remove_all : String → AppState D → AppState D
  remove_all path s = try (files.remove_dir_all path) s

  -- What has been extracted is removed where the package is refused.
  unfoldable pub extract_package : String → String → Fallible D TemplateManifest
  unfolding extract_entries check_package
  extract_package archive destination = do
    there ← gets (λ s. files.exists destination s.docker)
    reject_if there tt
    call (files.create_dir destination)
    call (files.create_dir (join destination "payload"))
    or_clean (extract_all archive destination) (remove_all destination)

  module _ (staging_root : String)
      (validate_saved_image_archive : String → String → String → Fallible D (Unit {0})) where
    unfoldable pub staging_package_path : ℕ → String
    staging_package_path id = join staging_root (String.◌++◌ (decimal id) ".wtmpl")

    abbrev preflight_root : ℕ → String
    preflight_root id =
        join staging_root (String.◌++◌ ".preflight-" (String.◌++◌ (decimal id) ".partial-dir"))

    abbrev clean_then :
        String → Result (Unit {0}) (Unit {0}) → TemplateManifest → Fallible D TemplateManifest
    clean_then root validation m = do
      cleanup ← attempt (call (files.remove_dir_all root))
      lift validation
      lift cleanup
      pure m

    -- The extracted files are removed whether the image is valid or not.
    unfoldable pub validate_package : ℕ → Fallible D TemplateManifest
    unfolding staging_package_path extract_package
    validate_package id = do
      there ← gets (λ s. files.is_file (staging_package_path id) s.docker)
      reject_if (not there) tt
      m ← extract_package (staging_package_path id) (preflight_root id)
      validation ← attempt (
          validate_saved_image_archive (join (preflight_root id) "payload/image.tar.zst")
            m.image_reference m.image_config_sha256)
      clean_then (preflight_root id) validation m

    abbrev preflight_answer : ℕ → TemplateManifest → Bool → TemplateImportPreflight
    preflight_answer id m conflict = record {
      staging_file_id = id;
      manifest = m;
      name_conflict = conflict;
      sensitive_data_warning = true;
      untrusted_image_warning = true;
    }

    -- A package that is refused is removed.
    unfoldable pub import_preflight : ℕ → Handler D TemplateImportPreflight
    unfolding validate_package staging_package_path
    import_preflight id = do
      m ←
          or_clean (map_err (λ _. package_failure) (validate_package id))
            (λ s. try (files.remove_file (staging_package_path id)) s)
      conflict ← gets (λ s. template_name_exists m.name s.database)
      pure (preflight_answer id m conflict)
