-- ===== src/Templates/Packages.antt =====
-- Reading a template package: the whitelist of its entries, its manifest and its payloads
-- (crates/controller/src/templates.rs). A file is the list of its bytes; tar and JSON are read by
-- libraries, and SHA-256 is a function.
use Prim.Native.String
use webtop_manager.Prelude.{
  ℕ, ◌*◌, String, Bool, not, ◌&&◌, ◌||◌, ◌==◌, Option, none, some, List, [], ◌∷◌, any, all, length,
  ltb, str_eq, if◌then◌else◌,
}
use webtop_manager.Prelude.Text.{text_starts_with}
use webtop_manager.Prelude.Results.{Result, ok, ◌>>=◌, ◌>>◌, reject_if, ok_or, map_err}
use webtop_manager.Contracts.Validate.{validate}
use webtop_manager.Contracts.Packages.{TemplateManifest}
use webtop_manager.Templates.Jobs.{contains}
use webtop_manager.Templates.Images.{template_repository, package_schema_version}

abbrev pub Bytes : Type 0
Bytes = List ℕ

-- An entry of a tar archive.
pub record Entry : Type 0 where
  pub is_file : Bool
  pub path : String
  pub contents : Bytes

abbrev pub manifest_entry : String
manifest_entry = "manifest.json"

abbrev pub image_entry : String
image_entry = "payload/image.tar.zst"

abbrev pub config_entry : String
config_entry = "payload/config.tar.zst"

-- `allowed`.
abbrev pub allowed_entries : List String
allowed_entries = manifest_entry ∷ image_entry ∷ config_entry ∷ []

-- The files that were written, by their path; the keys are `seen`.
abbrev pub Written : Type 0
Written = List (String × Bytes)

abbrev pub is_seen : Written → String → Bool
is_seen written path = any (λ w. str_eq (w.0) path) written

-- The tests on one entry.
unfoldable pub accept_entry : Written → Entry → Result (Unit {0}) (Unit {0})
accept_entry written e = do
  reject_if (not e.is_file) tt
  reject_if (not (contains allowed_entries e.path) || is_seen written e.path) tt

abbrev pub is_all_allowed : Written → Bool
is_all_allowed written = all (λ w. contains allowed_entries (w.0)) written

-- `seen != allowed`, for two sets.
unfoldable pub is_complete : Written → Bool
is_complete written = all (is_seen written) allowed_entries && is_all_allowed written

unfoldable pub read_written : String → Written → Option Bytes
read_written path [] = none
read_written path ((p, contents) ∷ written) =
    if str_eq p path then some contents else read_written path written

unfoldable pub validate_manifest : TemplateManifest → Result (Unit {0}) (Unit {0})
validate_manifest m = do
  reject_if
      (not (m.schema_version == package_schema_version)
        || not (str_eq m.platform "linux/amd64")
        || not (str_eq m.image_payload.path image_entry)
        || not (str_eq m.config_payload.path config_entry)
        || not (text_starts_with m.image_reference (String.◌++◌ template_repository ":")))
      tt
  map_err (λ _. tt) (validate m.source_spec)

module _ (parse_manifest : Bytes → Option TemplateManifest) (sha256 : Bytes → String) where
  -- What follows the loop: the manifest is read, and the payloads are compared with it.
  unfoldable pub check_package : Written → Result (Unit {0}) TemplateManifest
  unfolding is_complete read_written validate_manifest
  check_package written = do
    reject_if (not (is_complete written)) tt
    bytes ← ok_or (read_written manifest_entry written) tt
    reject_if (ltb (1024 * 1024) (length bytes)) tt
    m ← ok_or (parse_manifest bytes) tt
    validate_manifest m
    image ← ok_or (read_written image_entry written) tt
    config ← ok_or (read_written config_entry written) tt
    reject_if
        (not (str_eq (sha256 image) m.image_payload.sha256)
          || not (length image == m.image_payload.size_bytes)
          || not (str_eq (sha256 config) m.config_payload.sha256)
          || not (length config == m.config_payload.size_bytes))
        tt
    ok m
