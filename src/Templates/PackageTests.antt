-- ===== src/Templates/PackageTests.antt =====
-- Images, packages, names and lineages on concrete inputs
-- (crates/controller/src/templates.rs).
use webtop_manager.Database.Environments.{list_environments}
use webtop_manager.Controller.Proxies.{allocated_ports}
use webtop_manager.Templates.Commit.{snapshot_of}
use webtop_manager.Templates.Host.{size_of}
use webtop_manager.Contracts.Ports.{allocate_remote_port}
use webtop_manager.Contracts.Errors.{ApiError}
use webtop_manager.Database.Records.{imported_untrusted, complete, Template}
use webtop_manager.Contracts.Settings.{default_server_settings, validate_settings}
use webtop_manager.Prelude.{
  ◌<◌, ◌≤◌, ◌==◌, ◌||◌, ℕ, String, Bool, true, false, ◌≡◌, ◌≢◌, ◌↔◌, refl, Option, none, some, List,
  [], ◌∷◌, mem,
}
use webtop_manager.Prelude.Results.{err, Result, ok}
use webtop_manager.Contracts.Packages.{default_source_check, TemplateManifest}
use webtop_manager.Contracts.Spec.{EnvironmentSpec, default_environment_spec}
use webtop_manager.Database.State.{get_server_settings, empty_database}
use webtop_manager.Controller.State.{AppState}
use webtop_manager.Templates.Images.{
  image_platform, ImageConfig, ImageInspect, sanitized_commit_config, verify_image, mentions,
}
use webtop_manager.Templates.ImageLaws.{
  IsTemplateConfig, sanitized_commit_config-IsTemplateConfig, verify_image-commit_iff,
}
use webtop_manager.Prelude.Text.{
  has_whitespace, is_blank, is_whitespace, decimal, trim, codes_start_with,
}
use webtop_manager.Templates.Json.{Json, string, object, no_members, member}
use webtop_manager.Templates.Sanitizing.{sanitize_imported_image_config, check_labels}
use webtop_manager.Templates.SanitizingLaws.{sanitize-check_labels}
use webtop_manager.Templates.Packages.{Bytes, Entry, Written, is_complete}
use webtop_manager.Templates.Extraction.{ArchiveFiles, extract_entries}
use webtop_manager.Templates.Acceptance.{IsWhitelisted, extract_entries-complete_iff}
use webtop_manager.Templates.Names.{safe_filename}
use webtop_manager.Templates.NameLaws.{IsPlain, safe_filename-IsPlain}
use webtop_manager.Templates.Importing.{sort, dedup, imported_template, ImportTemplateRequest}
use webtop_manager.Templates.LineageLaws.{IsIncreasing, imported_template-lineage}
use webtop_manager.Templates.Restore.{allocate_publication_port}
use webtop_manager.Templates.PortLaws.{IsFreePort, with_port, allocate_publication_port-IsFreePort}

abbrev source : ImageConfig
source = record {
  user = none;
  exposed_ports = none;
  env = some ("PATH=/bin" ∷ "PASSWORD=nope" ∷ "API_TOKEN=nope" ∷ []);
  cmd = none;
  healthcheck = none;
  args_escaped = none;
  volumes = some ("/data" ∷ []);
  working_dir = none;
  entrypoint = some ("/init" ∷ []);
  on_build = none;
  labels = none;
  stop_signal = none;
  shell = none;
}

abbrev image : ImageInspect
image = record {
  id = none;
  os = some "linux";
  architecture = some "amd64";
  size = none;
  repo_digests = none;
  config = some (sanitized_commit_config source 3 9);
}

sanitized_commit_config-IsTemplateConfig_example :
    IsTemplateConfig 3 9 (sanitized_commit_config source 3 9)
sanitized_commit_config-IsTemplateConfig_example =
    sanitized_commit_config-IsTemplateConfig source 3 9

verify_image-commit_iff_example :
    (verify_image image ≡ ok image) ↔ (mentions "/init" source.entrypoint ≡ true)
verify_image-commit_iff_example = verify_image-commit_iff image source 3 9 refl refl refl

abbrev any_uuid : String → Bool
any_uuid text = true

abbrev labelled : Json
labelled = object (
    member "config"
      (object (
        member "Labels"
          (object (
            member "com.cue.webtop-manager.owner" (string "other")
              (member "x" (string "kept") no_members)))
          no_members))
      no_members)

abbrev relabelled : Json
relabelled = object (
    member "config"
      (object (
        member "Labels"
          (object (
            member "x" (string "kept") (
              member "com.cue.webtop-manager.owner" (string "managed") (
                member "com.cue.webtop-manager.resource-kind" (string "template")
                  (member "com.cue.webtop-manager.resource-id" (string "12") no_members)))))
          no_members))
      no_members)

sanitize-check_labels_example : check_labels relabelled "12" ≡ ok tt
unfolding sanitize_imported_image_config codes_start_with
sanitize-check_labels_example =
    sanitize-check_labels any_uuid labelled relabelled "repo:12" "repo" "12" refl refl

abbrev files : ArchiveFiles ℕ
files = record {
  is_file = λ path d. true;
  exists = λ path d. false;
  create_dir = λ path d. (ok tt, d);
  read_archive = λ path d. (ok [], d);
  write_file = λ path contents d. (ok tt, d);
  remove_file = λ path d. (ok tt, d);
  remove_dir_all = λ path d. (ok tt, d);
}

abbrev no_manifest : Bytes → Option TemplateManifest
no_manifest bytes = none

abbrev no_digest : Bytes → String
no_digest bytes = ""

abbrev entries : List Entry
entries =
    record { is_file = true; path = "payload/config.tar.zst"; contents = 1 ∷ [] }
    ∷ record { is_file = true; path = "manifest.json"; contents = [] }
    ∷ record { is_file = true; path = "payload/image.tar.zst"; contents = 2 ∷ [] }
    ∷ []

abbrev state : AppState ℕ
state = record {
  database = empty_database;
  docker = 0;
  token_file = record { contents = none; readable = true; writable = true };
  pull_cancellations = [];
  operation_cancellations = [];
  active_resources = [];
}

extract_entries-complete_iff_example :
    ((w : Written) × (t : AppState ℕ) × (extract_entries files no_manifest no_digest "/staging/x"
          entries [] state
        ≡ (ok w, t))
      × (is_complete w ≡ true))
    ↔ IsWhitelisted entries
extract_entries-complete_iff_example =
    extract_entries-complete_iff files no_manifest no_digest "/staging/x" entries state
      (λ p b d. refl)

safe_filename-IsPlain_example :
    IsPlain (safe_filename "../etc/passwd") × (safe_filename "../etc/passwd" ≢ "")
safe_filename-IsPlain_example = safe_filename-IsPlain "../etc/passwd"

abbrev exported : TemplateManifest
exported = record {
  schema_version = 1;
  exported_template_id = 5;
  name = "desk";
  platform = "linux/amd64";
  image_reference = "com.cue.webtop-manager/template:5";
  image_id = "sha256:1";
  image_config_sha256 = "";
  source_spec = default_environment_spec;
  official_source = none;
  lineage = 7 ∷ 2 ∷ 5 ∷ [];
  image_payload = record { path = "payload/image.tar.zst"; size_bytes = 1; sha256 = "" };
  config_payload = record { path = "payload/config.tar.zst"; size_bytes = 1; sha256 = "" };
  created_at = 0;
}

abbrev import_request : ImportTemplateRequest
import_request = record {
  staging_file_id = 4;
  name = "desk";
  confirmed_sensitive_data = true;
  confirmed_untrusted_image = true;
}

abbrev loaded : ImageInspect
loaded = record image { id = some "sha256:1" }

abbrev imported_lineage : Result ApiError Template → List ℕ
imported_lineage (ok t) = t.external_lineage
imported_lineage (err e) = []

lineage_once :
    imported_lineage (imported_template (λ d. d) 9 import_request exported loaded state).0
    ≡ 2 ∷ 5 ∷ 7 ∷ []
unfolding imported_template sort dedup
lineage_once = refl

abbrev imported : Template
imported = record {
  id = 9;
  name = "desk";
  image_reference = "com.cue.webtop-manager/template:9";
  image_id = "sha256:1";
  platform = "linux/amd64";
  system_size_bytes = size_of loaded.size;
  system_delta_bytes = 0;
  snapshot_path = snapshot_of 9;
  snapshot_sha256 = "";
  snapshot_size_bytes = 1;
  snapshot_original_bytes = 0;
  source_environment_id = none;
  parent_template_id = none;
  external_lineage = 2 ∷ 5 ∷ 7 ∷ [];
  source_spec = default_environment_spec;
  official_source = none;
  source_check = default_source_check;
  integrity = complete;
  trust = imported_untrusted;
  created_at = 0;
}

imported_template-lineage_example :
    IsIncreasing imported.external_lineage
    × ((x : ℕ)
        → mem x imported.external_lineage
          ≡ (mem x exported.lineage || (exported.exported_template_id == x)))
unfolding imported_template sort dedup image_platform trim decimal is_whitespace
imported_template-lineage_example =
    imported_template-lineage (λ d. d) 9 import_request exported loaded state state imported refl

-- A controller with the default settings, and an environment on the first port.
abbrev configured_state : AppState ℕ
configured_state = record state {
  database = record (empty_database) {
    environments =
        record {
          id = 1;
          name = "first";
          container_id = "c";
          config_path = "/data/1/config";
          desired_running = true;
          local_port = none;
          template_id = none;
          spec = with_port (some 41000) true default_environment_spec;
          created_at = 0;
        }
        ∷ [];
    server_settings =
        some
          (record default_server_settings { frps_host = "frps.example"; public_ip = "192.0.2.1" });
  };
}

abbrev open_spec : EnvironmentSpec
open_spec = record default_environment_spec {
  publication = record { enabled = true; remote_port = some 5; automatic_port = false };
}

abbrev opened : EnvironmentSpec
opened = with_port (some 41001) true open_spec

allocated : allocate_publication_port open_spec configured_state ≡ (ok opened, configured_state)
unfolding allocate_publication_port validate_settings allocate_remote_port is_blank
    get_server_settings has_whitespace allocated_ports list_environments
allocated = refl

allocate_publication_port-IsFreePort_example :
    (configured_state ≡ configured_state)
    × (open_spec.publication.enabled ≡ false
        → opened ≡ with_port none open_spec.publication.automatic_port open_spec)
    × (open_spec.publication.enabled ≡ true
        → (p : ℕ) × (opened ≡ with_port (some p) true open_spec)
          × IsFreePort p configured_state
          × ((q : ℕ)
              → (get_server_settings configured_state.database).remote_port_start ≤ q
              → q < p
              → mem q (allocated_ports (list_environments configured_state.database)) ≡ true))
allocate_publication_port-IsFreePort_example =
    allocate_publication_port-IsFreePort open_spec opened configured_state configured_state
      allocated
