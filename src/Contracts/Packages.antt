-- ===== src/Contracts/Packages.antt =====
-- The types of images and template packages that crates/contracts/src/lib.rs declares, and the
-- parts of a package that the controller checks. A `Uuid` is its number and a `PathBuf` its text.
use webtop_manager.Prelude.{ℕ, String, Bool, Option, none, List}
use webtop_manager.Contracts.Spec.{ℤ, EnvironmentSpec}
use webtop_manager.Database.Records.{OfficialTemplateSource, TemplateSourceCheck, not_checked}

pub record OfficialImage : Type 0 where
  pub reference : String
  pub tag : String
  pub distribution : String
  pub desktop : String
  pub wayland_support : Bool
  pub wayland_only : Bool
  pub installed : Bool
  pub image_id : Option String
  pub size_bytes : Option ℤ

pub data ImagePullPhase : Type 0 where
  starting progress complete_pull cancelled_pull error_pull : ImagePullPhase

pub record ImagePullProgress : Type 0 where
  pub pull_id : ℕ
  pub reference : String
  pub phase : ImagePullPhase
  pub layer_id : Option String
  pub status : String
  pub current_bytes : Option ℤ
  pub total_bytes : Option ℤ
  pub aggregate_current_bytes : Option ℤ
  pub aggregate_total_bytes : Option ℤ

pub record ImageCachePruneResult : Type 0 where
  pub deleted_items : ℕ
  pub space_reclaimed_bytes : ℤ

-- `TemplateSourceCheck::default()`.
abbrev pub default_source_check : TemplateSourceCheck
default_source_check = record { status = not_checked; checked_at = none; current_digest = none }

pub record TemplatePreflight : Type 0 where
  pub environment_id : ℕ
  pub system_change_bytes : ℕ
  pub config_original_bytes : ℕ
  pub file_count : ℕ
  pub directory_count : ℕ
  pub symlink_count : ℕ
  pub skipped_special_files : ℕ
  pub sensitive_paths : List String
  pub image_upper_bound_bytes : ℕ
  pub snapshot_upper_bound_bytes : ℕ
  pub conservative_total_bytes : ℕ
  pub available_bytes : Option ℕ
  pub insufficient_space_warning : Bool

pub record TemplatePayload : Type 0 where
  pub path : String
  pub size_bytes : ℕ
  pub sha256 : String

pub record TemplateManifest : Type 0 where
  pub schema_version : ℕ
  pub exported_template_id : ℕ
  pub name : String
  pub platform : String
  pub image_reference : String
  pub image_id : String
  pub image_config_sha256 : String
  pub source_spec : EnvironmentSpec
  pub official_source : Option OfficialTemplateSource
  pub lineage : List ℕ
  pub image_payload : TemplatePayload
  pub config_payload : TemplatePayload
  pub created_at : ℕ

pub record TemplateImportPreflight : Type 0 where
  pub staging_file_id : ℕ
  pub manifest : TemplateManifest
  pub name_conflict : Bool
  pub sensitive_data_warning : Bool
  pub untrusted_image_warning : Bool
