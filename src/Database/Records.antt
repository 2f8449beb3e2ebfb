-- ===== src/Database/Records.antt =====
-- The rows of crates/controller/src/database.rs, and the operation and template types of
-- crates/contracts/src/lib.rs. A `Uuid` is its number, a `DateTime<Utc>` its time stamp, and a JSON
-- value its text.
use webtop_manager.Prelude.{ℕ, String, Bool, Option, List}
use webtop_manager.Contracts.Errors.{ApiError, ErrorCode}
use webtop_manager.Contracts.Spec.{ℤ, EnvironmentSpec}

pub record EnvironmentRecord : Type 0 where
  pub id : ℕ
  pub name : String
  pub container_id : String
  pub config_path : String
  pub desired_running : Bool
  pub local_port : Option ℕ
  pub template_id : Option ℕ
  pub spec : EnvironmentSpec
  pub created_at : ℕ

pub record FrpTokenMetadata : Type 0 where
  pub fingerprint : String
  pub recovery_pending : Bool

pub data OperationKind : Type 0 where
  pull_image create_environment rebuild_environment create_template : OperationKind
  restore_template export_template import_template check_template_source : OperationKind
  delete_template delete_environment reconcile upgrade_controller : OperationKind

pub data OperationPhase : Type 0 where
  queued preflight running verifying rolling_back : OperationPhase
  succeeded failed cancelled retryable : OperationPhase

pub record Operation : Type 0 where
  pub id : ℕ
  pub kind : OperationKind
  pub phase : OperationPhase
  pub progress_percent : Option ℕ
  pub cancellable : Bool
  pub resource_id : Option ℕ
  pub error : Option ApiError
  pub result : Option String
  pub log_lines : List String
  pub created_at : ℕ
  pub updated_at : ℕ

pub record PullImageRequest : Type 0 where
  pub pull_id : ℕ
  pub reference : String

-- `request_json`: a pull request, or other JSON, which does not read as a pull request.
pub data OperationRequest : Type 0 where
  pull : PullImageRequest → OperationRequest
  other_request : String → OperationRequest

-- A row of `operations`. `progress_percent` is -1 where the operation has none.
pub record OperationRow : Type 0 where
  pub id : ℕ
  pub kind : OperationKind
  pub phase : OperationPhase
  pub progress_percent : ℤ
  pub cancellable : Bool
  pub resource_id : Option ℕ
  pub error_code : Option ErrorCode
  pub error_params : Option (List (String × String))
  pub result : Option String
  pub log_lines : List String
  pub request : Option OperationRequest
  pub created_at : Option ℕ
  pub updated_at : ℕ

pub record OfficialTemplateSource : Type 0 where
  pub reference : String
  pub digest : Option String
  pub image_id : String
  pub build_version : Option String

pub data TemplateSourceStatus : Type 0 where
  not_checked current updated unavailable : TemplateSourceStatus

pub record TemplateSourceCheck : Type 0 where
  pub status : TemplateSourceStatus
  pub checked_at : Option ℕ
  pub current_digest : Option String

pub data TemplateIntegrity : Type 0 where
  complete missing_image missing_snapshot corrupt_snapshot : TemplateIntegrity

pub data TemplateTrust : Type 0 where
  local_template imported_untrusted : TemplateTrust

pub record Template : Type 0 where
  pub id : ℕ
  pub name : String
  pub image_reference : String
  pub image_id : String
  pub platform : String
  pub system_size_bytes : ℕ
  pub system_delta_bytes : ℕ
  pub snapshot_path : String
  pub snapshot_sha256 : String
  pub snapshot_size_bytes : ℕ
  pub snapshot_original_bytes : ℕ
  pub source_environment_id : Option ℕ
  pub parent_template_id : Option ℕ
  pub external_lineage : List ℕ
  pub source_spec : EnvironmentSpec
  pub official_source : Option OfficialTemplateSource
  pub source_check : TemplateSourceCheck
  pub integrity : TemplateIntegrity
  pub trust : TemplateTrust
  pub created_at : ℕ

-- A row of `templates`: its columns, and what `serde_json::from_str` makes of its `record_json`.
pub record TemplateRow : Type 0 where
  pub id : ℕ
  pub name : String
  pub parent_template_id : Option ℕ
  pub source_environment_id : Option ℕ
  pub template : Template
  pub created_at : ℕ
