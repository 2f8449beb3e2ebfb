-- ===== src/Templates/Commit.antt =====
-- Making a template of a stopped environment: the handler and its job
-- (crates/controller/src/templates.rs).
use Prim.Native.String
use webtop_manager.Prelude.{ℕ, String, Bool, not, ◌&&◌, Option, none, some, List, [], ◌∷◌}
use webtop_manager.Prelude.Text.{decimal, trim}
use webtop_manager.Prelude.Actions.{
  ◌>>=◌, ◌>>◌, pure, gets, modify, lift, map_err, ok_or, reject_if, or_clean,
}
use webtop_manager.Contracts.Errors.{ErrorCode, ApiFailure, plain_error}
use webtop_manager.Contracts.Failures
use webtop_manager.Contracts.Packages.{default_source_check}
use webtop_manager.Database.Records.{
  EnvironmentRecord, Operation, OperationKind, OperationPhase, running, verifying, Template,
  complete, local_template,
}
use webtop_manager.Database.Templates.{template_name_exists, get_template, insert_template}
use webtop_manager.Controller.State.{AppState, Handler, with_database}
use webtop_manager.Controller.Frpc.{call}
use webtop_manager.Controller.Lifecycle.{environment_resource}
use webtop_manager.Templates.Jobs.{
  Job, invalid_error, internal_error, docker_images, operation_log, update_operation, new_operation,
  accept_job, required_environment_value,
}
use webtop_manager.Templates.Images.{
  ImageConfig, ImageInspect, sanitized_commit_config, official_source, image_platform,
  template_repository,
}
use webtop_manager.Templates.Names.{validate_name}
use webtop_manager.Templates.Host.{
  Host, WorkerReport, ContainerInspect, snapshot_job, join, size_of, docker_call, try,
}
use webtop_manager.Templates.Checks.{
  tagged, ensure_stopped_and_owned_value, verify_container_path, verify_template_image,
  remove_owned_image,
}
use webtop_manager.Templates.Listing.{template_preflight}

pub record CreateTemplateRequest : Type 0 where
  pub environment_id : ℕ
  pub name : String
  pub confirmed_sensitive_data : Bool
  pub confirmed_space_warning : Bool

abbrev pub template_resource : ℕ → String
template_resource id = String.◌++◌ "template:" (decimal id)

abbrev pub template_name_conflict : ApiFailure
template_name_conflict = record {
  status = 409;
  error = plain_error ErrorCode.template_name_conflict;
}

abbrev insufficient_space : ApiFailure
insufficient_space = record { status = 409; error = plain_error ErrorCode.insufficient_disk_space }

-- `{"templateId": id}`.
abbrev pub template_result : ℕ → String
template_result id = String.◌++◌ "{\"templateId\":\"" (String.◌++◌ (decimal id) "\"}")

abbrev pub snapshot_of : ℕ → String
snapshot_of id = String.◌++◌ (decimal id) "/config.tar.zst"

-- The resources of the job.
abbrev pub commit_resources : ℕ → ℕ → List String
commit_resources environment_id template_id =
    docker_images ∷ environment_resource environment_id ∷ template_resource template_id ∷ []

abbrev config_of : ImageInspect → ImageConfig
config_of image = elim image.config [
  | some config ↦ config
  | none ↦ record {
    user = none;
    exposed_ports = none;
    env = none;
    cmd = none;
    healthcheck = none;
    args_escaped = none;
    volumes = none;
    working_dir = none;
    entrypoint = none;
    on_build = none;
    labels = none;
    stop_signal = none;
    shell = none;
  }
]

abbrev or_else : {A : Type 0} → Option A → A → A
or_else none a = a
or_else (some b) a = b

-- What the first part of the job has read.
pub record Source : Type 0 where
  pub environment : EnvironmentRecord
  pub container : ContainerInspect
  pub image_id : String
  pub image : ImageInspect

module _ {D : Type 0} (host : Host D) where
  -- The part of `create_template` before the task is spawned.
  unfoldable pub create_template : ℕ → ℕ → CreateTemplateRequest → Handler D Operation
  unfolding template_preflight new_operation accept_job
  create_template operation_id template_id request = do
    lift (validate_name request.name)
    reject_if (not request.confirmed_sensitive_data) Failures.invalid_request
    preflight ← template_preflight host request.environment_id
    reject_if (preflight.insufficient_space_warning && not request.confirmed_space_warning)
        insufficient_space
    exists ← gets (λ s. template_name_exists (trim request.name) s.database)
    reject_if exists template_name_conflict
    now ← gets (λ s. host.clock s.docker)
    accept_job (new_operation operation_id now OperationKind.create_template (some template_id))
        (commit_resources request.environment_id template_id)

  abbrev pub log : ℕ → String → Job D (Unit {0})
  log id line = operation_log host.clock id line

  abbrev pub progress : ℕ → OperationPhase → ℕ → Job D (Unit {0})
  progress id phase percent = update_operation host.clock id phase (some percent)

  abbrev pub snapshot_path : String → String
  snapshot_path relative = join host.snapshot_root relative

  -- `remove_file(&snapshot)` and `remove_dir(snapshot_parent)`.
  abbrev remove_snapshot : ℕ → AppState D → AppState D
  remove_snapshot template_id s =
      try (host.remove_dir (snapshot_path (decimal template_id)))
        (try (host.remove_file (snapshot_path (snapshot_of template_id))) s)

  abbrev pub image_of : ℕ → String
  image_of template_id = tagged template_repository (decimal template_id)

  abbrev remove_made : ℕ → AppState D → AppState D
  remove_made template_id s =
      remove_snapshot template_id (remove_owned_image host (image_of template_id) s).1

  unfoldable pub read_source : ℕ → CreateTemplateRequest → Job D Source
  unfolding required_environment_value ensure_stopped_and_owned_value verify_container_path
  read_source operation_id request = do
    log operation_id "[controller] validating stopped managed environment"
    progress operation_id running 10
    r ← required_environment_value request.environment_id
    ensure_stopped_and_owned_value host r
    container ← docker_call (host.inspect_container r.container_id)
    image_id ← ok_or container.image invalid_error
    image ← docker_call (host.inspect_image image_id)
    verify_container_path host r.container_id "/init"
    pure (record { environment = r; container = container; image_id = image_id; image = image })

  unfoldable pub take_snapshot : ℕ → ℕ → Source → Job D WorkerReport
  take_snapshot operation_id template_id source = do
    map_err (λ _. internal_error) (call (host.create_dir_all (snapshot_path (decimal template_id))))
    log operation_id "[worker] archiving complete /config as tar.zst"
    report ←
        map_err (λ _. internal_error)
          (call (
            host.run_worker (
              snapshot_job source.environment.config_path
                (snapshot_path (snapshot_of template_id)))))
    log operation_id (
        String.◌++◌ "[worker] /config snapshot complete: " (
          String.◌++◌ (host.human_bytes report.original_bytes) (
            String.◌++◌ " original -> "
              (String.◌++◌ (host.human_bytes (or_else report.archive_bytes 0)) " compressed"))))
    progress operation_id running 50
    pure report

  -- The commit, which yields the id of the new image.
  unfoldable pub commit_source : ℕ → ℕ → ℕ → Source → Job D String
  unfolding sanitized_commit_config
  commit_source operation_id template_id environment_id source = do
    log operation_id "[docker] committing stopped container to app-owned template tag"
    let config = sanitized_commit_config (config_of source.image) template_id environment_id
    or_clean
        (docker_call (host.commit_container source.environment.container_id template_id config))
        (remove_snapshot template_id)

  abbrev lineage_of : Option Template → List ℕ
  lineage_of none = []
  lineage_of (some t) = t.external_lineage

  abbrev parent_lineage : Option ℕ → AppState D → List ℕ
  parent_lineage none s = []
  parent_lineage (some parent) s = lineage_of (get_template parent s.database)

  -- The record of the template, whose fields are read in this order.
  unfoldable pub template_of :
      ℕ → CreateTemplateRequest → Source → WorkerReport → String → ImageInspect → Job D Template
  unfolding official_source image_platform
  template_of template_id request source report commit_id image = do
    lineage ← gets (parent_lineage source.environment.template_id)
    platform ← lift (image_platform image)
    sha256 ← ok_or report.sha256 invalid_error
    archive_bytes ← ok_or report.archive_bytes invalid_error
    now ← gets (λ s. host.clock s.docker)
    pure (record {
      id = template_id;
      name = trim request.name;
      image_reference = image_of template_id;
      image_id = or_else image.id commit_id;
      platform = platform;
      system_size_bytes = size_of image.size;
      system_delta_bytes = size_of source.container.size_rw;
      snapshot_path = snapshot_of template_id;
      snapshot_sha256 = sha256;
      snapshot_size_bytes = archive_bytes;
      snapshot_original_bytes = report.original_bytes;
      source_environment_id = some request.environment_id;
      parent_template_id = source.environment.template_id;
      external_lineage = lineage;
      source_spec = source.environment.spec;
      official_source = official_source source.environment.spec.image source.image_id source.image;
      source_check = default_source_check;
      integrity = complete;
      trust = local_template;
      created_at = now;
    })

  unfoldable pub store_new : Template → Job D (Unit {0})
  store_new t = do
    db ← gets (λ s. insert_template host.reread_template t s.database)
    next ← map_err (λ _. internal_error) (lift db)
    modify (with_database (λ _. next))

  unfoldable pub publish_template :
      ℕ → ℕ → CreateTemplateRequest → Source → WorkerReport → String → Job D String
  unfolding verify_template_image template_of store_new
  publish_template operation_id template_id request source report commit_id = do
    log operation_id "[docker] commit complete; verifying platform and boot metadata"
    progress operation_id verifying 80
    image ← or_clean (verify_template_image host (image_of template_id)) (remove_made template_id)
    template ← template_of template_id request source report commit_id image
    or_clean (store_new template) (remove_made template_id)
    log operation_id "[controller] image and snapshot published atomically"
    pure (template_result template_id)

  unfoldable pub create_template_job : ℕ → ℕ → CreateTemplateRequest → Job D String
  unfolding read_source take_snapshot commit_source publish_template
  create_template_job operation_id template_id request = do
    source ← read_source operation_id request
    report ← take_snapshot operation_id template_id source
    commit_id ← commit_source operation_id template_id request.environment_id source
    publish_template operation_id template_id request source report commit_id
