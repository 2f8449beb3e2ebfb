-- ===== src/Templates/Restore.antt =====
-- Making an environment of a template: the handler and its job
-- (crates/controller/src/templates.rs).
use Prim.Native.String
use webtop_manager.Prelude.{
  ℕ, String, Bool, true, false, not, Option, none, some, List, [], ◌∷◌, str_eq, if◌then◌else◌,
}
use webtop_manager.Prelude.Text.{decimal}
use webtop_manager.Prelude.Results.{Result, ok, err}
use webtop_manager.Prelude.Actions.{
  ◌>>=◌, ◌>>◌, pure, gets, modify, lift, map_err, reject_if, or_clean,
}
use webtop_manager.Contracts.Errors.{ErrorCode, ApiFailure, plain_error}
use webtop_manager.Contracts.Failures
use webtop_manager.Contracts.Spec.{EnvironmentSpec}
use webtop_manager.Contracts.Settings.{validate_settings}
use webtop_manager.Contracts.Validate.{validate}
use webtop_manager.Contracts.Ports.{allocate_remote_port}
use webtop_manager.Database.Records.{
  EnvironmentRecord, Operation, OperationKind, running, Template, complete,
}
use webtop_manager.Database.State.{get_server_settings}
use webtop_manager.Database.Environments.{
  environment_name_exists, insert_environment, list_environments,
}
use webtop_manager.Controller.State.{AppState, Handler, with_database}
use webtop_manager.Controller.Docker.{CreatedContainer}
use webtop_manager.Controller.Proxies.{allocated_ports}
use webtop_manager.Controller.Frpc.{call}
use webtop_manager.Controller.Lifecycle.{environment_resource}
use webtop_manager.Templates.Jobs.{
  Job, invalid_error, internal_error, new_operation, accept_job, required_template,
}
use webtop_manager.Templates.Host.{Host, restore_job, join, docker_call, try}
use webtop_manager.Templates.Checks.{validate_external_resources}
use webtop_manager.Templates.Listing.{integrity_eq}
use webtop_manager.Templates.Commit.{template_resource, log, progress, snapshot_path}

abbrev template_image_missing : ApiFailure
template_image_missing = record {
  status = 409;
  error = plain_error ErrorCode.template_image_missing;
}

abbrev pub is_failure : {E A : Type 0} → Result E A → Bool
is_failure (ok a) = false
is_failure (err e) = true

-- `{"environmentId": id}`.
abbrev environment_result : ℕ → String
environment_result id = String.◌++◌ "{\"environmentId\":\"" (String.◌++◌ (decimal id) "\"}")

abbrev pub restore_resources : ℕ → ℕ → List String
restore_resources template_id environment_id =
    template_resource template_id ∷ environment_resource environment_id ∷ []

abbrev set_port : Option ℕ → Bool → EnvironmentSpec → EnvironmentSpec
set_port port automatic spec = record spec {
  publication = record (spec.publication) { remote_port = port; automatic_port = automatic };
}

module _ {D : Type 0} where
  abbrev take_free_port : EnvironmentSpec → Job D EnvironmentSpec
  take_free_port spec = do
    settings ← gets (λ s. get_server_settings s.database)
    map_err (λ _. invalid_error) (lift (validate_settings settings))
    allocated ← gets (λ s. allocated_ports (list_environments s.database))
    port ← lift (allocate_remote_port settings.remote_port_start settings.remote_port_end allocated)
    pure (set_port (some port) true spec)

  -- A spec that is published gets the least free port, whichever it asks for.
  unfoldable pub allocate_publication_port : EnvironmentSpec → Job D EnvironmentSpec
  allocate_publication_port spec =
      if not spec.publication.enabled
      then pure (set_port none spec.publication.automatic_port spec)
      else take_free_port spec

module _ {D : Type 0} (host : Host D) where
  -- The image is looked up where the record says that the template is complete.
  unfoldable pub is_usable : Template → Handler D Bool
  is_usable t = if not (integrity_eq t.integrity complete) then pure false else (λ s.
      let r = call (host.inspect_image t.image_reference) s in (ok (not (is_failure r.0)), r.1))

  abbrev with_image : String → EnvironmentSpec → EnvironmentSpec
  with_image image spec = record spec { image = image }

  unfoldable pub create_environment_from_template :
      ℕ → ℕ → ℕ → EnvironmentSpec → Handler D (Template × EnvironmentSpec × Operation)
  unfolding required_template is_usable validate_external_resources new_operation accept_job
  create_environment_from_template operation_id environment_id template_id request = do
    template ← required_template template_id
    usable ← is_usable template
    reject_if (not usable) template_image_missing
    let spec = with_image template.image_reference request
    map_err (λ _. Failures.invalid_request) (lift (validate spec))
    validate_external_resources host spec
    exists ← gets (λ s. environment_name_exists spec.name s.database)
    reject_if exists Failures.invalid_request
    now ← gets (λ s. host.clock s.docker)
    operation ←
        accept_job
          (new_operation operation_id now OperationKind.restore_template (some environment_id))
          (restore_resources template_id environment_id)
    pure (template, spec, operation)

  abbrev resource_root : ℕ → String
  resource_root id = join host.environment_root (decimal id)

  abbrev config_path : ℕ → String
  config_path id = join (resource_root id) "config"

  abbrev internal_call : {A : Type 0} → Job D A → Job D A
  internal_call m = map_err (λ _. internal_error) m

  abbrev remove_root : ℕ → AppState D → AppState D
  remove_root id s = try (host.remove_dir_all (resource_root id)) s

  unfoldable pub check_snapshot : Template → Job D (Unit {0})
  check_snapshot template = do
    hash ←
        map_err (λ _. internal_error)
          (call (host.hash_file (snapshot_path host template.snapshot_path)))
    reject_if (not (str_eq (hash.0) template.snapshot_sha256))
        (plain_error ErrorCode.snapshot_corrupt)

  -- The directories and the password of the new environment.
  unfoldable pub make_root : ℕ → Job D (Unit {0})
  make_root id = do
    map_err (λ _. internal_error) (call (host.create_dir_all (config_path id)))
    map_err (λ _. internal_error) (call (host.create_dir_all (join (resource_root id) "secrets")))
    map_err (λ _. internal_error)
        (call (host.write_secret (join (resource_root id) "secrets/password")))

  unfoldable pub restore_snapshot : ℕ → ℕ → Template → Job D (Unit {0})
  restore_snapshot operation_id environment_id template = do
    log host operation_id "[worker] restoring /config snapshot"
    report ←
        or_clean
          (map_err (λ _. internal_error)
            (call (
              host.run_worker (
                restore_job (snapshot_path host template.snapshot_path)
                  (config_path environment_id)))))
          (remove_root environment_id)
    progress host operation_id running 55

  abbrev restored : ℕ → Template → EnvironmentSpec → CreatedContainer → ℕ → EnvironmentRecord
  restored id template spec created now = record {
    id = id;
    name = spec.name;
    container_id = created.id;
    config_path = config_path id;
    desired_running = true;
    local_port = created.local_port;
    template_id = some template.id;
    spec = spec;
    created_at = now;
  }

  abbrev undo : EnvironmentRecord → AppState D → AppState D
  undo r s = remove_root r.id (try (host.remove r.container_id) (try (host.stop r.container_id) s))

  -- The row is stored; where it cannot be, the container and its files go.
  unfoldable pub store_restored : EnvironmentRecord → Job D (Unit {0})
  store_restored r s = elim (insert_environment r s.database) [
    | ok db ↦ (ok tt, with_database (λ _. db) s)
    | err e ↦ (err internal_error, undo r s)
  ]

  abbrev reconcile_if : Bool → (AppState D → AppState D) → Job D (Unit {0})
  reconcile_if true reconcile = modify reconcile
  reconcile_if false reconcile = pure tt

  -- `reconcile` is `reconcile_runtime_state` of api.rs.
  unfoldable pub create_environment_job :
      (AppState D → AppState D) → ℕ → ℕ → Template → EnvironmentSpec → Job D String
  unfolding check_snapshot allocate_publication_port make_root restore_snapshot store_restored
  create_environment_job reconcile operation_id environment_id template requested = do
    log host operation_id "[controller] validating template image and snapshot hash"
    progress host operation_id running 10
    check_snapshot template
    spec ← allocate_publication_port requested
    make_root environment_id
    restore_snapshot operation_id environment_id template
    log host operation_id "[docker] creating environment from local template image"
    created ←
        or_clean
          (docker_call (host.create_environment_container_from_local_image environment_id spec))
          (remove_root environment_id)
    now ← gets (λ s. host.clock s.docker)
    let r = restored environment_id template spec created now
    store_restored r
    reconcile_if r.spec.publication.enabled reconcile
    log host operation_id
        "[controller] environment created with new credentials and port allocation"
    pure (environment_result environment_id)
