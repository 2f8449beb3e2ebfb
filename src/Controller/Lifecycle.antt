-- ===== src/Controller/Lifecycle.antt =====
-- Creating, starting, stopping, restarting and deleting an environment
-- (crates/controller/src/api.rs).
use Prim.Native.String
use webtop_manager.Prelude.{
  ℕ, String, Bool, true, false, none, some, List, ◌||◌, not, ltb, mem, any, str_eq, if◌then◌else◌,
}
use webtop_manager.Prelude.Text.{decimal}
use webtop_manager.Prelude.Results
use webtop_manager.Prelude.Results.{Result, ok, err}
use webtop_manager.Prelude.Actions.{
  ◌>>=◌, ◌>>◌, pure, raise, modify, gets, lift, map_err, ok_or, reject_if, ignore, when,
}
use webtop_manager.Contracts.Failures
use webtop_manager.Contracts.Errors.{ErrorCode, plain_error, ApiFailure}
use webtop_manager.Contracts.Spec.{EnvironmentSpec, PublicationSpec}
use webtop_manager.Contracts.Settings.{ServerSettings}
use webtop_manager.Contracts.Validate.{validate}
use webtop_manager.Contracts.Paths.{require_contained_path}
use webtop_manager.Contracts.Ports.{allocate_remote_port}
use webtop_manager.Database.Records.{EnvironmentRecord}
use webtop_manager.Database.Environments.{
  environment_name_exists, insert_environment, list_environments, set_desired_running,
  delete_environment as delete_row,
}
use webtop_manager.Docker.Images.{is_official_image}
use webtop_manager.Controller.State.{Handler, with_database}
use webtop_manager.Controller.Docker.{DockerApi, Files, CreatedContainer}
use webtop_manager.Controller.Proxies.{allocated_ports}
use webtop_manager.Controller.Frpc.{
  call, required_server_settings, set_remote_port, synchronize_environment_local_port,
}
use webtop_manager.Controller.Service.{reconcile_frpc_if_desired}
use webtop_manager.Controller.Publication.{required_environment}

-- The key of an environment in `active_resources`; the id is written in decimal.
abbrev pub environment_resource : ℕ → String
environment_resource id = String.◌++◌ "environment:" (decimal id)

-- The remote port that `create_environment` takes for a published environment: the requested one,
-- if it is in the range and not taken, or the least that is free.
unfoldable pub choose_remote_port : ServerSettings → List ℕ → PublicationSpec → Result ApiFailure ℕ
choose_remote_port settings allocated p = elim (if p.automatic_port then none else p.remote_port) [
  | none ↦
      Results.map_err Failures.port_conflict
        (allocate_remote_port settings.remote_port_start settings.remote_port_end allocated)
  | some port ↦
      if ltb port settings.remote_port_start
        || (ltb settings.remote_port_end port || mem port allocated)
      then err (Failures.port_conflict (plain_error ErrorCode.port_conflict))
      else ok port
]

module _ {D : Type 0} where
  unfoldable pub ensure_environment_not_busy : ℕ → Handler D (Unit {0})
  ensure_environment_not_busy id = do
    busy ← gets (λ s. any (str_eq (environment_resource id)) s.active_resources)
    reject_if busy Failures.resource_busy

  -- The spec of a published environment gets its remote port.
  unfoldable pub choose_port : EnvironmentSpec → Handler D EnvironmentSpec
  choose_port spec = if not spec.publication.enabled then pure spec else do
    settings ← required_server_settings
    environments ← gets (λ s. list_environments s.database)
    remote_port ← lift (choose_remote_port settings (allocated_ports environments) spec.publication)
    pure (set_remote_port remote_port spec)

  -- The first half of `create_environment`: its checks, and the port.
  unfoldable pub admit_environment : EnvironmentSpec → Handler D EnvironmentSpec
  admit_environment spec = do
    map_err (λ _. Failures.invalid_request) (lift (validate spec))
    reject_if (not (is_official_image spec.image)) Failures.invalid_request
    taken ← gets (λ s. environment_name_exists spec.name s.database)
    reject_if taken Failures.invalid_request
    choose_port spec

module _ {D : Type 0} (docker : DockerApi D) (files : Files D) (fingerprint : List ℕ → String)
    (generated : List ℕ) where
  abbrev pub refresh : EnvironmentRecord → Handler D (Unit {0})
  refresh r =
      when r.spec.publication.enabled
        (modify (reconcile_frpc_if_desired docker fingerprint generated))

  -- The container of a new environment; a failure removes the environment's directories.
  unfoldable pub create_container : ℕ → EnvironmentSpec → Handler D CreatedContainer
  create_container id spec s =
      let r = call (docker.create_environment_container id spec) s in
      elim r.0 [
        | ok created ↦ (ok created, r.1)
        | err error ↦ (err Failures.docker, (call (files.remove_environment_root id) r.1).1)
      ]

  -- The row of a new environment; a failure removes its container and its directories.
  unfoldable pub store_environment : EnvironmentRecord → Handler D (Unit {0})
  store_environment r s = elim (insert_environment r s.database) [
    | ok db ↦ (ok tt, with_database (λ _. db) s)
    | err error ↦
        (do
          ignore (call (docker.stop r.container_id))
          ignore (call (docker.remove r.container_id))
          ignore (call (files.remove_environment_root r.id))
          raise Failures.internal)
          s
  ]

  abbrev pub new_environment :
      ℕ → String → ℕ → EnvironmentSpec → CreatedContainer → EnvironmentRecord
  new_environment id config_path now spec created = record {
    id = id;
    name = spec.name;
    container_id = created.id;
    config_path = config_path;
    desired_running = true;
    local_port = created.local_port;
    template_id = none;
    spec = spec;
    created_at = now;
  }

  -- The second half of `create_environment`, for the new id and time.
  unfoldable pub install_environment :
      ℕ → String → ℕ → EnvironmentSpec → Handler D EnvironmentRecord
  install_environment id config_path now spec = do
    map_err (λ _. Failures.internal) (call (files.create_environment_root id))
    created ← create_container id spec
    let r = new_environment id config_path now spec created
    store_environment r
    refresh r
    pure r

  unfoldable pub create_environment : ℕ → String → ℕ → EnvironmentSpec → Handler D EnvironmentRecord
  create_environment id config_path now spec = do
    admitted ← admit_environment spec
    install_environment id config_path now admitted

  unfoldable pub start_environment : ℕ → Handler D (Unit {0})
  start_environment id = do
    ensure_environment_not_busy id
    r ← required_environment id
    map_err (λ _. Failures.docker) (call (docker.start r.container_id))
    modify (with_database (set_desired_running id true))
    synchronized ←
        map_err (λ _. Failures.internal)
          (synchronize_environment_local_port docker (record r { desired_running = true }))
    refresh r

  unfoldable pub stop_environment : ℕ → Handler D (Unit {0})
  stop_environment id = do
    ensure_environment_not_busy id
    r ← required_environment id
    map_err (λ _. Failures.docker) (call (docker.stop r.container_id))
    modify (with_database (set_desired_running id false))
    refresh r

  unfoldable pub restart_environment : ℕ → Handler D (Unit {0})
  restart_environment id = do
    ensure_environment_not_busy id
    r ← required_environment id
    map_err (λ _. Failures.docker) (call (docker.restart r.container_id))
    synchronized ← map_err (λ _. Failures.internal) (synchronize_environment_local_port docker r)
    refresh r

  -- The files of an environment, removed only from inside the root of all environments.
  unfoldable pub delete_files : EnvironmentRecord → Handler D (Unit {0})
  delete_files r = do
    canonical_root ← map_err (λ _. Failures.internal) (call files.canonical_environment_root)
    resource_root ← ok_or (files.parent r.config_path) Failures.invalid_request
    canonical_target ← map_err (λ _. Failures.internal) (call (files.canonicalize resource_root))
    map_err (λ e. record { status = 400; error = e })
        (lift (require_contained_path canonical_root canonical_target))
    map_err (λ _. Failures.internal) (call (files.remove_dir_all canonical_target))

  unfoldable pub delete_environment : ℕ → String → Bool → Handler D (Unit {0})
  delete_environment id confirmation_name delete_data = do
    ensure_environment_not_busy id
    r ← required_environment id
    reject_if (not (str_eq confirmation_name r.name)) Failures.invalid_request
    when r.desired_running (map_err (λ _. Failures.docker) (call (docker.stop r.container_id)))
    map_err (λ _. Failures.docker) (call (docker.remove r.container_id))
    when delete_data (delete_files r)
    modify (with_database (delete_row id))
    refresh r
