-- ===== src/Controller/Publication.antt =====
-- Publishing an environment under a remote port, and withdrawing it
-- (`publish_environment` and `unpublish_environment` of crates/controller/src/api.rs).
use webtop_manager.Prelude.{
  ℕ, String, Bool, true, false, Option, none, some, List, ◌&&◌, not, is_some, keep, ◌==◌,
  if◌then◌else◌,
}
use webtop_manager.Prelude.Actions.{Action, ◌>>=◌, ◌>>◌, pure, modify, gets, lift, map_err, ok_or}
use webtop_manager.Contracts.Failures
use webtop_manager.Contracts.Settings.{ServerSettings}
use webtop_manager.Contracts.Spec.{EnvironmentSpec}
use webtop_manager.Contracts.Ports.{allocate_remote_port}
use webtop_manager.Database.Records.{EnvironmentRecord}
use webtop_manager.Database.State.{frpc_desired_running}
use webtop_manager.Database.Environments.{
  get_environment, list_environments, update_environment_spec,
}
use webtop_manager.Controller.State.{AppState, Handler, with_database}
use webtop_manager.Controller.Docker.{DockerApi}
use webtop_manager.Controller.Proxies.{allocated_ports}
use webtop_manager.Controller.Frpc.{
  Stop, failure, required_server_settings, start_frpc_with_port_retry,
}
use webtop_manager.Controller.Service.{reconcile_frpc_if_desired}

abbrev pub set_publication : Bool → Option ℕ → EnvironmentSpec → EnvironmentSpec
set_publication enabled port spec = record spec {
  publication = record { enabled = enabled; automatic_port = true; remote_port = port };
}

module _ {D : Type 0} where
  unfoldable pub required_environment : ℕ → Handler D EnvironmentRecord
  required_environment id = do
    environment ← gets (λ s. get_environment id s.database)
    ok_or environment Failures.invalid_request

  -- The port that `publish_environment` takes: the least that no other environment has.
  unfoldable pub take_port : ServerSettings → ℕ → EnvironmentRecord → Handler D EnvironmentRecord
  take_port settings id r = do
    environments ← gets (λ s. list_environments s.database)
    let others = keep (λ e. not (e.id == id)) environments
    remote_port ← map_err Failures.port_conflict (
        lift (
          allocate_remote_port settings.remote_port_start settings.remote_port_end
            (allocated_ports others)))
    let spec = set_publication true (some remote_port) r.spec
    modify (with_database (update_environment_spec id spec))
    pure (record r { spec = spec })

  unfoldable pub assign_port : ℕ → EnvironmentRecord → Handler D EnvironmentRecord
  assign_port id r = do settings ← required_server_settings; take_port settings id r

module _ {D : Type 0} (docker : DockerApi D) (fingerprint : List ℕ → String)
    (generated : List ℕ) where
  unfoldable pub publish_environment : ℕ → Action (AppState D) Stop EnvironmentRecord
  publish_environment id = do
    r ← map_err failure (required_environment id)
    if r.spec.publication.enabled && is_some r.spec.publication.remote_port then pure r else do
      published ← map_err failure (assign_port id r)
      running ← gets (λ s. frpc_desired_running s.database)
      if running
          then (do
            status ← start_frpc_with_port_retry docker fingerprint generated
            map_err failure (required_environment id))
          else pure published

  unfoldable pub unpublish_environment : ℕ → Handler D EnvironmentRecord
  unpublish_environment id = do
    r ← required_environment id
    if not r.spec.publication.enabled then pure r else do
      let spec = set_publication false none r.spec
      modify (with_database (update_environment_spec id spec))
      modify (reconcile_frpc_if_desired docker fingerprint generated)
      pure (record r { spec = spec })
