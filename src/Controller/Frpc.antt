-- ===== src/Controller/Frpc.antt =====
-- The start of frpc with a retry for each remote port that the server refuses, and the
-- synchronisation of local ports (crates/controller/src/api.rs).
use webtop_manager.Prelude.Text.{decimal}
use webtop_manager.Prelude.{
  ◌-◌, ◌+◌, ℕ, zero, suc, String, Bool, true, false, not, ◌||◌, Option, none, some, List, [], ◌∷◌,
  ◌++◌, ◌==◌, if◌then◌else◌,
}
use webtop_manager.Prelude.Results.{Result, ok, err}
use webtop_manager.Prelude.Actions.{
  Action, ◌>>=◌, ◌>>◌, pure, raise, gets, modify, lift, reject_if, ok_or, map_err,
}
use webtop_manager.Contracts.Errors.{ErrorCode, ApiFailure}
use webtop_manager.Contracts.Failures
use webtop_manager.Contracts.Spec.{EnvironmentSpec}
use webtop_manager.Contracts.Settings.{ServerSettings, FrpcServiceStatus, validate_settings}
use webtop_manager.Contracts.Ports.{allocate_remote_port}
use webtop_manager.Database.Table.{select, update}
use webtop_manager.Database.Records.{EnvironmentRecord}
use webtop_manager.Database.State.{get_server_settings}
use webtop_manager.Database.Environments.{
  environment_id, list_environments, set_environment_local_port, update_environment_spec,
}
use webtop_manager.Controller.State.{AppState, Handler, Fallible, with_database}
use webtop_manager.Controller.Token.{required_server_token}
use webtop_manager.Controller.Proxies.{Proxy, environment_proxies, allocated_ports}
use webtop_manager.Controller.Docker.{DockerApi, Call}

-- A retry loop stops with a failure of the handler, or because its fuel ran out.
pub data Stop : Type 0 where
  failure : ApiFailure → Stop
  out_of_fuel : Stop

unfoldable pub set_remote_port : ℕ → EnvironmentSpec → EnvironmentSpec
set_remote_port port spec = record spec {
  publication = record (spec.publication) { remote_port = some port };
}

-- The variables of one round of the loop of `start_frpc_with_port_retry`.
pub record Retry : Type 0 where
  pub environments : List EnvironmentRecord
  pub rejected_ports : List ℕ
  pub allocated : List ℕ

module _ {D : Type 0} where
  -- A call of docker.rs from a handler.
  abbrev pub call : {A : Type 0} → Call D A → Fallible D A
  call c s = let r = c s.docker in (r.0, record s { docker = r.1 })

  unfoldable pub required_server_settings : Handler D ServerSettings
  required_server_settings = do
    settings ← gets (λ s. get_server_settings s.database)
    map_err (λ _. Failures.invalid_request) (lift (validate_settings settings))
    pure settings

  -- The body of `for resource_id in conflicts`.
  unfoldable pub resolve_conflict : ServerSettings → ℕ → Retry → Handler D Retry
  resolve_conflict settings id r = do
    environment ← ok_or (select environment_id id r.environments) Failures.invalid_request
    current_port ← ok_or environment.spec.publication.remote_port Failures.invalid_request
    reject_if (not environment.spec.publication.automatic_port) (
        Failures.port_conflict (record {
          code = ErrorCode.port_conflict;
          params = ("remotePort", decimal current_port) ∷ [];
        }))
    replacement ← map_err Failures.port_conflict (
        lift (
          allocate_remote_port settings.remote_port_start settings.remote_port_end
            (current_port ∷ r.allocated)))
    let spec = set_remote_port replacement environment.spec
    modify (with_database (update_environment_spec id spec))
    pure (record {
      environments = update environment_id id (λ e. record e { spec = spec }) r.environments;
      rejected_ports = current_port ∷ r.rejected_ports;
      allocated = replacement ∷ current_port ∷ r.allocated;
    })

  unfoldable pub resolve_conflicts : ServerSettings → List ℕ → Retry → Handler D Retry
  resolve_conflicts settings [] r = pure r
  resolve_conflicts settings (id ∷ ids) r = do
    r' ← resolve_conflict settings id r
    resolve_conflicts settings ids r'

module _ {D : Type 0} where
  -- The rest of a round: no conflict ends the loop, and else the refused ports are replaced.
  unfoldable pub finish_round :
      ServerSettings
      → List ℕ
      → FrpcServiceStatus
      → List ℕ
      → Handler D (Result (List ℕ) FrpcServiceStatus)
  finish_round settings rejected_ports status [] = pure (ok status)
  finish_round settings rejected_ports status (id ∷ ids) = do
    environments ← gets (λ s. list_environments s.database)
    r ← resolve_conflicts settings (id ∷ ids) (record {
      environments = environments;
      rejected_ports = rejected_ports;
      allocated = allocated_ports environments ++ rejected_ports;
    })
    pure (err r.rejected_ports)

-- Enough fuel for the loop: each round but the last takes a free port of the range.
abbrev pub retry_fuel : ServerSettings → ℕ
retry_fuel settings = suc (settings.remote_port_end + 1 - settings.remote_port_start)

-- `a == b` on `Option<u16>`.
unfoldable pub same_port : Option ℕ → Option ℕ → Bool
same_port none none = true
same_port (some a) (some b) = a == b
same_port _ _ = false

module _ {D : Type 0} (docker : DockerApi D) where
  unfoldable pub synchronize_environment_local_port :
      EnvironmentRecord → Fallible D (EnvironmentRecord × Bool)
  synchronize_environment_local_port environment = do
    local_port ← call (docker.environment_local_port environment.container_id environment.spec)
    if same_port local_port environment.local_port then pure (environment, false) else do
      modify (with_database (set_environment_local_port environment.id local_port))
      pure (record environment { local_port = local_port }, true)

  -- Only the environments that should run are asked for; the first failure ends the loop.
  unfoldable pub synchronize_environment_local_ports :
      List EnvironmentRecord → Fallible D (List EnvironmentRecord × Bool)
  unfolding synchronize_environment_local_port
  synchronize_environment_local_ports [] = pure ([], false)
  synchronize_environment_local_ports (r ∷ rs) =
      let rest = synchronize_environment_local_ports rs in
      if r.desired_running
      then (do
        first ← synchronize_environment_local_port r
        others ← rest
        pure (first.0 ∷ others.0, first.1 || others.1))
      else (do others ← rest; pure (r ∷ others.0, others.1))

  unfoldable pub current_environment_proxies : Fallible D (List Proxy)
  current_environment_proxies = do
    environments ← gets (λ s. list_environments s.database)
    synchronized ← synchronize_environment_local_ports environments
    lift (environment_proxies synchronized.0)

  -- One round of the loop: the status if no proxy lost its port, and else the rejected ports.
  unfoldable pub retry_round :
      ServerSettings → List ℕ → List ℕ → Handler D (Result (List ℕ) FrpcServiceStatus)
  retry_round settings token rejected_ports = do
    proxies ← map_err (λ _. Failures.internal) current_environment_proxies
    status ← map_err (λ _. Failures.docker) (call (docker.start_frpc settings token proxies))
    conflicts ← map_err (λ _. Failures.docker) (call (docker.frpc_conflicting_proxy_ids proxies))
    finish_round settings rejected_ports status conflicts

  -- The loop, with fuel for its rounds.
  unfoldable pub retry_loop :
      ℕ → ServerSettings → List ℕ → List ℕ → Action (AppState D) Stop FrpcServiceStatus
  retry_loop zero settings token rejected_ports = raise out_of_fuel
  retry_loop (suc fuel) settings token rejected_ports = do
    outcome ← map_err failure (retry_round settings token rejected_ports)
    elim outcome [
      | ok status ↦ pure status
      | err rejected ↦ retry_loop fuel settings token rejected
    ]

  unfoldable pub start_frpc_with_port_retry :
      (List ℕ → String) → List ℕ → Action (AppState D) Stop FrpcServiceStatus
  start_frpc_with_port_retry fingerprint generated = do
    settings ← map_err failure required_server_settings
    token ← map_err failure (required_server_token fingerprint generated false)
    retry_loop (retry_fuel settings) settings token []
