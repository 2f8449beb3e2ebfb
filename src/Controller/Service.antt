-- ===== src/Controller/Service.antt =====
-- The handlers of the frpc service and of the server settings, and the reconciliation of frpc with
-- its desired state (crates/controller/src/api.rs).
use webtop_manager.Prelude.{ℕ, String, Bool, true, false, List, ◌&&◌, if◌then◌else◌}
use webtop_manager.Prelude.Results.{ok, err}
use webtop_manager.Prelude.Actions.{
  Action, ◌>>=◌, ◌>>◌, pure, modify, gets, lift, map_err, ok_or, when,
}
use webtop_manager.Contracts.Failures
use webtop_manager.Contracts.Settings.{
  ServerSettings, FrpcServiceStatus, FrpcServiceState, FrpcTestResult, validate_settings, missing,
  not_created, ServerTokenState,
}
use webtop_manager.Database.State.{
  get_server_settings, save_server_settings, frpc_desired_running, set_frpc_desired_running,
  complete_frp_token_recovery,
}
use webtop_manager.Controller.State.{AppState, Handler, with_database}
use webtop_manager.Controller.Token.{
  apply_server_token_state, inspect_or_initialize_server_token, is_pending,
}
use webtop_manager.Controller.Docker.{DockerApi}
use webtop_manager.Controller.Frpc.{
  Stop, call, required_server_settings, start_frpc_with_port_retry,
}

abbrev is_not_created : FrpcServiceState → Bool
is_not_created not_created = true
is_not_created _ = false

abbrev pub is_missing : ServerTokenState → Bool
is_missing missing = true
is_missing _ = false

unfoldable pub mark_frpc_stopped : FrpcServiceStatus → FrpcServiceStatus
mark_frpc_stopped status =
    if is_not_created status.state
    then status
    else record status { state = FrpcServiceState.stopped; connected = false }

unfoldable pub apply_frpc_desired_state :
    {D : Type 0} → FrpcServiceStatus → Handler D FrpcServiceStatus
unfolding mark_frpc_stopped
apply_frpc_desired_state status = do
  desired_running ← gets (λ s. frpc_desired_running s.database)
  pure (if desired_running then status else mark_frpc_stopped status)

module _ {D : Type 0} (docker : DockerApi D) where
  unfoldable pub get_frpc_status : Handler D FrpcServiceStatus
  get_frpc_status = do
    status ← map_err (λ _. Failures.docker) (call docker.frpc_status)
    apply_frpc_desired_state status

  unfoldable pub stop_frpc : Handler D FrpcServiceStatus
  stop_frpc = do
    status ← map_err (λ _. Failures.docker) (call docker.stop_frpc)
    modify (with_database (set_frpc_desired_running false))
    pure (mark_frpc_stopped status)

  -- Its errors are only logged.
  unfoldable pub suspend_frpc_for_missing_token : AppState D → AppState D
  suspend_frpc_for_missing_token s =
      if frpc_desired_running s.database
      then with_database (set_frpc_desired_running false) (call docker.remove_frpc s).1
      else s

module _ {D : Type 0} (docker : DockerApi D) (fingerprint : List ℕ → String)
    (generated : List ℕ) where
  -- `start_frpc`; `restart_frpc` has the same body.
  unfoldable pub start_frpc : Action (AppState D) Stop FrpcServiceStatus
  start_frpc = do
    status ← start_frpc_with_port_retry docker fingerprint generated
    modify (with_database (set_frpc_desired_running true))
    pure status

  -- Its errors are only logged.
  unfoldable pub reconcile_frpc_if_desired : AppState D → AppState D
  reconcile_frpc_if_desired s =
      if frpc_desired_running s.database
      then (start_frpc_with_port_retry docker fingerprint generated s).1
      else s

  unfoldable pub reconcile_runtime_state : AppState D → AppState D
  reconcile_runtime_state s =
      let r = inspect_or_initialize_server_token fingerprint generated s in
      elim r.0 [
        | err error ↦ r.1
        | ok material ↦
            if is_missing material.state
            then suspend_frpc_for_missing_token docker r.1
            else reconcile_frpc_if_desired r.1
      ]

  -- The handler `get_server_settings`.
  unfoldable pub read_server_settings : Handler D ServerSettings
  read_server_settings = do
    token ←
        map_err (λ _. Failures.internal) (inspect_or_initialize_server_token fingerprint generated)
    when (is_missing token.state) (modify (suspend_frpc_for_missing_token docker))
    settings ← gets (λ s. get_server_settings s.database)
    pure (apply_server_token_state settings token)

  unfoldable pub update_server_settings : ServerSettings → Handler D ServerSettings
  update_server_settings request = do
    let settings = record request { token_configured = false }
    map_err (λ _. Failures.invalid_request) (lift (validate_settings settings))
    token ←
        map_err (λ _. Failures.internal) (inspect_or_initialize_server_token fingerprint generated)
    let settings = apply_server_token_state settings token
    modify (with_database (save_server_settings settings))
    pure settings

  unfoldable pub test_frpc_connectivity : Handler D FrpcTestResult
  test_frpc_connectivity = do
    settings ← required_server_settings
    material ←
        map_err (λ _. Failures.internal) (inspect_or_initialize_server_token fingerprint generated)
    token ← ok_or material.token Failures.frp_token_recovery_required
    result ← map_err (λ _. Failures.docker) (call (docker.test_frpc_connectivity settings token))
    when (result.success && is_pending material.state) (do
      digest ← ok_or material.fingerprint Failures.internal
      modify (with_database (λ db. (complete_frp_token_recovery digest db).0)))
    pure result
