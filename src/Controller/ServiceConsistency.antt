-- ===== src/Controller/ServiceConsistency.antt =====
-- The handlers of the frpc service and of the server settings keep the ids and the remote ports of
-- the environments apart (crates/controller/src/api.rs).
use webtop_manager.Prelude.{ℕ, String, Bool, true, false, ◌&&◌, List, inl, inr, Bool-cases, arith}
use webtop_manager.Prelude.Results.{Result-cases}
use webtop_manager.Prelude.Steps.{
  Preserves, Preserves->>=, Preserves-map_err, Preserves-pure, Preserves-gets, Preserves-modify,
  Preserves-when, Preserves-ok_or, Preserves-lift,
}
use webtop_manager.Contracts.Failures
use webtop_manager.Contracts.Settings.{ServerSettings, validate_settings}
use webtop_manager.Database.State.{
  get_server_settings, save_server_settings, frpc_desired_running, set_frpc_desired_running,
  complete_frp_token_recovery,
}
use webtop_manager.Controller.State.{AppState, with_database}
use webtop_manager.Controller.Docker.{DockerApi}
use webtop_manager.Controller.Token.{
  apply_server_token_state, inspect_or_initialize_server_token, is_pending,
}
use webtop_manager.Controller.Frpc.{call}
use webtop_manager.Controller.Service.{
  is_missing, mark_frpc_stopped, stop_frpc, suspend_frpc_for_missing_token, start_frpc,
  reconcile_runtime_state, read_server_settings, update_server_settings, test_frpc_connectivity,
}
use webtop_manager.Controller.Consistency.{Consistent, Consistent-Stable}
use webtop_manager.Controller.Upkeep.{Preserves-call}
use webtop_manager.Controller.RetryConsistency.{
  required_server_settings-Consistent, inspect-Consistent, start_frpc-Consistent,
}
use webtop_manager.Controller.Handlers.{reconcile-Consistent}

desired_Consistent :
    {D : Type 0} (running : Bool) (s : AppState D)
    → Consistent s
    → Consistent (with_database (set_frpc_desired_running running) s)
unfolding set_frpc_desired_running
desired_Consistent running s c = c

module _ {D : Type 0} (docker : DockerApi D) where
  pub stop_frpc-Consistent : Preserves {S = AppState D} Consistent (stop_frpc docker)
  unfolding stop_frpc
  stop_frpc-Consistent =
      Preserves->>=
        (Preserves-map_err (λ _. Failures.docker)
          (Preserves-call Consistent-Stable docker.stop_frpc))
        (λ status.
          Preserves->>=
            (Preserves-modify (with_database (set_frpc_desired_running false))
              (desired_Consistent false))
            (λ _. Preserves-pure (mark_frpc_stopped status)))

  suspend-Consistent :
      (s : AppState D) → Consistent s → Consistent (suspend_frpc_for_missing_token docker s)
  unfolding suspend_frpc_for_missing_token
  suspend-Consistent s c = elim (Bool-cases (frpc_desired_running s.database)) [
    | inl running ↦ rw running (desired_Consistent false (call docker.remove_frpc s).1 c)
    | inr stopped ↦ rw stopped c
  ]

module _ {D : Type 0} (docker : DockerApi D) (fingerprint : List ℕ → String)
    (generated : List ℕ) where
  pub start_service-Consistent :
      Preserves {S = AppState D} Consistent (start_frpc docker fingerprint generated)
  unfolding start_frpc
  start_service-Consistent =
      Preserves->>= (start_frpc-Consistent docker fingerprint generated) (λ status.
        Preserves->>=
          (Preserves-modify (with_database (set_frpc_desired_running true))
            (desired_Consistent true))
          (λ _. Preserves-pure status))

  pub reconcile_runtime-Consistent :
      (s : AppState D)
      → Consistent s
      → Consistent (reconcile_runtime_state docker fingerprint generated s)
  unfolding reconcile_runtime_state
  reconcile_runtime-Consistent s c =
      let inspected = (inspect_or_initialize_server_token fingerprint generated s).1 in
      let c1 = (inspect-Consistent fingerprint generated).keep s c in
      elim (Result-cases (inspect_or_initialize_server_token fingerprint generated s).0) [
        | inr (x, e) ↦ rw (reconcile_runtime_state, e) c1
        | inl (m, e) ↦ elim (Bool-cases (is_missing m.state)) [
          | inl lost ↦
              rw (reconcile_runtime_state, e, lost) (suspend-Consistent docker inspected c1)
          | inr fine ↦
              rw (reconcile_runtime_state, e, fine)
                (reconcile-Consistent docker fingerprint generated inspected c1)
        ]
      ]

  pub read_server_settings-Consistent :
      Preserves {S = AppState D} Consistent (read_server_settings docker fingerprint generated)
  unfolding read_server_settings
  read_server_settings-Consistent =
      Preserves->>=
        (Preserves-map_err (λ _. Failures.internal) (inspect-Consistent fingerprint generated))
        (λ token.
          Preserves->>=
            (Preserves-when (is_missing token.state) (
              Preserves-modify (suspend_frpc_for_missing_token docker) (suspend-Consistent docker)))
            (λ _.
              Preserves->>= (Preserves-gets (λ s. get_server_settings s.database))
                (λ settings. Preserves-pure (apply_server_token_state settings token))))

  pub update_server_settings-Consistent :
      (request : ServerSettings)
      → Preserves {S = AppState D} Consistent
          (update_server_settings docker fingerprint generated request)
  unfolding update_server_settings save_server_settings
  update_server_settings-Consistent request =
      Preserves->>=
        (Preserves-map_err (λ _. Failures.invalid_request)
          (Preserves-lift (validate_settings (record request { token_configured = false }))))
        (λ _.
          Preserves->>=
            (Preserves-map_err (λ _. Failures.internal) (inspect-Consistent fingerprint generated))
            (λ token.
              let settings =
                apply_server_token_state (record request { token_configured = false }) token in
              Preserves->>=
                (Preserves-modify (with_database (save_server_settings settings)) (λ s c. c))
                (λ _. Preserves-pure settings)))

  pub test_frpc_connectivity-Consistent :
      Preserves {S = AppState D} Consistent (test_frpc_connectivity docker fingerprint generated)
  unfolding test_frpc_connectivity complete_frp_token_recovery
  test_frpc_connectivity-Consistent = Preserves->>= required_server_settings-Consistent (λ settings.
      Preserves->>=
        (Preserves-map_err (λ _. Failures.internal) (inspect-Consistent fingerprint generated))
        (λ m. Preserves->>= (Preserves-ok_or m.token Failures.frp_token_recovery_required) (λ token.
          Preserves->>=
            (Preserves-map_err (λ _. Failures.docker)
              (Preserves-call Consistent-Stable (docker.test_frpc_connectivity settings token)))
            (λ result.
              Preserves->>=
                (Preserves-when (result.success && is_pending m.state) (
                  Preserves->>= (Preserves-ok_or m.fingerprint Failures.internal) (λ digest.
                    Preserves-modify
                      (with_database (λ db. (complete_frp_token_recovery digest db).0))
                      (λ s c. ground (arith, c)))))
                (λ _. Preserves-pure result)))))
