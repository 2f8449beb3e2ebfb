-- ===== src/Controller/Reachable.antt =====
-- Every state that the handlers of crates/controller/src/api.rs lead to, one whole handler after the
-- other, keeps the ids and the remote ports of the environments apart.
use webtop_manager.Prelude.{ℕ, String, Bool, List}
use webtop_manager.Contracts.Spec.{EnvironmentSpec}
use webtop_manager.Contracts.Settings.{ServerSettings}
use webtop_manager.Controller.State.{AppState}
use webtop_manager.Controller.Docker.{DockerApi, Files}
use webtop_manager.Controller.Service.{
  stop_frpc, start_frpc, reconcile_runtime_state, read_server_settings, update_server_settings,
  test_frpc_connectivity,
}
use webtop_manager.Controller.Publication.{publish_environment, unpublish_environment}
use webtop_manager.Controller.Lifecycle.{
  create_environment, start_environment, stop_environment, restart_environment, delete_environment,
}
use webtop_manager.Controller.Consistency.{Consistent}
use webtop_manager.Controller.Handlers.{
  publish_environment-Consistent, unpublish_environment-Consistent, start_environment-Consistent,
  stop_environment-Consistent, restart_environment-Consistent, delete_environment-Consistent,
}
use webtop_manager.Controller.Creation.{create_environment-Consistent}
use webtop_manager.Controller.ServiceConsistency.{
  stop_frpc-Consistent, start_service-Consistent, reconcile_runtime-Consistent,
  read_server_settings-Consistent, update_server_settings-Consistent,
  test_frpc_connectivity-Consistent,
}

module _ {D : Type 0} (docker : DockerApi D) (files : Files D) (fingerprint : List ℕ → String) where
  -- One request: the whole handler, whether it succeeds or fails.
  pub data Step : AppState D → AppState D → Type 0 where
    create :
        (generated : List ℕ) (id : ℕ) (config_path : String) (now : ℕ) (spec : EnvironmentSpec)
        (s : AppState D)
        → Step s (create_environment docker files fingerprint generated id config_path now spec s).1
    start :
        (generated : List ℕ) (id : ℕ) (s : AppState D)
        → Step s (start_environment docker files fingerprint generated id s).1
    stop :
        (generated : List ℕ) (id : ℕ) (s : AppState D)
        → Step s (stop_environment docker files fingerprint generated id s).1
    restart :
        (generated : List ℕ) (id : ℕ) (s : AppState D)
        → Step s (restart_environment docker files fingerprint generated id s).1
    publish :
        (generated : List ℕ) (id : ℕ) (s : AppState D)
        → Step s (publish_environment docker fingerprint generated id s).1
    unpublish :
        (generated : List ℕ) (id : ℕ) (s : AppState D)
        → Step s (unpublish_environment docker fingerprint generated id s).1
    remove :
        (generated : List ℕ) (id : ℕ) (confirmation_name : String) (delete_data : Bool)
        (s : AppState D)
        → Step s
            (delete_environment docker files fingerprint generated id confirmation_name delete_data
              s).1
    start_service :
        (generated : List ℕ) (s : AppState D) → Step s (start_frpc docker fingerprint generated s).1
    stop_service : (s : AppState D) → Step s (stop_frpc docker s).1
    reconcile :
        (generated : List ℕ) (s : AppState D)
        → Step s (reconcile_runtime_state docker fingerprint generated s)
    read_settings :
        (generated : List ℕ) (s : AppState D)
        → Step s (read_server_settings docker fingerprint generated s).1
    update_settings :
        (generated : List ℕ) (request : ServerSettings) (s : AppState D)
        → Step s (update_server_settings docker fingerprint generated request s).1
    test_service :
        (generated : List ℕ) (s : AppState D)
        → Step s (test_frpc_connectivity docker fingerprint generated s).1

  pub data Steps : AppState D → AppState D → Type 0 where
    done : (s : AppState D) → Steps s s
    next : {s t u : AppState D} → Step s t → Steps t u → Steps s u

  pub Step-Consistent : {s t : AppState D} → Step s t → Consistent s → Consistent t
  Step-Consistent (create generated id config_path now spec s) c =
      (create_environment-Consistent docker files fingerprint generated id config_path now
          spec).keep
        s c
  Step-Consistent (start generated id s) c =
      (start_environment-Consistent docker files fingerprint generated id).keep s c
  Step-Consistent (stop generated id s) c =
      (stop_environment-Consistent docker files fingerprint generated id).keep s c
  Step-Consistent (restart generated id s) c =
      (restart_environment-Consistent docker files fingerprint generated id).keep s c
  Step-Consistent (publish generated id s) c =
      (publish_environment-Consistent docker fingerprint generated id).keep s c
  Step-Consistent (unpublish generated id s) c =
      (unpublish_environment-Consistent docker fingerprint generated id).keep s c
  Step-Consistent (remove generated id name delete_data s) c =
      (delete_environment-Consistent docker files fingerprint generated id name delete_data).keep s
        c
  Step-Consistent (start_service generated s) c =
      (start_service-Consistent docker fingerprint generated).keep s c
  Step-Consistent (stop_service s) c = (stop_frpc-Consistent docker).keep s c
  Step-Consistent (reconcile generated s) c =
      reconcile_runtime-Consistent docker fingerprint generated s c
  Step-Consistent (read_settings generated s) c =
      (read_server_settings-Consistent docker fingerprint generated).keep s c
  Step-Consistent (update_settings generated request s) c =
      (update_server_settings-Consistent docker fingerprint generated request).keep s c
  Step-Consistent (test_service generated s) c =
      (test_frpc_connectivity-Consistent docker fingerprint generated).keep s c

  -- Whatever requests are handled one after the other, with whatever answers of the daemon and the
  -- file system, from a state in which no two environments share an id or a remote port: no two do
  -- afterwards.
  pub Steps-Consistent : {s t : AppState D} → Steps s t → Consistent s → Consistent t
  Steps-Consistent (done s) c = c
  Steps-Consistent (next step rest) c = Steps-Consistent rest (Step-Consistent step c)
