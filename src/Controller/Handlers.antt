-- ===== src/Controller/Handlers.antt =====
-- The handlers of crates/controller/src/api.rs keep the ids and the remote ports of the environments
-- apart, on every branch and whatever the daemon and the file system answer.
use webtop_manager.Prelude.{
  ℕ, String, Bool, true, false, not, ◌&&◌, ◌∙◌, ◌≡◌, ◌≢◌, none, some, List, [], ◌∷◌, arith, inl,
  inr, mem, keep, ◌==◌, is_some, any, str_eq, Bool-cases,
}
use webtop_manager.Prelude.Results.{Result-cases}
use webtop_manager.Prelude.Steps.{
  Preserves, Preserves->>=, Preserves-map_err, Preserves-pure, Preserves-gets, Preserves-modify,
  Preserves-when, Preserves-if, Preserves-reject_if, Preserves-ok_or, Preserves-lift,
}
use webtop_manager.Contracts.Failures
use webtop_manager.Contracts.Ports.{allocate_remote_port, allocate_remote_port-ok_iff}
use webtop_manager.Contracts.Settings.{ServerSettings}
use webtop_manager.Contracts.Paths.{require_contained_path}
use webtop_manager.Database.Table.{select}
use webtop_manager.Database.Records.{EnvironmentRecord}
use webtop_manager.Database.State.{frpc_desired_running}
use webtop_manager.Database.Environments.{
  environment_id, get_environment, list_environments, update_environment_spec, set_desired_running,
  delete_environment as delete_row,
}
use webtop_manager.Controller.State.{AppState, with_database}
use webtop_manager.Controller.Docker.{DockerApi, Files}
use webtop_manager.Controller.Proxies.{allocated_ports}
use webtop_manager.Controller.Frpc.{failure}
use webtop_manager.Controller.Service.{reconcile_frpc_if_desired}
use webtop_manager.Controller.Publication.{
  set_publication, required_environment, take_port, assign_port, publish_environment,
  unpublish_environment,
}
use webtop_manager.Controller.Lifecycle.{
  environment_resource, ensure_environment_not_busy, start_environment, stop_environment,
  restart_environment, delete_files, delete_environment, refresh,
}
use webtop_manager.Controller.Allocation.{port_of, select-order_by_time}
use webtop_manager.Controller.Consistency.{
  Consistent, Consistent-Stable, update_environment_spec-Consistent, set_desired_running-Consistent,
  delete_environment-Consistent as delete_row-Consistent,
}
use webtop_manager.Controller.Upkeep.{Preserves-call, Preserves-synchronize_one}
use webtop_manager.Controller.RetryConsistency.{
  required_server_settings-Consistent, start_frpc-Consistent,
}

module _ {D : Type 0} where
  required_environment-Consistent :
      (id : ℕ) → Preserves {S = AppState D} Consistent (required_environment id)
  unfolding required_environment
  required_environment-Consistent id =
      Preserves->>= (Preserves-gets (λ s. get_environment id s.database))
        (λ e. Preserves-ok_or e Failures.invalid_request)

  not_busy-Consistent :
      (id : ℕ) → Preserves {S = AppState D} Consistent (ensure_environment_not_busy id)
  unfolding ensure_environment_not_busy
  not_busy-Consistent id =
      Preserves->>=
        (Preserves-gets (λ s. any (str_eq (environment_resource id)) s.active_resources))
        (λ busy. Preserves-reject_if busy Failures.resource_busy)

-- The port of another environment is among the ports of the others.
taken_by_other :
    (id j p : ℕ) (rs : List EnvironmentRecord) (b : EnvironmentRecord)
    → j ≢ id
    → select environment_id j rs ≡ some b
    → port_of b ≡ some p
    → mem p (allocated_ports (keep (λ e. not (e.id == id)) rs)) ≡ true
unfolding select allocated_ports
taken_by_other id j p [] b differs e h = cc
taken_by_other id j p (r ∷ rs) b differs e h = ground (arith, taken_by_other id j p rs b differs)

module _ {D : Type 0} (docker : DockerApi D) (fingerprint : List ℕ → String)
    (generated : List ℕ) where
  pub reconcile-Consistent :
      (s : AppState D)
      → Consistent s
      → Consistent (reconcile_frpc_if_desired docker fingerprint generated s)
  unfolding reconcile_frpc_if_desired
  reconcile-Consistent s c = elim (Bool-cases (frpc_desired_running s.database)) [
    | inl running ↦ rw running ((start_frpc-Consistent docker fingerprint generated).keep s c)
    | inr stopped ↦ rw stopped c
  ]

  take_port-Consistent :
      (settings : ServerSettings) (id : ℕ) (r : EnvironmentRecord)
      → Preserves {S = AppState D} Consistent (take_port settings id r)
  unfolding take_port list_environments
  take_port-Consistent settings id r = record {
    keep = λ s c.
        let environments = list_environments s.database in
        let others = keep (λ e. not (e.id == id)) environments in
        elim (Result-cases (
          allocate_remote_port settings.remote_port_start settings.remote_port_end
            (allocated_ports others))) [
              | inr (x, e) ↦ rw e c
              | inl (port, e) ↦
                  let free =
                    ((allocate_remote_port-ok_iff settings.remote_port_start
                        settings.remote_port_end (allocated_ports others) port).0
                      e).free in
                  rw e (
                    update_environment_spec-Consistent s c id
                      (set_publication true (some port) r.spec)
                      (λ j p b same differs found has.
                        let taken =
                          taken_by_other id j p environments b differs
                            (select-order_by_time j s.database.environments c.key ∙ found) has in
                        ground (arith, same, taken, free)))
            ];
  }

  assign_port-Consistent :
      (id : ℕ) (r : EnvironmentRecord) → Preserves {S = AppState D} Consistent (assign_port id r)
  unfolding assign_port
  assign_port-Consistent id r =
      Preserves->>= required_server_settings-Consistent
        (λ settings. take_port-Consistent settings id r)

  pub publish_environment-Consistent :
      (id : ℕ)
      → Preserves {S = AppState D} Consistent (publish_environment docker fingerprint generated id)
  unfolding publish_environment
  publish_environment-Consistent id =
      Preserves->>= (Preserves-map_err failure (required_environment-Consistent id)) (λ r.
        Preserves-if (r.spec.publication.enabled && is_some r.spec.publication.remote_port)
          (Preserves-pure r)
          (Preserves->>= (Preserves-map_err failure (assign_port-Consistent id r)) (λ published.
            Preserves->>= (Preserves-gets (λ s. frpc_desired_running s.database)) (λ running.
              Preserves-if running
                (Preserves->>= (start_frpc-Consistent docker fingerprint generated)
                  (λ _. Preserves-map_err failure (required_environment-Consistent id)))
                (Preserves-pure published)))))

  pub unpublish_environment-Consistent :
      (id : ℕ)
      → Preserves {S = AppState D} Consistent
          (unpublish_environment docker fingerprint generated id)
  unfolding unpublish_environment
  unpublish_environment-Consistent id = Preserves->>= (required_environment-Consistent id) (λ r.
      Preserves-if (not r.spec.publication.enabled) (Preserves-pure r) (
        let spec = set_publication false none r.spec in
        Preserves->>=
          (Preserves-modify (with_database (update_environment_spec id spec)) (λ s c.
            update_environment_spec-Consistent s c id spec (λ j p b e. absurd (ground arith))))
          (λ _.
            Preserves->>=
              (Preserves-modify (reconcile_frpc_if_desired docker fingerprint generated)
                reconcile-Consistent)
              (λ _. Preserves-pure (record r { spec = spec })))))

module _ {D : Type 0} (docker : DockerApi D) (files : Files D) (fingerprint : List ℕ → String)
    (generated : List ℕ) where
  pub refresh-Consistent :
      (r : EnvironmentRecord)
      → Preserves {S = AppState D} Consistent (refresh docker files fingerprint generated r)
  refresh-Consistent r = Preserves-when r.spec.publication.enabled (
      Preserves-modify (reconcile_frpc_if_desired docker fingerprint generated)
        (reconcile-Consistent docker fingerprint generated))

  pub start_environment-Consistent :
      (id : ℕ)
      → Preserves {S = AppState D} Consistent
          (start_environment docker files fingerprint generated id)
  unfolding start_environment
  start_environment-Consistent id = Preserves->>= (not_busy-Consistent id) (λ _.
      Preserves->>= (required_environment-Consistent id) (λ r.
        Preserves->>=
          (Preserves-map_err (λ _. Failures.docker)
            (Preserves-call Consistent-Stable (docker.start r.container_id)))
          (λ _.
            Preserves->>=
              (Preserves-modify (with_database (set_desired_running id true))
                (λ s c. set_desired_running-Consistent s c id true))
              (λ _.
                Preserves->>=
                  (Preserves-map_err (λ _. Failures.internal)
                    (Preserves-synchronize_one Consistent-Stable docker
                      (record r { desired_running = true })))
                  (λ _. refresh-Consistent r)))))

  pub stop_environment-Consistent :
      (id : ℕ)
      → Preserves {S = AppState D} Consistent
          (stop_environment docker files fingerprint generated id)
  unfolding stop_environment
  stop_environment-Consistent id = Preserves->>= (not_busy-Consistent id) (λ _.
      Preserves->>= (required_environment-Consistent id) (λ r.
        Preserves->>=
          (Preserves-map_err (λ _. Failures.docker)
            (Preserves-call Consistent-Stable (docker.stop r.container_id)))
          (λ _.
            Preserves->>=
              (Preserves-modify (with_database (set_desired_running id false))
                (λ s c. set_desired_running-Consistent s c id false))
              (λ _. refresh-Consistent r))))

  pub restart_environment-Consistent :
      (id : ℕ)
      → Preserves {S = AppState D} Consistent
          (restart_environment docker files fingerprint generated id)
  unfolding restart_environment
  restart_environment-Consistent id = Preserves->>= (not_busy-Consistent id) (λ _.
      Preserves->>= (required_environment-Consistent id) (λ r.
        Preserves->>=
          (Preserves-map_err (λ _. Failures.docker)
            (Preserves-call Consistent-Stable (docker.restart r.container_id)))
          (λ _.
            Preserves->>=
              (Preserves-map_err (λ _. Failures.internal)
                (Preserves-synchronize_one Consistent-Stable docker r))
              (λ _. refresh-Consistent r))))

  delete_files-Consistent :
      (r : EnvironmentRecord)
      → Preserves {S = AppState D} Consistent (delete_files docker files fingerprint generated r)
  unfolding delete_files
  delete_files-Consistent r =
      Preserves->>=
        (Preserves-map_err (λ _. Failures.internal)
          (Preserves-call Consistent-Stable files.canonical_environment_root))
        (λ root.
          Preserves->>= (Preserves-ok_or (files.parent r.config_path) Failures.invalid_request)
            (λ resource.
              Preserves->>=
                (Preserves-map_err (λ _. Failures.internal)
                  (Preserves-call Consistent-Stable (files.canonicalize resource)))
                (λ target.
                  Preserves->>=
                    (Preserves-map_err (λ e. record { status = 400; error = e })
                      (Preserves-lift (require_contained_path root target)))
                    (λ _.
                      Preserves-map_err (λ _. Failures.internal)
                        (Preserves-call Consistent-Stable (files.remove_dir_all target))))))

  pub delete_environment-Consistent :
      (id : ℕ) (name : String) (delete_data : Bool)
      → Preserves {S = AppState D} Consistent
          (delete_environment docker files fingerprint generated id name delete_data)
  unfolding delete_environment
  delete_environment-Consistent id name delete_data = Preserves->>= (not_busy-Consistent id) (λ _.
      Preserves->>= (required_environment-Consistent id) (λ r.
        Preserves->>= (Preserves-reject_if (not (str_eq name r.name)) Failures.invalid_request)
          (λ _.
            Preserves->>=
              (Preserves-when r.desired_running (
                Preserves-map_err (λ _. Failures.docker)
                  (Preserves-call Consistent-Stable (docker.stop r.container_id))))
              (λ _.
                Preserves->>=
                  (Preserves-map_err (λ _. Failures.docker)
                    (Preserves-call Consistent-Stable (docker.remove r.container_id)))
                  (λ _. Preserves->>= (Preserves-when delete_data (delete_files-Consistent r)) (λ _.
                    Preserves->>=
                      (Preserves-modify (with_database (delete_row id))
                        (λ s c. delete_row-Consistent s c id))
                      (λ _. refresh-Consistent r)))))))
