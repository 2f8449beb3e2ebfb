-- ===== src/Controller/Creation.antt =====
-- Creating an environment keeps ids and remote ports apart, as long as nothing comes between the
-- choice of its port and the insertion of its row (crates/controller/src/api.rs).
use webtop_manager.Prelude.{
  ℕ, String, false, ◌≡◌, none, some, List, [], ◌∷◌, ◌++◌, arith, inl, inr, mem, ◌≤◌, if◌then◌else◌,
  Option-cases, Bool-cases,
}
use webtop_manager.Prelude.Results.{ok, Result-cases}
use webtop_manager.Prelude.Actions.{◌>>=◌, pure, map_err, ◌>>◌}
use webtop_manager.Prelude.Steps.{Preserves, Preserves->>=, Preserves-pure}
use webtop_manager.Contracts.Settings.{ServerSettings}
use webtop_manager.Contracts.Spec.{EnvironmentSpec, PublicationSpec}
use webtop_manager.Contracts.Validate.{validate}
use webtop_manager.Contracts.Validity.{validate-ok_iff}
use webtop_manager.Contracts.Ports.{allocate_remote_port, allocate_remote_port-ok_iff}
use webtop_manager.Database.Table.{select}
use webtop_manager.Database.State.{Database}
use webtop_manager.Database.Records.{EnvironmentRecord}
use webtop_manager.Database.Environments.{
  environment_id, insert_environment, list_environments, order_by_time,
}
use webtop_manager.Controller.State.{AppState}
use webtop_manager.Controller.Docker.{DockerApi, Files}
use webtop_manager.Controller.Proxies.{allocated_ports}
use webtop_manager.Controller.Frpc.{call, required_server_settings, set_remote_port}
use webtop_manager.Controller.Lifecycle.{
  choose_remote_port, choose_port, admit_environment, create_container, store_environment,
  new_environment, install_environment, create_environment, refresh,
}
use webtop_manager.Controller.Allocation.{mem-order_by_time}
use webtop_manager.Controller.Distinct.{taken_of_select}
use webtop_manager.Controller.Consistency.{Consistent, append-IsConsistent}
use webtop_manager.Controller.Handlers.{refresh-Consistent}

-- The invariant holds, and no environment has the port of `spec`.
pub record IsFree {D : Type 0} (spec : EnvironmentSpec) (s : AppState D) : Type 0 where
  pub consistent : Consistent s
  pub free :
      (p : ℕ)
      → spec.publication.remote_port ≡ some p
      → mem p (allocated_ports s.database.environments) ≡ false

-- The port that a new environment takes is not taken, and lies in the configured range.
pub choose_remote_port-free :
    (settings : ServerSettings) (allocated : List ℕ) (p : PublicationSpec) (port : ℕ)
    → choose_remote_port settings allocated p ≡ ok port
    → (mem port allocated ≡ false)
      × (settings.remote_port_start ≤ port)
      × (port ≤ settings.remote_port_end)
unfolding choose_remote_port
choose_remote_port-free settings allocated p port e =
    elim (Option-cases (if p.automatic_port then none else p.remote_port)) [
      | inr (requested, manual) ↦
          (ground (arith, manual), ground (arith, manual), ground (arith, manual))
      | inl automatic ↦
          elim (Result-cases
            (allocate_remote_port settings.remote_port_start settings.remote_port_end allocated)) [
              | inr (x, full) ↦ absurd (ground (arith, automatic, full))
              | inl (q, found) ↦
                  let first =
                    (allocate_remote_port-ok_iff settings.remote_port_start settings.remote_port_end
                        allocated q).0
                      found in
                  let same : q ≡ port = ground (arith, automatic, found) in
                  rw⁻¹ same (first.free, first.lower, omega (arith, first.upper))
            ]
    ]

module _ {D : Type 0} where
  settings_state : (s : AppState D) → (required_server_settings s).1 ≡ s
  unfolding required_server_settings
  settings_state s = ground arith

  choose_port_state : (spec : EnvironmentSpec) (s : AppState D) → (choose_port spec s).1 ≡ s
  unfolding choose_port
  choose_port_state spec s = ground (arith, settings_state s)

  choose_port_free :
      (spec spec' : EnvironmentSpec) (s : AppState D)
      → (spec.publication.enabled ≡ false → spec.publication.remote_port ≡ none)
      → (choose_port spec s).0 ≡ ok spec'
      → (p : ℕ) → spec'.publication.remote_port ≡ some p
      → mem p (allocated_ports s.database.environments) ≡ false
  unfolding choose_port set_remote_port list_environments
  choose_port_free spec spec' s closed e p h = elim (Bool-cases spec.publication.enabled) [
    | inr off ↦ ground (arith, closed off)
    | inl on ↦ elim (Result-cases (required_server_settings s).0) [
      | inr (x, bad) ↦ absurd (ground (arith, on, bad))
      | inl (settings, read) ↦
          elim (Result-cases (
            choose_remote_port settings (allocated_ports (order_by_time s.database.environments))
              spec.publication)) [
                | inr (x, bad) ↦ absurd (ground (arith, on, read, bad, settings_state s))
                | inl (port, chosen) ↦
                    let fresh =
                      (choose_remote_port-free settings
                        (allocated_ports (order_by_time s.database.environments)) spec.publication
                        port chosen).0 in
                    ground (
                      arith,
                      on,
                      read,
                      chosen,
                      settings_state s,
                      fresh,
                      mem-order_by_time port s.database.environments,
                    )
              ]
    ]
  ]

  admit_state : (spec : EnvironmentSpec) (s : AppState D) → (admit_environment spec s).1 ≡ s
  unfolding admit_environment
  admit_state spec s = ground (arith, choose_port_state spec s)

  admit_choice :
      (spec spec' : EnvironmentSpec) (s : AppState D)
      → (admit_environment spec s).0 ≡ ok spec'
      → (validate spec ≡ ok tt) × ((choose_port spec s).0 ≡ ok spec')
  unfolding admit_environment
  admit_choice spec spec' s e = elim (Result-cases (validate spec)) [
    | inr (x, bad) ↦ absurd (ground (arith, bad))
    | inl (u, good) ↦ (good, ground (arith, good))
  ]

  admit_environment-IsFree :
      (spec spec' : EnvironmentSpec) (s : AppState D)
      → (admit_environment spec s).0 ≡ ok spec'
      → Consistent s
      → IsFree spec' s
  admit_environment-IsFree spec spec' s e c =
      let (good, chosen) = admit_choice spec spec' s e in
      let valid = (validate-ok_iff spec).0 good in
      record {
        consistent = c;
        free = choose_port_free spec spec' s (λ off. ground (arith, off, valid.publication)) chosen;
      }

-- A row that is inserted had a new id, and stands behind the others.
inserted :
    (r : EnvironmentRecord) (db db' : Database)
    → insert_environment r db ≡ ok db'
    → (select environment_id r.id db.environments ≡ none)
      × (db'.environments ≡ db.environments ++ r ∷ [])
unfolding insert_environment
inserted r db db' e = elim (Option-cases (select environment_id r.id db.environments)) [
  | inr (old, found) ↦ absurd (ground (arith, found))
  | inl absent ↦ (absent, ground (arith, absent))
]

module _ {D : Type 0} (docker : DockerApi D) (files : Files D) (fingerprint : List ℕ → String)
    (generated : List ℕ) where
  create_container-IsFree :
      (id : ℕ) (spec : EnvironmentSpec)
      → Preserves {S = AppState D}
          (IsFree spec)
          (create_container docker files fingerprint generated id spec)
  unfolding create_container
  create_container-IsFree id spec = record {
    keep = λ s h. elim (Result-cases (docker.create_environment_container id spec s.docker).0) [
      | inl (created, e) ↦
          rw (create_container, e) (record { consistent = h.consistent; free = h.free })
      | inr (x, e) ↦ rw (create_container, e) (record { consistent = h.consistent; free = h.free })
    ];
  }

  store_environment-Consistent :
      (r : EnvironmentRecord) (s : AppState D)
      → IsFree r.spec s
      → Consistent (store_environment docker files fingerprint generated r s).1
  unfolding store_environment
  store_environment-Consistent r s h = elim (Result-cases (insert_environment r s.database)) [
    | inr (x, e) ↦ rw (store_environment, e) h.consistent
    | inl (db, e) ↦
        let (absent, rows) = inserted r s.database db e in
        rw (store_environment, e, rows)
          (append-IsConsistent s.database.environments r absent
            (λ p j b has found other.
              ground
                (arith, h.free p has, taken_of_select j p s.database.environments b found other))
            h.consistent)
  ]

  -- What follows the container.
  filled :
      (id : ℕ) (config_path : String) (now : ℕ) (spec : EnvironmentSpec) (s : AppState D)
      → IsFree spec (create_container docker files fingerprint generated id spec s).1
      → Consistent
          ((do
            created ← create_container docker files fingerprint generated id spec
            let r =
                new_environment docker files fingerprint generated id config_path now spec created
            store_environment docker files fingerprint generated r
            refresh docker files fingerprint generated r
            pure r)
            s).1
  filled id config_path now spec s h =
      elim (Result-cases (create_container docker files fingerprint generated id spec s).0) [
        | inr (x, e) ↦ rw e h.consistent
        | inl (created, e) ↦
            let r =
              new_environment docker files fingerprint generated id config_path now spec created in
            let s1 = (create_container docker files fingerprint generated id spec s).1 in
            let c1 = store_environment-Consistent r s1 h in
            let s2 = (store_environment docker files fingerprint generated r s1).1 in
            rw e
              (elim (Result-cases (store_environment docker files fingerprint generated r s1).0) [
                | inr (y, f) ↦ rw f c1
                | inl (u, f) ↦ rw f (
                    (Preserves->>= (refresh-Consistent docker files fingerprint generated r)
                        (λ _. Preserves-pure r)).keep
                      s2 c1)
              ])
      ]

  install_environment-Consistent :
      (id : ℕ) (config_path : String) (now : ℕ) (spec : EnvironmentSpec) (s : AppState D)
      → IsFree spec s
      → Consistent
          (install_environment docker files fingerprint generated id config_path now spec s).1
  unfolding install_environment
  install_environment-Consistent id config_path now spec s h =
      elim (Result-cases (files.create_environment_root id s.docker).0) [
        | inr (x, e) ↦ rw (install_environment, map_err, e) h.consistent
        | inl (u, e) ↦
            let s1 = (call (files.create_environment_root id) s).1 in
            let h1 : IsFree spec s1 = record { consistent = h.consistent; free = h.free } in
            let h2 = (create_container-IsFree id spec).keep s1 h1 in
            rw (install_environment, map_err, e) (filled id config_path now spec s1 h2)
      ]

  pub create_environment-Consistent :
      (id : ℕ) (config_path : String) (now : ℕ) (spec : EnvironmentSpec)
      → Preserves {S = AppState D} Consistent
          (create_environment docker files fingerprint generated id config_path now spec)
  unfolding create_environment
  create_environment-Consistent id config_path now spec = record {
    keep = λ s c. elim (Result-cases (admit_environment spec s).0) [
      | inr (x, e) ↦ rw (e, admit_state spec s) c
      | inl (spec', e) ↦
          rw (e, admit_state spec s)
            (install_environment-Consistent id config_path now spec' s
              (admit_environment-IsFree spec spec' s e c))
    ];
  }
