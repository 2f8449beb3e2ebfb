-- ===== src/Controller/Upkeep.antt =====
-- What the calls before a round of the retry loop keep of the environments: their key and their
-- remote ports (`synchronize_environment_local_ports` and `current_environment_proxies` of
-- crates/controller/src/api.rs).
use webtop_manager.Prelude.{true, false, ℕ, ◌≡◌, refl, ◌∙◌, Option, List, [], ◌∷◌, ◌||◌, arith}
use webtop_manager.Prelude.Steps.{
  Preserves-pure, Preserves-gets, Preserves-lift, Preserves-modify, Preserves-if, Preserves,
  Preserves->>=,
}
use webtop_manager.Database.Table.{update}
use webtop_manager.Database.Keys.{HasKey, HasKey-update}
use webtop_manager.Database.Records.{EnvironmentRecord}
use webtop_manager.Database.Environments.{
  list_environments, environment_id, set_environment_local_port,
}
use webtop_manager.Controller.State.{AppState, with_database}
use webtop_manager.Controller.Proxies.{environment_proxies, allocated_ports}
use webtop_manager.Controller.Docker.{DockerApi, Call}
use webtop_manager.Controller.Frpc.{
  call, same_port, synchronize_environment_local_port, synchronize_environment_local_ports,
  current_environment_proxies,
}

-- A predicate on states that a daemon call and a new local port keep.
pub record Stable {D : Type 0} (P : AppState D → Type 0) : Type 0 where
  pub daemon : (d : D) (s : AppState D) → P s → P (record s { docker = d })
  pub local_port :
      (k : ℕ) (port : Option ℕ) (s : AppState D)
      → P s
      → P (with_database (set_environment_local_port k port) s)

module _ {D : Type 0} {P : AppState D → Type 0} (stable : Stable P) where
  pub Preserves-call : {A : Type 0} (c : Call D A) → Preserves P (call c)
  Preserves-call c = record { keep = λ s h. stable.daemon (c s.docker).1 s h }

  module _ (docker : DockerApi D) where
    pub Preserves-synchronize_one :
        (r : EnvironmentRecord) → Preserves P (synchronize_environment_local_port docker r)
    unfolding synchronize_environment_local_port
    Preserves-synchronize_one r =
        Preserves->>= (Preserves-call (docker.environment_local_port r.container_id r.spec))
          (λ port. Preserves-if (same_port port r.local_port) (Preserves-pure (r, false)) (
            Preserves->>=
              (Preserves-modify (with_database (set_environment_local_port r.id port))
                (stable.local_port r.id port))
              (λ _. Preserves-pure (record r { local_port = port }, true))))

    Preserves-synchronize :
        (rs : List EnvironmentRecord) → Preserves P (synchronize_environment_local_ports docker rs)
    unfolding synchronize_environment_local_ports
    Preserves-synchronize [] = Preserves-pure ([], false)
    Preserves-synchronize (r ∷ rs) =
        let rest = Preserves-synchronize rs in
        Preserves-if r.desired_running
          (Preserves->>= (Preserves-synchronize_one r) (λ first.
            Preserves->>= rest
              (λ others. Preserves-pure (first.0 ∷ others.0, first.1 || others.1))))
          (Preserves->>= rest (λ others. Preserves-pure (r ∷ others.0, others.1)))

    pub Preserves-current_environment_proxies : Preserves P (current_environment_proxies docker)
    unfolding current_environment_proxies
    Preserves-current_environment_proxies =
        Preserves->>= (Preserves-gets (λ s. list_environments s.database)) (λ environments.
          Preserves->>= (Preserves-synchronize environments)
            (λ synchronized. Preserves-lift (environment_proxies synchronized.0)))

module _ {D : Type 0} where
  -- The key holds, and these ports are taken.
  abbrev pub Holds : List ℕ → AppState D → Type 0
  Holds ports s =
      HasKey environment_id s.database.environments
      × (allocated_ports s.database.environments ≡ ports)

ports_of_local_port :
    (k : ℕ) (port : Option ℕ) (rs : List EnvironmentRecord)
    → allocated_ports (update environment_id k (λ r. record r { local_port = port }) rs)
      ≡ allocated_ports rs
unfolding update allocated_ports
ports_of_local_port k port [] = refl
ports_of_local_port k port (r ∷ rs) = ground (arith, ports_of_local_port k port rs)

pub Holds-Stable : {D : Type 0} (ports : List ℕ) → Stable {D = D} (Holds ports)
unfolding set_environment_local_port
Holds-Stable ports = record {
  daemon = λ d s h. h;
  local_port = λ k port s h. (
    HasKey-update environment_id k (λ r. record r { local_port = port }) s.database.environments
        (λ r. refl) h.0,
    ports_of_local_port k port s.database.environments ∙ h.1,
  );
}
