-- ===== src/Controller/Docker.antt =====
-- What the handlers of crates/controller/src/api.rs use of crates/controller/src/docker.rs.
use webtop_manager.Prelude.{ℕ, String, Option, List}
use webtop_manager.Prelude.Actions.{Action}
use webtop_manager.Contracts.Spec.{EnvironmentSpec}
use webtop_manager.Contracts.Settings.{ServerSettings, FrpcServiceStatus, FrpcTestResult}
use webtop_manager.Controller.Proxies.{Proxy}

-- A call changes the daemon's state, and may fail.
abbrev pub Call : Type 0 → Type 0 → Type 0
Call D A = Action D (Unit {0}) A

-- `CreatedContainer`.
pub record CreatedContainer : Type 0 where
  pub id : String
  pub local_port : Option ℕ

pub record DockerApi (D : Type 0) : Type 0 where
  pub start_frpc : ServerSettings → List ℕ → List Proxy → Call D FrpcServiceStatus
  pub stop_frpc : Call D FrpcServiceStatus
  pub remove_frpc : Call D (Unit {0})
  pub frpc_status : Call D FrpcServiceStatus
  pub test_frpc_connectivity : ServerSettings → List ℕ → Call D FrpcTestResult
  pub frpc_conflicting_proxy_ids : List Proxy → Call D (List ℕ)
  pub environment_local_port : String → EnvironmentSpec → Call D (Option ℕ)
  pub create_environment_container : ℕ → EnvironmentSpec → Call D CreatedContainer
  pub start : String → Call D (Unit {0})
  pub stop : String → Call D (Unit {0})
  pub restart : String → Call D (Unit {0})
  pub remove : String → Call D (Unit {0})

-- What the handlers ask of the file system. The root of an environment is named by the
-- environment's id: making it also writes the password file under it.
pub record Files (D : Type 0) : Type 0 where
  pub create_environment_root : ℕ → Call D (Unit {0})
  pub remove_environment_root : ℕ → Call D (Unit {0})
  pub canonical_environment_root : Call D String
  pub parent : String → Option String
  pub canonicalize : String → Call D String
  pub remove_dir_all : String → Call D (Unit {0})
