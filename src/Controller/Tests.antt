-- ===== src/Controller/Tests.antt =====
-- The theorems on crates/controller/src/api.rs at concrete states.
use webtop_manager.Prelude.{
  inr, ℕ, String, true, false, Option, none, some, List, [], ◌∷◌, ◌≡◌, ◌≢◌, refl, ◌==◌, ◌-◌, ◌≤◌,
  if◌then◌else◌, mem, ◌⊎◌,
}
use webtop_manager.Prelude.Results.{ok, err}
use webtop_manager.Contracts.Spec.{EnvironmentSpec, default_environment_spec}
use webtop_manager.Contracts.Settings.{
  ServerSettings, FrpcServiceStatus, FrpcTestCode, running, ready, recovery_pending,
  default_server_settings,
}
use webtop_manager.Database.Records.{EnvironmentRecord}
use webtop_manager.Database.State.{Database, empty_database}
use webtop_manager.Controller.State.{AppState}
use webtop_manager.Controller.Docker.{DockerApi, Files}
use webtop_manager.Controller.Proxies.{Proxy}
use webtop_manager.Controller.Token.{
  inspect_or_initialize_server_token, required_server_token, recover_server_token, usable_material,
  missing_material, nonempty,
}
use webtop_manager.Controller.TokenLaws.{
  recorded, IsPaired, confirm, inspect-token_file, required_server_token-IsPaired,
  recover_server_token-keeps, inspect_idempotent, recovery_cycle,
}
use webtop_manager.Contracts.Ports.{allocate_remote_port, first_free}
use webtop_manager.Controller.Frpc.{call, start_frpc_with_port_retry, out_of_fuel}
use webtop_manager.Controller.Termination.{start_frpc_with_port_retry-ends}
use webtop_manager.Controller.Lifecycle.{create_environment, choose_remote_port}
use webtop_manager.Controller.Creation.{choose_remote_port-free}
use webtop_manager.Controller.Distinct.{Distinct-nil}
use webtop_manager.Controller.Consistency.{Consistent}
use webtop_manager.Controller.Reachable.{create, next, done, Steps-Consistent}

-- A daemon whose state is the number of refusals still to come: it refuses the first proxy.
abbrev first_id : List Proxy → List ℕ
first_id [] = []
first_id (p ∷ ps) = p.resource_id ∷ []

abbrev running_status : FrpcServiceStatus
running_status = record {
  state = running;
  connected = true;
  image = none;
  started_at = none;
  exit_code = none;
}

abbrev test_docker : DockerApi ℕ
test_docker = record {
  start_frpc = λ settings token proxies d. (ok running_status, d);
  stop_frpc = λ d. (ok running_status, d);
  remove_frpc = λ d. (ok tt, d);
  frpc_status = λ d. (ok running_status, d);
  test_frpc_connectivity =
      λ settings token d. (ok (record { success = true; code = FrpcTestCode.connected }), d);
  frpc_conflicting_proxy_ids = λ proxies d. (ok (if d == 0 then [] else first_id proxies), d - 1);
  environment_local_port = λ container spec d. (ok (some 32000), d);
  create_environment_container =
      λ id spec d. (ok (record { id = spec.name; local_port = some 32000 }), d);
  start = λ container d. (ok tt, d);
  stop = λ container d. (ok tt, d);
  restart = λ container d. (ok tt, d);
  remove = λ container d. (ok tt, d);
}

abbrev test_files : Files ℕ
test_files = record {
  create_environment_root = λ id d. (ok tt, d);
  remove_environment_root = λ id d. (ok tt, d);
  canonical_environment_root = λ d. (ok "/data", d);
  parent = λ path. some path;
  canonicalize = λ path d. (ok path, d);
  remove_dir_all = λ path d. (ok tt, d);
}

-- The digest of a token, in these tests: the same for all, or one by the first byte.
abbrev digest : List ℕ → String
digest [] = "none"
digest (b ∷ bs) = if b == 7 then "seven" else "other"

abbrev configured : ServerSettings
configured = record default_server_settings {
  frps_host = "frps.example";
  public_ip = "192.0.2.1";
  remote_port_start = 41000;
  remote_port_end = 41003;
}

abbrev auto_spec : String → EnvironmentSpec
auto_spec name = record default_environment_spec {
  name = name;
  publication = record { enabled = true; remote_port = none; automatic_port = true };
}

abbrev published : ℕ → ℕ → EnvironmentRecord
published id port = record {
  id = id;
  name = "desk";
  container_id = "c";
  config_path = "/data/desk/config";
  desired_running = true;
  local_port = some 32000;
  template_id = none;
  spec = record (auto_spec "desk") {
    publication = record { enabled = true; remote_port = some port; automatic_port = true };
  };
  created_at = 5;
}

abbrev state_of : Option (List ℕ) → Database → ℕ → AppState ℕ
state_of token db refusals = record {
  database = db;
  docker = refusals;
  token_file = record { contents = token; readable = true; writable = true };
  pull_cancellations = [];
  operation_cancellations = [];
  active_resources = [];
}

abbrev settled_database : Database
settled_database = record empty_database {
  server_settings = some configured;
  frpc_service_state = some true;
  frp_token_metadata = some (record { fingerprint = "seven"; recovery_pending = false });
}

-- A configured controller with its token, and no environment.
abbrev fresh_state : AppState ℕ
fresh_state = state_of (some (7 ∷ [])) settled_database 0

-- One environment is published, and its port will be refused twice.
abbrev refusing_state : AppState ℕ
refusing_state =
    state_of (some (7 ∷ [])) (record settled_database { environments = published 1 41000 ∷ [] }) 2

-- The token file is gone.
abbrev lost_state : AppState ℕ
lost_state = state_of none settled_database 0

abbrev after_two : AppState ℕ
after_two =
    (create_environment test_docker test_files digest [] 2 "/data/two/config" 9 (auto_spec "two")
      (create_environment test_docker test_files digest [] 1 "/data/one/config" 8 (auto_spec "one")
        fresh_state).1).1

fresh_Consistent : Consistent fresh_state
fresh_Consistent = record { key = tt; distinct = Distinct-nil }

Steps-Consistent_example : Consistent after_two
Steps-Consistent_example =
    Steps-Consistent test_docker test_files digest
      (next (create [] 1 "/data/one/config" 8 (auto_spec "one") fresh_state) (
        next
          (create [] 2 "/data/two/config" 9 (auto_spec "two")
            (create_environment test_docker test_files digest [] 1 "/data/one/config" 8
              (auto_spec "one") fresh_state).1)
          (done after_two)))
      fresh_Consistent

start_frpc_with_port_retry-ends_example :
    (start_frpc_with_port_retry test_docker digest [] refusing_state).0 ≢ err out_of_fuel
start_frpc_with_port_retry-ends_example =
    start_frpc_with_port_retry-ends test_docker digest [] refusing_state (tt, tt)

second_port : choose_remote_port configured (41000 ∷ []) (auto_spec "two").publication ≡ ok 41001
unfolding choose_remote_port allocate_remote_port first_free
second_port = refl

choose_remote_port-free_example :
    (mem 41001 (41000 ∷ []) ≡ false) × (41000 ≤ 41001) × (41001 ≤ 41003)
choose_remote_port-free_example =
    choose_remote_port-free configured (41000 ∷ []) (auto_spec "two").publication 41001 second_port

inspected_ready :
    (generated : List ℕ)
    → inspect_or_initialize_server_token digest generated fresh_state
      ≡ (ok (usable_material digest ready (7 ∷ [])), fresh_state)
unfolding inspect_or_initialize_server_token
inspected_ready generated = refl

inspected_lost :
    (generated : List ℕ)
    → inspect_or_initialize_server_token digest generated lost_state
      ≡ (ok (missing_material (some "seven")), lost_state)
unfolding inspect_or_initialize_server_token
inspected_lost generated = refl

inspect-token_file_example :
    ((inspect_or_initialize_server_token digest (3 ∷ []) fresh_state).1.token_file
      ≡ fresh_state.token_file)
    ⊎ ((nonempty fresh_state.token_file.contents ≡ none)
        × (fresh_state.database.frp_token_metadata ≡ none)
        × (fresh_state.database.server_settings ≡ none))
inspect-token_file_example = inspect-token_file digest (3 ∷ []) fresh_state

handed_out : (required_server_token digest [] false fresh_state).0 ≡ ok (7 ∷ [])
unfolding required_server_token inspect_or_initialize_server_token
handed_out = refl

required_server_token-IsPaired_example :
    IsPaired digest (required_server_token digest [] false fresh_state).1 (7 ∷ [])
    × (false ≡ false
        → (required_server_token digest [] false fresh_state).1.database.frp_token_metadata
          ≡ some (record { fingerprint = digest (7 ∷ []); recovery_pending = false }))
required_server_token-IsPaired_example =
    required_server_token-IsPaired digest [] false fresh_state (7 ∷ []) handed_out

-- A recovery that is pending keeps the token that the last one generated.
abbrev pending_state : AppState ℕ
pending_state = (recover_server_token digest (3 ∷ []) (call test_docker.remove_frpc) lost_state).1

recover_server_token-keeps_example :
    ((recover_server_token digest
        (4 ∷ [])
        (call test_docker.remove_frpc)
        pending_state).1.token_file
      ≡ pending_state.token_file)
    × (pending_state.token_file.readable ≡ true
        → recorded
            (recover_server_token digest
              (4 ∷ [])
              (call test_docker.remove_frpc)
              pending_state).1.database
          ≡ some (digest (3 ∷ [])))
unfolding recover_server_token inspect_or_initialize_server_token
recover_server_token-keeps_example =
    recover_server_token-keeps digest (4 ∷ []) (call test_docker.remove_frpc) pending_state 3 []
      refl (inr refl)

-- A controller that was never configured.
abbrev new_state : AppState ℕ
new_state = state_of none empty_database 0

generates :
    (inspect_or_initialize_server_token digest (3 ∷ []) new_state).0
    ≡ ok (usable_material digest ready (3 ∷ []))
unfolding inspect_or_initialize_server_token
generates = refl

inspect_idempotent_example :
    inspect_or_initialize_server_token digest
      (4 ∷ [])
      (inspect_or_initialize_server_token digest (3 ∷ []) new_state).1
    ≡ (
      ok (usable_material digest ready (3 ∷ [])),
      (inspect_or_initialize_server_token digest (3 ∷ []) new_state).1,
    )
inspect_idempotent_example =
    inspect_idempotent digest 3 [] (4 ∷ []) new_state (usable_material digest ready (3 ∷ []))
      generates

recovery_cycle_example :
    ((settings : ServerSettings) × ((recover_server_token digest
          (3 ∷ [])
          (call test_docker.remove_frpc)
          lost_state).0
        ≡ ok settings)
      × (settings.token_state ≡ recovery_pending))
    × ((inspect_or_initialize_server_token digest
          (4 ∷ [])
          (recover_server_token digest (3 ∷ []) (call test_docker.remove_frpc) lost_state).1).0
        ≡ ok (usable_material digest recovery_pending (3 ∷ [])))
    × ((inspect_or_initialize_server_token digest (4 ∷ []) (
          confirm digest 3 []
            (recover_server_token digest (3 ∷ []) (call test_docker.remove_frpc) lost_state).1)).0
        ≡ ok (usable_material digest ready (3 ∷ [])))
recovery_cycle_example =
    recovery_cycle digest 3 [] lost_state lost_state (call test_docker.remove_frpc)
      (missing_material (some "seven")) (4 ∷ []) (inspected_lost (3 ∷ [])) refl refl refl refl
