-- ===== src/Contracts/Settings.antt =====
-- `ServerSettings`, the frpc status types and their defaults (crates/contracts/src/lib.rs).
use webtop_manager.Prelude.{ℕ, String, Bool, false, Option, ◌||◌, ◌==◌, ltb}
use webtop_manager.Prelude.Text.{is_blank, has_whitespace}
use webtop_manager.Prelude.Results.{Result, ok, reject_if, ◌>>◌}
use webtop_manager.Contracts.Errors.{
  ContractError, invalid_server_address, invalid_port_range, invalid_image_reference,
}
use webtop_manager.Contracts.Spec.{ℤ}

abbrev pub default_frpc_image : String
default_frpc_image =
    "ghcr.io/fatedier/frpc:v0.70.1@sha256:e6483f2a916de67281597ba8fd03dc25d4f6fbd7ed0eafa042b2a5e4dcb5ee22"

pub data ServerTokenState : Type 0 where
  ready missing recovery_pending : ServerTokenState

pub record ServerSettings : Type 0 where
  pub frps_host : String
  pub frps_port : ℕ
  pub public_ip : String
  pub remote_port_start : ℕ
  pub remote_port_end : ℕ
  pub token_configured : Bool
  pub token_state : ServerTokenState
  pub frpc_image : String

-- `ServerSettings::default()`.
abbrev pub default_server_settings : ServerSettings
default_server_settings = record {
  frps_host = "";
  frps_port = 7000;
  public_ip = "";
  remote_port_start = 41000;
  remote_port_end = 42000;
  token_configured = false;
  token_state = missing;
  frpc_image = default_frpc_image;
}

pub data FrpcServiceState : Type 0 where
  not_created running stopped error : FrpcServiceState

pub record FrpcServiceStatus : Type 0 where
  pub state : FrpcServiceState
  pub connected : Bool
  pub image : Option String
  pub started_at : Option String
  pub exit_code : Option ℤ

pub data FrpcTestCode : Type 0 where
  connected authentication_failed dns_failed connection_refused : FrpcTestCode
  timed_out client_exited unknown : FrpcTestCode

pub record FrpcTestResult : Type 0 where
  pub success : Bool
  pub code : FrpcTestCode

-- `ServerSettings::validate`.
unfoldable pub validate_settings : ServerSettings → Result ContractError (Unit {0})
validate_settings s = do
  reject_if (is_blank s.frps_host || is_blank s.public_ip || s.frps_port == 0)
      invalid_server_address
  reject_if (s.remote_port_start == 0 || ltb s.remote_port_end s.remote_port_start)
      invalid_port_range
  reject_if (is_blank s.frpc_image || has_whitespace s.frpc_image) invalid_image_reference
  ok tt
