-- ===== src/Contracts/Errors.antt =====
-- Error values of crates/contracts/src/lib.rs, and the HTTP failures of crates/controller/src/api.rs.
use mathlib.Core.List.{List, []}
use Prim.Native.Nat.{ℕ}
use Prim.Native.String.{String}

pub data ErrorCode : Type 0 where
  docker_socket_missing docker_permission_denied docker_unavailable : ErrorCode
  controller_unavailable controller_image_missing invalid_request : ErrorCode
  reserved_field resource_busy port_conflict path_outside_data_root : ErrorCode
  insufficient_disk_space image_in_use snapshot_corrupt : ErrorCode
  template_dependency template_image_missing template_package_invalid : ErrorCode
  template_name_conflict operation_not_cancellable frp_token_recovery_required : ErrorCode
  internal : ErrorCode

-- `params` is a `BTreeMap<String, String>`, listed by key.
pub record ApiError : Type 0 where
  pub code : ErrorCode
  pub params : List (String × String)

-- A path in an error is its text.
pub data ContractError : Type 0 where
  invalid_name invalid_image_reference shm_too_small invalid_display_resolution : ContractError
  reserved_environment_key invalid_environment_port : String → ContractError
  reserved_mount_target invalid_mount_target : String → ContractError
  invalid_host_path reserved_host_path : String → ContractError
  invalid_device_path privileged_forbidden : ContractError
  invalid_server_address invalid_port_range : ContractError

-- `ApiFailure(StatusCode, ApiError)`.
pub record ApiFailure : Type 0 where
  pub status : ℕ
  pub error : ApiError

abbrev pub plain_error : ErrorCode → ApiError
plain_error c = record { code = c; params = [] }
