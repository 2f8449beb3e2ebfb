-- ===== src/Contracts/Failures.antt =====
-- The failures that a handler answers with: `impl ApiFailure` of crates/controller/src/api.rs.
use webtop_manager.Contracts.Errors.{ErrorCode, ApiError, ApiFailure, plain_error}

abbrev pub invalid_request : ApiFailure
invalid_request = record { status = 400; error = plain_error ErrorCode.invalid_request }

abbrev pub docker : ApiFailure
docker = record { status = 502; error = plain_error ErrorCode.docker_unavailable }

abbrev pub resource_busy : ApiFailure
resource_busy = record { status = 409; error = plain_error ErrorCode.resource_busy }

abbrev pub frp_token_recovery_required : ApiFailure
frp_token_recovery_required = record {
  status = 409;
  error = plain_error ErrorCode.frp_token_recovery_required;
}

abbrev pub port_conflict : ApiError → ApiFailure
port_conflict e = record { status = 409; error = e }

abbrev pub internal : ApiFailure
internal = record { status = 500; error = plain_error ErrorCode.internal }
