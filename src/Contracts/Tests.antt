-- ===== src/Contracts/Tests.antt =====
-- The theorems on crates/contracts/src/lib.rs at concrete inputs.
use webtop_manager.Prelude.{ℕ, true, List, [], ◌∷◌, ◌++◌, ◌≡◌, ◌↔◌, ◌+◌, ◌≤◌, mem}
use webtop_manager.Prelude.Results.{ok, err}
use webtop_manager.Contracts.Errors.{ErrorCode, plain_error}
use webtop_manager.Contracts.Spec.{EnvironmentSpec, default_environment_spec}
use webtop_manager.Contracts.Validate.{validate}
use webtop_manager.Contracts.Validity.{IsValid, validate-ok_iff}
use webtop_manager.Contracts.Paths.{Component, components, require_contained_path}
use webtop_manager.Contracts.Containment.{require_contained_path-ok_iff}
use webtop_manager.Contracts.Ports.{
  allocate_remote_port, IsFirstFree, allocate_remote_port-ok_iff, allocate_remote_port-err_iff,
}

abbrev desk_spec : EnvironmentSpec
desk_spec = record default_environment_spec {
  name = "desk";
  mounts = record { host_path = "/srv/data"; container_path = "/data"; read_only = true } ∷ [];
}

validate-ok_iff_example : (validate desk_spec ≡ ok tt) ↔ IsValid desk_spec
validate-ok_iff_example = validate-ok_iff desk_spec

require_contained_path-ok_iff_example :
    (require_contained_path "/data/environments" "/data/environments/one" ≡ ok tt) ↔ (
      (c : Component) × (below : List Component) × (components "/data/environments/one"
        ≡ components "/data/environments" ++ c ∷ below))
require_contained_path-ok_iff_example =
    require_contained_path-ok_iff "/data/environments" "/data/environments/one"

allocate_remote_port-ok_iff_example :
    (allocate_remote_port 41000 41003 (41000 ∷ 41002 ∷ []) ≡ ok 41001)
    ↔ IsFirstFree 41000 (41003 + 1) (41000 ∷ 41002 ∷ []) 41001
allocate_remote_port-ok_iff_example =
    allocate_remote_port-ok_iff 41000 41003 (41000 ∷ 41002 ∷ []) 41001

allocate_remote_port-err_iff_example :
    (allocate_remote_port 41000 41001 (41001 ∷ 41000 ∷ [])
      ≡ err (plain_error ErrorCode.port_conflict))
    ↔ ((q : ℕ) → 41000 ≤ q → q ≤ 41001 → mem q (41001 ∷ 41000 ∷ []) ≡ true)
allocate_remote_port-err_iff_example = allocate_remote_port-err_iff 41000 41001 (41001 ∷ 41000 ∷ [])
