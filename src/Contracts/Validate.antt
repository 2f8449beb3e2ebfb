-- ===== src/Contracts/Validate.antt =====
-- `EnvironmentSpec::validate` (crates/contracts/src/lib.rs).
use Prim.Native.String.{len}
use webtop_manager.Prelude.{
  String, Bool, true, not, ◌||◌, Option, none, some, List, [], ◌∷◌, map, any, ◌*◌, str_eq, ltb,
  ◌==◌, if◌then◌else◌, is_some, bool_ne,
}
use webtop_manager.Prelude.Text.{
  codes, is_blank, has_whitespace, to_ascii_uppercase, codes_start_with, codes_contain,
  codes_end_with, parse_unsigned,
}
use webtop_manager.Prelude.Results.{Result, ok, err, reject_if, ◌>>◌}
use webtop_manager.Contracts.Errors.{
  ContractError, invalid_name, invalid_image_reference, shm_too_small, invalid_display_resolution,
  reserved_environment_key, invalid_environment_port, reserved_mount_target, invalid_mount_target,
  invalid_host_path, reserved_host_path, invalid_device_path, privileged_forbidden,
}
use webtop_manager.Contracts.Spec.{ℤ, pos, negsuc, EnvironmentSpec, MountSpec, PublicationSpec}
use webtop_manager.Contracts.Paths.{Component, components, components_eq, starts_with, is_absolute}

-- `RESERVED_ENVIRONMENT_KEYS`.
abbrev pub reserved_environment_keys : List String
reserved_environment_keys =
    "CUSTOM_USER" ∷ "PASSWORD" ∷ "FILE__PASSWORD" ∷ "PUID" ∷ "PGID" ∷ "TZ" ∷ []

abbrev pub port_keys : List String
port_keys =
    "CUSTOM_PORT" ∷ "CUSTOM_HTTPS_PORT" ∷ "CUSTOM_WS_PORT" ∷ "PIXELFLUX_CU" ∷ "SELKIES_CONTROL_PORT"
    ∷ []

-- `shm_bytes < 64 * 1024 * 1024`.
unfoldable pub is_shm_too_small : ℤ → Bool
is_shm_too_small (pos n) = ltb n (64 * 1024 * 1024)
is_shm_too_small (negsuc n) = true

unfoldable pub check_publication : PublicationSpec → Result ContractError (Unit {0})
check_publication p =
    let bad = err (invalid_environment_port "publication.remotePort") in
    if p.enabled
    then elim p.remote_port [
      | none ↦ if not p.automatic_port then bad else ok tt
      | some port ↦ if port == 0 then bad else ok tt
    ]
    else elim p.remote_port [ none ↦ ok tt | some port ↦ bad ]

-- The test on one key of `extra_environment`.
unfoldable pub is_reserved_key : String → Bool
is_reserved_key key =
    let upper = map to_ascii_uppercase (codes key) in
    any (λ reserved. str_eq reserved key) reserved_environment_keys
    || codes_start_with (codes key) (codes "FILE__")
    || codes_contain upper (codes "PASSWORD")
    || codes_contain upper (codes "TOKEN")
    || codes_contain upper (codes "SECRET")
    || codes_end_with upper (codes "_KEY")

unfoldable pub check_keys : List (String × String) → Result ContractError (Unit {0})
check_keys [] = ok tt
check_keys ((key, value) ∷ rest) = do
  reject_if (is_reserved_key key) (reserved_environment_key key)
  check_keys rest

-- `extra_environment.get(key)`.
unfoldable pub get_value : String → List (String × String) → Option String
get_value key [] = none
get_value key ((k, v) ∷ rest) = if str_eq k key then some v else get_value key rest

-- `value.parse::<u16>().ok().filter(|port| *port > 0).is_none()`.
unfoldable pub is_bad_port : String → Bool
is_bad_port value = elim (parse_unsigned 65535 (codes value)) [
  | none ↦ true
  | some port ↦ port == 0
]

unfoldable pub check_port : String → Option String → Result ContractError (Unit {0})
check_port key none = ok tt
check_port key (some value) = reject_if (is_bad_port value) (invalid_environment_port key)

unfoldable pub check_ports : List (String × String) → List String → Result ContractError (Unit {0})
unfolding check_port
check_ports env [] = ok tt
check_ports env (key ∷ keys) = do check_port key (get_value key env); check_ports env keys

-- One mount; `targets` holds the container paths seen before, which compare as paths.
unfoldable pub check_mount : List (List Component) → MountSpec → Result ContractError (Unit {0})
check_mount targets mount = do
  let target = components mount.container_path
  reject_if (not (is_absolute mount.host_path)) (invalid_host_path mount.host_path)
  reject_if (components_eq (components mount.host_path) (components "/var/run/docker.sock"))
      (reserved_host_path mount.host_path)
  reject_if
      (components_eq target (components "/config")
        || starts_with target (components "/run/webtop-manager"))
      (reserved_mount_target mount.container_path)
  reject_if (not (is_absolute mount.container_path) || any (components_eq target) targets)
      (invalid_mount_target mount.container_path)

unfoldable pub check_mounts :
    List (List Component) → List MountSpec → Result ContractError (Unit {0})
check_mounts targets [] = ok tt
check_mounts targets (mount ∷ mounts) = do
  check_mount targets mount
  check_mounts (components mount.container_path ∷ targets) mounts

unfoldable pub is_bad_device : String → Bool
is_bad_device device =
    not (is_absolute device) || not (starts_with (components device) (components "/dev"))

unfoldable pub validate : EnvironmentSpec → Result ContractError (Unit {0})
validate spec = do
  reject_if (is_blank spec.name || ltb 64 (len spec.name)) invalid_name
  reject_if (is_blank spec.image || has_whitespace spec.image) invalid_image_reference
  reject_if (is_shm_too_small spec.resources.shm_bytes) shm_too_small
  reject_if (bool_ne (is_some spec.display.width) (is_some spec.display.height))
      invalid_display_resolution
  check_publication spec.publication
  check_keys spec.extra_environment
  check_ports spec.extra_environment port_keys
  check_mounts [] spec.mounts
  reject_if spec.security.privileged privileged_forbidden
  reject_if (any is_bad_device spec.security.devices) invalid_device_path
