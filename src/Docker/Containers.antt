-- ===== src/Docker/Containers.antt =====
-- The container of an environment (crates/controller/src/docker.rs): its name, its variables, its
-- mounts, and the body of the request that makes it.
use webtop_manager.Templates.Images.{resource_kind_label, resource_id_label, owner_label}
use Prim.Native.String
use webtop_manager.Contracts.Validate.{get_value}
use webtop_manager.Prelude.Results.{err, ok}
use webtop_manager.Prelude.Actions.{◌>>=◌, ◌>>◌, pure, or_clean}
use webtop_manager.Docker.Logs.{to_ascii_lowercase}
use webtop_manager.Docker.Bindings.{webtop_https_port}
use webtop_manager.Controller.Docker.{CreatedContainer, Call}
use webtop_manager.Contracts.Spec.{
  none_mode, nvidia, download, upload, unconfined, dri, upload_download, disabled, default_mode, ℤ,
  SeccompMode, MountSpec, GpuMode, EnvironmentSpec, DisplaySpec,
}
use webtop_manager.Prelude.{
  ◌==◌, ◌||◌, ◌&&◌, map, false, ◌++◌, true, leb, is_some, Bool, str_eq, ℕ, String, Option, none,
  some, List, [], ◌∷◌, if◌then◌else◌,
}
use webtop_manager.Prelude.Text.{decimal, codes, parse_unsigned}

-- `host_port_from_bindings`, on `NetworkSettings.Ports`: the host ports of each container port.
unfoldable pub host_port_from_bindings :
    List (String × Option (List (Option String))) → String → Option ℕ
host_port_from_bindings [] port_key = none
host_port_from_bindings ((key, bindings) ∷ ports) port_key =
    let rest = host_port_from_bindings ports port_key in
    if str_eq key port_key
    then elim bindings [ some (some port ∷ _) ↦ parse_unsigned 65535 (codes port) | _ ↦ none ]
    else rest

-- `is_ascii_alphanumeric() || '-' || '_'`.
abbrev is_name_code : ℕ → Bool
is_name_code c =
    (leb b'a' c && leb c b'z')
    || (leb b'A' c && leb c b'Z')
    || (leb b'0' c && leb c b'9')
    || (c == b'-')
    || (c == b'_')

-- The code points of the name: lower case, and "-" for what a name may not have.
unfoldable pub normalized_name : List ℕ → List ℕ
normalized_name [] = []
normalized_name (c ∷ cs) =
    (if is_name_code c then to_ascii_lowercase c else b'-') ∷ normalized_name cs

unfoldable pub file_transfers : DisplaySpec → String
file_transfers display = elim display.file_transfer_mode [
  | some upload_download ↦ "upload,download"
  | some upload ↦ "upload"
  | some download ↦ "download"
  | some none_mode ↦ "none"
  | none ↦ if display.file_transfer then "upload,download" else "none"
]

-- `format!("{key}={value}")`.
abbrev pub variable : String → String → String
variable key value = String.◌++◌ key (String.◌++◌ "=" value)

-- A Boolean as `format!` writes it.
abbrev shown : Bool → String
shown true = "true"
shown false = "false"

abbrev wayland_variables : Option Bool → List String
wayland_variables none = []
wayland_variables (some wayland) = variable "PIXELFLUX_WAYLAND" (shown wayland) ∷ []

abbrev size_variables : Option ℕ → Option ℕ → List String
size_variables (some width) (some height) =
    variable "SELKIES_MANUAL_WIDTH" (decimal width)
    ∷ variable "SELKIES_MANUAL_HEIGHT" (decimal height)
    ∷ []
size_variables _ _ = []

abbrev manual_gpu_nodes : EnvironmentSpec → Bool
manual_gpu_nodes spec =
    is_some (get_value "DRI_NODE" spec.extra_environment)
    || is_some (get_value "DRINODE" spec.extra_environment)

abbrev gpu_variables : GpuMode → Bool → List String
gpu_variables disabled manual = []
gpu_variables dri manual = if manual then [] else "AUTO_GPU=true" ∷ []
gpu_variables nvidia manual = if manual then [] else "AUTO_GPU=true" ∷ []

abbrev pub extra_variables : List (String × String) → List String
extra_variables [] = []
extra_variables ((key, value) ∷ rest) = variable key value ∷ extra_variables rest

-- The variables that the program sets itself, before those of the spec.
unfoldable pub own_variables : String → EnvironmentSpec → List String
unfolding file_transfers
own_variables resource_id spec =
    (variable "PUID" (decimal spec.identity.uid)
      ∷ variable "PGID" (decimal spec.identity.gid)
      ∷ variable "TZ" spec.identity.timezone
      ∷ variable "CUSTOM_USER" (String.◌++◌ "webtop-" resource_id)
      ∷ "FILE__PASSWORD=/run/webtop-manager/password"
      ∷ variable "LC_ALL" spec.identity.locale
      ∷ variable "SELKIES_AUDIO_ENABLED" (shown spec.display.audio)
      ∷ variable "SELKIES_CLIPBOARD_ENABLED" (shown spec.display.clipboard)
      ∷ variable "SELKIES_FILE_TRANSFERS" (file_transfers spec.display)
      ∷ [])
    ++ (wayland_variables spec.display.wayland
        ++ size_variables spec.display.width spec.display.height)

unfoldable pub container_variables : String → EnvironmentSpec → List String
unfolding own_variables
container_variables resource_id spec =
    own_variables resource_id spec
    ++ (extra_variables spec.extra_environment
        ++ gpu_variables spec.display.gpu (manual_gpu_nodes spec))

-- `host:container:mode`.
abbrev bind : String → String → String → String
bind host target mode =
    String.◌++◌ host (String.◌++◌ ":" (String.◌++◌ target (String.◌++◌ ":" mode)))

abbrev mount_bind : MountSpec → String
mount_bind m = bind m.host_path m.container_path (if m.read_only then "ro" else "rw")

unfoldable pub container_binds : String → String → EnvironmentSpec → List String
container_binds config_path secret_path spec =
    (bind config_path "/config" "rw" ∷ bind secret_path "/run/webtop-manager/password" "ro" ∷ [])
    ++ (map mount_bind spec.mounts
        ++ (if spec.security.docker_socket
            then "/var/run/docker.sock:/var/run/docker.sock:rw" ∷ []
            else []))

-- A device is mapped to its own path, with all permissions.
unfoldable pub container_devices : EnvironmentSpec → List String
container_devices spec = elim spec.display.gpu [
  | dri ↦ elim spec.security.devices [ [] ↦ "/dev/dri" ∷ [] | d ∷ ds ↦ d ∷ ds ]
  | _ ↦ spec.security.devices
]

abbrev security_options : SeccompMode → List String
security_options default_mode = "no-new-privileges=true" ∷ []
security_options unconfined = "no-new-privileges=true" ∷ "seccomp=unconfined" ∷ []

-- The part of `ContainerCreateBody` and its `HostConfig` that the code sets. A limit of the CPUs is a
-- float in the spec, and the product with 10⁹ is a parameter.
pub record ContainerBody : Type 0 where
  pub name : List ℕ
  pub image : String
  pub env : List String
  pub labels : List (String × String)
  pub exposed_ports : List String
  pub binds : List String
  pub port_bindings : List (String × String × String)
  pub unless_stopped : Bool
  pub shm_size : ℤ
  pub memory : Option ℤ
  pub nano_cpus : Option ℤ
  pub privileged : Bool
  pub security_opt : List String
  pub devices : List String
  pub nvidia_request : Bool
  pub group_add : Option String

abbrev wants_nvidia : GpuMode → Bool
wants_nvidia nvidia = true
wants_nvidia _ = false

abbrev cpus : (ℕ → ℤ) → Option ℕ → Option ℤ
cpus scale none = none
cpus scale (some limit) = some (scale limit)

-- What `create_environment_container_inner` asks the daemon for; `gid` is the group of the socket.
unfoldable pub container_body :
    (ℕ → ℤ) → Option ℕ → String → EnvironmentSpec → String → String → ContainerBody
unfolding normalized_name container_variables container_binds container_devices webtop_https_port
container_body scale gid resource_id spec config_path secret_path =
    let port_key = String.◌++◌ (decimal (webtop_https_port spec)) "/tcp" in
    record {
      name =
          codes "webtop-manager-"
          ++ (normalized_name (codes spec.name) ++ (b'-' ∷ codes resource_id));
      image = spec.image;
      env = container_variables resource_id spec;
      labels =
          (owner_label, "managed")
          ∷ (resource_id_label, resource_id)
          ∷ (resource_kind_label, "environment")
          ∷ [];
      exposed_ports = port_key ∷ [];
      binds = container_binds config_path secret_path spec;
      port_bindings = (port_key, "127.0.0.1", "") ∷ [];
      unless_stopped = true;
      shm_size = spec.resources.shm_bytes;
      memory = spec.resources.memory_bytes;
      nano_cpus = cpus scale spec.resources.cpu_limit;
      privileged = false;
      security_opt = security_options spec.security.seccomp;
      devices = container_devices spec;
      nvidia_request = wants_nvidia spec.display.gpu;
      group_add = elim gid [ none ↦ none | some g ↦ some (decimal g) ];
    }

-- The daemon's calls that make a container.
pub record ContainerCalls (D : Type 0) : Type 0 where
  pub socket_group : Call D ℕ
  pub create_container : ContainerBody → Call D String
  pub start_container : String → Call D (Unit {0})
  pub remove_container_force : String → Call D (Unit {0})
  pub local_port : String → EnvironmentSpec → Call D (Option ℕ)

module _ {D : Type 0} (calls : ContainerCalls D) (scale : ℕ → ℤ) where
  abbrev group_of : Bool → Call D (Option ℕ)
  group_of false d = (ok none, d)
  group_of true d =
      let r = calls.socket_group d in
      elim r.0 [ ok gid ↦ (ok (some gid), r.1) | err e ↦ (err e, r.1) ]

  abbrev created : String → Option ℕ → CreatedContainer
  created id port = record { id = id; local_port = port }

  -- A container that does not start is removed by force.
  abbrev start_or_remove : String → Call D (Unit {0})
  start_or_remove id =
      or_clean (calls.start_container id) (λ d. (calls.remove_container_force id d).1)

  unfoldable pub create_environment_container_inner :
      String → EnvironmentSpec → String → String → Call D CreatedContainer
  unfolding container_body
  create_environment_container_inner resource_id spec config_path secret_path = do
    gid ← group_of spec.security.docker_socket
    id ← calls.create_container (container_body scale gid resource_id spec config_path secret_path)
    start_or_remove id
    port ← calls.local_port id spec
    pure (created id port)
