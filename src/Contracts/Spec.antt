-- ===== src/Contracts/Spec.antt =====
-- `EnvironmentSpec` and its parts, with their defaults (crates/contracts/src/lib.rs).
use webtop_manager.Prelude.{ℕ, String, Bool, true, false, Option, none, List, [], ◌*◌}

-- An `i64`: `negsuc n` is -(n + 1).
pub data ℤ : Type 0 where
  pos : ℕ → ℤ
  negsuc : ℕ → ℤ

abbrev pub default_webtop_image : String
default_webtop_image = "lscr.io/linuxserver/webtop:ubuntu-mate"

abbrev pub webtop_https_port_default : ℕ
webtop_https_port_default = 3001

abbrev pub default_shm_bytes : ℕ
default_shm_bytes = 1024 * 1024 * 1024

pub record IdentitySpec : Type 0 where
  pub uid : ℕ
  pub gid : ℕ
  pub timezone : String
  pub locale : String

-- `cpu_limit` is an `Option<f64>`; the value is kept as the float's bit pattern.
pub record ResourceSpec : Type 0 where
  pub cpu_limit : Option ℕ
  pub memory_bytes : Option ℤ
  pub shm_bytes : ℤ

pub data FileTransferMode : Type 0 where
  upload_download upload download none_mode : FileTransferMode

pub data GpuMode : Type 0 where
  disabled dri nvidia : GpuMode

pub record DisplaySpec : Type 0 where
  pub width : Option ℕ
  pub height : Option ℕ
  pub wayland : Option Bool
  pub gpu : GpuMode
  pub audio : Bool
  pub clipboard : Bool
  pub file_transfer : Bool
  pub file_transfer_mode : Option FileTransferMode

-- A `PathBuf` is its text.
pub record MountSpec : Type 0 where
  pub host_path : String
  pub container_path : String
  pub read_only : Bool

pub data SeccompMode : Type 0 where
  default_mode unconfined : SeccompMode

pub record SecuritySpec : Type 0 where
  pub docker_socket : Bool
  pub docker_socket_gid : Option ℕ
  pub privileged : Bool
  pub seccomp : SeccompMode
  pub devices : List String

pub record PublicationSpec : Type 0 where
  pub enabled : Bool
  pub remote_port : Option ℕ
  pub automatic_port : Bool

-- `extra_environment` is a `BTreeMap<String, String>`, listed by key.
pub record EnvironmentSpec : Type 0 where
  pub name : String
  pub image : String
  pub identity : IdentitySpec
  pub resources : ResourceSpec
  pub display : DisplaySpec
  pub mounts : List MountSpec
  pub security : SecuritySpec
  pub extra_environment : List (String × String)
  pub publication : PublicationSpec

-- `EnvironmentSpec::default()`.
abbrev pub default_environment_spec : EnvironmentSpec
default_environment_spec = record {
  name = "";
  image = default_webtop_image;
  identity = record { uid = 1000; gid = 1000; timezone = "Etc/UTC"; locale = "zh_CN.UTF-8" };
  resources = record { cpu_limit = none; memory_bytes = none; shm_bytes = pos default_shm_bytes };
  display = record {
    width = none;
    height = none;
    wayland = none;
    gpu = disabled;
    audio = true;
    clipboard = true;
    file_transfer = true;
    file_transfer_mode = none;
  };
  mounts = [];
  security = record {
    docker_socket = false;
    docker_socket_gid = none;
    privileged = false;
    seccomp = default_mode;
    devices = [];
  };
  extra_environment = [];
  publication = record { enabled = false; remote_port = none; automatic_port = false };
}
