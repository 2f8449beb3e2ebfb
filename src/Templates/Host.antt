-- ===== src/Templates/Host.antt =====
-- What crates/controller/src/templates.rs uses of the Docker daemon, the worker process and the file
-- system.
use webtop_manager.Database.Records.{Template}
use Prim.Native.String
use webtop_manager.Prelude.{ℕ, String, Bool, Option, none, some, List, if◌then◌else◌}
use webtop_manager.Prelude.Actions.{map_err}
use webtop_manager.Contracts.Errors.{ErrorCode}
use webtop_manager.Contracts.Spec.{ℤ, pos, negsuc, EnvironmentSpec}
use webtop_manager.Contracts.Paths.{is_absolute}
use webtop_manager.Controller.State.{AppState}
use webtop_manager.Controller.Docker.{Call, CreatedContainer}
use webtop_manager.Controller.Frpc.{call}
use webtop_manager.Templates.Jobs.{Job, docker_error}
use webtop_manager.Templates.Images.{Labels, ImageConfig, ImageInspect}

-- What `inspect_container` tells of a container.
pub record ContainerInspect : Type 0 where
  pub running : Option Bool
  pub labels : Option Labels
  pub image : Option String
  pub size_rw : Option ℤ

-- `WorkerReport`.
pub record WorkerReport : Type 0 where
  pub files : ℕ
  pub directories : ℕ
  pub symlinks : ℕ
  pub skipped_special : ℕ
  pub original_bytes : ℕ
  pub archive_bytes : Option ℕ
  pub sha256 : Option String
  pub sensitive_paths : List String

-- The jobs that `run_worker` writes to the file that the worker reads.
pub data WorkerJob : Type 0 where
  preflight_job : String → WorkerJob
  snapshot_job restore_job : String → String → WorkerJob

pub record Host (D : Type 0) : Type 0 where
  pub clock : D → ℕ
  pub reread_template : Template → Template
  pub code_name : ErrorCode → String
  pub human_bytes : ℕ → String
  pub snapshot_root : String
  pub environment_root : String
  pub staging_root : String
  pub is_file : String → D → Bool
  pub path_exists : String → D → Bool
  pub statvfs : D → Option (ℕ × ℕ)
  pub try_exists : String → Call D Bool
  pub create_dir_all : String → Call D (Unit {0})
  pub write_secret : String → Call D (Unit {0})
  pub remove_file : String → Call D (Unit {0})
  pub remove_dir : String → Call D (Unit {0})
  pub remove_dir_all : String → Call D (Unit {0})
  pub hash_file : String → Call D (String × ℕ)
  pub run_worker : WorkerJob → Call D WorkerReport
  pub inspect_image : String → Call D ImageInspect
  pub inspect_registry_image : String → Call D (Option String)
  pub remove_image : String → Bool → Call D (Unit {0})
  pub inspect_container : String → Call D ContainerInspect
  pub download_from_container : String → String → Call D (Option (Unit {0}))
  pub commit_container : String → ℕ → ImageConfig → Call D String
  pub create_environment_container_from_local_image : ℕ → EnvironmentSpec → Call D CreatedContainer
  pub stop : String → Call D (Unit {0})
  pub remove : String → Call D (Unit {0})

-- `root.join(path)`.
unfoldable pub join : String → String → String
join root path = if is_absolute path then path else String.◌++◌ root (String.◌++◌ "/" path)

-- `value.unwrap_or_default().max(0) as u64`.
abbrev pub size_of : Option ℤ → ℕ
size_of none = 0
size_of (some (pos n)) = n
size_of (some (negsuc n)) = 0

module _ {D : Type 0} where
  -- `let _ = call;`.
  abbrev pub try : {A : Type 0} → Call D A → AppState D → AppState D
  try c s = record s { docker = (c s.docker).1 }

  -- `call.map_err(docker_error)?`.
  abbrev pub docker_call : {A : Type 0} → Call D A → Job D A
  docker_call c = map_err (λ _. docker_error) (call c)
