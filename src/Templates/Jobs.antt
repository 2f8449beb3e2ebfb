-- ===== src/Templates/Jobs.antt =====
-- Jobs of crates/controller/src/templates.rs: their operations, their log, the resources that they
-- reserve, and how they end.
use Prim.Native.String
use webtop_manager.Prelude.{
  ℕ, String, Bool, true, false, not, ◌&&◌, ◌||◌, ◌==◌, Option, none, some, List, [], ◌∷◌, ◌++◌, any,
  keep, str_eq, if◌then◌else◌,
}
use webtop_manager.Prelude.Text.{filter_text, take_text, is_control}
use webtop_manager.Prelude.Results.{Result, ok, err}
use webtop_manager.Prelude.Actions.{
  Action, ◌>>=◌, ◌>>◌, pure, gets, modify, lift, map_err, ok_or, reject_if,
}
use webtop_manager.Contracts.Errors.{ErrorCode, ApiError, plain_error}
use webtop_manager.Contracts.Failures
use webtop_manager.Database.Records.{
  EnvironmentRecord, Operation, OperationKind, OperationPhase, queued, succeeded, failed, cancelled,
  create_template, export_template, import_template, restore_template, Template,
}
use webtop_manager.Database.State.{Database}
use webtop_manager.Database.Operations.{
  append_operation_log, insert_operation_json, update_operation as update_row,
}
use webtop_manager.Database.Environments.{get_environment}
use webtop_manager.Database.Templates.{get_template}
use webtop_manager.Controller.State.{AppState, Handler, with_database}

abbrev pub Job : Type 0 → Type 0 → Type 0
Job D A = Action (AppState D) ApiError A

abbrev pub invalid_error : ApiError
invalid_error = plain_error ErrorCode.invalid_request

abbrev pub busy_error : ApiError
busy_error = plain_error ErrorCode.resource_busy

abbrev pub internal_error : ApiError
internal_error = plain_error ErrorCode.internal

abbrev pub docker_error : ApiError
docker_error = plain_error ErrorCode.docker_unavailable

-- `CancellableJobOutcome`; a JSON value is its text.
pub data CancellableJobOutcome : Type 0 where
  completed : String → CancellableJobOutcome
  cancelled_job : CancellableJobOutcome

abbrev command : OperationKind → String
command create_template = "$ webtop-manager template create"
command export_template = "$ webtop-manager template export"
command import_template = "$ webtop-manager template import"
command restore_template = "$ webtop-manager template restore"
command _ = "$ webtop-manager operation start"

abbrev is_cancellable : OperationKind → Bool
is_cancellable export_template = true
is_cancellable import_template = true
is_cancellable _ = false

-- The id and the time are those that the code draws.
unfoldable pub new_operation : ℕ → ℕ → OperationKind → Option ℕ → Operation
new_operation id now kind resource_id = record {
  id = id;
  kind = kind;
  phase = queued;
  progress_percent = some 0;
  cancellable = is_cancellable kind;
  resource_id = resource_id;
  error = none;
  result = none;
  log_lines = command kind ∷ "[controller] queued" ∷ [];
  created_at = now;
  updated_at = now;
}

abbrev is_printed : ℕ → Bool
is_printed c = not (is_control c) || (c == 9)

unfoldable pub log_line : String → String
log_line value = take_text 512 (filter_text is_printed value)

-- The line goes to the log unless nothing of it is left.
abbrev log_row : ℕ → ℕ → String → Database → Database
log_row now id line db = if str_eq line "" then db else append_operation_log now id line db

-- The two resources of an image pull and of the jobs that change images.
abbrev pub docker_images : String
docker_images = "docker-images"

-- `HashSet::contains`, and `remove`.
abbrev pub contains : List String → String → Bool
contains xs x = any (str_eq x) xs

unfoldable pub remove_resource : String → List String → List String
remove_resource r active = keep (λ a. not (str_eq a r)) active

unfoldable pub remove_resources : List String → List String → List String
unfolding remove_resource
remove_resources [] active = active
remove_resources (r ∷ rs) active = remove_resources rs (remove_resource r active)

abbrev pub is_empty : List ℕ → Bool
is_empty [] = true
is_empty (x ∷ xs) = false

-- What the program reads of the clock: the time is part of the state that is not the program's.
module _ {D : Type 0} (clock : D → ℕ) where
  unfoldable pub operation_log : {E : Type 0} → ℕ → String → Action (AppState D) E (Unit {0})
  unfolding log_line
  operation_log id value =
      modify (λ s. with_database (log_row (clock s.docker) id (log_line value)) s)

  unfoldable pub set_operation :
      ℕ → OperationPhase → Option ℕ → Option ApiError → Option String → AppState D → AppState D
  set_operation id phase progress error result s =
      with_database (update_row (clock s.docker) id phase progress error result) s

  unfoldable pub update_operation : ℕ → OperationPhase → Option ℕ → Job D (Unit {0})
  unfolding set_operation
  update_operation id phase progress = modify (set_operation id phase progress none none)

  -- The line of a failure names the error by its code.
  unfoldable pub finish_job :
      (ErrorCode → String) → ℕ → Result ApiError String → AppState D → AppState D
  unfolding operation_log set_operation
  finish_job code_name id (ok result) s =
      set_operation id succeeded (some 100) none (some result)
        (operation_log {E = ApiError} id "[controller] operation completed" s).1
  finish_job code_name id (err error) s =
      set_operation id failed none (some error) none
        (operation_log {E = ApiError} id
          (String.◌++◌ "[controller] operation failed: " (code_name error.code)) s).1

  unfoldable pub finish_cancellable_job :
      (ErrorCode → String) → ℕ → Result ApiError CancellableJobOutcome → AppState D → AppState D
  unfolding finish_job operation_log set_operation
  finish_cancellable_job code_name id (ok (completed result)) s =
      finish_job code_name id (ok result) s
  finish_cancellable_job code_name id (ok cancelled_job) s =
      set_operation id cancelled none none none
        (operation_log {E = ApiError} id
          "[controller] operation cancelled; intermediate artifacts removed" s).1
  finish_cancellable_job code_name id (err error) s = finish_job code_name id (err error) s

module _ {D : Type 0} where
  unfoldable pub reserve_resources : List String → Handler D (Unit {0})
  reserve_resources resources = do
    pulling ← gets (λ s. not (is_empty s.pull_cancellations))
    reject_if (any (λ r. str_eq r docker_images) resources && pulling) Failures.resource_busy
    active ← gets (λ s. s.active_resources)
    reject_if (any (contains active) resources) Failures.resource_busy
    modify (λ s. record s { active_resources = s.active_resources ++ resources })

  unfoldable pub release_resources : List String → AppState D → AppState D
  unfolding remove_resources
  release_resources resources s = record s {
    active_resources = remove_resources resources s.active_resources;
  }

  -- `insert_operation(…).map_err(internal)?`.
  unfoldable pub insert_operation : Operation → Handler D (Unit {0})
  insert_operation o = do
    db ← gets (λ s. insert_operation_json o none s.database)
    next ← map_err (λ _. Failures.internal) (lift db)
    modify (with_database (λ _. next))

  -- How each handler accepts a job: it reserves the resources and stores the operation.
  unfoldable pub accept_job : Operation → List String → Handler D Operation
  unfolding reserve_resources insert_operation
  accept_job o resources = do reserve_resources resources; insert_operation o; pure o

  unfoldable pub required_environment_value : ℕ → Job D EnvironmentRecord
  required_environment_value id = do
    environment ← gets (λ s. get_environment id s.database)
    ok_or environment invalid_error

  unfoldable pub required_template : ℕ → Handler D Template
  required_template id = do
    template ← gets (λ s. get_template id s.database)
    ok_or template Failures.invalid_request

  -- The end of a task that `tokio::spawn` runs, behind its job.
  unfoldable pub end_task :
      (D → ℕ)
      → (ErrorCode → String)
      → ℕ
      → List String
      → Result ApiError String
      → AppState D
      → AppState D
  unfolding finish_job release_resources
  end_task clock code_name id resources result s =
      release_resources resources (finish_job clock code_name id result s)

  abbrev pub close_channel : ℕ → AppState D → AppState D
  close_channel id s = record s {
    operation_cancellations = keep (λ k. not (k == id)) s.operation_cancellations;
  }

  -- A task that can be cancelled also has its channel taken away.
  unfoldable pub end_cancellable_task :
      (D → ℕ)
      → (ErrorCode → String)
      → ℕ
      → List String
      → Result ApiError CancellableJobOutcome
      → AppState D
      → AppState D
  unfolding finish_cancellable_job release_resources
  end_cancellable_task clock code_name id resources result s =
      release_resources resources
        (close_channel id (finish_cancellable_job clock code_name id result s))
