-- ===== src/Database/Operations.antt =====
-- The `operations` table: insertion, progress, the log, and recovery after a restart
-- (crates/controller/src/database.rs).
use mathlib.Core.List.{tail}
use webtop_manager.Prelude.{
  ℕ, ◌%◌, Bool, true, false, Option, none, some, List, [], ◌∷◌, ◌++◌, String, leb, length,
  if◌then◌else◌, is_some, ◌&&◌,
}
use webtop_manager.Prelude.Results.{Result, ok, err}
use webtop_manager.Contracts.Errors.{ApiError, ErrorCode}
use webtop_manager.Contracts.Spec.{ℤ, pos, negsuc}
use webtop_manager.Database.Table.{select, update}
use webtop_manager.Database.Records.{
  Operation, OperationRow, OperationKind, pull_image, OperationPhase, queued, succeeded, failed,
  cancelled, retryable, OperationRequest,
}
use webtop_manager.Database.State.{Database}

abbrev pub row_id : OperationRow → ℕ
row_id r = r.id

-- `progress_percent.map(i64::from).unwrap_or(-1)`.
unfoldable pub store_progress : Option ℕ → ℤ
store_progress none = negsuc 0
store_progress (some p) = pos p

-- `(progress >= 0).then_some(progress as u8)`.
unfoldable pub load_progress : ℤ → Option ℕ
load_progress (pos p) = some (p % 256)
load_progress (negsuc p) = none

abbrev pub error_code : Option ApiError → Option ErrorCode
error_code none = none
error_code (some e) = some e.code

abbrev pub error_params : Option ApiError → Option (List (String × String))
error_params none = none
error_params (some e) = some e.params

unfoldable pub store_operation : Operation → Option OperationRequest → OperationRow
unfolding store_progress
store_operation o request = record {
  id = o.id;
  kind = o.kind;
  phase = o.phase;
  progress_percent = store_progress o.progress_percent;
  cancellable = o.cancellable;
  resource_id = o.resource_id;
  error_code = error_code o.error;
  error_params = error_params o.error;
  result = o.result;
  log_lines = o.log_lines;
  request = request;
  created_at = some o.created_at;
  updated_at = o.updated_at;
}

abbrev load_error : Option ErrorCode → Option (List (String × String)) → Option ApiError
load_error none params = none
load_error (some code) none = some (record { code = code; params = [] })
load_error (some code) (some params) = some (record { code = code; params = params })

-- `parse_operation`.
unfoldable pub parse_operation : OperationRow → Operation
unfolding load_progress
parse_operation r = record {
  id = r.id;
  kind = r.kind;
  phase = r.phase;
  progress_percent = load_progress r.progress_percent;
  cancellable = r.cancellable;
  resource_id = r.resource_id;
  error = load_error r.error_code r.error_params;
  result = r.result;
  log_lines = r.log_lines;
  created_at = elim r.created_at [ none ↦ r.updated_at | some t ↦ t ];
  updated_at = r.updated_at;
}

-- `insert_operation_json`: the insertion fails where the primary key is taken.
unfoldable pub insert_operation_json :
    Operation → Option OperationRequest → Database → Result (Unit {0}) Database
unfolding store_operation select
insert_operation_json o request db =
    if is_some (select row_id o.id db.operations)
    then err tt
    else ok (record db { operations = db.operations ++ store_operation o request ∷ [] })

-- The last line goes in, and the first one out where 200 are there.
unfoldable pub push_log : String → List String → List String
push_log line log = if leb 200 (length log) then tail log ++ line ∷ [] else log ++ line ∷ []

unfoldable pub append_operation_log : ℕ → ℕ → String → Database → Database
unfolding update push_log
append_operation_log now id line db = record db {
  operations =
      update row_id id (λ r. record r { log_lines = push_log line r.log_lines; updated_at = now })
        db.operations;
}

unfoldable pub get_operation_request : ℕ → Database → Option OperationRequest
unfolding select
get_operation_request id db = elim (select row_id id db.operations) [
  | none ↦ none
  | some r ↦ r.request
]

abbrev pub set_row :
    ℕ → OperationPhase → Option ℕ → Option ApiError → Option String → OperationRow → OperationRow
set_row now phase progress error result r = record r {
  phase = phase;
  progress_percent = store_progress progress;
  error_code = error_code error;
  error_params = error_params error;
  result = result;
  updated_at = now;
}

unfoldable pub update_operation :
    ℕ → ℕ → OperationPhase → Option ℕ → Option ApiError → Option String → Database → Database
unfolding update store_progress
update_operation now id phase progress error result db = record db {
  operations = update row_id id (set_row now phase progress error result) db.operations;
}

unfoldable pub get_operation : ℕ → Database → Option Operation
unfolding select parse_operation
get_operation id db = elim (select row_id id db.operations) [
  | none ↦ none
  | some r ↦ some (parse_operation r)
]

abbrev pub is_finished : OperationPhase → Bool
is_finished succeeded = true
is_finished failed = true
is_finished cancelled = true
is_finished retryable = true
is_finished _ = false

-- The filter of `list_unfinished_operations`.
unfoldable pub unfinished : List OperationRow → List Operation
unfolding parse_operation
unfinished [] = []
unfinished (r ∷ rs) =
    let rest = unfinished rs in if is_finished r.phase then rest else parse_operation r ∷ rest

unfoldable pub list_unfinished_operations : Database → List Operation
unfolding unfinished
list_unfinished_operations db = unfinished db.operations

abbrev pub is_pull : OperationKind → Bool
is_pull pull_image = true
is_pull _ = false

-- The test of the loop of `recover_unfinished_operations`.
unfoldable pub is_resumable : Operation → Database → Bool
unfolding get_operation_request
is_resumable o db = is_pull o.kind && is_some (get_operation_request o.id db)

unfoldable pub recover_each : ℕ → List Operation → Database → Database × List Operation
recover_each now [] db = (db, [])
recover_each now (o ∷ os) db =
    let resumed = is_resumable o db in
    let phase = if resumed then queued else retryable in
    let (db', resumable) =
      recover_each now os (update_operation now o.id phase o.progress_percent none none db) in
    (db', if resumed then o ∷ resumable else resumable)

unfoldable pub recover_unfinished_operations : ℕ → Database → Database × List Operation
recover_unfinished_operations now db = recover_each now (list_unfinished_operations db) db
