-- ===== src/Database/Tests.antt =====
-- The theorems on crates/controller/src/database.rs at concrete states.
use webtop_manager.Prelude.{
  ℕ, String, true, none, some, List, [], ◌∷◌, ◌++◌, ◌≡◌, refl, All, map, arith,
}
use webtop_manager.Contracts.Spec.{pos}
use webtop_manager.Database.Records.{OperationRow, OperationKind, OperationPhase, pull}
use webtop_manager.Database.State.{Database, empty_database}
use webtop_manager.Database.Table.{select}
use webtop_manager.Database.Keys.{HasKey}
use webtop_manager.Database.Operations.{row_id, recover_unfinished_operations}
use webtop_manager.Prelude.{◌≢◌}
use webtop_manager.Prelude.Results.{ok}
use webtop_manager.Database.Records.{Operation}
use webtop_manager.Database.Operations.{
  store_operation, insert_operation_json, get_operation, get_operation_request,
}
use webtop_manager.Database.RoundTrip.{insert_operation-get}
use webtop_manager.Database.Recovery.{
  recover_row, with_operations, resumed_rows, IsSettled, recover_unfinished_operations-map,
  recover_unfinished_operations-IsSettled,
}
use webtop_manager.Database.Log.{append_lines, texts, last_n, log_of, append_lines-last_n}

abbrev operation_row : ℕ → OperationKind → OperationRow
operation_row id kind = record {
  id = id;
  kind = kind;
  phase = OperationPhase.running;
  progress_percent = pos 40;
  cancellable = true;
  resource_id = none;
  error_code = none;
  error_params = none;
  result = none;
  log_lines = "started" ∷ [];
  request = some (pull (record { pull_id = id; reference = "image" }));
  created_at = some 1;
  updated_at = 1;
}

-- An interrupted image pull and an interrupted template export.
abbrev interrupted : Database
interrupted = record empty_database {
  operations =
      operation_row 1 OperationKind.pull_image ∷ operation_row 2 OperationKind.export_template ∷ [];
}

interrupted_key : HasKey row_id interrupted.operations
interrupted_key = (((λ e. absurd (omega (arith, e))), tt), (tt, tt))

recover_unfinished_operations-map_example : recover_unfinished_operations 9 interrupted ≡ (
  with_operations interrupted (map (recover_row 9) interrupted.operations),
  resumed_rows interrupted.operations,
)
recover_unfinished_operations-map_example =
    recover_unfinished_operations-map 9 interrupted interrupted_key

recover_unfinished_operations-IsSettled_example :
    All IsSettled (recover_unfinished_operations 9 interrupted).0.operations
recover_unfinished_operations-IsSettled_example =
    recover_unfinished_operations-IsSettled 9 interrupted interrupted_key

abbrev new_lines : List (ℕ × String)
new_lines = (2, "layer") ∷ (3, "done") ∷ []

log_found : log_of 1 interrupted ≡ some ("started" ∷ [])
unfolding log_of select
log_found = refl

append_lines-last_n_example :
    log_of 1 (append_lines 1 new_lines interrupted)
    ≡ some (last_n 200 (("started" ∷ []) ++ texts new_lines))
append_lines-last_n_example =
    append_lines-last_n 1 new_lines interrupted ("started" ∷ []) log_found (omega arith)

abbrev third_operation : Operation
third_operation = record {
  id = 3;
  kind = OperationKind.create_template;
  phase = OperationPhase.queued;
  progress_percent = some 10;
  cancellable = true;
  resource_id = none;
  error = none;
  result = none;
  log_lines = [];
  created_at = 5;
  updated_at = 5;
}

abbrev with_third : Database
with_third = record interrupted {
  operations = interrupted.operations ++ store_operation third_operation none ∷ [];
}

third_inserted : insert_operation_json third_operation none interrupted ≡ ok with_third
unfolding insert_operation_json
third_inserted = refl

insert_operation-get_example :
    (get_operation 3 with_third ≡ some third_operation)
    × (get_operation_request 3 with_third ≡ none)
    × ((j : ℕ) → j ≢ 3 → get_operation j with_third ≡ get_operation j interrupted)
insert_operation-get_example =
    insert_operation-get third_operation none interrupted with_third third_inserted (omega arith)
