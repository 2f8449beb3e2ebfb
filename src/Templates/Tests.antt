-- ===== src/Templates/Tests.antt =====
-- The code of crates/controller/src/templates.rs on concrete inputs.

use webtop_manager.Prelude.{ℕ, String, true, false, ◌≡◌, refl, none, some, List, [], ◌∷◌, mem}
use webtop_manager.Prelude.Results.{ok, err}
use webtop_manager.Contracts.Errors.{ErrorCode}
use webtop_manager.Contracts.Failures
use webtop_manager.Database.Records.{Operation, OperationKind, OperationPhase, failed, cancelled}
use webtop_manager.Database.State.{empty_database}
use webtop_manager.Database.Operations.{store_operation, insert_operation_json}
use webtop_manager.Database.Table.{select}
use webtop_manager.Controller.State.{AppState}
use webtop_manager.Templates.Jobs.{
  cancelled_job, contains, docker_images, new_operation, accept_job, reserve_resources, end_task,
  end_cancellable_task,
}
use webtop_manager.Templates.Reservation.{
  held, is_granted, may_reserve, after_reserve, reserve_resources-refines,
}
use webtop_manager.Templates.Ending.{
  HasPhase, end_task-ends, end_cancellable_task-ends, accept_job-leaks,
}

abbrev clock : ℕ → ℕ
clock d = d

abbrev code_name : ErrorCode → String
code_name c = "InvalidRequest"

abbrev operation : Operation
operation = new_operation 7 0 OperationKind.export_template (some 3)

abbrev exporting : OperationPhase → Operation
exporting phase = record operation { phase = phase }

abbrev resources : List String
resources = docker_images ∷ "template:3" ∷ []

abbrev with_rows : List Operation → List String → AppState ℕ
with_rows [] active = record {
  database = empty_database;
  docker = 0;
  token_file = record { contents = none; readable = true; writable = true };
  pull_cancellations = [];
  operation_cancellations = [];
  active_resources = active;
}
with_rows (o ∷ os) active = record (with_rows os active) {
  database = record (empty_database) { operations = store_operation o none ∷ [] };
  operation_cancellations = 7 ∷ [];
}

abbrev idle : AppState ℕ
idle = with_rows [] []

abbrev busy : AppState ℕ
busy = with_rows (operation ∷ []) resources

reserve_resources-refines_example :
    (is_granted (reserve_resources resources idle).0 ≡ may_reserve resources false (held idle))
    × ((x : String)
        → held (reserve_resources resources idle).1 x ≡ after_reserve resources false (held idle) x)
reserve_resources-refines_example = reserve_resources-refines resources idle

end_task-ends_example :
    HasPhase 7 failed (
      end_task clock code_name 7 resources
        (err (record { code = ErrorCode.internal; params = [] }))
        busy)
    × ((x : String)
        → contains resources x ≡ true
        → held
            (end_task clock code_name 7 resources
              (err (record { code = ErrorCode.internal; params = [] }))
              busy)
            x
          ≡ false)
unfolding store_operation select new_operation
end_task-ends_example =
    end_task-ends clock code_name 7 resources
      (err (record { code = ErrorCode.internal; params = [] })) busy
      (store_operation operation none, refl)

end_cancellable_task-ends_example :
    HasPhase 7 cancelled (end_cancellable_task clock code_name 7 resources (ok cancelled_job) busy)
    × ((x : String)
        → contains resources x ≡ true
        → held (end_cancellable_task clock code_name 7 resources (ok cancelled_job) busy) x ≡ false)
    × (mem 7
          (end_cancellable_task clock code_name 7 resources
            (ok cancelled_job)
            busy).operation_cancellations
        ≡ false)
unfolding store_operation select new_operation
end_cancellable_task-ends_example =
    end_cancellable_task-ends clock code_name 7 resources (ok cancelled_job) busy
      (store_operation operation none, refl)

accept_job-leaks_example :
    ((accept_job operation resources (with_rows (operation ∷ []) [])).0 ≡ err Failures.internal)
    × ((x : String)
        → contains resources x ≡ true
        → held (accept_job operation resources (with_rows (operation ∷ []) [])).1 x ≡ true)
unfolding reserve_resources insert_operation_json store_operation new_operation
accept_job-leaks_example =
    accept_job-leaks operation resources (with_rows (operation ∷ []) []) refl refl
