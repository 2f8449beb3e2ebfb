-- ===== src/Templates/Cancelling.antt =====
-- Reading and cancelling an operation, and jobs that can be cancelled
-- (crates/controller/src/templates.rs). The channel of a cancellation is part of the state that is not
-- the program's: a job reads it, and another handler writes it between two steps of the job.
use webtop_manager.Prelude.{ℕ, String, Bool, not, Option, none, mem, if◌then◌else◌}
use webtop_manager.Prelude.Results.{Result, ok, err}
use webtop_manager.Prelude.Actions.{
  Action, ◌>>=◌, ◌>>◌, pure, gets, modify, map_err, ok_or, reject_if,
}
use webtop_manager.Contracts.Errors.{ErrorCode, ApiError, ApiFailure, plain_error}
use webtop_manager.Contracts.Failures
use webtop_manager.Database.Records.{Operation, rolling_back}
use webtop_manager.Database.Operations.{get_operation as get_row, is_finished}
use webtop_manager.Controller.State.{AppState, Handler}
use webtop_manager.Templates.Jobs.{
  Job, CancellableJobOutcome, completed, cancelled_job, operation_log, set_operation,
}

-- How a job that can be cancelled leaves before its end.
pub data Exit : Type 0 where
  failed_with : ApiError → Exit
  stopped : Exit

abbrev pub Step : Type 0 → Type 0 → Type 0
Step D A = Action (AppState D) Exit A

abbrev not_cancellable : ApiFailure
not_cancellable = record { status = 409; error = plain_error ErrorCode.operation_not_cancellable }

module _ {D : Type 0} where
  -- A part of a job that cannot be cancelled.
  abbrev pub step : {A : Type 0} → Job D A → Step D A
  step m = map_err failed_with m

  -- `if cancellation_requested(…) { return Ok(Cancelled); }`.
  abbrev pub unless_cancelled : (ℕ → D → Bool) → ℕ → Step D (Unit {0})
  unless_cancelled requested id = do
    stop ← gets (λ s. requested id s.docker)
    reject_if stop stopped

  -- The outcome of a job of such parts.
  unfoldable pub outcome_of : Step D String → Job D CancellableJobOutcome
  outcome_of m s =
      let r = m s in
      elim r.0 [
        | ok result ↦ (ok (completed result), r.1)
        | err stopped ↦ (ok cancelled_job, r.1)
        | err (failed_with e) ↦ (err e, r.1)
      ]

  unfoldable pub get_operation : ℕ → Handler D Operation
  get_operation id = do o ← gets (λ s. get_row id s.database); ok_or o Failures.invalid_request

  module _ (clock : D → ℕ) (send : ℕ → D → Result (Unit {0}) D) where
    abbrev roll_back : ℕ → Option ℕ → Action (AppState D) ApiFailure (Unit {0})
    roll_back id progress = modify (set_operation clock id rolling_back progress none none)

    -- `cancellation.send(true).map_err(invalid_request)?`. It fails where the job has returned, whose
    -- receiver is then gone.
    abbrev send_stop : ℕ → Handler D (Unit {0})
    send_stop id s = elim (send id s.docker) [
      | ok d ↦ (ok tt, record s { docker = d })
      | err e ↦ (err Failures.invalid_request, s)
    ]

    -- The part of `cancel_operation` from the test of `cancellable` to the sending. The job may run and
    -- end before the next part.
    unfoldable pub send_cancellation : ℕ → Operation → Handler D (Unit {0})
    send_cancellation id o = do
      reject_if (not o.cancellable) not_cancellable
      running ← gets (λ s. mem id s.operation_cancellations)
      reject_if (not running) Failures.invalid_request
      send_stop id

    -- The part behind the sending.
    unfoldable pub record_cancellation : ℕ → Operation → Handler D Operation
    unfolding get_operation operation_log set_operation
    record_cancellation id o = do
      operation_log clock id "[controller] stop requested; cleaning intermediate artifacts"
      roll_back id o.progress_percent
      get_operation id

    -- The part of `cancel_operation` behind its read of the operation; nothing else runs meanwhile.
    unfoldable pub cancel_read_operation : ℕ → Operation → Handler D Operation
    unfolding send_cancellation record_cancellation
    cancel_read_operation id o =
        if is_finished o.phase then pure o else (send_cancellation id o >> record_cancellation id o)

    unfoldable pub cancel_operation : ℕ → Handler D Operation
    unfolding get_operation cancel_read_operation
    cancel_operation id = do o ← get_operation id; cancel_read_operation id o
