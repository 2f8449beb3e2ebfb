-- ===== src/Templates/Races.antt =====
-- A cancellation that crosses the end of its job (`cancel_operation` of
-- crates/controller/src/templates.rs).
use webtop_manager.Prelude.{ℕ, String, false, ◌≡◌, none, List, arith, mem, inl, inr, Option-cases}
use webtop_manager.Prelude.Results.{Result}
use webtop_manager.Contracts.Errors.{ErrorCode, ApiError}
use webtop_manager.Database.Table.{select}
use webtop_manager.Database.Records.{Operation, OperationPhase, rolling_back}
use webtop_manager.Database.Operations.{get_operation, row_id}
use webtop_manager.Controller.State.{AppState}
use webtop_manager.Templates.Jobs.{
  CancellableJobOutcome, operation_log, set_operation, end_cancellable_task,
}
use webtop_manager.Templates.Ending.{
  HasPhase, IsStored, final_cancellable_phase, logged-HasPhase, end_cancellable_task-ends,
}
use webtop_manager.Templates.Cancelling.{record_cancellation}

HasPhase-IsStored :
    {D : Type 0} (id : ℕ) (phase : OperationPhase) (s : AppState D)
    → HasPhase id phase s
    → IsStored id s
unfolding get_operation
HasPhase-IsStored id phase s (o, found, same) =
    elim (Option-cases (select row_id id s.database.operations)) [
      | inl absent ↦ absurd (ground (arith, absent, found))
      | inr (r, there) ↦ (r, there)
    ]

module _ {D : Type 0} (clock : D → ℕ) (send : ℕ → D → Result (Unit {0}) D) where
  abbrev stop_line : String
  stop_line = "[controller] stop requested; cleaning intermediate artifacts"

  record_cancellation_lem :
      (id : ℕ) (o : Operation) (s : AppState D)
      → (record_cancellation clock send id o s).1
        ≡ set_operation clock id rolling_back o.progress_percent none none
            (operation_log clock {E = ApiError} id stop_line s).1
  unfolding record_cancellation operation_log set_operation
  record_cancellation_lem id o s = ground arith

  recorded-channels :
      (id : ℕ) (o : Operation) (s : AppState D)
      → (record_cancellation clock send id o s).1.operation_cancellations
        ≡ s.operation_cancellations
  unfolding record_cancellation operation_log set_operation
  recorded-channels id o s = ground arith

  -- Where the job ends, whatever its result, between the two parts of a cancellation: its operation has
  -- the phase of the result, then the second part sets it to rolling back, and the channel is gone, so
  -- that no later cancellation reaches it.
  pub record_cancellation-overwrites :
      (code_name : ErrorCode → String) (id : ℕ) (resources : List String)
      (result : Result ApiError CancellableJobOutcome) (o : Operation) (s : AppState D)
      → IsStored id s
      → HasPhase id
          (final_cancellable_phase result)
          (end_cancellable_task clock code_name id resources result s)
        × HasPhase id rolling_back
            (record_cancellation clock send id o
              (end_cancellable_task clock code_name id resources result s)).1
        × (mem id
              (record_cancellation clock send id o (
                end_cancellable_task clock code_name id resources result
                  s)).1.operation_cancellations
            ≡ false)
  record_cancellation-overwrites code_name id resources result o s h =
      let ended = end_cancellable_task clock code_name id resources result s in
      let (phase, freed, closed) =
        end_cancellable_task-ends clock code_name id resources result s h in
      (
        phase,
        rw (record_cancellation_lem id o ended) (
            logged-HasPhase clock id stop_line rolling_back o.progress_percent none none ended
              (HasPhase-IsStored id (final_cancellable_phase result) ended phase)),
        rw (recorded-channels id o ended) closed,
      )
