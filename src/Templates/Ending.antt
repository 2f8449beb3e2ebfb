-- ===== src/Templates/Ending.antt =====
-- How a job ends (crates/controller/src/templates.rs).
use Prim.Native.String
use webtop_manager.Prelude.{
  inr, inl, [], ◌∷◌, str_eq, keep, mem, Bool-cases, Option, ℕ, String, true, false, ◌≡◌, refl, none,
  some, List, arith, ◌==◌, not,
}
use webtop_manager.Prelude.Results.{Result, ok, err}
use webtop_manager.Contracts.Errors.{ErrorCode, ApiError}
use webtop_manager.Contracts.Failures
use webtop_manager.Database.Table.{update, select, select-update}
use webtop_manager.Database.Records.{
  OperationRow, Operation, OperationPhase, succeeded, failed, cancelled,
}
use webtop_manager.Database.Operations.{
  push_log, set_row, row_id, get_operation, parse_operation, update_operation as update_row,
  append_operation_log, insert_operation_json,
}
use webtop_manager.Controller.State.{AppState}
use webtop_manager.Templates.Jobs.{
  close_channel, log_line, CancellableJobOutcome, completed, cancelled_job, contains, operation_log,
  set_operation, finish_job, finish_cancellable_job, reserve_resources, insert_operation,
  accept_job, release_resources, end_task, end_cancellable_task,
}
use webtop_manager.Templates.Reservation.{
  contains-append, held, is_granted, release_resources-refines,
}

-- The phase that a result leads to.
abbrev pub final_phase : Result ApiError String → OperationPhase
final_phase (ok result) = succeeded
final_phase (err e) = failed

abbrev pub final_cancellable_phase : Result ApiError CancellableJobOutcome → OperationPhase
final_cancellable_phase (ok (completed result)) = succeeded
final_cancellable_phase (ok cancelled_job) = cancelled
final_cancellable_phase (err e) = failed

-- The operation is stored, with the phase.
abbrev pub HasPhase : {D : Type 0} → ℕ → OperationPhase → AppState D → Type 0
HasPhase id phase s = (o : Operation) × (get_operation id s.database ≡ some o) × (o.phase ≡ phase)

abbrev pub IsStored : {D : Type 0} → ℕ → AppState D → Type 0
IsStored id s = (r : OperationRow) × (select row_id id s.database.operations ≡ some r)

mem-keep_other : (id : ℕ) (ids : List ℕ) → mem id (keep (λ k. not (k == id)) ids) ≡ false
mem-keep_other id [] = refl
mem-keep_other id (k ∷ ids) = ground (arith, mem-keep_other id ids)

module _ {D : Type 0} (clock : D → ℕ) where
  pub set_operation-HasPhase :
      (id : ℕ) (phase : OperationPhase) (progress : Option ℕ) (error : Option ApiError)
      (result : Option String) (s : AppState D)
      → IsStored id s
      → HasPhase id phase (set_operation clock id phase progress error result s)
  unfolding set_operation get_operation update_row parse_operation
  set_operation-HasPhase id phase progress error result s (r, found) =
      let f = set_row (clock s.docker) phase progress error result in
      let next : select row_id id (update row_id id f s.database.operations) ≡ some (f r) =
        ground (arith, select-update row_id id id f s.database.operations (λ x. refl), found) in
      (parse_operation (f r), rw (get_operation, next) refl, refl)

  log_row-IsStored :
      (id : ℕ) (line : String) (s : AppState D)
      → IsStored id s
      → IsStored id (operation_log clock {E = ApiError} id line s).1
  unfolding operation_log append_operation_log
  log_row-IsStored id line s (r, found) = elim (Bool-cases (str_eq (log_line line) "")) [
    | inl empty ↦ (r, ground (arith, empty, found))
    | inr written ↦
        let f : OperationRow → OperationRow = λ x. record x {
          log_lines = push_log (log_line line) x.log_lines;
          updated_at = clock s.docker;
        } in
        (
          f r,
          ground (
            arith,
            written,
            found,
            select-update row_id id id f s.database.operations (λ x. refl),
          ),
        )
  ]

  -- A last line in the log, and the final phase.
  pub logged-HasPhase :
      (id : ℕ) (line : String) (phase : OperationPhase) (progress : Option ℕ)
      (error : Option ApiError) (result : Option String) (s : AppState D)
      → IsStored id s
      → HasPhase id phase (
          set_operation clock id phase progress error result
            (operation_log clock {E = ApiError} id line s).1)
  logged-HasPhase id line phase progress error result s h =
      set_operation-HasPhase id phase progress error result
        (operation_log clock {E = ApiError} id line s).1 (log_row-IsStored id line s h)

module _ {D : Type 0} (clock : D → ℕ) (code_name : ErrorCode → String) where
  finish_job-HasPhase :
      (id : ℕ) (result : Result ApiError String) (s : AppState D)
      → IsStored id s
      → HasPhase id (final_phase result) (finish_job clock code_name id result s)
  unfolding finish_job
  finish_job-HasPhase id (ok result) s h =
      logged-HasPhase clock id "[controller] operation completed" succeeded (some 100) none
        (some result) s h
  finish_job-HasPhase id (err e) s h =
      logged-HasPhase clock id (String.◌++◌ "[controller] operation failed: " (code_name e.code))
        failed none (some e) none s h

  finish_cancellable_job-HasPhase :
      (id : ℕ) (result : Result ApiError CancellableJobOutcome) (s : AppState D)
      → IsStored id s
      → HasPhase id
          (final_cancellable_phase result)
          (finish_cancellable_job clock code_name id result s)
  unfolding finish_cancellable_job
  finish_cancellable_job-HasPhase id (ok (completed result)) s h =
      finish_job-HasPhase id (ok result) s h
  finish_cancellable_job-HasPhase id (ok cancelled_job) s h =
      logged-HasPhase clock id "[controller] operation cancelled; intermediate artifacts removed"
        cancelled none none none s h
  finish_cancellable_job-HasPhase id (err e) s h = finish_job-HasPhase id (err e) s h

  -- A name is held after a release exactly if it was held and is not released.
  freed :
      (rs : List String) (s : AppState D) (x : String)
      → contains rs x ≡ true
      → held (release_resources rs s) x ≡ false
  freed rs s x h = ground (arith, release_resources-refines rs s x, h)

  -- Whatever a job returns, at its end its operation, if it is stored, has succeeded or failed, and
  -- each of its resources is free.
  pub end_task-ends :
      (id : ℕ) (resources : List String) (result : Result ApiError String) (s : AppState D)
      → IsStored id s
      → HasPhase id (final_phase result) (end_task clock code_name id resources result s)
        × ((x : String)
            → contains resources x ≡ true
            → held (end_task clock code_name id resources result s) x ≡ false)
  unfolding end_task release_resources
  end_task-ends id resources result s h =
      (finish_job-HasPhase id result s h, freed resources (finish_job clock code_name id result s))

  -- The same for a job that can be cancelled, whose operation has then succeeded, failed or been
  -- cancelled; and its channel is gone.
  pub end_cancellable_task-ends :
      (id : ℕ) (resources : List String) (result : Result ApiError CancellableJobOutcome)
      (s : AppState D)
      → IsStored id s
      → HasPhase id
          (final_cancellable_phase result)
          (end_cancellable_task clock code_name id resources result s)
        × ((x : String)
            → contains resources x ≡ true
            → held (end_cancellable_task clock code_name id resources result s) x ≡ false)
        × (mem id
              (end_cancellable_task clock code_name id resources result s).operation_cancellations
            ≡ false)
  unfolding end_cancellable_task release_resources
  end_cancellable_task-ends id resources result s h = (
    finish_cancellable_job-HasPhase id result s h,
    freed resources (close_channel id (finish_cancellable_job clock code_name id result s)),
    mem-keep_other id (finish_cancellable_job clock code_name id result s).operation_cancellations,
  )

module _ {D : Type 0} where
  -- A job that is not accepted because its operation cannot be stored keeps its resources: they are
  -- reserved, and no task will release them.
  pub accept_job-leaks :
      (o : Operation) (resources : List String) (s : AppState D)
      → is_granted (reserve_resources resources s).0 ≡ true
      → insert_operation_json o none s.database ≡ err tt
      → ((accept_job o resources s).0 ≡ err Failures.internal)
        × ((x : String) → contains resources x ≡ true → held (accept_job o resources s).1 x ≡ true)
  unfolding accept_job reserve_resources insert_operation
  accept_job-leaks o resources s granted refused = (
    ground (arith, granted, refused),
    (λ x h. ground (arith, granted, refused, contains-append s.active_resources resources x, h)),
  )
