-- ===== src/Pulls/Running.antt =====
-- The tasks that run beside each other, and the resources that they hold: the jobs of
-- crates/controller/src/templates.rs and the image handlers and pulls of
-- crates/controller/src/api.rs.
use webtop_manager.Prelude.{
  ℕ, ◌+◌, ◌≤◌, String, ◌≡◌, none, some, List, [], ◌∷◌, ◌++◌, if◌then◌else◌,
}
use webtop_manager.Prelude.Results.{Result, ok, err}
use webtop_manager.Contracts.Errors.{ErrorCode, ApiError, ApiFailure}
use webtop_manager.Database.Records.{Operation, PullImageRequest}
use webtop_manager.Controller.State.{AppState}
use webtop_manager.Templates.Jobs.{
  CancellableJobOutcome, contains, docker_images, reserve_resources, insert_operation, end_task,
  end_cancellable_task,
}
use webtop_manager.Templates.Reservation.{held}
use webtop_manager.Pulls.Images.{take_images, release_images}
use webtop_manager.Pulls.Tasks.{resume_one}

-- The shared state, and the resources of each task that runs.
pub record System (D : Type 0) : Type 0 where
  pub state : AppState D
  pub tasks : List (List String)

-- How many tasks hold a resource.
abbrev pub holders : String → List (List String) → ℕ
holders x [] = 0
holders x (t ∷ ts) = (if contains t x then 1 else 0) + holders x ts

-- A resource has at most one holder, and none where it is not active. A resource that no task holds may
-- be active: `accept_job` leaves it so where the operation cannot be stored.
abbrev pub IsAccounted : {D : Type 0} → System D → Type 0
IsAccounted m = (x : String) → holders x m.tasks ≤ (if held m.state x then 1 else 0)

-- A handler or a job that holds resources is a task from the reservation to the release. Between two
-- statements of one task any other may run.
module _ {D : Type 0} (clock : D → ℕ) where
  pub data Step : System D → System D → Type 0 where
    -- Whatever a task or another handler does that leaves the active resources as they are: a call of
    -- the daemon, a read or a write of the database, a refusal.
    work :
        (s t : AppState D) (tasks : List (List String))
        → t.active_resources ≡ s.active_resources
        → Step (record { state = s; tasks = tasks }) (record { state = t; tasks = tasks })
    -- A handler that starts a job, up to its reservation.
    reserve :
        (resources : List String) (s t : AppState D) (tasks : List (List String))
        → reserve_resources resources s ≡ (ok tt, t)
        → Step
            (record { state = s; tasks = tasks })
            (record { state = t; tasks = resources ∷ tasks })
    refuse :
        (resources : List String) (failure : ApiFailure) (s t : AppState D)
        (tasks : List (List String))
        → reserve_resources resources s ≡ (err failure, t)
        → Step (record { state = s; tasks = tasks }) (record { state = t; tasks = tasks })
    -- The operation of a job is stored, which then runs.
    store :
        (o : Operation) (s t : AppState D) (tasks : List (List String))
        → insert_operation o s ≡ (ok tt, t)
        → Step (record { state = s; tasks = tasks }) (record { state = t; tasks = tasks })
    -- It cannot be stored: the handler leaves with its resources reserved.
    leave :
        (o : Operation) (failure : ApiFailure) (s t : AppState D) (before : List (List String))
        (resources : List String) (after : List (List String))
        → insert_operation o s ≡ (err failure, t)
        → Step
            (record { state = s; tasks = before ++ resources ∷ after })
            (record { state = t; tasks = before ++ after })
    -- The ends of the two kinds of jobs.
    end_job :
        (code_name : ErrorCode → String) (id : ℕ) (result : Result ApiError String) (s : AppState D)
        (before : List (List String)) (resources : List String) (after : List (List String))
        → Step
            (record { state = s; tasks = before ++ resources ∷ after })
            (record {
              state = end_task clock code_name id resources result s;
              tasks = before ++ after;
            })
    end_cancellable :
        (code_name : ErrorCode → String) (id : ℕ) (result : Result ApiError CancellableJobOutcome)
        (s : AppState D) (before : List (List String)) (resources : List String)
        (after : List (List String))
        → Step
            (record { state = s; tasks = before ++ resources ∷ after })
            (record {
              state = end_cancellable_task clock code_name id resources result s;
              tasks = before ++ after;
            })
    -- A handler that prunes, deletes or pulls images takes them, and a restart takes them for a pull.
    take :
        (s t : AppState D) (tasks : List (List String))
        → take_images s ≡ (ok tt, t)
        → Step
            (record { state = s; tasks = tasks })
            (record { state = t; tasks = (docker_images ∷ []) ∷ tasks })
    resume :
        (o : Operation) (request : PullImageRequest) (s t : AppState D) (tasks : List (List String))
        → resume_one clock o s ≡ (t, some request)
        → Step
            (record { state = s; tasks = tasks })
            (record { state = t; tasks = (docker_images ∷ []) ∷ tasks })
    give_up :
        (o : Operation) (s t : AppState D) (tasks : List (List String))
        → resume_one clock o s ≡ (t, none)
        → Step (record { state = s; tasks = tasks }) (record { state = t; tasks = tasks })
    -- Each of them gives the images up again as the last thing that it does.
    give_back :
        (s : AppState D) (before after : List (List String))
        → Step
            (record { state = s; tasks = before ++ (docker_images ∷ []) ∷ after })
            (record { state = release_images s; tasks = before ++ after })
