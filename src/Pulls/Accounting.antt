-- ===== src/Pulls/Accounting.antt =====
-- No resource has two holders: the steps of Running keep it
-- (crates/controller/src/templates.rs and crates/controller/src/api.rs).
use webtop_manager.Pulls.Running.{
  work, reserve, refuse, store, leave, end_job, end_cancellable, take, resume, give_up, give_back,
  Step, IsAccounted, holders, System,
}
use webtop_manager.Prelude.{
  not, ◌&&◌, ℕ, ◌+◌, ◌≤◌, String, true, false, ◌≡◌, refl, none, some, List, [], ◌∷◌, ◌++◌, arith,
  any, if◌then◌else◌, eq_iff,
}
use webtop_manager.Prelude.Results.{Result, ok, err}
use webtop_manager.Contracts.Errors.{ErrorCode, ApiError, ApiFailure}
use webtop_manager.Database.Records.{Operation, PullImageRequest}
use webtop_manager.Controller.State.{AppState}
use webtop_manager.Templates.Jobs.{
  remove_resources, cancelled_job, completed, remove_resource, CancellableJobOutcome, contains,
  docker_images, reserve_resources, insert_operation, operation_log, set_operation, finish_job,
  finish_cancellable_job, release_resources, end_task, end_cancellable_task,
}
use webtop_manager.Templates.Reservation.{
  held, contains-append, contains-remove_resource, contains-remove_resources,
}
use webtop_manager.Pulls.Images.{take_images, release_images}
use webtop_manager.Pulls.Tasks.{resume_one}

holders-middle :
    (x : String) (before : List (List String)) (t : List String) (after : List (List String))
    → holders x (before ++ t ∷ after)
      ≡ (if contains t x then 1 else 0) + holders x (before ++ after)
holders-middle x [] t after = refl
holders-middle x (b ∷ before) t after = omega (arith, holders-middle x before t after)

-- A name that may be taken is not held.
not_held :
    (active rs : List String) (x : String)
    → any (contains active) rs ≡ false
    → contains rs x ≡ true
    → contains active x ≡ false
not_held active [] x free wanted = cc
not_held active (r ∷ rs) x free wanted = ground (arith, not_held active rs x, eq_iff x r)

module _ {D : Type 0} where
  reserved :
      (rs : List String) (s t : AppState D)
      → reserve_resources rs s ≡ (ok tt, t)
      → (any (contains s.active_resources) rs ≡ false)
        × (t.active_resources ≡ s.active_resources ++ rs)
  unfolding reserve_resources
  reserved rs s t e = ground arith

  refused :
      (rs : List String) (failure : ApiFailure) (s t : AppState D)
      → reserve_resources rs s ≡ (err failure, t)
      → t.active_resources ≡ s.active_resources
  unfolding reserve_resources
  refused rs failure s t e = ground arith

  inserted :
      (o : Operation) (result : Result ApiFailure (Unit {0})) (s t : AppState D)
      → insert_operation o s ≡ (result, t)
      → t.active_resources ≡ s.active_resources
  unfolding insert_operation
  inserted o result s t e = ground arith

  took :
      (s t : AppState D)
      → take_images s ≡ (ok tt, t)
      → (held s docker_images ≡ false)
        × (t.active_resources ≡ s.active_resources ++ docker_images ∷ [])
  unfolding take_images
  took s t e = ground arith

module _ {D : Type 0} (clock : D → ℕ) where
  resumed :
      (o : Operation) (request : PullImageRequest) (s t : AppState D)
      → resume_one clock o s ≡ (t, some request)
      → (held s docker_images ≡ false)
        × (t.active_resources ≡ s.active_resources ++ docker_images ∷ [])
  unfolding resume_one set_operation
  resumed o request s t e = ground arith

  gave_up :
      (o : Operation) (s t : AppState D)
      → resume_one clock o s ≡ (t, none)
      → t.active_resources ≡ s.active_resources
  unfolding resume_one set_operation
  gave_up o s t e = ground arith

-- A new task that takes names that nobody holds.
taken :
    (active active' rs : List String) (tasks : List (List String)) (x : String)
    → any (contains active) rs ≡ false
    → active' ≡ active ++ rs
    → holders x tasks ≤ (if contains active x then 1 else 0)
    → holders x (rs ∷ tasks) ≤ (if contains active' x then 1 else 0)
taken active active' rs tasks x free grown h =
    ground (arith, grown, contains-append active rs x, not_held active rs x free, h)

-- A task that ends and gives its names back.
given_back :
    (active active' rs : List String) (before after : List (List String)) (x : String)
    → contains active' x ≡ (contains active x && not (contains rs x))
    → holders x (before ++ rs ∷ after) ≤ (if contains active x then 1 else 0)
    → holders x (before ++ after) ≤ (if contains active' x then 1 else 0)
given_back active active' rs before after x less h =
    ground (arith, less, holders-middle x before rs after, h)

-- The same active names, for no more tasks.
kept :
    (active active' : List String) (x : String) (n n' : ℕ)
    → active' ≡ active
    → n' ≤ n
    → n ≤ (if contains active x then 1 else 0)
    → n' ≤ (if contains active' x then 1 else 0)
kept active active' x n n' same fewer h = ground (arith, same, fewer, h)

module _ {D : Type 0} (clock : D → ℕ) where
  finish_job-active :
      (code_name : ErrorCode → String) (id : ℕ) (result : Result ApiError String) (s : AppState D)
      → (finish_job clock code_name id result s).active_resources ≡ s.active_resources
  unfolding finish_job operation_log set_operation
  finish_job-active code_name id (ok r) s = refl
  finish_job-active code_name id (err e) s = refl

  finish_cancellable_job-active :
      (code_name : ErrorCode → String) (id : ℕ) (result : Result ApiError CancellableJobOutcome)
      (s : AppState D)
      → (finish_cancellable_job clock code_name id result s).active_resources ≡ s.active_resources
  unfolding finish_cancellable_job operation_log set_operation
  finish_cancellable_job-active code_name id (ok (completed r)) s =
      finish_job-active code_name id (ok r) s
  finish_cancellable_job-active code_name id (ok cancelled_job) s = refl
  finish_cancellable_job-active code_name id (err e) s = finish_job-active code_name id (err e) s

  took_images :
      (s t : AppState D) (tasks : List (List String)) (x : String)
      → (held s docker_images ≡ false)
        × (t.active_resources ≡ s.active_resources ++ docker_images ∷ [])
      → holders x tasks ≤ (if held s x then 1 else 0)
      → holders x ((docker_images ∷ []) ∷ tasks) ≤ (if held t x then 1 else 0)
  took_images s t tasks x (free, grown) h =
      taken s.active_resources t.active_resources (docker_images ∷ []) tasks x
        (ground (arith, free)) grown h

  pub Step-IsAccounted : {m n : System D} → Step clock m n → IsAccounted m → IsAccounted n
  unfolding end_task end_cancellable_task release_resources release_images remove_resources
  Step-IsAccounted (work s t tasks same) h x =
      kept s.active_resources t.active_resources x _ _ same (omega arith) (h x)
  Step-IsAccounted (reserve resources s t tasks e) h x =
      let (free, grown) = reserved resources s t e in
      taken s.active_resources t.active_resources resources tasks x free grown (h x)
  Step-IsAccounted (refuse resources failure s t tasks e) h x =
      kept s.active_resources t.active_resources x _ _ (refused resources failure s t e)
        (omega arith) (h x)
  Step-IsAccounted (store o s t tasks e) h x =
      kept s.active_resources t.active_resources x _ _ (inserted o (ok tt) s t e) (omega arith)
        (h x)
  Step-IsAccounted (leave o failure s t before resources after e) h x =
      kept s.active_resources t.active_resources x (holders x (before ++ resources ∷ after))
        (holders x (before ++ after)) (inserted o (err failure) s t e)
        (omega (arith, holders-middle x before resources after)) (h x)
  Step-IsAccounted (end_job code_name id result s before resources after) h x =
      let s' = finish_job clock code_name id result s in
      given_back s.active_resources (remove_resources resources s'.active_resources) resources
        before after x
        (rw (finish_job-active code_name id result s)
          (contains-remove_resources resources s.active_resources x))
        (h x)
  Step-IsAccounted (end_cancellable code_name id result s before resources after) h x =
      let s' = finish_cancellable_job clock code_name id result s in
      given_back s.active_resources (remove_resources resources s'.active_resources) resources
        before after x
        (rw (finish_cancellable_job-active code_name id result s)
          (contains-remove_resources resources s.active_resources x))
        (h x)
  Step-IsAccounted (take s t tasks e) h x = took_images s t tasks x (took s t e) (h x)
  Step-IsAccounted (resume o request s t tasks e) h x =
      took_images s t tasks x (resumed clock o request s t e) (h x)
  Step-IsAccounted (give_up o s t tasks e) h x =
      kept s.active_resources t.active_resources x _ _ (gave_up clock o s t e) (omega arith) (h x)
  Step-IsAccounted (give_back s before after) h x =
      given_back s.active_resources (remove_resource docker_images s.active_resources)
        (docker_images ∷ []) before after x
        (ground (arith, contains-remove_resource docker_images s.active_resources x)) (h x)

  pub data Steps (m : System D) : System D → Type 0 where
    none_yet : Steps m m
    later : {n p : System D} → Steps m n → Step clock n p → Steps m p

  -- Whatever jobs, pulls and image handlers start, run beside each other between their statements and
  -- end, in any order, also where a job cannot be stored and leaves its resources reserved: if at first
  -- each resource has at most one holder, and none where it is not active, it stays so.
  pub Steps-IsAccounted : {m n : System D} → Steps m n → IsAccounted m → IsAccounted n
  Steps-IsAccounted none_yet h = h
  Steps-IsAccounted (later steps step) h = Step-IsAccounted step (Steps-IsAccounted steps h)
