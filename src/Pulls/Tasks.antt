-- ===== src/Pulls/Tasks.antt =====
-- Starting, running, resuming and cancelling the pull of an official image
-- (crates/controller/src/api.rs).
use Prim.Native.String
use webtop_manager.Prelude.{
  ℕ, String, Bool, true, false, not, ◌&&◌, ◌||◌, ◌==◌, Option, none, some, List, [], ◌∷◌, ◌++◌, mem,
  keep, str_eq, if◌then◌else◌,
}
use webtop_manager.Prelude.Results.{Result, ok, err}
use webtop_manager.Prelude.Actions.{◌>>=◌, ◌>>◌, pure, gets, modify, reject_if}
use webtop_manager.Contracts.Errors.{ErrorCode, plain_error}
use webtop_manager.Contracts.Failures
use webtop_manager.Database.Records.{
  Operation, pull_image, queued, running, rolling_back, succeeded, failed, cancelled, retryable,
  PullImageRequest, pull,
}
use webtop_manager.Database.State.{Database}
use webtop_manager.Database.Operations.{
  get_operation, get_operation_request, insert_operation_json, append_operation_log, is_finished,
  is_pull,
}
use webtop_manager.Docker.Images.{is_official_image}
use webtop_manager.Controller.State.{AppState, Handler, with_database}
use webtop_manager.Templates.Jobs.{contains, docker_images, set_operation}
use webtop_manager.Pulls.Images.{
  ImageApi, ImagePullOutcome, complete_outcome, cancelled_outcome, take_images, release_images,
  give_up,
}
use webtop_manager.Pulls.Progress.{record_progress}

unfoldable pub new_image_pull_operation : ℕ → PullImageRequest → Operation
new_image_pull_operation now request = record {
  id = request.pull_id;
  kind = pull_image;
  phase = queued;
  progress_percent = some 0;
  cancellable = true;
  resource_id = none;
  error = none;
  result = none;
  log_lines = "$ webtop-manager image pull" ∷ "[controller] queued durable image pull" ∷ [];
  created_at = now;
  updated_at = now;
}

-- `get_operation_request::<PullImageRequest>`: other JSON does not read as one.
unfoldable pub pull_request : ℕ → Database → Option PullImageRequest
unfolding get_operation_request
pull_request id db = elim (get_operation_request id db) [
  | some (pull request) ↦ some request
  | _ ↦ none
]

abbrev asks_for : String → Option PullImageRequest → Bool
asks_for reference none = false
asks_for reference (some stored) = str_eq stored.reference reference

-- How `pull_official_image` answers: with the events of a new job, or with those of the operation
-- that the id already names.
pub data PullResponse : Type 0 where
  started reattached : PullResponse

abbrev pub remove_id : ℕ → List ℕ → List ℕ
remove_id id ids = keep (λ k. not (k == id)) ids

-- `insert` into a map: the key is there once.
abbrev pub insert_id : ℕ → List ℕ → List ℕ
insert_id id ids = if mem id ids then ids else id ∷ ids

module _ {D : Type 0} (clock : D → ℕ) where
  abbrev add_pull : ℕ → AppState D → AppState D
  add_pull id s = record s { pull_cancellations = id ∷ s.pull_cancellations }

  abbrev add_cancellation : ℕ → AppState D → AppState D
  add_cancellation id s = record s {
    operation_cancellations = insert_id id s.operation_cancellations;
  }

  abbrev pub forget_pull : ℕ → AppState D → AppState D
  forget_pull id s = record s {
    pull_cancellations = remove_id id s.pull_cancellations;
    operation_cancellations = remove_id id s.operation_cancellations;
  }

  abbrev store_pull : PullImageRequest → Handler D PullResponse
  store_pull request s =
      elim (insert_operation_json (new_image_pull_operation (clock s.docker) request)
        (some (pull request)) s.database) [
          | ok db ↦ (ok started, with_database (λ _. db) s)
          | err e ↦ give_up Failures.internal (forget_pull request.pull_id s)
        ]

  abbrev add_then_store : PullImageRequest → Handler D PullResponse
  add_then_store request = do
    modify (add_pull request.pull_id)
    modify (add_cancellation request.pull_id)
    store_pull request

  abbrev start_pull : PullImageRequest → Handler D PullResponse
  start_pull request = do
    take_images
    busy ← gets (λ s. mem request.pull_id s.pull_cancellations)
    if busy then give_up Failures.invalid_request else add_then_store request

  abbrev reattach : PullImageRequest → Operation → Handler D PullResponse
  reattach request existing = do
    stored ← gets (λ s. pull_request request.pull_id s.database)
    reject_if (not (is_pull existing.kind) || not (asks_for request.reference stored))
        Failures.invalid_request
    pure reattached

  abbrev admit_pull : PullImageRequest → Option Operation → Handler D PullResponse
  admit_pull request none = start_pull request
  admit_pull request (some existing) = reattach request existing

  unfoldable pub pull_official_image : PullImageRequest → Handler D PullResponse
  unfolding take_images release_images pull_request new_image_pull_operation
  pull_official_image request = do
    reject_if (not (is_official_image request.reference)) Failures.invalid_request
    existing ← gets (λ s. get_operation request.pull_id s.database)
    admit_pull request existing

  abbrev pub log : ℕ → String → AppState D → AppState D
  log id line s = with_database (append_operation_log (clock s.docker) id line) s

  unfoldable pub finish_pull :
      ℕ → String → Result (Unit {0}) ImagePullOutcome → AppState D → AppState D
  unfolding set_operation
  finish_pull id reference (ok complete_outcome) s =
      set_operation clock id succeeded (some 100) none
        (some (String.◌++◌ "{\"reference\":\"" (String.◌++◌ reference "\"}")))
        (log id "[controller] image pull completed" s)
  finish_pull id reference (ok cancelled_outcome) s =
      set_operation clock id cancelled none none none (log id "[controller] image pull cancelled" s)
  finish_pull id reference (err e) s =
      set_operation clock id failed none (some (plain_error ErrorCode.docker_unavailable)) none
        (log id "[controller] image pull failed" s)

  -- The job that `spawn_image_pull_job` spawns. The events are recorded by a second task, which it
  -- waits for.
  unfoldable pub run_pull : ImageApi D → PullImageRequest → AppState D → AppState D
  unfolding set_operation record_progress finish_pull release_images
  run_pull images request s =
      let s1 = log request.pull_id "[docker] pulling allowlisted image" s in
      let s2 = set_operation clock request.pull_id running (some 5) none none s1 in
      let report = images.pull_official_image request.pull_id request.reference s2.docker in
      let s3 = record s2 { docker = report.1 } in
      let s4 = record_progress clock request.pull_id 5 report.0.events s3 in
      release_images (
        forget_pull request.pull_id
          (finish_pull request.pull_id request.reference report.0.outcome s4))

  abbrev give_back : Operation → AppState D → AppState D
  give_back o s = set_operation clock o.id retryable o.progress_percent none none s

  abbrev take_over : ℕ → AppState D → AppState D
  take_over id s = log id "[controller] reattached interrupted image pull" (record s {
    active_resources = s.active_resources ++ docker_images ∷ [];
    pull_cancellations = insert_id id s.pull_cancellations;
    operation_cancellations = insert_id id s.operation_cancellations;
  })

  -- One round of the loop over the interrupted operations, with the request that it spawns.
  unfoldable pub resume_one : Operation → AppState D → AppState D × Option PullImageRequest
  unfolding set_operation pull_request
  resume_one o s = elim (pull_request o.id s.database) [
    | none ↦ (give_back o s, none)
    | some request ↦
        if contains s.active_resources docker_images
        then (give_back o s, none)
        else (take_over o.id s, some request)
  ]

  abbrev and_request : Option PullImageRequest → List PullImageRequest → List PullImageRequest
  and_request none spawned = spawned
  and_request (some request) spawned = spawned ++ request ∷ []

  -- The jobs that were spawned run while the loop goes on: `meanwhile` is what they and all other tasks
  -- do before the next round, after the given requests were spawned.
  unfoldable pub resume_interrupted_operations :
      (List PullImageRequest → AppState D → AppState D)
      → List PullImageRequest
      → List Operation
      → AppState D
      → AppState D × List PullImageRequest
  unfolding resume_one
  resume_interrupted_operations meanwhile spawned [] s = (s, spawned)
  resume_interrupted_operations meanwhile spawned (o ∷ os) s =
      let first = resume_one o s in
      let spawned' = and_request first.1 spawned in
      resume_interrupted_operations meanwhile spawned' os (meanwhile spawned' first.0)

  abbrev roll_back : ℕ → Option ℕ → AppState D → AppState D
  roll_back id progress s =
      set_operation clock id rolling_back progress none none
        (log id "[controller] image pull cancellation requested" s)

  abbrev request_cancel : ℕ → Option Operation → Handler D (Unit {0})
  request_cancel id none = pure tt
  request_cancel id (some o) = modify (roll_back id o.progress_percent)

  abbrev is_done : Option Operation → Bool
  is_done none = false
  is_done (some o) = is_finished o.phase

  abbrev send_cancel : (ℕ → D → D) → ℕ → Option Operation → Handler D (Unit {0})
  send_cancel send id o = do
    modify (λ s. record s { docker = send id s.docker })
    request_cancel id o

  -- The part of `cancel_official_image_pull` behind its read of the operation. The channel is part
  -- of the state that is not the program's: `send` does not fail where the pull still runs.
  unfoldable pub cancel_read_pull : (ℕ → D → D) → ℕ → Option Operation → Handler D (Unit {0})
  unfolding set_operation
  cancel_read_pull send id o = do
    busy ← gets (λ s. mem id s.pull_cancellations)
    if not (is_done o) && busy then send_cancel send id o else pure tt

  unfoldable pub cancel_official_image_pull : (ℕ → D → D) → ℕ → Handler D (Unit {0})
  unfolding cancel_read_pull
  cancel_official_image_pull send id = do
    o ← gets (λ s. get_operation id s.database)
    cancel_read_pull send id o
