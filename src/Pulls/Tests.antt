-- ===== src/Pulls/Tests.antt =====
-- Image pulls on concrete states (crates/controller/src/api.rs).
use webtop_manager.Prelude.{
  ℕ, String, true, false, ◌≡◌, ◌≤◌, refl, none, some, List, [], ◌∷◌, arith,
}
use webtop_manager.Prelude.Results.{ok}
use webtop_manager.Contracts.Errors.{ErrorCode}
use webtop_manager.Contracts.Spec.{pos}
use webtop_manager.Contracts.Packages.{ImagePullProgress, ImagePullPhase}
use webtop_manager.Database.Table.{select}
use webtop_manager.Database.Records.{Operation, OperationKind, running, PullImageRequest, pull}
use webtop_manager.Database.State.{empty_database}
use webtop_manager.Database.Operations.{
  append_operation_log, store_operation, parse_operation, get_operation,
}
use webtop_manager.Controller.State.{AppState}
use webtop_manager.Templates.Jobs.{docker_images, new_operation, reserve_resources}
use webtop_manager.Pulls.Images.{
  prune_image_cache, take_images, release_images, ImageApi, complete_outcome,
}
use webtop_manager.Pulls.Progress.{record_progress}
use webtop_manager.Pulls.ProgressLaws.{ShowsPercent, record_progress-bounds}
use webtop_manager.Pulls.Tasks.{
  pull_request, new_image_pull_operation, resume_interrupted_operations,
}
use webtop_manager.Contracts.Failures
use webtop_manager.Pulls.Running.{System, IsAccounted, take, refuse, give_back, reserve}
use webtop_manager.Pulls.Accounting.{Steps, none_yet, later, Steps-IsAccounted}

abbrev clock : ℕ → ℕ
clock d = d

abbrev code_name : ErrorCode → String
code_name c = "Internal"

abbrev images : ImageApi ℕ
images = record {
  list_official_images = λ d. (ok [], d);
  prune_image_cache = λ d. (ok (record { deleted_items = 0; space_reclaimed_bytes = pos 0 }), d);
  official_image_in_use = λ reference d. (ok false, d);
  remove_official_image = λ reference d. (ok tt, d);
  pull_official_image =
      λ id reference d. (record { events = []; outcome = ok complete_outcome }, d);
}

abbrev request : PullImageRequest
request = record { pull_id = 7; reference = "lscr.io/linuxserver/webtop:ubuntu-mate" }

abbrev pulling : Operation
pulling = record (new_image_pull_operation 0 request) { phase = running; progress_percent = some 5 }

abbrev idle : AppState ℕ
idle = record {
  database = empty_database;
  docker = 0;
  token_file = record { contents = none; readable = true; writable = true };
  pull_cancellations = [];
  operation_cancellations = [];
  active_resources = [];
}

abbrev interrupted : AppState ℕ
interrupted = record idle {
  database = record (empty_database) {
    operations = store_operation pulling (some (pull request)) ∷ [];
  };
}

abbrev event : ℕ → ImagePullProgress
event current = record {
  pull_id = 7;
  reference = "lscr.io/linuxserver/webtop:ubuntu-mate";
  phase = ImagePullPhase.progress;
  layer_id = none;
  status = "Downloading";
  current_bytes = none;
  total_bytes = none;
  aggregate_current_bytes = some (pos current);
  aggregate_total_bytes = some (pos 100);
}

record_progress-bounds_example :
    (p : ℕ) × (5 ≤ p)
    × (p ≤ 90)
    × ShowsPercent 7 p (record_progress clock 7 5 (event 50 ∷ event 20 ∷ []) interrupted)
unfolding store_operation parse_operation get_operation select new_image_pull_operation
record_progress-bounds_example =
    record_progress-bounds clock 7 5 (event 50 ∷ event 20 ∷ []) interrupted (omega arith)
      (store_operation pulling (some (pull request)), refl)
      (parse_operation (store_operation pulling (some (pull request))), refl, refl, refl)

-- A pull that is resumed fails at once and gives the images up before the next round: the second
-- interrupted pull is resumed too.
abbrev other_request : PullImageRequest
other_request = record request { pull_id = 9 }

abbrev other_pulling : Operation
other_pulling = record pulling { id = 9 }

abbrev two_interrupted : AppState ℕ
two_interrupted = record idle {
  database = record (empty_database) {
    operations =
        store_operation pulling (some (pull request))
        ∷ store_operation other_pulling (some (pull other_request))
        ∷ [];
  };
}

both_resumed :
    (resume_interrupted_operations clock
      (λ spawned. release_images)
      []
      (pulling ∷ other_pulling ∷ [])
      two_interrupted).1
    ≡ request ∷ other_request ∷ []
unfolding resume_interrupted_operations release_images store_operation new_image_pull_operation
    pull_request append_operation_log
both_resumed = refl

abbrev job : Operation
job = new_operation 8 0 OperationKind.export_template (some 3)

abbrev resources : List String
resources = docker_images ∷ "template:3" ∷ []

abbrev at_rest : System ℕ
at_rest = record { state = idle; tasks = [] }

-- A handler that prunes the cache holds the images.
abbrev pruning : System ℕ
pruning = record {
  state = record idle { active_resources = docker_images ∷ [] };
  tasks = (docker_images ∷ []) ∷ [];
}

abbrev reserving : System ℕ
reserving = record { state = record idle { active_resources = resources }; tasks = resources ∷ [] }

-- It is refused the images while the cache is pruned, and takes them afterwards.
pruned_then_reserved : Steps clock at_rest reserving
unfolding take_images release_images reserve_resources
pruned_then_reserved =
    later
      (later
        (later (later none_yet (take idle pruning.state [] refl))
          (refuse resources Failures.resource_busy pruning.state pruning.state pruning.tasks refl))
        (give_back pruning.state [] []))
      (reserve resources idle reserving.state [] refl)

Steps-IsAccounted_example : IsAccounted reserving
Steps-IsAccounted_example = Steps-IsAccounted clock pruned_then_reserved (λ x. omega arith)
