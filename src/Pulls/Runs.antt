-- ===== src/Pulls/Runs.antt =====
-- The handlers of images, as runs of the steps of Running (crates/controller/src/api.rs): what each does
-- while no other task runs is one order of the steps.
use webtop_manager.Prelude.{ℕ, String, List, [], ◌∷◌, ◌++◌}
use webtop_manager.Controller.State.{AppState}
use webtop_manager.Templates.Jobs.{docker_images}
use webtop_manager.Pulls.Running.{System}

abbrev system : {D : Type 0} → List (List String) → AppState D → System D
system tasks s = record { state = s; tasks = tasks }

module _ {D : Type 0} (clock : D → ℕ) where
  -- The state of a handler that has taken the images.
  abbrev taking : AppState D → AppState D
  taking s = record s { active_resources = s.active_resources ++ docker_images ∷ [] }

  abbrev answered : D → AppState D → AppState D
  answered d s = record s { docker = d }
