-- ===== src/Templates/RaceTests.antt =====
-- The order of steps of Races, and the references between templates, on concrete states
-- (crates/controller/src/templates.rs).
use webtop_manager.Prelude.{ℕ, String, false, mem, true, ◌≡◌, refl, none, some, [], ◌∷◌}
use webtop_manager.Prelude.Results.{Result, ok}
use webtop_manager.Contracts.Errors.{ErrorCode}
use webtop_manager.Contracts.Packages.{default_source_check}
use webtop_manager.Contracts.Spec.{default_environment_spec}
use webtop_manager.Database.Table.{select}
use webtop_manager.Database.Records.{
  Operation, OperationKind, rolling_back, running, cancelled, Template, complete, local_template,
}
use webtop_manager.Database.State.{Database, empty_database}
use webtop_manager.Database.Operations.{store_operation}
use webtop_manager.Database.Templates.{template_row, insert_template}
use webtop_manager.Database.References.{HasParents, insertion, Change-HasParents}
use webtop_manager.Controller.State.{AppState}
use webtop_manager.Templates.Jobs.{new_operation, end_cancellable_task, cancelled_job}
use webtop_manager.Templates.Ending.{HasPhase}
use webtop_manager.Templates.Cancelling.{send_cancellation, record_cancellation}
use webtop_manager.Templates.Races.{record_cancellation-overwrites}

abbrev clock : ℕ → ℕ
clock d = d

abbrev code_name : ErrorCode → String
code_name c = "Internal"

-- The operation as it was read, and as it is stored while its job runs.
abbrev read : Operation
read = new_operation 7 0 OperationKind.export_template (some 3)

abbrev started : Operation
started = record read { phase = running; progress_percent = some 45 }

abbrev template : Template
template = record {
  id = 3;
  name = "desk";
  image_reference = "com.cue.webtop-manager/template:3";
  image_id = "sha256:1";
  platform = "linux/amd64";
  system_size_bytes = 1;
  system_delta_bytes = 1;
  snapshot_path = "3/config.tar.zst";
  snapshot_sha256 = "";
  snapshot_size_bytes = 1;
  snapshot_original_bytes = 1;
  source_environment_id = none;
  parent_template_id = none;
  external_lineage = [];
  source_spec = default_environment_spec;
  official_source = none;
  source_check = default_source_check;
  integrity = complete;
  trust = local_template;
  created_at = 0;
}

abbrev child : Template
child = record template { id = 4; name = "copy"; parent_template_id = some 3 }

abbrev stored : Database
stored = record (empty_database) {
  operations = store_operation started none ∷ [];
  templates = template_row (λ t. t) template ∷ [];
}

abbrev state : AppState ℕ
state = record {
  database = stored;
  docker = 0;
  token_file = record { contents = none; readable = true; writable = true };
  pull_cancellations = [];
  operation_cancellations = 7 ∷ [];
  active_resources = [];
}

abbrev send : ℕ → ℕ → Result (Unit {0}) ℕ
send id d = ok d

-- The cancellation is sent while the job still runs, and the job ends cancelled before it is recorded.
sent : (send_cancellation clock send 7 read state) ≡ (ok tt, state)
unfolding send_cancellation new_operation
sent = refl

record_cancellation-overwrites_example :
    HasPhase 7 cancelled (end_cancellable_task clock code_name 7 [] (ok cancelled_job) state)
    × HasPhase 7 rolling_back
        (record_cancellation clock send 7 read
          (end_cancellable_task clock code_name 7 [] (ok cancelled_job) state)).1
    × (mem 7
          (record_cancellation clock send 7 read (
            end_cancellable_task clock code_name 7 []
              (ok cancelled_job)
              state)).1.operation_cancellations
        ≡ false)
unfolding store_operation new_operation select
record_cancellation-overwrites_example =
    record_cancellation-overwrites clock send code_name 7 [] (ok cancelled_job) read state
      (store_operation started none, refl)

abbrev with_child : Database
with_child = record stored {
  templates = template_row (λ t. t) template ∷ template_row (λ t. t) child ∷ [];
}

Change-HasParents_example : HasParents with_child
unfolding insert_template select
Change-HasParents_example =
    Change-HasParents {db = stored} (insertion (λ t. t) child refl) ((λ p e. cc), tt)
