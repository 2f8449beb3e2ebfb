-- ===== src/Templates/Sources.antt =====
-- Checking the official sources of templates, and deleting a template
-- (crates/controller/src/templates.rs).
use Prim.Native.String
use webtop_manager.Prelude.{
  ℕ, zero, suc, ◌+◌, ◌*◌, ◌/◌, ◌%◌, String, Bool, false, not, ◌||◌, Option, none, some, List, [],
  ◌∷◌, length, keep, mem, str_eq, ltb, if◌then◌else◌,
}
use webtop_manager.Prelude.Text.{decimal}
use webtop_manager.Prelude.Results.{Result, ok, err}
use webtop_manager.Prelude.Actions.{
  ◌>>=◌, ◌>>◌, pure, gets, modify, lift, map_err, reject_if, attempt, when,
}
use webtop_manager.Contracts.Errors.{ErrorCode, ApiFailure}
use webtop_manager.Contracts.Failures
use webtop_manager.Database.Records.{
  Operation, OperationKind, running, Template, OfficialTemplateSource, TemplateSourceCheck, current,
  updated, unavailable,
}
use webtop_manager.Database.Templates.{
  list_templates, update_template, template_dependency_counts, delete_template as delete_row,
}
use webtop_manager.Controller.State.{Handler, with_database}
use webtop_manager.Controller.Frpc.{call}
use webtop_manager.Templates.Jobs.{
  Job, internal_error, docker_images, new_operation, accept_job, required_template,
}
use webtop_manager.Templates.Host.{Host, try}
use webtop_manager.Templates.Checks.{remove_owned_image}
use webtop_manager.Templates.Commit.{template_resource, template_result, progress, snapshot_path}

abbrev pub check_resources : List String
check_resources = "template-source-checks" ∷ []

abbrev is_same : Option String → Option String → Bool
is_same (some a) (some b) = str_eq a b
is_same _ _ = false

-- The outcome of a look at the registry: `digest.is_some() && digest == source.digest`.
unfoldable pub source_check :
    ℕ → OfficialTemplateSource → Result (Unit {0}) (Option String) → TemplateSourceCheck
source_check now source (ok digest) = record {
  status = if is_same digest source.digest then current else updated;
  checked_at = some now;
  current_digest = digest;
}
source_check now source (err e) = record {
  status = unavailable;
  checked_at = some now;
  current_digest = none;
}

-- `(((index + 1) * 100) / total) as u8`.
unfoldable pub check_percent : ℕ → ℕ → ℕ
check_percent index zero = 0
check_percent index (suc total) = (index + 1) * 100 / suc total % 256

-- An empty selection is all templates.
unfoldable pub selected : List ℕ → List Template → List Template
selected [] templates = templates
selected (id ∷ ids) templates = keep (λ t. mem t.id (id ∷ ids)) templates

-- `max(1)`.
abbrev at_least_one : ℕ → ℕ
at_least_one zero = 1
at_least_one (suc n) = suc n

abbrev template_dependency : ℕ → ℕ → ApiFailure
template_dependency environments children = record {
  status = 409;
  error = record {
    code = ErrorCode.template_dependency;
    params = ("children", decimal children) ∷ ("environments", decimal environments) ∷ [];
  };
}

module _ {D : Type 0} where
  -- The part of `delete_template` that looks at the store.
  unfoldable pub admit_deletion : ℕ → String → Handler D Template
  unfolding required_template
  admit_deletion id confirmation_name = do
    template ← required_template id
    reject_if (not (str_eq confirmation_name template.name)) Failures.invalid_request
    counts ← gets (λ s. template_dependency_counts id s.database)
    reject_if (ltb 0 (counts.0) || ltb 0 (counts.1)) (template_dependency (counts.0) (counts.1))
    pure template

module _ {D : Type 0} (host : Host D) where
  unfoldable pub check_template_sources : ℕ → Handler D Operation
  unfolding new_operation accept_job
  check_template_sources operation_id = do
    now ← gets (λ s. host.clock s.docker)
    accept_job (new_operation operation_id now OperationKind.check_template_source none)
        check_resources

  unfoldable pub store_check : Template → Job D (Unit {0})
  store_check t = do
    db ← gets (λ s. update_template host.reread_template t s.database)
    next ← map_err (λ _. internal_error) (lift db)
    modify (with_database (λ _. next))

  abbrev check_source : ℕ → ℕ → ℕ → Template → OfficialTemplateSource → Job D (Unit {0})
  check_source operation_id index total t source = do
    now ← gets (λ s. host.clock s.docker)
    digest ← attempt (call (host.inspect_registry_image source.reference))
    store_check (record t { source_check = source_check now source digest })
    progress host operation_id running (check_percent index total)

  -- The body of the loop; a template without an official source is passed over.
  unfoldable pub check_one : ℕ → ℕ → ℕ → Template → Job D (Unit {0})
  unfolding source_check check_percent store_check
  check_one operation_id index total t = elim t.official_source [
    | none ↦ pure tt
    | some source ↦ check_source operation_id index total t source
  ]

  unfoldable pub check_each : ℕ → ℕ → ℕ → List Template → Job D (Unit {0})
  unfolding check_one
  check_each operation_id index total [] = pure tt
  check_each operation_id index total (t ∷ ts) = do
    check_one operation_id index total t
    check_each operation_id (index + 1) total ts

  unfoldable pub check_sources_job : ℕ → List ℕ → Job D String
  unfolding selected check_each
  check_sources_job operation_id ids = do
    all_templates ← gets (λ s. list_templates s.database)
    let templates = selected ids all_templates
    check_each operation_id 0 (at_least_one (length templates)) templates
    pure (String.◌++◌ "{\"checked\":" (String.◌++◌ (decimal (length templates)) "}"))

  abbrev pub delete_resources : ℕ → List String
  delete_resources id = docker_images ∷ template_resource id ∷ []

  -- The part that takes the resources and stores the operation.
  unfoldable pub accept_deletion : ℕ → ℕ → Handler D Operation
  unfolding new_operation accept_job
  accept_deletion operation_id id = do
    now ← gets (λ s. host.clock s.docker)
    accept_job (new_operation operation_id now OperationKind.delete_template (some id))
        (delete_resources id)

  unfoldable pub delete_template : ℕ → ℕ → String → Handler D (Template × Operation)
  unfolding admit_deletion accept_deletion
  delete_template operation_id id confirmation_name = do
    template ← admit_deletion id confirmation_name
    operation ← accept_deletion operation_id id
    pure (template, operation)

  unfoldable pub delete_snapshot : String → Job D (Unit {0})
  delete_snapshot snapshot = do
    exists ← map_err (λ _. internal_error) (call (host.try_exists snapshot))
    when exists (map_err (λ _. internal_error) (call (host.remove_file snapshot)))

  abbrev delete_stored : ℕ → Job D (Unit {0})
  delete_stored id = do
    db ← gets (λ s. delete_row id s.database)
    next ← map_err (λ _. internal_error) (lift db)
    modify (with_database (λ _. next))

  -- The task that `delete_template` spawns. `parent` is the directory of a snapshot.
  unfoldable pub delete_job : (String → String) → ℕ → ℕ → Template → Job D String
  unfolding remove_owned_image delete_snapshot
  delete_job parent operation_id id template = do
    progress host operation_id running 20
    remove_owned_image host template.image_reference
    let snapshot = snapshot_path host template.snapshot_path
    delete_snapshot snapshot
    modify (try (host.remove_dir (parent snapshot)))
    delete_stored id
    pure (template_result id)
