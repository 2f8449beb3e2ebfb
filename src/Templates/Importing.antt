-- ===== src/Templates/Importing.antt =====
-- Importing a template package: the handler and its job
-- (crates/controller/src/templates.rs).
use Prim.Native.String
use webtop_manager.Prelude.{
  leb, ℕ, String, Bool, true, false, not, ◌||◌, ◌==◌, none, some, List, [], ◌∷◌, ◌++◌,
  if◌then◌else◌,
}
use webtop_manager.Prelude.Text.{decimal, trim}
use webtop_manager.Prelude.Results.{ok}
use webtop_manager.Prelude.Actions.{
  ◌>>=◌, ◌>>◌, pure, raise, gets, modify, lift, map_err, ok_or, reject_if, or_clean,
}
use webtop_manager.Contracts.Failures
use webtop_manager.Contracts.Packages.{TemplateManifest, default_source_check}
use webtop_manager.Database.Records.{
  Operation, OperationKind, running, verifying, Template, complete, imported_untrusted,
}
use webtop_manager.Database.Templates.{template_name_exists}
use webtop_manager.Controller.State.{AppState, Handler, Fallible}
use webtop_manager.Controller.Docker.{Call}
use webtop_manager.Controller.Frpc.{call}
use webtop_manager.Templates.Jobs.{
  Job, CancellableJobOutcome, invalid_error, internal_error, docker_error, docker_images,
  new_operation, accept_job,
}
use webtop_manager.Templates.Images.{
  ImageInspect, image_platform, template_repository, staging_repository,
}
use webtop_manager.Templates.Names.{validate_name}
use webtop_manager.Templates.Host.{Host, join, size_of, docker_call, try}
use webtop_manager.Templates.Checks.{
  tagged, verify_template_image, remove_owned_image, remove_import_image,
}
use webtop_manager.Templates.Commit.{
  template_resource, template_result, template_name_conflict, snapshot_of, log, progress,
  snapshot_path, store_new,
}
use webtop_manager.Templates.Restore.{is_failure}
use webtop_manager.Templates.Extraction.{package_error, package_failure}
use webtop_manager.Templates.Cancelling.{
  failed_with, stopped, Step, step, unless_cancelled, outcome_of,
}

pub record ImportTemplateRequest : Type 0 where
  pub staging_file_id : ℕ
  pub name : String
  pub confirmed_sensitive_data : Bool
  pub confirmed_untrusted_image : Bool

-- What the loop over the answers of the daemon meets: a request to stop, an error, or lines.
pub data LoadEvent : Type 0 where
  stop_requested load_failed : LoadEvent
  load_lines : List String → LoadEvent

-- What an import uses beside the daemon and the file system. The package and the image archive are
-- handled by the functions of Extraction, Loading and Archives; `copy_snapshot` copies a file unless a
-- request to stop comes, and tells whether it did.
pub record ImportHost (D : Type 0) : Type 0 where
  pub requested : ℕ → D → Bool
  pub validate_package : ℕ → Fallible D TemplateManifest
  pub extract_package : String → String → Fallible D TemplateManifest
  pub rewrite_image_archive : String → String → String → String → Fallible D (Unit {0})
  pub validate_rewritten_image_archive : String → String → ℕ → Fallible D (Unit {0})
  pub open_file : String → Call D (Unit {0})
  pub import_image : ℕ → String → D → List LoadEvent × D
  pub tag_image : String → ℕ → Call D (Unit {0})
  pub remove_tag : String → Call D (Unit {0})
  pub copy_file_atomic_0600 : String → String → ℕ → Call D Bool

-- `Vec::sort`: a stable insertion sort.
unfoldable pub insert_sorted : ℕ → List ℕ → List ℕ
insert_sorted a [] = a ∷ []
insert_sorted a (b ∷ bs) = let rest = insert_sorted a bs in if leb a b then a ∷ b ∷ bs else b ∷ rest

unfoldable pub sort : List ℕ → List ℕ
unfolding insert_sorted
sort [] = []
sort (a ∷ as') = insert_sorted a (sort as')

-- `Vec::dedup`: of elements that are equal and follow each other the first is kept; `last` is the one
-- that was kept before.
unfoldable pub dedup_after : ℕ → List ℕ → List ℕ
dedup_after last [] = []
dedup_after last (a ∷ as') =
    let same = dedup_after last as' in
    let other = dedup_after a as' in if last == a then same else a ∷ other

unfoldable pub dedup : List ℕ → List ℕ
unfolding dedup_after
dedup [] = []
dedup (a ∷ as') = a ∷ dedup_after a as'

abbrev pub import_resources : ℕ → ℕ → List String
import_resources template_id staging_file_id =
    docker_images
    ∷ template_resource template_id
    ∷ (String.◌++◌ "staging:" (decimal staging_file_id))
    ∷ []

abbrev final_reference : ℕ → String
final_reference template_id = tagged template_repository (decimal template_id)

unfoldable pub imported_template :
    {D : Type 0}
    → (D → ℕ)
    → ℕ
    → ImportTemplateRequest
    → TemplateManifest
    → ImageInspect
    → Job D Template
unfolding image_platform sort dedup
imported_template clock template_id request m image = do
  image_id ← ok_or image.id invalid_error
  platform ← lift (image_platform image)
  now ← gets (λ s. clock s.docker)
  let lineage = m.lineage ++ m.exported_template_id ∷ []
  pure (record {
    id = template_id;
    name = trim request.name;
    image_reference = final_reference template_id;
    image_id = image_id;
    platform = platform;
    system_size_bytes = size_of image.size;
    system_delta_bytes = 0;
    snapshot_path = snapshot_of template_id;
    snapshot_sha256 = m.config_payload.sha256;
    snapshot_size_bytes = m.config_payload.size_bytes;
    snapshot_original_bytes = 0;
    source_environment_id = none;
    parent_template_id = none;
    external_lineage = dedup (sort lineage);
    source_spec = m.source_spec;
    official_source = m.official_source;
    source_check = default_source_check;
    integrity = complete;
    trust = imported_untrusted;
    created_at = now;
  })

module _ {D : Type 0} (host : Host D) (import : ImportHost D) where
  unfoldable pub import_template : ℕ → ℕ → ImportTemplateRequest → Handler D Operation
  unfolding new_operation accept_job
  import_template operation_id template_id request = do
    lift (validate_name request.name)
    reject_if (not request.confirmed_sensitive_data || not request.confirmed_untrusted_image)
        Failures.invalid_request
    exists ← gets (λ s. template_name_exists (trim request.name) s.database)
    reject_if exists template_name_conflict
    m ← map_err (λ _. package_failure) (import.validate_package request.staging_file_id)
    now ← gets (λ s. host.clock s.docker)
    operation ←
        accept_job (new_operation operation_id now OperationKind.import_template (some template_id))
          (import_resources template_id request.staging_file_id)
    modify (λ s. record s { operation_cancellations = operation_id ∷ s.operation_cancellations })
    pure operation

  abbrev stop_here : ℕ → Step D (Unit {0})
  stop_here operation_id = unless_cancelled import.requested operation_id

  abbrev extract_root : ℕ → String
  extract_root template_id =
      join host.staging_root
        (String.◌++◌ ".import-" (String.◌++◌ (decimal template_id) ".partial-dir"))

  abbrev package_path : ℕ → String
  package_path id = join host.staging_root (String.◌++◌ (decimal id) ".wtmpl")

  abbrev staging_reference : ℕ → String
  staging_reference template_id = tagged staging_repository (decimal template_id)

  abbrev rewritten : ℕ → String
  rewritten template_id = join (extract_root template_id) "image.load.tar"

  abbrev remove_extracted : ℕ → AppState D → AppState D
  remove_extracted template_id s = try (host.remove_dir_all (extract_root template_id)) s

  abbrev checked : {A : Type 0} → Fallible D A → Step D A
  checked m = step (map_err (λ _. package_error) m)

  abbrev internal : {A : Type 0} → Call D A → Step D A
  internal c = step (map_err (λ _. internal_error) (call c))

  -- `inspect_image(staging).is_ok() || inspect_image(final).is_ok()`.
  abbrev has_image : String → Step D Bool
  has_image reference s =
      let r = call (host.inspect_image reference) s in (ok (not (is_failure r.0)), r.1)

  abbrev any_image : ℕ → Bool → Step D Bool
  any_image template_id true = pure true
  any_image template_id false = has_image (final_reference template_id)

  -- The package is extracted, and its image rewritten and checked.
  unfoldable pub prepare_image : ℕ → ℕ → ImportTemplateRequest → Step D TemplateManifest
  prepare_image operation_id template_id request = do
    step (log host operation_id "[controller] extracting and validating .wtmpl whitelist")
    step (progress host operation_id running 5)
    m ←
        checked
          (import.extract_package (package_path request.staging_file_id) (extract_root template_id))
    stop_here operation_id
    staged ← has_image (staging_reference template_id)
    there ← any_image template_id staged
    or_clean (reject_if there (failed_with invalid_error)) (remove_extracted template_id)
    step (log host operation_id "[controller] rewriting imported image to a random staging tag")
    checked (
        import.rewrite_image_archive (join (extract_root template_id) "payload/image.tar.zst")
          (rewritten template_id) m.image_reference (staging_reference template_id))
    stop_here operation_id
    checked (
        import.validate_rewritten_image_archive (rewritten template_id)
          (staging_reference template_id) template_id)
    stop_here operation_id
    step (
        log host operation_id
          "[controller] schema, hashes, platform, labels and image metadata accepted")
    step (progress host operation_id running 45)
    pure m

  abbrev log_all : ℕ → List String → Job D (Unit {0})
  log_all operation_id [] = pure tt
  log_all operation_id (line ∷ lines) =
      log host operation_id (String.◌++◌ "[docker] " line) >> log_all operation_id lines

  -- The loop over the daemon's answers.
  unfoldable pub load_image : ℕ → List LoadEvent → Step D (Unit {0})
  load_image operation_id [] = pure tt
  load_image operation_id (stop_requested ∷ events) = raise stopped
  load_image operation_id (load_failed ∷ events) = raise (failed_with docker_error)
  load_image operation_id (load_lines lines ∷ events) =
      step (log_all operation_id lines) >> load_image operation_id events

  -- The image is loaded under the staging tag, and tagged anew.
  unfoldable pub load_and_tag : ℕ → ℕ → Step D (Unit {0})
  unfolding load_image
  load_and_tag operation_id template_id = do
    internal (import.open_file (rewritten template_id))
    step (log host operation_id "[docker] load verified image archive without running it")
    events ← (λ s.
        let r = import.import_image operation_id (rewritten template_id) s.docker in
        (ok (r.0), record s { docker = r.1 }))
    load_image operation_id events
    stop_here operation_id
    image ←
        or_clean (step (docker_call (host.inspect_image (staging_reference template_id))))
          (remove_extracted template_id)
    step (docker_call (import.tag_image (staging_reference template_id) template_id))
    stop_here operation_id
    step (log host operation_id "[docker] staging image retagged to a new app-owned template UUID")
    modify (try (import.remove_tag (staging_reference template_id)))
    step (progress host operation_id verifying 75)

  abbrev remove_final : ℕ → AppState D → AppState D
  remove_final template_id s =
      remove_extracted template_id (remove_owned_image host (final_reference template_id) s).1

  unfoldable pub verify_imported : ℕ → ℕ → Step D ImageInspect
  unfolding verify_template_image remove_owned_image
  verify_imported operation_id template_id = do
    step (
        log host operation_id
          "[controller] verifying imported /init, /config volume and linux/amd64 platform")
    image ←
        or_clean (step (verify_template_image host (final_reference template_id)))
          (remove_final template_id)
    stop_here operation_id
    pure image

  abbrev parent_of : ℕ → String
  parent_of template_id = snapshot_path host (decimal template_id)

  unfoldable pub copy_snapshot : ℕ → ℕ → Step D (Unit {0})
  copy_snapshot operation_id template_id = do
    internal (host.create_dir_all (parent_of template_id))
    copied ← internal (
        import.copy_file_atomic_0600 (join (extract_root template_id) "payload/config.tar.zst")
          (snapshot_path host (snapshot_of template_id)) operation_id)
    reject_if (not copied) stopped
    stop_here operation_id

  abbrev remove_imported : ℕ → AppState D → AppState D
  remove_imported template_id s = remove_extracted template_id (
      try (host.remove_file (snapshot_path host (snapshot_of template_id)))
        (remove_owned_image host (final_reference template_id) s).1)

  unfoldable pub publish_import : ℕ → ℕ → ImportTemplateRequest → Template → Step D (Unit {0})
  unfolding store_new remove_owned_image
  publish_import operation_id template_id request t = do
    stop_here operation_id
    or_clean (step (store_new host t)) (remove_imported template_id)
    modify (remove_extracted template_id)
    modify (try (host.remove_file (package_path request.staging_file_id)))
    step (log host operation_id "[controller] imported template published; staging package removed")

  unfoldable pub import_job : ℕ → ℕ → ImportTemplateRequest → Job D CancellableJobOutcome
  unfolding prepare_image load_and_tag verify_imported copy_snapshot imported_template
      publish_import outcome_of
  import_job operation_id template_id request = outcome_of (do
    stop_here operation_id
    m ← prepare_image operation_id template_id request
    load_and_tag operation_id template_id
    image ← verify_imported operation_id template_id
    copy_snapshot operation_id template_id
    t ← step (imported_template host.clock template_id request m image)
    publish_import operation_id template_id request t
    pure (template_result template_id))

  -- `cleanup_import_artifacts`, for an import that is not complete.
  unfoldable pub cleanup_import_artifacts : ℕ → ℕ → AppState D → AppState D
  unfolding remove_import_image
  cleanup_import_artifacts template_id staging_file_id s =
      let s1 = remove_import_image host (staging_reference template_id) s in
      let s2 = remove_import_image host (final_reference template_id) s1 in
      try (host.remove_dir_all (parent_of template_id))
        (remove_extracted template_id (try (host.remove_file (package_path staging_file_id)) s2))
