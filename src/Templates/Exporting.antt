-- ===== src/Templates/Exporting.antt =====
-- Exporting a template as a package: the handler and its job
-- (crates/controller/src/templates.rs).
use Prim.Native.String
use webtop_manager.Prelude.{
  ℕ, zero, suc, ◌+◌, ◌-◌, ◌*◌, ◌/◌, String, Bool, true, false, not, none, some, List, [], ◌∷◌, ◌++◌,
  leb, str_eq, if◌then◌else◌,
}
use webtop_manager.Prelude.Text.{decimal}
use webtop_manager.Prelude.Results.{Result, ok}
use webtop_manager.Prelude.Actions.{
  ◌>>=◌, ◌>>◌, pure, raise, gets, modify, lift, map_err, reject_if, or_clean,
}
use webtop_manager.Contracts.Errors.{ErrorCode, ApiError, plain_error}
use webtop_manager.Contracts.Failures
use webtop_manager.Contracts.Packages.{TemplateManifest}
use webtop_manager.Database.Records.{Operation, OperationKind, running, Template, complete}
use webtop_manager.Controller.State.{AppState, Handler}
use webtop_manager.Controller.Docker.{Call}
use webtop_manager.Controller.Frpc.{call}
use webtop_manager.Templates.Jobs.{
  Job, CancellableJobOutcome, completed, internal_error, docker_error, docker_images, new_operation,
  accept_job, required_template,
}
use webtop_manager.Templates.Images.{package_schema_version}
use webtop_manager.Templates.Names.{safe_filename}
use webtop_manager.Templates.Host.{Host, join, try}
use webtop_manager.Templates.Listing.{integrity_eq, saturate}
use webtop_manager.Templates.Commit.{template_resource, log, progress, snapshot_path}
use webtop_manager.Templates.Packages.{Bytes, Entry, image_entry, config_entry}
use webtop_manager.Templates.Archives.{Fails}
use webtop_manager.Templates.Cancelling.{
  failed_with, stopped, Step, step, unless_cancelled, outcome_of,
}

-- What the loop over the image's stream meets: a request to stop, a chunk that is or is not written,
-- or an error of the daemon.
pub data ExportEvent : Type 0 where
  stop_requested stream_failed : ExportEvent
  chunk : ℕ → Bool → ExportEvent

-- What an export uses beside the daemon and the worker. The image is saved to a file that a part of
-- `open_image` makes and `close_image` finishes and renames.
pub record ExportHost (D : Type 0) : Type 0 where
  pub requested : ℕ → D → Bool
  pub create_dir : String → Call D (Unit {0})
  pub open_image : String → Call D (Unit {0})
  pub export_image : ℕ → String → D → List ExportEvent × D
  pub close_image : String → String → Call D (Unit {0})
  pub read_image_archive : String → Call D (List Entry)
  pub image_config_sha256 : List Entry → Fails String
  pub print_manifest : TemplateManifest → Bytes
  pub write_package : String → Bytes → String → String → Call D (Unit {0})
  pub rename_and_sync : String → String → Call D (Unit {0})

abbrev at_least_one : ℕ → ℕ
at_least_one zero = 1
at_least_one (suc n) = suc n

abbrev min : ℕ → ℕ → ℕ
min a b = if leb a b then a else b

-- `5 + ((streamed_bytes.saturating_mul(40) / expected).min(40) as u8)`.
unfoldable pub export_percent : ℕ → ℕ → ℕ
export_percent streamed expected = 5 + min (saturate (streamed * 40) / at_least_one expected) 40

abbrev pub export_resources : ℕ → ℕ → List String
export_resources id staging_id =
    docker_images ∷ template_resource id ∷ (String.◌++◌ "staging:" (decimal staging_id)) ∷ []

-- The manifest of an export, from the template and the hashes and sizes of the payloads.
unfoldable pub export_manifest : Template → String × ℕ → String × ℕ → String → TemplateManifest
export_manifest t image config image_config_sha256 = record {
  schema_version = package_schema_version;
  exported_template_id = t.id;
  name = t.name;
  platform = t.platform;
  image_reference = t.image_reference;
  image_id = t.image_id;
  image_config_sha256 = image_config_sha256;
  source_spec = t.source_spec;
  official_source = t.official_source;
  lineage = elim t.parent_template_id [
    | none ↦ t.external_lineage
    | some parent ↦ t.external_lineage ++ parent ∷ []
  ];
  image_payload = record { path = image_entry; size_bytes = image.1; sha256 = image.0 };
  config_payload = record { path = config_entry; size_bytes = config.1; sha256 = config.0 };
  created_at = t.created_at;
}

module _ {D : Type 0} (host : Host D) (export : ExportHost D) where
  unfoldable pub export_template : ℕ → ℕ → ℕ → Handler D (Template × Operation)
  unfolding required_template new_operation accept_job
  export_template operation_id staging_id id = do
    template ← required_template id
    reject_if (not (integrity_eq template.integrity complete)) Failures.invalid_request
    now ← gets (λ s. host.clock s.docker)
    operation ←
        accept_job (new_operation operation_id now OperationKind.export_template (some id))
          (export_resources id staging_id)
    modify (λ s. record s { operation_cancellations = operation_id ∷ s.operation_cancellations })
    pure (template, operation)

  abbrev staged : ℕ → String → String
  staged staging_id suffix = join host.staging_root (String.◌++◌ (decimal staging_id) suffix)

  abbrev hidden : ℕ → String → String
  hidden staging_id suffix =
      join host.staging_root (String.◌++◌ "." (String.◌++◌ (decimal staging_id) suffix))

  abbrev temporary_dir : ℕ → String
  temporary_dir staging_id = hidden staging_id ".partial-dir"

  abbrev image_payload : ℕ → String
  image_payload staging_id = join (temporary_dir staging_id) "image.tar.zst"

  abbrev report_stream : ℕ → ℕ → ℕ → Job D (Unit {0})
  report_stream operation_id streamed expected = do
    progress host operation_id running (export_percent streamed expected)
    log host operation_id (
        String.◌++◌ "[docker] streamed " (String.◌++◌ (host.human_bytes streamed) " of image data"))

  -- `streamed_bytes.saturating_sub(last_reported_bytes) >= 128 * 1024 * 1024`.
  abbrev is_due : ℕ → ℕ → Bool
  is_due streamed last = leb (128 * (1024 * 1024)) (streamed - last)

  -- The loop over the stream of the image; it yields how much was streamed.
  unfoldable pub stream_image : ℕ → ℕ → List ExportEvent → ℕ → ℕ → Step D ℕ
  unfolding export_percent
  stream_image operation_id expected [] streamed last = pure streamed
  stream_image operation_id expected (stop_requested ∷ events) streamed last = raise stopped
  stream_image operation_id expected (stream_failed ∷ events) streamed last =
      raise (failed_with docker_error)
  stream_image operation_id expected (chunk size false ∷ events) streamed last =
      raise (failed_with internal_error)
  stream_image operation_id expected (chunk size true ∷ events) streamed last =
      let next = saturate (streamed + size) in
      let quiet = stream_image operation_id expected events next last in
      let told = stream_image operation_id expected events next next in
      if is_due next last then step (report_stream operation_id next expected) >> told else quiet

  abbrev internal : {A : Type 0} → Call D A → Step D A
  internal c = step (map_err (λ _. internal_error) (call c))

  abbrev stop_here : ℕ → Step D (Unit {0})
  stop_here operation_id = unless_cancelled export.requested operation_id

  -- The image is saved and closed.
  unfoldable pub save_image : ℕ → ℕ → Template → Step D (Unit {0})
  unfolding stream_image
  save_image operation_id staging_id t = do
    step (log host operation_id "[controller] preparing self-contained Docker image payload")
    step (progress host operation_id running 5)
    internal (export.create_dir (temporary_dir staging_id))
    internal (export.open_image (String.◌++◌ (image_payload staging_id) ".partial"))
    step (log host operation_id "[docker] save image layers | zstd -9")
    events ← (λ s.
        let r = export.export_image operation_id t.image_reference s.docker in
        (ok (r.0), record s { docker = r.1 }))
    streamed ← stream_image operation_id t.system_size_bytes events 0 0
    stop_here operation_id
    internal (
        export.close_image (String.◌++◌ (image_payload staging_id) ".partial")
          (image_payload staging_id))
    step (
        log host operation_id
          (String.◌++◌ "[docker] image stream complete: " (host.human_bytes streamed)))
    step (progress host operation_id running 55)

  -- The hashes and sizes of the image and of the snapshot, which must be the recorded one.
  unfoldable pub hash_payloads : ℕ → ℕ → Template → Step D ((String × ℕ) × (String × ℕ))
  hash_payloads operation_id staging_id t = do
    step (log host operation_id "[controller] calculating payload SHA-256 checksums")
    image ← internal (host.hash_file (image_payload staging_id))
    stop_here operation_id
    config ← internal (host.hash_file (snapshot_path host t.snapshot_path))
    stop_here operation_id
    or_clean
        (reject_if (not (str_eq (config.0) t.snapshot_sha256))
          (failed_with (plain_error ErrorCode.snapshot_corrupt)))
        (try (host.remove_dir_all (temporary_dir staging_id)))
    pure (image, config)

  abbrev export_result : ℕ → Template → String
  export_result staging_id t = String.◌++◌ "{\"stagingFileId\":\"" (
      String.◌++◌ (decimal staging_id)
        (String.◌++◌ "\",\"suggestedName\":\"" (String.◌++◌ (safe_filename t.name) ".wtmpl\"}")))

  unfoldable pub write_export : ℕ → ℕ → Template → String × ℕ → String × ℕ → Step D (Unit {0})
  unfolding export_manifest
  write_export operation_id staging_id t image config = do
    entries ← internal (export.read_image_archive (image_payload staging_id))
    image_config_sha256 ←
        step (map_err (λ _. internal_error) (lift (export.image_config_sha256 entries)))
    step
        (log host operation_id "[controller] assembling manifest.json and two payloads into .wtmpl")
    stop_here operation_id
    internal (
        export.write_package (hidden staging_id ".wtmpl.partial")
          (export.print_manifest (export_manifest t image config image_config_sha256))
          (image_payload staging_id) (snapshot_path host t.snapshot_path))
    internal
        (export.rename_and_sync (hidden staging_id ".wtmpl.partial") (staged staging_id ".wtmpl"))

  unfoldable pub export_job : ℕ → ℕ → Template → Job D CancellableJobOutcome
  unfolding save_image hash_payloads write_export outcome_of safe_filename
  export_job operation_id staging_id t = outcome_of (do
    stop_here operation_id
    save_image operation_id staging_id t
    hashes ← hash_payloads operation_id staging_id t
    write_export operation_id staging_id t (hashes.0) (hashes.1)
    stop_here operation_id
    modify (try (host.remove_dir_all (temporary_dir staging_id)))
    step (
        log host operation_id (
          String.◌++◌ "[controller] export staged: image " (
            String.◌++◌ (host.human_bytes ((hashes.0).1))
              (String.◌++◌ ", config " (host.human_bytes ((hashes.1).1))))))
    pure (export_result staging_id t))

  abbrev is_completed : Result ApiError CancellableJobOutcome → Bool
  is_completed (ok (completed result)) = true
  is_completed _ = false

  abbrev remove_export : ℕ → AppState D → AppState D
  remove_export staging_id s = try (host.remove_file (hidden staging_id ".wtmpl.partial")) (
      try (host.remove_dir_all (temporary_dir staging_id))
        (try (host.remove_file (staged staging_id ".wtmpl")) s))

  -- What the task does behind its job: an export that is not complete leaves no file.
  unfoldable pub clean_export : ℕ → Result ApiError CancellableJobOutcome → AppState D → AppState D
  clean_export staging_id result s =
      if not (is_completed result) then remove_export staging_id s else s
