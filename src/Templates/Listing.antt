-- ===== src/Templates/Listing.antt =====
-- Listing templates with their integrity, and the estimate of the space that a template takes
-- (crates/controller/src/templates.rs).
use webtop_manager.Prelude.{
  ℕ, ◌+◌, ◌*◌, Bool, true, false, not, Option, none, some, List, [], ◌∷◌, leb, ltb, if◌then◌else◌,
}
use webtop_manager.Prelude.Results.{Result, ok, err}
use webtop_manager.Prelude.Actions.{◌>>=◌, ◌>>◌, pure, gets, modify, lift, map_err}
use webtop_manager.Contracts.Failures
use webtop_manager.Contracts.Packages.{TemplatePreflight}
use webtop_manager.Database.Records.{
  Template, TemplateIntegrity, complete, missing_image, missing_snapshot, corrupt_snapshot,
}
use webtop_manager.Database.Templates.{list_templates as list_rows, update_template}
use webtop_manager.Controller.State.{Handler, with_database}
use webtop_manager.Controller.Frpc.{call}
use webtop_manager.Controller.Publication.{required_environment}
use webtop_manager.Templates.Images.{ImageInspect}
use webtop_manager.Templates.Host.{
  Host, WorkerReport, preflight_job, ContainerInspect, join, size_of,
}
use webtop_manager.Templates.Checks.{ensure_stopped_and_owned}

abbrev pub integrity_eq : TemplateIntegrity → TemplateIntegrity → Bool
integrity_eq complete complete = true
integrity_eq missing_image missing_image = true
integrity_eq missing_snapshot missing_snapshot = true
integrity_eq corrupt_snapshot corrupt_snapshot = true
integrity_eq _ _ = false

-- `u64` arithmetic that stops at the greatest value.
abbrev pub u64_max : ℕ
u64_max = 18446744073709551615

abbrev pub saturate : ℕ → ℕ
saturate n = if leb n u64_max then n else u64_max

abbrev available : Option (ℕ × ℕ) → Option ℕ
available none = none
available (some (blocks, size)) = some (saturate (blocks * size))

abbrev falls_short : Option ℕ → ℕ → Bool
falls_short none total = false
falls_short (some n) total = ltb n total

-- The answer of `template_preflight`, from what it has read.
unfoldable pub preflight_of :
    ℕ → ContainerInspect → WorkerReport → Option (ℕ × ℕ) → TemplatePreflight
preflight_of id container report stats =
    let system = size_of container.size_rw in
    let total = saturate (saturate (system + report.original_bytes) + 64 * 1024 * 1024) in
    record {
      environment_id = id;
      system_change_bytes = system;
      config_original_bytes = report.original_bytes;
      file_count = report.files;
      directory_count = report.directories;
      symlink_count = report.symlinks;
      skipped_special_files = report.skipped_special;
      sensitive_paths = report.sensitive_paths;
      image_upper_bound_bytes = system;
      snapshot_upper_bound_bytes = report.original_bytes;
      conservative_total_bytes = total;
      available_bytes = available stats;
      insufficient_space_warning = falls_short (available stats) total;
    }

module _ {D : Type 0} (host : Host D) where
  abbrev image_integrity : Result (Unit {0}) ImageInspect → TemplateIntegrity
  image_integrity (ok image) = complete
  image_integrity (err e) = missing_image

  -- The image is looked up where the snapshot is there.
  unfoldable pub read_integrity : Template → Handler D TemplateIntegrity
  read_integrity t = do
    snapshot ← gets (λ s. host.is_file (join host.snapshot_root t.snapshot_path) s.docker)
    if not snapshot then pure missing_snapshot else (λ s.
        let r = call (host.inspect_image t.image_reference) s in (ok (image_integrity r.0), r.1))

  unfoldable pub store_template : Template → Handler D (Unit {0})
  store_template t = do
    db ← gets (λ s. update_template host.reread_template t s.database)
    next ← map_err (λ _. Failures.internal) (lift db)
    modify (with_database (λ _. next))

  -- The body of the loop of `list_templates`.
  unfoldable pub refresh_template : Template → Handler D Template
  unfolding read_integrity store_template
  refresh_template t = do
    next ← read_integrity t
    let changed = record t { integrity = next }
    if integrity_eq next t.integrity then pure t else (store_template changed >> pure changed)

  unfoldable pub refresh_templates : List Template → Handler D (List Template)
  unfolding refresh_template
  refresh_templates [] = pure []
  refresh_templates (t ∷ ts) = do
    first ← refresh_template t
    rest ← refresh_templates ts
    pure (first ∷ rest)

  unfoldable pub list_templates : Handler D (List Template)
  unfolding refresh_templates
  list_templates = do templates ← gets (λ s. list_rows s.database); refresh_templates templates

  unfoldable pub template_preflight : ℕ → Handler D TemplatePreflight
  unfolding ensure_stopped_and_owned preflight_of
  template_preflight id = do
    r ← required_environment id
    ensure_stopped_and_owned host r
    report ← map_err (λ _. Failures.internal) (call (host.run_worker (preflight_job r.config_path)))
    container ← map_err (λ _. Failures.docker) (call (host.inspect_container r.container_id))
    stats ← gets (λ s. host.statvfs s.docker)
    pure (preflight_of id container report stats)
