-- ===== src/Templates/Checks.antt =====
-- The checks that templates.rs makes of containers, of owned images and of a spec's resources, and the
-- removal of the images that it owns (crates/controller/src/templates.rs).
use Prim.Native.String
use webtop_manager.Prelude.{
  ℕ, String, Bool, true, false, not, ◌&&◌, ◌||◌, none, some, any, if◌then◌else◌,
}
use webtop_manager.Prelude.Text.{decimal, text_starts_with}
use webtop_manager.Prelude.Results.{Result, ok, err}
use webtop_manager.Prelude.Actions.{
  ◌>>=◌, ◌>>◌, pure, gets, lift, map_err, reject_if, ok_or, attempt,
}
use webtop_manager.Contracts.Failures
use webtop_manager.Contracts.Spec.{EnvironmentSpec}
use webtop_manager.Contracts.Validate.{get_value}
use webtop_manager.Database.Records.{EnvironmentRecord}
use webtop_manager.Controller.State.{AppState, Handler}
use webtop_manager.Controller.Frpc.{call}
use webtop_manager.Templates.Jobs.{Job, busy_error, invalid_error}
use webtop_manager.Templates.Images.{
  owner_label, resource_kind_label, resource_id_label, is_text, or_default, ImageInspect,
  verify_image, template_repository, staging_repository,
}
use webtop_manager.Templates.Host.{Host, ContainerInspect, docker_call, try}

-- The tests of `ensure_stopped_and_owned_value` on the container.
abbrev is_running : ContainerInspect → Bool
is_running c = elim c.running [ none ↦ false | some b ↦ b ]

abbrev is_managed : ContainerInspect → ℕ → Bool
is_managed c id =
    let labels = or_default c.labels in
    is_text "managed" (get_value owner_label labels)
    && is_text "environment" (get_value resource_kind_label labels)
    && is_text (decimal id) (get_value resource_id_label labels)

-- `format!("{repository}:{id}")`.
abbrev pub tagged : String → String → String
tagged repository tag = String.◌++◌ repository (String.◌++◌ ":" tag)

abbrev has_repository : String → String → Bool
has_repository repository reference = text_starts_with reference (tagged repository "")

module _ {D : Type 0} (host : Host D) where
  unfoldable pub ensure_stopped_and_owned_value : EnvironmentRecord → Job D (Unit {0})
  ensure_stopped_and_owned_value r = do
    container ← docker_call (host.inspect_container r.container_id)
    reject_if (is_running container) busy_error
    reject_if (not (is_managed container r.id)) invalid_error

  unfoldable pub ensure_stopped_and_owned : EnvironmentRecord → Handler D (Unit {0})
  unfolding ensure_stopped_and_owned_value
  ensure_stopped_and_owned r =
      map_err (λ e. record { status = 409; error = e }) (ensure_stopped_and_owned_value r)

  -- The stream of the download yields a first part, an error, or nothing.
  unfoldable pub verify_container_path : String → String → Job D (Unit {0})
  verify_container_path container_id path = do
    first ← docker_call (host.download_from_container container_id path)
    ok_or first invalid_error

  unfoldable pub verify_template_image : String → Job D ImageInspect
  unfolding verify_image
  verify_template_image reference = do
    image ← docker_call (host.inspect_image reference)
    lift (verify_image image)

  abbrev remove_present : String → Result (Unit {0}) ImageInspect → Job D (Unit {0})
  remove_present reference (err e) = pure tt
  remove_present reference (ok image) = docker_call (host.remove_image reference false)

  -- Only an image of the template repository is removed.
  unfoldable pub remove_owned_image : String → Job D (Unit {0})
  remove_owned_image reference = do
    reject_if (not (has_repository template_repository reference)) invalid_error
    image ← attempt (call (host.inspect_image reference))
    remove_present reference image

  abbrev remove_forced : String → Result (Unit {0}) ImageInspect → AppState D → AppState D
  remove_forced reference (err e) s = s
  remove_forced reference (ok image) s = try (host.remove_image reference true) s

  unfoldable pub remove_import_image : String → AppState D → AppState D
  remove_import_image reference s =
      if not (has_repository template_repository reference)
        && not (has_repository staging_repository reference)
      then s
      else (let r = call (host.inspect_image reference) s in remove_forced reference (r.0) (r.1))

  unfoldable pub validate_external_resources : EnvironmentSpec → Handler D (Unit {0})
  validate_external_resources spec = do
    missing ← gets (λ s.
        any (λ mount. not (host.path_exists mount.host_path s.docker)) spec.mounts
        || any (λ device. not (host.path_exists device s.docker)) spec.security.devices
        || (spec.security.docker_socket && not (host.path_exists "/var/run/docker.sock" s.docker)))
    reject_if missing Failures.invalid_request
