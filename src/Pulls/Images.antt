-- ===== src/Pulls/Images.antt =====
-- What crates/controller/src/api.rs uses of crates/controller/src/docker.rs to keep images, and the
-- lock that an operation on images takes.
use webtop_manager.Prelude.{ℕ, String, Bool, true, false, not, List, [], ◌∷◌, ◌++◌, if◌then◌else◌}
use webtop_manager.Prelude.Results.{Result, ok, err}
use webtop_manager.Prelude.Actions.{
  ◌>>=◌, ◌>>◌, raise, gets, modify, lift, map_err, reject_if, attempt,
}
use webtop_manager.Contracts.Errors.{ApiFailure}
use webtop_manager.Contracts.Failures
use webtop_manager.Contracts.Packages.{OfficialImage, ImageCachePruneResult, ImagePullProgress}
use webtop_manager.Docker.Images.{is_official_image}
use webtop_manager.Controller.State.{AppState, Handler}
use webtop_manager.Controller.Docker.{Call}
use webtop_manager.Controller.Frpc.{call}
use webtop_manager.Templates.Jobs.{contains, docker_images, remove_resource, is_empty}

pub data ImagePullOutcome : Type 0 where
  complete_outcome cancelled_outcome : ImagePullOutcome

-- What a pull has sent over its channel when it ends, and how it ends.
pub record PullReport : Type 0 where
  pub events : List ImagePullProgress
  pub outcome : Result (Unit {0}) ImagePullOutcome

pub record ImageApi (D : Type 0) : Type 0 where
  pub list_official_images : Call D (List OfficialImage)
  pub prune_image_cache : Call D ImageCachePruneResult
  pub official_image_in_use : String → Call D Bool
  pub remove_official_image : String → Call D (Unit {0})
  pub pull_official_image : ℕ → String → D → PullReport × D

module _ {D : Type 0} where
  -- `resources.insert("docker-images")`, refused where it is there.
  unfoldable pub take_images : Handler D (Unit {0})
  take_images = do
    active ← gets (λ s. s.active_resources)
    reject_if (contains active docker_images) Failures.resource_busy
    modify (λ s. record s { active_resources = s.active_resources ++ docker_images ∷ [] })

  unfoldable pub release_images : AppState D → AppState D
  unfolding remove_resource
  release_images s = record s {
    active_resources = remove_resource docker_images s.active_resources;
  }

  -- `remove("docker-images")` before an early return.
  abbrev pub give_up : {A : Type 0} → ApiFailure → Handler D A
  give_up failure = modify release_images >> raise failure

  unfoldable pub list_official_images : ImageApi D → Handler D (List OfficialImage)
  list_official_images images =
      map_err (λ _. Failures.docker) (call (ImageApi.list_official_images images))

  abbrev guarded : {A : Type 0} → Handler D A → Handler D A
  guarded rest = do
    pulling ← gets (λ s. not (is_empty s.pull_cancellations))
    if pulling then give_up Failures.resource_busy else rest

  abbrev prune : ImageApi D → Handler D ImageCachePruneResult
  prune images = do
    result ← attempt (call (ImageApi.prune_image_cache images))
    modify release_images
    map_err (λ _. Failures.docker) (lift result)

  unfoldable pub prune_image_cache : ImageApi D → Handler D ImageCachePruneResult
  unfolding take_images release_images
  prune_image_cache images = take_images >> guarded (prune images)

  abbrev remove_image : ImageApi D → String → Handler D (Unit {0})
  remove_image images reference = do
    result ← attempt (call (ImageApi.remove_official_image images reference))
    modify release_images
    map_err (λ _. Failures.docker) (lift result)

  abbrev remove_unused : ImageApi D → String → Result (Unit {0}) Bool → Handler D (Unit {0})
  remove_unused images reference (ok true) = give_up Failures.resource_busy
  remove_unused images reference (ok false) = remove_image images reference
  remove_unused images reference (err e) = give_up Failures.docker

  abbrev delete_guarded : ImageApi D → String → Handler D (Unit {0})
  delete_guarded images reference = do
    in_use ← attempt (call (ImageApi.official_image_in_use images reference))
    remove_unused images reference in_use

  unfoldable pub delete_official_image : ImageApi D → String → Handler D (Unit {0})
  unfolding take_images release_images
  delete_official_image images reference = do
    reject_if (not (is_official_image reference)) Failures.invalid_request
    take_images
    guarded (delete_guarded images reference)
