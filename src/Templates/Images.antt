-- ===== src/Templates/Images.antt =====
-- Template images: what a commit keeps of its source's configuration, and what makes an image a
-- template (crates/controller/src/templates.rs). The image types are bollard's, as far as the code
-- reads them; a map is listed by key.
use Prim.Native.String
use webtop_manager.Prelude.{
  ℕ, String, Bool, false, not, ◌&&◌, ◌||◌, Option, none, some, List, [], ◌∷◌, ◌++◌, any, keep,
  str_eq, if◌then◌else◌,
}
use webtop_manager.Prelude.Text.{decimal, text_before, text_after, text_starts_with}
use webtop_manager.Prelude.Results.{Result, ok, ◌>>=◌, ◌>>◌, reject_if, ok_or}
use webtop_manager.Contracts.Errors.{ApiError}
use webtop_manager.Contracts.Spec.{ℤ}
use webtop_manager.Contracts.Validate.{is_reserved_key, get_value}
use webtop_manager.Database.Records.{OfficialTemplateSource}
use webtop_manager.Docker.Images.{is_official_image}
use webtop_manager.Templates.Jobs.{invalid_error}

abbrev pub owner_label : String
owner_label = "com.cue.webtop-manager.owner"

abbrev pub resource_id_label : String
resource_id_label = "com.cue.webtop-manager.resource-id"

abbrev pub resource_kind_label : String
resource_kind_label = "com.cue.webtop-manager.resource-kind"

abbrev pub source_environment_label : String
source_environment_label = "com.cue.webtop-manager.source-environment-id"

abbrev pub template_repository : String
template_repository = "com.cue.webtop-manager/template"

abbrev pub staging_repository : String
staging_repository = "com.cue.webtop-manager/import-staging"

abbrev pub package_schema_version : ℕ
package_schema_version = 1

abbrev pub Labels : Type 0
Labels = List (String × String)

-- `ImageConfig`, and the fields of a `ContainerConfig` that a commit sets; a health check is its JSON.
pub record ImageConfig : Type 0 where
  pub user : Option String
  pub exposed_ports : Option (List String)
  pub env : Option (List String)
  pub cmd : Option (List String)
  pub healthcheck : Option String
  pub args_escaped : Option Bool
  pub volumes : Option (List String)
  pub working_dir : Option String
  pub entrypoint : Option (List String)
  pub on_build : Option (List String)
  pub labels : Option Labels
  pub stop_signal : Option String
  pub shell : Option (List String)

pub record ImageInspect : Type 0 where
  pub id : Option String
  pub os : Option String
  pub architecture : Option String
  pub size : Option ℤ
  pub repo_digests : Option (List String)
  pub config : Option ImageConfig

-- `HashMap::insert`.
abbrev pub insert_label : String → String → Labels → Labels
insert_label key value labels = (key, value) ∷ keep (λ l. not (str_eq (l.0) key)) labels

abbrev pub or_default : {A : Type 0} → Option (List A) → List A
or_default none = []
or_default (some xs) = xs

-- The filter on `KEY=value` of `sanitized_commit_config` and `safe_image_environment`.
unfoldable pub safe_image_environment : String → Bool
safe_image_environment value =
    let key = text_before b'=' value in
    not (is_reserved_key key)
    && not (str_eq key "LC_ALL")
    && not (str_eq key "SELKIES_MASTER_TOKEN")

abbrev pub safe_env : Option (List String) → Option (List String)
safe_env none = none
safe_env (some values) = some (keep safe_image_environment values)

abbrev template_labels : ℕ → ℕ → Labels → Labels
template_labels template_id source_environment_id labels =
    insert_label source_environment_label (decimal source_environment_id) (
      insert_label resource_id_label (decimal template_id)
        (insert_label resource_kind_label "template" (insert_label owner_label "managed" labels)))

abbrev pub has_text : String → List String → Bool
has_text x xs = any (λ v. str_eq v x) xs

abbrev pub with_config_volume : List String → List String
with_config_volume volumes =
    if has_text "/config" volumes then volumes else volumes ++ "/config" ∷ []

unfoldable pub sanitized_commit_config : ImageConfig → ℕ → ℕ → ImageConfig
unfolding safe_image_environment
sanitized_commit_config source template_id source_environment_id = record {
  user = source.user;
  exposed_ports = source.exposed_ports;
  env = safe_env source.env;
  cmd = source.cmd;
  healthcheck = source.healthcheck;
  args_escaped = source.args_escaped;
  volumes = some (with_config_volume (or_default source.volumes));
  working_dir = source.working_dir;
  entrypoint = source.entrypoint;
  on_build = source.on_build;
  labels = some (template_labels template_id source_environment_id (or_default source.labels));
  stop_signal = source.stop_signal;
  shell = source.shell;
}

abbrev pub is_text : String → Option String → Bool
is_text x none = false
is_text x (some y) = str_eq y x

abbrev pub mentions : String → Option (List String) → Bool
mentions x none = false
mentions x (some xs) = has_text x xs

-- `verify_template_image`, on the image that it reads.
unfoldable pub verify_image : ImageInspect → Result ApiError ImageInspect
verify_image image = do
  reject_if (not (is_text "linux" image.os) || not (is_text "amd64" image.architecture))
      invalid_error
  config ← ok_or image.config invalid_error
  reject_if (not (mentions "/init" config.entrypoint) || not (mentions "/config" config.volumes))
      invalid_error
  labels ← ok_or config.labels invalid_error
  reject_if
      (not (is_text "managed" (get_value owner_label labels))
        || not (is_text "template" (get_value resource_kind_label labels)))
      invalid_error
  ok image

abbrev first_match : (String → Bool) → List String → Option String
first_match p [] = none
first_match p (x ∷ xs) = if p x then some x else first_match p xs

abbrev digest_of : String → Option (List String) → Option String
digest_of repository none = none
digest_of repository (some digests) =
    elim (first_match (λ d. text_starts_with d repository) digests) [
      | none ↦ none
      | some digest ↦ text_after b'@' digest
    ]

abbrev first_value : List String → Labels → Option String
first_value [] labels = none
first_value (key ∷ keys) labels = elim (get_value key labels) [
  | some value ↦ some value
  | none ↦ first_value keys labels
]

abbrev labels_of : Option ImageConfig → Labels
labels_of none = []
labels_of (some config) = or_default config.labels

unfoldable pub official_source : String → String → ImageInspect → Option OfficialTemplateSource
official_source reference image_id image =
    if not (is_official_image reference)
    then none
    else some (record {
      reference = reference;
      digest = digest_of (text_before b':' reference) image.repo_digests;
      image_id = image_id;
      build_version =
          first_value ("build_version" ∷ "BUILD_VERSION" ∷ "org.opencontainers.image.version" ∷ [])
            (labels_of image.config);
    })

unfoldable pub image_platform : ImageInspect → Result ApiError String
image_platform image = do
  os ← ok_or image.os invalid_error
  architecture ← ok_or image.architecture invalid_error
  ok (String.◌++◌ os (String.◌++◌ "/" architecture))
