-- ===== src/Templates/ImageLaws.antt =====
-- A committed image is a template, and carries no secret of its environment
-- (crates/controller/src/templates.rs).
use webtop_manager.Prelude.{
  ◌∙◌, Option, ℕ, String, true, false, not, ◌≡◌, ◌↔◌, refl, some, none, List, [], ◌∷◌, ◌++◌, arith,
  All, keep, str_eq, eq_iff, inl, inr, Bool-cases,
}
use webtop_manager.Prelude.Text.{decimal, text_before}
use webtop_manager.Prelude.Results.{ok}
use webtop_manager.Contracts.Validate.{is_reserved_key, get_value}
use webtop_manager.Templates.Images.{
  safe_env, with_config_volume, ImageConfig, ImageInspect, Labels, insert_label, owner_label,
  resource_id_label, resource_kind_label, source_environment_label, safe_image_environment,
  sanitized_commit_config, verify_image, mentions, has_text, or_default,
}

get_value-keep_other :
    (key other : String) (labels : Labels)
    → str_eq key other ≡ false
    → get_value key (keep (λ l. not (str_eq (l.0) other)) labels) ≡ get_value key labels
unfolding get_value
get_value-keep_other key other [] differ = refl
get_value-keep_other key other ((k, v) ∷ labels) differ = ground (
  arith,
  get_value-keep_other key other labels differ,
  eq_iff k other,
  eq_iff k key,
  eq_iff key other,
)

pub get_value-insert_same :
    (key value : String) (labels : Labels)
    → get_value key (insert_label key value labels) ≡ some value
unfolding get_value
get_value-insert_same key value labels = ground (arith, eq_iff key key)

pub get_value-insert_other :
    (key other value : String) (labels : Labels)
    → str_eq key other ≡ false
    → get_value key (insert_label other value labels) ≡ get_value key labels
unfolding get_value
get_value-insert_other key other value labels differ =
    ground (arith, get_value-keep_other key other labels differ, eq_iff other key, eq_iff key other)

has_config : (volumes : List String) → has_text "/config" (volumes ++ "/config" ∷ []) ≡ true
has_config [] = refl
has_config (v ∷ volumes) = ground (arith, has_config volumes)

-- A variable that a spec may set as well, and that is not one of the two more that a template drops.
abbrev pub IsSafeVariable : String → Type 0
IsSafeVariable value =
    (is_reserved_key (text_before b'=' value) ≡ false)
    × (str_eq (text_before b'=' value) "LC_ALL" ≡ false)
    × (str_eq (text_before b'=' value) "SELKIES_MASTER_TOKEN" ≡ false)

-- What a commit writes: no reserved variable, `/config` as a volume, and labels that say whose the
-- image is.
pub record IsTemplateConfig (template_id source_id : ℕ) (config : ImageConfig) : Type 0 where
  pub environment : All IsSafeVariable (or_default config.env)
  pub config_volume : mentions "/config" config.volumes ≡ true
  pub owner : get_value owner_label (or_default config.labels) ≡ some "managed"
  pub kind : get_value resource_kind_label (or_default config.labels) ≡ some "template"
  pub id : get_value resource_id_label (or_default config.labels) ≡ some (decimal template_id)
  pub source_environment :
      get_value source_environment_label (or_default config.labels) ≡ some (decimal source_id)

kept_variables : (values : List String) → All IsSafeVariable (keep safe_image_environment values)
unfolding safe_image_environment
kept_variables [] = tt
kept_variables (v ∷ values) = elim (Bool-cases (safe_image_environment v)) [
  | inl safe ↦ rw safe ((ground arith, ground arith, ground arith), kept_variables values)
  | inr dropped ↦ rw dropped (kept_variables values)
]

config_volume_of : (volumes : List String) → has_text "/config" (with_config_volume volumes) ≡ true
config_volume_of volumes = elim (Bool-cases (has_text "/config" volumes)) [
  | inl there ↦ ground (arith, there)
  | inr missing ↦ ground (arith, missing, has_config volumes)
]

environment_of : (env : Option (List String)) → All IsSafeVariable (or_default (safe_env env))
environment_of none = tt
environment_of (some values) = kept_variables values

-- The configuration of a commit has no variable with a reserved name or a secret, `/config` as a
-- volume, and the labels of the new template, whatever the source has.
pub sanitized_commit_config-IsTemplateConfig :
    (source : ImageConfig) (template_id source_id : ℕ)
    → IsTemplateConfig template_id source_id (sanitized_commit_config source template_id source_id)
unfolding sanitized_commit_config
sanitized_commit_config-IsTemplateConfig source template_id source_id =
    let l0 = or_default source.labels in
    let l1 = insert_label owner_label "managed" l0 in
    let l2 = insert_label resource_kind_label "template" l1 in
    let l3 = insert_label resource_id_label (decimal template_id) l2 in
    record {
      environment = environment_of source.env;
      config_volume = config_volume_of (or_default source.volumes);
      owner =
          get_value-insert_other owner_label source_environment_label (decimal source_id) l3 refl
          ∙ get_value-insert_other owner_label resource_id_label (decimal template_id) l2 refl
          ∙ get_value-insert_other owner_label resource_kind_label "template" l1 refl
          ∙ get_value-insert_same owner_label "managed" l0;
      kind =
          get_value-insert_other resource_kind_label source_environment_label (decimal source_id) l3
            refl
          ∙ get_value-insert_other resource_kind_label resource_id_label (decimal template_id) l2
              refl
          ∙ get_value-insert_same resource_kind_label "template" l1;
      id =
          get_value-insert_other resource_id_label source_environment_label (decimal source_id) l3
            refl
          ∙ get_value-insert_same resource_id_label (decimal template_id) l2;
      source_environment = get_value-insert_same source_environment_label (decimal source_id) l3;
    }

-- An image for linux/amd64 with the configuration of a commit is accepted as a template exactly if
-- the entry point of the source has `/init`.
pub verify_image-commit_iff :
    (image : ImageInspect) (source : ImageConfig) (template_id source_id : ℕ)
    → image.os ≡ some "linux"
    → image.architecture ≡ some "amd64"
    → image.config ≡ some (sanitized_commit_config source template_id source_id)
    → (verify_image image ≡ ok image) ↔ (mentions "/init" source.entrypoint ≡ true)
unfolding verify_image sanitized_commit_config
verify_image-commit_iff image source template_id source_id os architecture config =
    let c = sanitized_commit_config-IsTemplateConfig source template_id source_id in
    (
      (λ h. ground (arith, os, architecture, config, c.config_volume, c.owner, c.kind)),
      (λ h. ground (arith, os, architecture, config, c.config_volume, c.owner, c.kind)),
    )
