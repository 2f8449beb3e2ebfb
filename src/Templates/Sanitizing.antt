-- ===== src/Templates/Sanitizing.antt =====
-- The configuration of an imported image: its labels and its environment are made the program's own
-- (crates/controller/src/templates.rs).
use webtop_manager.Prelude.{String, Bool, false, not, ◌||◌, some}
use webtop_manager.Prelude.Text.{text_starts_with, split_last}
use webtop_manager.Prelude.Results.{Result, ok, ◌>>=◌, ◌>>◌, reject_if, ok_or}
use webtop_manager.Templates.Images.{
  owner_label, resource_kind_label, resource_id_label, safe_image_environment, is_text,
}
use webtop_manager.Templates.Json.{
  Json, string, array, object, Members, get_member, set_member, retain_members, retain_items,
  as_object, get, get_str, and_then, object_at,
}

abbrev pub is_foreign : String → Bool
is_foreign key = not (text_starts_with key "com.cue.webtop-manager.")

-- The labels of an imported image.
unfoldable pub own_labels : String → Members → Members
unfolding set_member retain_members
own_labels local_id labels = set_member resource_id_label (string local_id) (
    set_member resource_kind_label (string "template")
      (set_member owner_label (string "managed") (retain_members is_foreign labels)))

abbrev pub is_safe_value : Json → Bool
is_safe_value (string s) = safe_image_environment s
is_safe_value _ = false

unfoldable pub sanitize_environment : Members → Members
unfolding get_member set_member retain_items safe_image_environment
sanitize_environment defaults = elim (get_member "Env" defaults) [
  | some (array values) ↦ set_member "Env" (array (retain_items is_safe_value values)) defaults
  | _ ↦ defaults
]

unfoldable pub sanitize_defaults : String → Members → Members
unfolding own_labels sanitize_environment
sanitize_defaults local_id defaults =
    sanitize_environment
      (set_member "Labels" (object (own_labels local_id (object_at "Labels" defaults))) defaults)

module _ (is_uuid : String → Bool) where
  unfoldable pub sanitize_imported_image_config : Json → String → Result (Unit {0}) Json
  unfolding sanitize_defaults
  sanitize_imported_image_config config new_ref = do
    parts ← ok_or (split_last b':' new_ref) tt
    reject_if (not (is_uuid (parts.1))) tt
    top ← ok_or (as_object config) tt
    defaults ← ok_or (and_then (get_member "config" top) as_object) tt
    ok (object (set_member "config" (object (sanitize_defaults (parts.1) defaults)) top))

-- The test of the labels at the end of `validate_rewritten_image_archive`.
unfoldable pub check_labels : Json → String → Result (Unit {0}) (Unit {0})
check_labels config expected_id = do
  labels ← ok_or (and_then (get "config" config) (get "Labels")) tt
  reject_if
      (not (is_text "managed" (get_str owner_label labels))
        || not (is_text "template" (get_str resource_kind_label labels))
        || not (is_text expected_id (get_str resource_id_label labels)))
      tt
