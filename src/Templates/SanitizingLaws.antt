-- ===== src/Templates/SanitizingLaws.antt =====
-- The configuration of an imported image passes the check of its labels
-- (crates/controller/src/templates.rs).
use webtop_manager.Prelude.Text.{split_last}
use webtop_manager.Prelude.Results.{ok}
use webtop_manager.Templates.Sanitizing.{
  is_safe_value, is_foreign, sanitize_imported_image_config, sanitize_environment,
  sanitize_defaults, own_labels, check_labels,
}
use webtop_manager.Templates.Images.{resource_id_label, resource_kind_label, owner_label}
use webtop_manager.Prelude.{
  refl, ◌∙◌, inr, inl, Option-cases, Bool, String, false, ◌≡◌, some, arith, str_eq, eq_iff,
}
use webtop_manager.Templates.Json.{
  null, bool, number, string, array, object, retain_items, get_member, as_object, and_then,
  object_at, retain_members, Json, Members, no_members, member, set_member,
}

pub get_member-set_same :
    (key : String) (value : Json) (ms : Members)
    → get_member key (set_member key value ms) ≡ some value
unfolding get_member set_member
get_member-set_same key value no_members = ground (arith, eq_iff key key)
get_member-set_same key value (member k v ms) =
    ground (arith, get_member-set_same key value ms, eq_iff key key)

pub get_member-set_other :
    (key other : String) (value : Json) (ms : Members)
    → str_eq other key ≡ false
    → get_member key (set_member other value ms) ≡ get_member key ms
unfolding get_member set_member
get_member-set_other key other value no_members differ = ground arith
get_member-set_other key other value (member k v ms) differ = ground (
  arith,
  get_member-set_other key other value ms differ,
  eq_iff k other,
  eq_iff other key,
  eq_iff k key,
)

labels_of_environment :
    (ms : Members) → get_member "Labels" (sanitize_environment ms) ≡ get_member "Labels" ms
unfolding sanitize_environment
labels_of_environment ms = elim (Option-cases (get_member "Env" ms)) [
  | inl absent ↦ rw (sanitize_environment, absent) refl
  | inr (null, e) ↦ rw (sanitize_environment, e) refl
  | inr (bool b, e) ↦ rw (sanitize_environment, e) refl
  | inr (number n, e) ↦ rw (sanitize_environment, e) refl
  | inr (string s, e) ↦ rw (sanitize_environment, e) refl
  | inr (array values, e) ↦
      rw (sanitize_environment, e)
        (get_member-set_other "Labels" "Env" (array (retain_items is_safe_value values)) ms refl)
  | inr (object inner, e) ↦ rw (sanitize_environment, e) refl
]

labels_of_defaults :
    (id : String) (ms : Members)
    → get_member "Labels" (sanitize_defaults id ms)
      ≡ some (object (own_labels id (object_at "Labels" ms)))
unfolding sanitize_defaults
labels_of_defaults id ms =
    labels_of_environment (set_member "Labels" (object (own_labels id (object_at "Labels" ms))) ms)
    ∙ get_member-set_same "Labels" (object (own_labels id (object_at "Labels" ms))) ms

-- The three labels that the program gives.
record IsOwned (id : String) (labels : Members) : Type 0 where
  owner : get_member owner_label labels ≡ some (string "managed")
  kind : get_member resource_kind_label labels ≡ some (string "template")
  resource : get_member resource_id_label labels ≡ some (string id)

own_labels-IsOwned : (id : String) (ms : Members) → IsOwned id (own_labels id ms)
unfolding own_labels
own_labels-IsOwned id ms =
    let l0 = retain_members is_foreign ms in
    let l1 = set_member owner_label (string "managed") l0 in
    let l2 = set_member resource_kind_label (string "template") l1 in
    record {
      owner =
          get_member-set_other owner_label resource_id_label (string id) l2 refl
          ∙ get_member-set_other owner_label resource_kind_label (string "template") l1 refl
          ∙ get_member-set_same owner_label (string "managed") l0;
      kind =
          get_member-set_other resource_kind_label resource_id_label (string id) l2 refl
          ∙ get_member-set_same resource_kind_label (string "template") l1;
      resource = get_member-set_same resource_id_label (string id) l2;
    }

check_owned :
    (id : String) (top defaults labels : Members)
    → get_member "config" top ≡ some (object defaults)
    → get_member "Labels" defaults ≡ some (object labels)
    → IsOwned id labels
    → check_labels (object top) id ≡ ok tt
unfolding check_labels
check_owned id top defaults labels e f h =
    ground (arith, e, f, h.owner, h.kind, h.resource, eq_iff id id)

-- A configuration that is made the program's own under a tag passes the check of its labels for that
-- tag, whatever labels the package gave it.
pub sanitize-check_labels :
    (is_uuid : String → Bool) (config own : Json) (new_ref repository id : String)
    → sanitize_imported_image_config is_uuid config new_ref ≡ ok own
    → split_last b':' new_ref ≡ some (repository, id)
    → check_labels own id ≡ ok tt
unfolding sanitize_imported_image_config
sanitize-check_labels is_uuid config own new_ref repository id e tagged =
    elim (Option-cases (as_object config)) [
      | inl bad ↦ absurd (ground (arith, e, tagged, bad))
      | inr (top, is_top) ↦ elim (Option-cases (and_then (get_member "config" top) as_object)) [
        | inl bad ↦ absurd (ground (arith, e, tagged, is_top, bad))
        | inr (defaults, is_defaults) ↦
            let next = sanitize_defaults id defaults in
            let same : own ≡ object (set_member "config" (object next) top) =
              ground (arith, e, tagged, is_top, is_defaults) in
            rw same (
              check_owned id (set_member "config" (object next) top) next
                (own_labels id (object_at "Labels" defaults))
                (get_member-set_same "config" (object next) top) (labels_of_defaults id defaults)
                (own_labels-IsOwned id (object_at "Labels" defaults)))
      ]
    ]
