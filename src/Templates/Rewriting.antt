-- ===== src/Templates/Rewriting.antt =====
-- Rewriting the archive of an imported image to a tag and a configuration of the program's own
-- (crates/controller/src/templates.rs). `serde_json::to_vec` is a function, and so is SHA-256, whose
-- digest is written in hexadecimal digits.
use Prim.Native.String
use webtop_manager.Prelude.{ℕ, ◌*◌, String, true, not, ◌==◌, Option, none, some, List, length}
use webtop_manager.Prelude.Text.{split_last}
use webtop_manager.Prelude.Results.{ok, ◌>>=◌, ◌>>◌, reject_if, ok_or}
use webtop_manager.Templates.Json.{
  Json, null, string, number, array, object, no_items, item, Members, no_members, member,
  get_member, set_member, remove_member, as_array, as_object, get_str, first_item, count_items,
  and_then, object_at,
}
use webtop_manager.Templates.Packages.{Bytes, Entry}
use webtop_manager.Templates.Names.{oci_blob_path}
use webtop_manager.Templates.Archives.{Fails, read_archive_entry}

-- `OciArchiveRewrite`.
pub record OciArchiveRewrite : Type 0 where
  pub old_manifest_path : String
  pub new_manifest_path : String
  pub old_config_path : String
  pub new_config_path : String
  pub index_bytes : Bytes
  pub manifest_bytes : Bytes

-- The tag of a reference, or all of it.
abbrev tag_of : String → String
tag_of reference = elim (split_last b':' reference) [ none ↦ reference | some parts ↦ parts.1 ]

abbrev repository_of : String → String
repository_of reference = elim (split_last b':' reference) [
  | none ↦ reference
  | some parts ↦ parts.0
]

abbrev blob : String → String
blob digest = String.◌++◌ "blobs/sha256/" digest

abbrev digest_text : String → Json
digest_text digest = string (String.◌++◌ "sha256:" digest)

abbrev set_digest : String → ℕ → Members → Members
set_digest digest size ms =
    set_member "size" (number size) (set_member "digest" (digest_text digest) ms)

abbrev annotate : String → Members → Members
annotate new_ref ms =
    set_member "annotations"
      (object (
        set_member "org.opencontainers.image.ref.name" (string (tag_of new_ref))
          (set_member "io.containerd.image.name" (string new_ref) (object_at "annotations" ms))))
      ms

abbrev file_entry : String → Bytes → Entry
file_entry path contents = record { is_file = true; path = path; contents = contents }

module _ (parse_json : Bytes → Option Json) (print_json : Json → Bytes)
    (sha256 : Bytes → String) where
  abbrev update_config : String → ℕ → Members → Members → Json
  update_config digest size config manifest =
      object (set_member "config" (object (set_digest digest size config)) manifest)

  -- The only descriptor of an index.
  abbrev single_descriptor : Members → Fails Members
  single_descriptor index = do
    descriptors ← ok_or (and_then (get_member "manifests" index) as_array) tt
    reject_if (not (count_items descriptors == 1)) tt
    ok_or (and_then (first_item descriptors) as_object) tt

  abbrev blob_of : Members → Fails String
  blob_of descriptor = do
    digest ← ok_or (get_str "digest" (object descriptor)) tt
    oci_blob_path digest

  abbrev rewrite_index : List Entry → Bytes → String → Bytes → Fails OciArchiveRewrite
  rewrite_index source config_bytes new_ref index_bytes = do
    parsed ← ok_or (parse_json index_bytes) tt
    index ← ok_or (as_object parsed) tt
    descriptor ← single_descriptor index
    old_manifest_path ← blob_of descriptor
    found ← read_archive_entry old_manifest_path (16 * (1024 * 1024)) source
    old_bytes ← ok_or found tt
    old_parsed ← ok_or (parse_json old_bytes) tt
    manifest ← ok_or (as_object old_parsed) tt
    config ← ok_or (and_then (get_member "config" manifest) as_object) tt
    old_config_path ← blob_of config
    let config_digest = sha256 config_bytes
    let manifest_bytes =
        print_json (update_config config_digest (length config_bytes) config manifest)
    let manifest_digest = sha256 manifest_bytes
    let next = annotate new_ref (set_digest manifest_digest (length manifest_bytes) descriptor)
    ok (record {
      old_manifest_path = old_manifest_path;
      new_manifest_path = blob manifest_digest;
      old_config_path = old_config_path;
      new_config_path = blob config_digest;
      index_bytes =
          print_json (object (set_member "manifests" (array (item (object next) no_items)) index));
      manifest_bytes = manifest_bytes;
    })

  abbrev rewrite_if_indexed :
      List Entry → Bytes → String → Option Bytes → Fails (Option OciArchiveRewrite)
  rewrite_if_indexed source config_bytes new_ref none = ok none
  rewrite_if_indexed source config_bytes new_ref (some index_bytes) = do
    rewrite ← rewrite_index source config_bytes new_ref index_bytes
    ok (some rewrite)

  unfoldable pub prepare_oci_archive_rewrite :
      List Entry → Bytes → String → Fails (Option OciArchiveRewrite)
  unfolding read_archive_entry oci_blob_path set_member get_member
  prepare_oci_archive_rewrite source config_bytes new_ref = do
    index ← read_archive_entry "index.json" (1024 * 1024) source
    rewrite_if_indexed source config_bytes new_ref index

  -- `manifest.json` with the new tag and the new path of the configuration.
  unfoldable pub rewrite_manifest : String → String → Bytes → Fails Bytes
  unfolding set_member
  rewrite_manifest new_ref new_config_path bytes = do
    parsed ← ok_or (parse_json bytes) tt
    images ← ok_or (as_array parsed) tt
    reject_if (not (count_items images == 1)) tt
    image ← ok_or (and_then (first_item images) as_object) tt
    let tagged = set_member "RepoTags" (array (item (string new_ref) no_items)) image
    let next = set_member "Config" (string new_config_path) tagged
    ok (print_json (array (item (object next) no_items)))

  abbrev first_value : Json → Json
  first_value (object (member k v ms)) = v
  first_value _ = null

  abbrev renamed : Json → Option Json → Option (String × String) → Json
  renamed value (some old) (some (repo, tag)) =
      object (member repo (object (member tag (first_value old) no_members)) no_members)
  renamed value _ _ = value

  abbrev without_old : String → Json → Json
  without_old old_repo (object ms) = object (remove_member old_repo ms)
  without_old old_repo value = value

  -- `repositories`, where it names the old one.
  unfoldable pub rewrite_repositories : String → String → Bytes → Fails Bytes
  unfolding get_member remove_member
  rewrite_repositories old_ref new_ref bytes = do
    value ← ok_or (parse_json bytes) tt
    let old_repo = repository_of old_ref
    let old = and_then (as_object value) (get_member old_repo)
    ok (print_json (renamed (without_old old_repo value) old (split_last b':' new_ref)))
