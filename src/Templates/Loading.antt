-- ===== src/Templates/Loading.antt =====
-- The loop of `rewrite_image_archive` over the entries of an image archive
-- (crates/controller/src/templates.rs).
use Prim.Native.String
use webtop_manager.Prelude.{
  String, Bool, true, false, ◌||◌, Option, none, some, List, [], ◌∷◌, if◌then◌else◌,
}
use webtop_manager.Prelude.Text.{text_starts_with}
use webtop_manager.Prelude.Results.{ok, err, ◌>>=◌, ◌>>◌, ok_or}
use webtop_manager.Templates.Json.{Json}
use webtop_manager.Templates.Packages.{Bytes, Entry, manifest_entry}
use webtop_manager.Templates.Names.{ensure_safe_archive_path}
use webtop_manager.Templates.Sanitizing.{sanitize_imported_image_config}
use webtop_manager.Templates.Archives.{
  Fails, same_path, read_saved_manifest_and_config, config_path_of,
}
use webtop_manager.Templates.Rewriting.{
  OciArchiveRewrite, prepare_oci_archive_rewrite, rewrite_manifest, rewrite_repositories,
}

-- What the loop reads: the references, the paths and the new configuration.
pub record Plan : Type 0 where
  pub old_ref : String
  pub new_ref : String
  pub old_config_path : String
  pub new_config_path : String
  pub config_bytes : Bytes
  pub oci : Option OciArchiveRewrite

-- Which entry of the source this is.
pub data Role : Type 0 where
  manifest_role config_role repositories_role clash_role other_role : Role
  index_role oci_manifest_role oci_config_role : OciArchiveRewrite → Role

abbrev plain_role : Plan → String → Role
plain_role plan path =
    if same_path path plan.old_config_path
    then config_role
    else if same_path path "repositories"
    then repositories_role
    else other_role

abbrev oci_role : Plan → OciArchiveRewrite → String → Role
oci_role plan oci path =
    if same_path path "index.json"
    then index_role oci
    else if same_path path oci.old_manifest_path
    then oci_manifest_role oci
    else if same_path path oci.old_config_path
    then oci_config_role oci
    else if same_path path plan.old_config_path
    then config_role
    else if same_path path "repositories"
    then repositories_role
    else if same_path path oci.new_manifest_path || same_path path oci.new_config_path
    then clash_role
    else other_role

-- The chain of tests of the loop.
unfoldable pub role_of : Plan → String → Role
unfolding same_path
role_of plan path =
    if same_path path manifest_entry
    then manifest_role
    else elim plan.oci [ none ↦ plain_role plan path | some oci ↦ oci_role plan oci path ]

-- `append_bytes`.
abbrev append_bytes : String → Bytes → Entry
append_bytes path contents = record { is_file = true; path = path; contents = contents }

module _ (parse_json : Bytes → Option Json) (print_json : Json → Bytes) (sha256 : Bytes → String)
    (is_uuid : String → Bool) where
  -- The entry that stands for one of the source, and whether it is the configuration of an OCI image.
  unfoldable pub rewrite_entry : Plan → Entry → Role → Fails (Entry × Bool)
  unfolding rewrite_manifest rewrite_repositories
  rewrite_entry plan e manifest_role = do
    bytes ←
        rewrite_manifest parse_json print_json sha256 plan.new_ref plan.new_config_path e.contents
    ok (append_bytes manifest_entry bytes, false)
  rewrite_entry plan e (index_role oci) = ok (append_bytes "index.json" oci.index_bytes, false)
  rewrite_entry plan e (oci_manifest_role oci) =
      ok (append_bytes oci.new_manifest_path oci.manifest_bytes, false)
  rewrite_entry plan e (oci_config_role oci) =
      ok (append_bytes oci.new_config_path plan.config_bytes, true)
  rewrite_entry plan e config_role = ok (append_bytes plan.new_config_path plan.config_bytes, false)
  rewrite_entry plan e repositories_role = do
    bytes ← rewrite_repositories parse_json print_json sha256 plan.old_ref plan.new_ref e.contents
    ok (append_bytes "repositories" bytes, false)
  rewrite_entry plan e clash_role = err tt
  rewrite_entry plan e other_role = ok (e, false)

  -- The configuration goes last where no entry was the one of the OCI image.
  abbrev closing : Plan → Bool → List Entry
  closing plan wrote_oci_config = elim plan.oci [
    | none ↦ []
    | some oci ↦
        if wrote_oci_config then [] else append_bytes oci.new_config_path plan.config_bytes ∷ []
  ]

  unfoldable pub rewrite_entries : Plan → Bool → List Entry → Fails (List Entry)
  unfolding role_of rewrite_entry ensure_safe_archive_path
  rewrite_entries plan wrote_oci_config [] = ok (closing plan wrote_oci_config)
  rewrite_entries plan wrote_oci_config (e ∷ es) = do
    ensure_safe_archive_path e.path
    next ← rewrite_entry plan e (role_of plan e.path)
    rest ← rewrite_entries plan (wrote_oci_config || next.1) es
    ok (next.0 ∷ rest)

  -- Where the configuration goes: its name is its digest.
  unfoldable pub config_path_for : String → Bytes → String
  config_path_for old_config_path config_bytes =
      if text_starts_with old_config_path "blobs/sha256/"
      then String.◌++◌ "blobs/sha256/" (sha256 config_bytes)
      else String.◌++◌ (sha256 config_bytes) ".json"

  unfoldable pub rewrite_image_archive : List Entry → String → String → Fails (List Entry)
  unfolding read_saved_manifest_and_config config_path_of sanitize_imported_image_config
      prepare_oci_archive_rewrite rewrite_entries config_path_for
  rewrite_image_archive source old_ref new_ref = do
    read ← read_saved_manifest_and_config parse_json source
    old_config_path ← ok_or (config_path_of (read.0)) tt
    config ← sanitize_imported_image_config is_uuid (read.1) new_ref
    let config_bytes = print_json config
    oci ← prepare_oci_archive_rewrite parse_json print_json sha256 source config_bytes new_ref
    let plan : Plan = record {
      old_ref = old_ref;
      new_ref = new_ref;
      old_config_path = old_config_path;
      new_config_path = config_path_for old_config_path config_bytes;
      config_bytes = config_bytes;
      oci = oci;
    }
    rewrite_entries plan false source
