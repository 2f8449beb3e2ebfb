-- ===== src/Templates/Archives.antt =====
-- Image archives: reading the manifest and the configuration of a saved image, and checking a
-- rewritten one (crates/controller/src/templates.rs). An archive is the list of its entries; an entry
-- is found by the components of its path.

use webtop_manager.Prelude.{
  ◌-◌, ℕ, ◌*◌, String, Bool, false, not, ◌||◌, ◌==◌, Option, none, some, List, [], ◌∷◌, length, ltb,
  str_eq, if◌then◌else◌,
}
use webtop_manager.Prelude.Results.{Result, ok, err, ◌>>=◌, ◌>>◌, reject_if, ok_or}
use webtop_manager.Contracts.Paths.{components, components_eq}
use webtop_manager.Templates.Json.{
  Json, string, array, no_items, item, as_array, get, get_str, first_item, count_items, and_then,
}
use webtop_manager.Templates.Packages.{Bytes, Entry, manifest_entry}
use webtop_manager.Templates.Names.{ensure_safe_archive_path}
use webtop_manager.Templates.Sanitizing.{check_labels}

-- `path == other`, on paths.
unfoldable pub same_path : String → String → Bool
unfolding components_eq
same_path a b = components_eq (components a) (components b)

-- `take(n).read_to_end(…)`.
unfoldable pub take_bytes : ℕ → Bytes → Bytes
take_bytes limit [] = []
take_bytes limit (b ∷ bs) =
    let rest = take_bytes (limit - 1) bs in if limit == 0 then [] else b ∷ rest

abbrev mebibyte : ℕ
mebibyte = 1024 * 1024

abbrev pub Fails : Type 0 → Type 0
Fails A = Result (Unit {0}) A

-- `read_plain_archive_entry` and `read_compressed_archive_entry`: the first entry with the path.
unfoldable pub read_archive_entry : String → ℕ → List Entry → Fails (Option Bytes)
unfolding same_path ensure_safe_archive_path
read_archive_entry expected max_size [] = ok none
read_archive_entry expected max_size (e ∷ es) =
    let rest = read_archive_entry expected max_size es in
    ensure_safe_archive_path e.path
    >> (if same_path e.path expected
        then reject_if (ltb max_size (length e.contents)) tt >> ok (some e.contents)
        else rest)

-- The last manifest, as far as it is read; all paths are checked.
unfoldable pub scan_manifest : Option Bytes → List Entry → Fails (Option Bytes)
unfolding same_path ensure_safe_archive_path take_bytes
scan_manifest found [] = ok found
scan_manifest found (e ∷ es) =
    ensure_safe_archive_path e.path
    >> scan_manifest
        (if same_path e.path manifest_entry then some (take_bytes mebibyte e.contents) else found)
        es

-- The first entry with the path, whose contents are read as far as `take` lets.
unfoldable pub find_config : String → List Entry → Fails Bytes
unfolding same_path take_bytes
find_config path [] = err tt
find_config path (e ∷ es) =
    let rest = find_config path es in
    if same_path e.path path then ok (take_bytes (16 * mebibyte) e.contents) else rest

abbrev is_single_tag : String → Option Json → Bool
is_single_tag reference (some (array (item (string s) no_items))) = str_eq s reference
is_single_tag reference _ = false

-- The path of the configuration in the first image of a manifest.
unfoldable pub config_path_of : Json → Option String
config_path_of manifest = and_then (and_then (as_array manifest) first_item) (get_str "Config")

module _ (parse_json : Bytes → Option Json) where
  unfoldable pub read_saved_manifest_and_config : List Entry → Fails (Json × Json)
  unfolding scan_manifest find_config config_path_of
  read_saved_manifest_and_config entries = do
    found ← scan_manifest none entries
    bytes ← ok_or found tt
    manifest ← ok_or (parse_json bytes) tt
    path ← ok_or (config_path_of manifest) tt
    ensure_safe_archive_path path
    config_bytes ← find_config path entries
    config ← ok_or (parse_json config_bytes) tt
    ok (manifest, config)

  -- Each manifest is read as JSON, and the last one counts.
  unfoldable pub scan_json_manifest : Option Json → List Entry → Fails (Option Json)
  unfolding same_path ensure_safe_archive_path take_bytes
  scan_json_manifest found [] = ok found
  scan_json_manifest found (e ∷ es) =
      ensure_safe_archive_path e.path
      >> (if same_path e.path manifest_entry
          then (do
            manifest ← ok_or (parse_json (take_bytes mebibyte e.contents)) tt
            scan_json_manifest (some manifest) es)
          else scan_json_manifest found es)

  -- The tests on the array of images: exactly one, with the expected tag.
  unfoldable pub single_image : Json → String → Fails Json
  single_image manifest expected_reference = do
    images ← ok_or (as_array manifest) tt
    image ← ok_or (first_item images) tt
    reject_if
        (not (count_items images == 1)
          || not (is_single_tag expected_reference (get "RepoTags" image)))
        tt
    ok image

  unfoldable pub validate_rewritten_image_archive : List Entry → String → String → Fails (Unit {0})
  unfolding scan_json_manifest single_image read_archive_entry check_labels
  validate_rewritten_image_archive entries expected_reference expected_id = do
    found ← scan_json_manifest none entries
    manifest ← ok_or found tt
    image ← single_image manifest expected_reference
    config_path ← ok_or (get_str "Config" image) tt
    ensure_safe_archive_path config_path
    config_entry ← read_archive_entry config_path (16 * mebibyte) entries
    config_bytes ← ok_or config_entry tt
    config ← ok_or (parse_json config_bytes) tt
    check_labels config expected_id

  module _ (json_sha256 : Json → String) where
    unfoldable pub saved_image_config_sha256 : List Entry → Fails String
    unfolding read_saved_manifest_and_config
    saved_image_config_sha256 entries = do
      read ← read_saved_manifest_and_config entries
      summary ← ok_or (get "config" (read.1)) tt
      ok (json_sha256 summary)

    unfoldable pub validate_saved_image_archive : List Entry → String → String → Fails (Unit {0})
    unfolding read_saved_manifest_and_config single_image
    validate_saved_image_archive entries expected expected_config_sha = do
      read ← read_saved_manifest_and_config entries
      image ← single_image (read.0) expected
      summary ← ok_or (get "config" (read.1)) tt
      reject_if (not (str_eq (json_sha256 summary) expected_config_sha)) tt
