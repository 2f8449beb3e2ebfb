-- ===== src/Templates/Names.antt =====
-- Names of templates, of exported files and of entries in archives
-- (crates/controller/src/templates.rs). A length counts bytes.
use Prim.Native.Char.{code}
use Prim.Native.String
use Prim.Native.String.{len}
use webtop_manager.Prelude.{
  ℕ, String, Bool, true, false, not, ◌&&◌, ◌||◌, ◌==◌, Option, none, some, List, [], ◌∷◌, any, all,
  ltb, leb, str_eq, if◌then◌else◌,
}
use webtop_manager.Prelude.Text.{codes, is_blank}
use webtop_manager.Prelude.Results.{Result, ok, err, ◌>>=◌, ◌>>◌, reject_if, ok_or}
use webtop_manager.Contracts.Errors.{ApiFailure}
use webtop_manager.Contracts.Failures
use webtop_manager.Contracts.Paths.{Component, components, is_absolute}

unfoldable pub validate_name : String → Result ApiFailure (Unit {0})
validate_name name =
    if is_blank name || ltb 64 (len name) then err Failures.invalid_request else ok tt

unfoldable pub is_filename_code : ℕ → Bool
is_filename_code c =
    (leb b'a' c && leb c b'z')
    || (leb b'A' c && leb c b'Z')
    || (leb b'0' c && leb c b'9')
    || (c == b'-')
    || (c == b'_')

-- Every character but letters, digits, "-" and "_" becomes "-".
unfoldable pub replace_unsafe : String → String
unfolding is_filename_code
replace_unsafe String.[] = ""
replace_unsafe (String.◌∷◌ c s) =
    let rest = replace_unsafe s in
    if is_filename_code (code c) then String.◌∷◌ c rest else String.◌∷◌ "-" rest

abbrev pub trim_start : String → String
trim_start String.[] = ""
trim_start (String.◌∷◌ c s) =
    let rest = trim_start s in if code c == b'-' then rest else String.◌∷◌ c s

abbrev pub trim_end : String → String
trim_end String.[] = ""
trim_end (String.◌∷◌ c s) =
    let rest = trim_end s in if (code c == b'-') && str_eq rest "" then "" else String.◌∷◌ c rest

unfoldable pub safe_filename : String → String
unfolding replace_unsafe
safe_filename name =
    let value = trim_end (trim_start (replace_unsafe name)) in
    if str_eq value "" then "webtop-template" else value

abbrev pub is_parent : Component → Bool
is_parent Component.parent_dir = true
is_parent _ = false

-- A path prefix is one of Windows, which has none here.
unfoldable pub ensure_safe_archive_path : String → Result (Unit {0}) (Unit {0})
ensure_safe_archive_path path = reject_if (is_absolute path || any is_parent (components path)) tt

-- `strip_prefix`.
abbrev strip_prefix : List ℕ → String → Option String
strip_prefix [] s = some s
strip_prefix (p ∷ ps) String.[] = none
strip_prefix (p ∷ ps) (String.◌∷◌ c s) =
    let rest = strip_prefix ps s in if code c == p then rest else none

abbrev pub is_hex_digit : ℕ → Bool
is_hex_digit c =
    (leb b'0' c && leb c b'9') || (leb b'a' c && leb c b'f') || (leb b'A' c && leb c b'F')

-- A byte that is no ASCII digit belongs to a code point that is none.
unfoldable pub oci_blob_path : String → Result (Unit {0}) String
oci_blob_path digest = do
  value ← ok_or (strip_prefix (codes "sha256:") digest) tt
  reject_if (not (len value == 64) || not (all is_hex_digit (codes value))) tt
  ok (String.◌++◌ "blobs/sha256/" value)
