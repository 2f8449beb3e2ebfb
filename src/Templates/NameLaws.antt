-- ===== src/Templates/NameLaws.antt =====
-- Safe file names, paths of archive entries and blob paths (crates/controller/src/templates.rs).
use Prim.Native.Char.{code}
use webtop_manager.Prelude.{
  String, true, ◌&&◌, ◌≡◌, ◌≢◌, refl, all, arith, str_eq, eq_iff, ◌==◌, inl, inr, Bool-cases,
}
use webtop_manager.Prelude.Text.{codes}
use webtop_manager.Templates.Names.{
  is_filename_code, replace_unsafe, trim_start, trim_end, safe_filename,
}

-- Letters, digits, "-" and "_" alone.
abbrev pub IsPlain : String → Type 0
IsPlain s = all is_filename_code (codes s) ≡ true

replaced : (s : String) → IsPlain (replace_unsafe s)
unfolding replace_unsafe is_filename_code
replaced String.[] = refl
replaced (String.◌∷◌ c s) = elim (Bool-cases (is_filename_code (code c))) [
  | inl good ↦ rw (replace_unsafe, good) (ground (arith, good, replaced s))
  | inr bad ↦ rw (replace_unsafe, bad) (ground (arith, replaced s))
]

trimmed_start : (s : String) → IsPlain s → IsPlain (trim_start s)
trimmed_start String.[] h = refl
trimmed_start (String.◌∷◌ c s) h = ground (arith, trimmed_start s, h)

trimmed_end : (s : String) → IsPlain s → IsPlain (trim_end s)
trimmed_end String.[] h = refl
trimmed_end (String.◌∷◌ c s) h = elim (Bool-cases ((code c == b'-') && str_eq (trim_end s) "")) [
  | inl dropped ↦ rw dropped refl
  | inr kept ↦ rw kept (ground (arith, trimmed_end s, h))
]

-- The suggested name of an exported file is not empty, and has letters, digits, "-" and "_" alone, so
-- that it names a file of its directory, whatever the template is called.
pub safe_filename-IsPlain :
    (name : String) → IsPlain (safe_filename name) × (safe_filename name ≢ "")
unfolding safe_filename is_filename_code
safe_filename-IsPlain name =
    let plain =
      trimmed_end (trim_start (replace_unsafe name))
        (trimmed_start (replace_unsafe name) (replaced name)) in
    elim (Bool-cases (str_eq (trim_end (trim_start (replace_unsafe name))) "")) [
      | inl empty ↦ rw empty (refl, (λ e. ground (arith, eq_iff "webtop-template" "", e)))
      | inr some_text ↦ rw some_text (
        plain,
        (λ e.
            ground (arith, some_text, eq_iff (trim_end (trim_start (replace_unsafe name))) "", e)),
      )
    ]
