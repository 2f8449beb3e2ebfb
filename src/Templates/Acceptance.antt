-- ===== src/Templates/Acceptance.antt =====
-- Which archives pass the whitelist of `extract_package` (crates/controller/src/templates.rs).
use webtop_manager.Prelude.{
  refl, ◌≤◌, ◌∙◌, ℕ, ◌+◌, String, true, false, ◌≡◌, ◌↔◌, Option, List, [], ◌∷◌, arith, All, str_eq,
  eq_iff, if◌then◌else◌, inl, inr,
}
use webtop_manager.Prelude.Results.{ok, Result-cases}
use webtop_manager.Contracts.Packages.{TemplateManifest}
use webtop_manager.Controller.State.{AppState}
use webtop_manager.Templates.Jobs.{contains}
use webtop_manager.Templates.Host.{join}
use webtop_manager.Templates.Packages.{
  config_entry, image_entry, manifest_entry, is_complete, is_all_allowed, Bytes, Entry, Written,
  allowed_entries, is_seen, accept_entry,
}
use webtop_manager.Templates.Extraction.{ArchiveFiles, extract_entries}

-- How often a path stands in an archive.
abbrev pub occurrences : String → List Entry → ℕ
occurrences p [] = 0
occurrences p (e ∷ es) = (if str_eq e.path p then 1 else 0) + occurrences p es

abbrev pub IsAllowedFile : Entry → Type 0
IsAllowedFile e = (e.is_file ≡ true) × (contains allowed_entries e.path ≡ true)

-- The three files of a package, each of them once, and nothing else.
abbrev pub IsWhitelisted : List Entry → Type 0
IsWhitelisted es =
    All IsAllowedFile es × ((p : String) → contains allowed_entries p ≡ true → occurrences p es ≡ 1)

abbrev seen_count : Written → String → ℕ
seen_count written p = if is_seen written p then 1 else 0

abbrev put : Entry → Written → Written
put e written = (e.path, e.contents) ∷ written

accept_entry_iff :
    (written : Written) (e : Entry)
    → (accept_entry written e ≡ ok tt) ↔ (IsAllowedFile e × (is_seen written e.path ≡ false))
unfolding accept_entry
accept_entry_iff written e =
    ((λ h. ((ground arith, ground arith), ground arith)), (λ h. ground (arith, h.0.0, h.0.1, h.1)))

seen_put :
    (written : Written) (e : Entry) (p : String) (es : List Entry)
    → is_seen written e.path ≡ false
    → occurrences p (e ∷ es) + seen_count written p
      ≡ occurrences p es + seen_count (put e written) p
seen_put written e p es new = ground (arith, eq_iff e.path p)

module _ {D : Type 0} (files : ArchiveFiles D) (parse_manifest : Bytes → Option TemplateManifest)
    (sha256 : Bytes → String) (destination : String) where
  -- What was written when the loop ends.
  extracted :
      (es : List Entry) (written w : Written) (s t : AppState D)
      → extract_entries files parse_manifest sha256 destination es written s ≡ (ok w, t)
      → All IsAllowedFile es
        × ((p : String) → occurrences p es + seen_count written p ≡ seen_count w p)
  unfolding extract_entries
  extracted [] written w s t e = (tt, (λ p. ground arith))
  extracted (x ∷ es) written w s t e = elim (Result-cases (accept_entry written x)) [
    | inr (b, bad) ↦ absurd (ground (arith, bad))
    | inl (u, good) ↦
        elim (Result-cases (files.write_file (join destination x.path) x.contents s.docker).0) [
          | inr (b, bad) ↦ absurd (ground (arith, good, bad))
          | inl (v, done) ↦
              let (allowed, new) = (accept_entry_iff written x).0 good in
              let s' : AppState D = record s {
                docker = (files.write_file (join destination x.path) x.contents s.docker).1;
              } in
              let (rest, counts) =
                extracted es (put x written) w s' t (ground (arith, good, done)) in
              ((allowed, rest), (λ p. seen_put written x p es new ∙ counts p))
        ]
  ]

  -- Where every file can be written, the loop accepts files with allowed paths, each at most once.
  extracting :
      (es : List Entry) (written : Written) (s : AppState D)
      → ((p : String) (b : Bytes) (d : D) → (files.write_file p b d).0 ≡ ok tt)
      → All IsAllowedFile es
      → ((p : String)
          → contains allowed_entries p ≡ true
          → occurrences p es + seen_count written p ≤ 1)
      → (w : Written) × (t : AppState D) × (extract_entries files parse_manifest sha256 destination
            es written s
          ≡ (ok w, t))
  unfolding extract_entries
  extracting [] written s writes allowed once = (written, s, refl)
  extracting (x ∷ es) written s writes allowed once =
      let new : is_seen written x.path ≡ false =
        ground (arith, once x.path allowed.0.1, eq_iff x.path x.path) in
      let good = (accept_entry_iff written x).1 (allowed.0, new) in
      let done = writes (join destination x.path) x.contents s.docker in
      let s' : AppState D = record s {
        docker = (files.write_file (join destination x.path) x.contents s.docker).1;
      } in
      let (w, t, e) =
        extracting es (put x written) s' writes allowed.1
          (λ p q. rw⁻¹ (seen_put written x p es new) (once p q)) in
      (w, t, ground (arith, good, done, e))

  all_allowed :
      (es : List Entry) (written w : Written) (s t : AppState D)
      → extract_entries files parse_manifest sha256 destination es written s ≡ (ok w, t)
      → is_all_allowed written ≡ true
      → is_all_allowed w ≡ true
  unfolding extract_entries
  all_allowed [] written w s t e h = ground (arith, e, h)
  all_allowed (x ∷ es) written w s t e h = elim (Result-cases (accept_entry written x)) [
    | inr (b, bad) ↦ absurd (ground (arith, bad))
    | inl (u, good) ↦
        elim (Result-cases (files.write_file (join destination x.path) x.contents s.docker).0) [
          | inr (b, bad) ↦ absurd (ground (arith, good, bad))
          | inl (v, done) ↦
              let (allowed, new) = (accept_entry_iff written x).0 good in
              let s' : AppState D = record s {
                docker = (files.write_file (join destination x.path) x.contents s.docker).1;
              } in
              all_allowed es (put x written) w s' t (ground (arith, good, done))
                (ground (arith, allowed.1, h))
        ]
  ]

  seen_of_complete :
      (w : Written) (p : String)
      → is_complete w ≡ true
      → contains allowed_entries p ≡ true
      → is_seen w p ≡ true
  unfolding is_complete
  seen_of_complete w p h q =
      ground (arith, h, q, eq_iff p manifest_entry, eq_iff p image_entry, eq_iff p config_entry)

  -- Where every file can be written, the loop over the entries ends with exactly the three files of a
  -- package if and only if each of them is in the archive once, as a regular file, and nothing else is.
  pub extract_entries-complete_iff :
      (es : List Entry) (s : AppState D)
      → ((p : String) (b : Bytes) (d : D) → (files.write_file p b d).0 ≡ ok tt)
      → ((w : Written) × (t : AppState D) × (extract_entries files parse_manifest sha256 destination
              es [] s
            ≡ (ok w, t))
          × (is_complete w ≡ true))
        ↔ IsWhitelisted es
  unfolding is_complete
  extract_entries-complete_iff es s writes = (
    (λ (w, t, e, complete).
        let (allowed, counts) = extracted es [] w s t e in
        (allowed, (λ p q. ground (arith, counts p, seen_of_complete w p complete q)))),
    (λ (allowed, once).
        let (w, t, e) = extracting es [] s writes allowed (λ p q. omega (arith, once p q)) in
        let counts = (extracted es [] w s t e).1 in
        let seen : (p : String) → contains allowed_entries p ≡ true → is_seen w p ≡ true =
          λ p q. ground (arith, counts p, once p q) in
        (
          w,
          t,
          e,
          ground (
            arith,
            seen manifest_entry refl,
            seen image_entry refl,
            seen config_entry refl,
            all_allowed es [] w s t e refl,
          ),
        )),
  )
