-- ===== src/Templates/LineageLaws.antt =====
-- The lineage of an imported template, and the percentages that jobs record
-- (crates/controller/src/templates.rs).
use webtop_manager.Prelude.Results.{ok}
use webtop_manager.Database.Records.{Template}
use webtop_manager.Controller.State.{AppState}
use webtop_manager.Templates.Images.{ImageInspect}
use webtop_manager.Contracts.Packages.{TemplateManifest}
use webtop_manager.Prelude.{
  ◌++◌, ℕ, zero, suc, ◌+◌, ◌*◌, ◌/◌, ◌<◌, ◌≤◌, ◌||◌, ◌≡◌, refl, List, [], ◌∷◌, arith, mem, ◌==◌,
}
use webtop_manager.Templates.Importing.{
  ImportTemplateRequest, insert_sorted, sort, dedup_after, dedup, imported_template,
}
use webtop_manager.Templates.Sources.{check_percent}
use webtop_manager.Templates.Exporting.{export_percent}

-- Each number is greater than the one before.
abbrev pub IsIncreasing : List ℕ → Type 0
IsIncreasing [] = Unit
IsIncreasing (a ∷ []) = Unit
IsIncreasing (a ∷ b ∷ bs) = (a < b) × IsIncreasing (b ∷ bs)

-- No number is less than the one before.
abbrev IsSorted : List ℕ → Type 0
IsSorted [] = Unit
IsSorted (a ∷ []) = Unit
IsSorted (a ∷ b ∷ bs) = (a ≤ b) × IsSorted (b ∷ bs)

mem-append : (x : ℕ) (xs ys : List ℕ) → mem x (xs ++ ys) ≡ (mem x xs || mem x ys)
mem-append x [] ys = refl
mem-append x (y ∷ xs) ys = ground (arith, mem-append x xs ys)

insert_sorted-mem : (a x : ℕ) (bs : List ℕ) → mem x (insert_sorted a bs) ≡ ((a == x) || mem x bs)
unfolding insert_sorted
insert_sorted-mem a x [] = refl
insert_sorted-mem a x (b ∷ bs) = ground (arith, insert_sorted-mem a x bs)

insert_sorted-IsSorted : (a : ℕ) (bs : List ℕ) → IsSorted bs → IsSorted (insert_sorted a bs)
unfolding insert_sorted
insert_sorted-IsSorted a [] h = tt
insert_sorted-IsSorted a (b ∷ []) h = ground arith
insert_sorted-IsSorted a (b ∷ c ∷ cs) h = ground (arith, h, insert_sorted-IsSorted a (c ∷ cs) h.1)

sort-IsSorted : (as' : List ℕ) → IsSorted (sort as')
unfolding sort
sort-IsSorted [] = tt
sort-IsSorted (a ∷ as') = insert_sorted-IsSorted a (sort as') (sort-IsSorted as')

sort-mem : (as' : List ℕ) (x : ℕ) → mem x (sort as') ≡ mem x as'
unfolding sort
sort-mem [] x = refl
sort-mem (a ∷ as') x = ground (arith, insert_sorted-mem a x (sort as'), sort-mem as' x)

without_second : (a b : ℕ) (bs : List ℕ) → IsSorted (a ∷ b ∷ bs) → IsSorted (a ∷ bs)
without_second a b [] h = tt
without_second a b (c ∷ cs) h = ground (arith, h)

dedup_after-IsIncreasing :
    (last : ℕ) (as' : List ℕ) → IsSorted (last ∷ as') → IsIncreasing (last ∷ dedup_after last as')
unfolding dedup_after
dedup_after-IsIncreasing last [] h = tt
dedup_after-IsIncreasing last (a ∷ as') h = ground (
  arith,
  h,
  dedup_after-IsIncreasing last as' (without_second last a as' h),
  dedup_after-IsIncreasing a as' h.1,
)

dedup_after-mem :
    (last : ℕ) (as' : List ℕ) (x : ℕ)
    → ((last == x) || mem x (dedup_after last as')) ≡ ((last == x) || mem x as')
unfolding dedup_after
dedup_after-mem last [] x = refl
dedup_after-mem last (a ∷ as') x =
    ground (arith, dedup_after-mem last as' x, dedup_after-mem a as' x)

dedup-IsIncreasing : (as' : List ℕ) → IsSorted as' → IsIncreasing (dedup as')
unfolding dedup
dedup-IsIncreasing [] h = tt
dedup-IsIncreasing (a ∷ as') h = dedup_after-IsIncreasing a as' h

dedup-mem : (as' : List ℕ) (x : ℕ) → mem x (dedup as') ≡ mem x as'
unfolding dedup
dedup-mem [] x = refl
dedup-mem (a ∷ as') x = dedup_after-mem a as' x

module _ {D : Type 0} (clock : D → ℕ) where
  -- The external lineage of an imported template has each id once, in increasing order, and its members
  -- are the ancestors that the package names and the id of the template that was exported.
  pub imported_template-lineage :
      (id : ℕ) (request : ImportTemplateRequest) (m : TemplateManifest) (image : ImageInspect)
      (s t : AppState D) (template : Template)
      → imported_template clock id request m image s ≡ (ok template, t)
      → IsIncreasing template.external_lineage
        × ((x : ℕ)
            → mem x template.external_lineage ≡ (mem x m.lineage || (m.exported_template_id == x)))
  unfolding imported_template
  imported_template-lineage id request m image s t template e =
      let lineage = m.lineage ++ m.exported_template_id ∷ [] in
      let same : template.external_lineage ≡ dedup (sort lineage) = ground arith in
      (
        rw same (dedup-IsIncreasing (sort lineage) (sort-IsSorted lineage)),
        (λ x. ground (
          arith,
          same,
          dedup-mem (sort lineage) x,
          sort-mem lineage x,
          mem-append x m.lineage (m.exported_template_id ∷ []),
        )),
      )

-- The percentages of the two jobs stay in their ranges, so that the conversion to a `u8` cuts nothing
-- off: a check of sources records at most 100, and an export between 5 and 45.
job_percent_bounds :
    (index total streamed expected : ℕ)
    → index < total
    → (check_percent index total ≡ (index + 1) * 100 / total)
      × (check_percent index total ≤ 100)
      × (5 ≤ export_percent streamed expected)
      × (export_percent streamed expected ≤ 45)
unfolding check_percent export_percent
job_percent_bounds index zero streamed expected h = elim h [ ]
job_percent_bounds index (suc total) streamed expected h =
    let quotient : (index + 1) * 100 / suc total ≤ 100 = grind (arith, h) in
    (ground (arith, quotient), ground (arith, quotient), ground arith, ground arith)
