-- ===== src/Pulls/ProgressLaws.antt =====
-- Bounds of the progress that an image pull records, and the end of a reattached stream
-- (crates/controller/src/api.rs).
use webtop_manager.Database.Table.{select}
use webtop_manager.Templates.Ending.{IsStored}
use webtop_manager.Templates.Jobs.{set_operation}
use webtop_manager.Database.Table.{select, update, select-update}
use webtop_manager.Controller.State.{AppState}
use webtop_manager.Prelude.{
  ap, [], ◌∷◌, List, zero, suc, String, ℕ, ◌+◌, ◌≤◌, true, ◌≡◌, ◌↔◌, refl, Option, none, some,
  arith, inl, inr, Option-cases,
}
use webtop_manager.Contracts.Spec.{ℤ, pos, negsuc}
use webtop_manager.Contracts.Packages.{ImagePullProgress}
use webtop_manager.Database.Records.{running, Operation}
use webtop_manager.Database.Operations.{
  row_id, set_row, load_progress, store_progress, parse_operation, update_operation, get_operation,
  is_finished,
}
use webtop_manager.Pulls.Progress.{
  record_progress, percent_of, pull_percent, next_percent, report_phase, reattach_image_pull,
}

pull_percent_bounds :
    (current : ℤ) (total : ℕ) → (5 ≤ pull_percent current total) × (pull_percent current total ≤ 90)
unfolding pull_percent
pull_percent_bounds (pos c) total = ground arith
pull_percent_bounds (negsuc c) total = ground arith

percent_of-le : (current total : Option ℤ) (q : ℕ) → percent_of current total ≡ some q → q ≤ 90
percent_of-le none total q e = cc
percent_of-le (some current) none q e = cc
percent_of-le (some current) (some (pos zero)) q e = cc
percent_of-le (some current) (some (pos (suc total))) q e =
    ground (arith, (pull_percent_bounds current (suc total)).1)
percent_of-le (some current) (some (negsuc n)) q e = cc

-- A percentage that an event records is at least two above the last one, and at most 90.
pub next_percent_bounds :
    (last_percent p : ℕ) (event : ImagePullProgress)
    → last_percent ≤ 90
    → next_percent last_percent event ≡ some p
    → (last_percent + 2 ≤ p) × (p ≤ 90)
unfolding next_percent
next_percent_bounds last_percent p event h e =
    elim (Option-cases (percent_of event.aggregate_current_bytes event.aggregate_total_bytes)) [
      | inl silent ↦ absurd (ground (arith, silent))
      | inr (q, said) ↦
          let at_most =
            percent_of-le event.aggregate_current_bytes event.aggregate_total_bytes q said in
          ground (arith, said, at_most)
    ]

-- The next event of a reattached stream is its last exactly if the operation is gone or finished.
reattach_image_pull-finished_iff :
    (id : ℕ) (reference : String) (o : Option Operation)
    → ((reattach_image_pull id reference o).1 ≡ true)
      ↔ (((p : Operation) → o ≡ some p → is_finished p.phase ≡ true))
unfolding reattach_image_pull report_phase
reattach_image_pull-finished_iff id reference none = ((λ h p e. cc), (λ h. refl))
reattach_image_pull-finished_iff id reference (some p) =
    ((λ h q e. ground arith), (λ h. ground (arith, h p refl)))

-- The percentage that an operation shows.
abbrev pub ShowsPercent : {D : Type 0} → ℕ → ℕ → AppState D → Type 0
ShowsPercent id p s =
    (o : Operation) × (get_operation id s.database ≡ some o)
    × (o.phase ≡ running)
    × (o.progress_percent ≡ some p)

module _ {D : Type 0} (clock : D → ℕ) where
  set_operation-ShowsPercent :
      (id p : ℕ) (s : AppState D)
      → p ≤ 90
      → IsStored id s
      → ShowsPercent id p (set_operation clock id running (some p) none none s)
        × IsStored id (set_operation clock id running (some p) none none s)
  unfolding set_operation get_operation update_operation parse_operation store_progress
      load_progress
  set_operation-ShowsPercent id p s small (r, found) =
      let f = set_row (clock s.docker) running (some p) none none in
      let next : select row_id id (update row_id id f s.database.operations) ≡ some (f r) =
        ground (arith, select-update row_id id id f s.database.operations (λ x. refl), found) in
      (
        (
          parse_operation (f r),
          rw (get_operation, next) refl,
          refl,
          ap some (omega (arith, small)),
        ),
        (f r, next),
      )

  -- However the events of a pull come, the operation shows a percentage between the one that it showed
  -- and 90: it never goes back.
  pub record_progress-bounds :
      (id last_percent : ℕ) (events : List ImagePullProgress) (s : AppState D)
      → last_percent ≤ 90
      → IsStored id s
      → ShowsPercent id last_percent s
      → (p : ℕ) × (last_percent ≤ p)
        × (p ≤ 90)
        × ShowsPercent id p (record_progress clock id last_percent events s)
  unfolding record_progress
  record_progress-bounds id last_percent [] s small h shows =
      (last_percent, omega arith, small, shows)
  record_progress-bounds id last_percent (event ∷ events) s small h shows =
      elim (Option-cases (next_percent last_percent event)) [
        | inl silent ↦
            rw (record_progress, silent)
              (record_progress-bounds id last_percent events s small h shows)
        | inr (q, said) ↦
            let (above, at_most) = next_percent_bounds last_percent q event small said in
            let (shown, stored) = set_operation-ShowsPercent id q s at_most h in
            let (p, least, most, final) =
              record_progress-bounds id q events
                (set_operation clock id running (some q) none none s) at_most stored shown in
            rw (record_progress, said) (p, omega (arith, least, above), most, final)
      ]
