-- ===== src/Pulls/Progress.antt =====
-- The progress of an image pull, as its operation records it and as a reattached stream reports it
-- (crates/controller/src/api.rs).
use webtop_manager.Prelude.{
  ℕ, suc, ◌+◌, ◌*◌, ◌/◌, String, Bool, true, false, Option, none, some, List, [], ◌∷◌, leb, ltb,
  if◌then◌else◌,
}
use webtop_manager.Contracts.Spec.{ℤ, pos, negsuc}
use webtop_manager.Contracts.Packages.{ImagePullProgress, ImagePullPhase}
use webtop_manager.Database.Records.{
  Operation, OperationPhase, running, succeeded, failed, cancelled, retryable,
}
use webtop_manager.Controller.State.{AppState}
use webtop_manager.Templates.Jobs.{set_operation}

-- `i64::MAX`, and the number of bit patterns below it.
abbrev pub i64_max : ℕ
i64_max = 9223372036854775807

abbrev min : ℕ → ℕ → ℕ
min a b = if leb a b then a else b

-- `clamp(5, 90)`.
abbrev clamp : ℕ → ℕ
clamp n = if ltb n 5 then 5 else if ltb 90 n then 90 else n

-- `(5_i64 + current.saturating_mul(85) / total).clamp(5, 90) as u8`, for a positive total. The
-- quotient of a negative count is not positive, and a sum past `i64::MAX` wraps to a negative one.
unfoldable pub pull_percent : ℤ → ℕ → ℕ
pull_percent (negsuc current) total = 5
pull_percent (pos current) total =
    let sum = 5 + min (current * 85) i64_max / total in if ltb i64_max sum then 5 else clamp sum

-- The percentage of an event that gives both sums.
abbrev pub percent_of : Option ℤ → Option ℤ → Option ℕ
percent_of (some current) (some (pos (suc total))) = some (pull_percent current (suc total))
percent_of _ _ = none

abbrev saturating_add_u8 : ℕ → ℕ → ℕ
saturating_add_u8 a b = min (a + b) 255

-- The percentage that an event records after `last_percent`, if any.
unfoldable pub next_percent : ℕ → ImagePullProgress → Option ℕ
unfolding pull_percent
next_percent last_percent event =
    elim (percent_of event.aggregate_current_bytes event.aggregate_total_bytes) [
      | none ↦ none
      | some percent ↦ if leb (saturating_add_u8 last_percent 2) percent then some percent else none
    ]

module _ {D : Type 0} (clock : D → ℕ) where
  -- The loop `while let Some(event) = event_rx.recv().await`.
  unfoldable pub record_progress : ℕ → ℕ → List ImagePullProgress → AppState D → AppState D
  unfolding next_percent set_operation
  record_progress pull_id last_percent [] s = s
  record_progress pull_id last_percent (event ∷ events) s = elim (next_percent last_percent event) [
    | none ↦ record_progress pull_id last_percent events s
    | some percent ↦
        record_progress pull_id percent events
          (set_operation clock pull_id running (some percent) none none s)
  ]

-- What a reattached stream says of an operation, and whether it ends there.
pub record Report : Type 0 where
  pub phase : ImagePullPhase
  pub status : String
  pub finished : Bool

abbrev failed_report : Report
failed_report = record {
  phase = ImagePullPhase.error_pull;
  status = "Image pull failed";
  finished = true;
}

unfoldable pub report_phase : Option OperationPhase → Report
report_phase none = failed_report
report_phase (some succeeded) = record {
  phase = ImagePullPhase.complete_pull;
  status = "Image pull complete";
  finished = true;
}
report_phase (some cancelled) = record {
  phase = ImagePullPhase.cancelled_pull;
  status = "Image pull cancelled";
  finished = true;
}
report_phase (some failed) = failed_report
report_phase (some retryable) = failed_report
report_phase (some _) = record {
  phase = ImagePullPhase.progress;
  status = "Image pull running in controller";
  finished = false;
}

abbrev phase_of : Option Operation → Option OperationPhase
phase_of none = none
phase_of (some o) = some o.phase

abbrev progress_of : Option Operation → Option ℤ
progress_of none = none
progress_of (some o) = elim o.progress_percent [ none ↦ none | some p ↦ some (pos p) ]

-- One step of the stream of `reattach_image_pull_stream`: the event, and the next `finished`.
unfoldable pub reattach_image_pull : ℕ → String → Option Operation → ImagePullProgress × Bool
unfolding report_phase
reattach_image_pull pull_id reference operation =
    let report = report_phase (phase_of operation) in
    (
      record {
        pull_id = pull_id;
        reference = reference;
        phase = report.phase;
        layer_id = none;
        status = report.status;
        current_bytes = progress_of operation;
        total_bytes = some (pos 100);
        aggregate_current_bytes = progress_of operation;
        aggregate_total_bytes = some (pos 100);
      },
      report.finished,
    )
