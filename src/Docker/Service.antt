-- ===== src/Docker/Service.antt =====
-- The container of frpc (crates/controller/src/docker.rs): how it is inspected, stopped and removed,
-- and the test of the connection. The daemon's calls are the record `FrpcCalls`.
use webtop_manager.Docker.Logs.{classify_frpc_failure}
use webtop_manager.Prelude.{
  ℕ, zero, suc, String, str_eq, Bool, true, false, not, ◌&&◌, Option, none, some, List, [],
  if◌then◌else◌,
}
use webtop_manager.Prelude.Results.{Result, ok, err}
use webtop_manager.Prelude.Actions.{or_clean, ◌>>=◌, ◌>>◌, pure, raise, when, attempt, Action}
use webtop_manager.Prelude.Text.{codes, codes_contain}
use webtop_manager.Contracts.Spec.{ℤ, pos, negsuc}
use webtop_manager.Contracts.Validate.{get_value}
use webtop_manager.Contracts.Settings.{
  FrpcServiceStatus, FrpcServiceState, FrpcTestResult, FrpcTestCode, ServerSettings,
}
use webtop_manager.Controller.Docker.{Call}
use webtop_manager.Templates.Images.{owner_label, resource_kind_label}

-- The part of the answer to an inspection that the code reads.
pub record Inspection : Type 0 where
  pub labels : Option (List (String × String))
  pub image : Option String
  pub running : Option Bool
  pub exit_code : Option ℤ
  pub started_at : Option String

-- An error of an inspection: the status 404, or another one.
pub data InspectError : Type 0 where
  not_found other_error : InspectError

pub record FrpcCalls (D : Type 0) : Type 0 where
  pub inspect_container : String → Action D InspectError Inspection
  pub stop_container : String → Call D (Unit {0})
  pub start_container : String → Call D (Unit {0})
  pub remove_container : String → Call D (Unit {0})
  pub recent_logs : String → Call D (List ℕ)
  pub ensure_image : String → Call D (Unit {0})
  pub create_frpc_test_container : String → ServerSettings → List ℕ → Call D (Unit {0})

abbrev label_is : String → Option String → Bool
label_is text none = false
label_is text (some value) = str_eq value text

abbrev has_labels : List (String × String) → Bool
has_labels labels =
    label_is "managed" (get_value owner_label labels)
    && label_is "frpc" (get_value resource_kind_label labels)

-- The container carries the labels of the program.
unfoldable pub is_managed_frpc : Inspection → Bool
is_managed_frpc i = elim i.labels [ none ↦ false | some labels ↦ has_labels labels ]

unfoldable pub not_created_frpc_status : FrpcServiceStatus
not_created_frpc_status = record {
  state = FrpcServiceState.not_created;
  connected = false;
  image = none;
  started_at = none;
  exit_code = none;
}

-- `unwrap_or_default() == 0`.
abbrev is_zero_code : Option ℤ → Bool
is_zero_code none = true
is_zero_code (some (pos zero)) = true
is_zero_code (some (pos (suc n))) = false
is_zero_code (some (negsuc n)) = false

abbrev is_running : Option Bool → Bool
is_running none = false
is_running (some running) = running

abbrev logged_in : List ℕ → Bool
logged_in logs = codes_contain logs (codes "login to server success")

-- `unwrap_or_default()` of a read log.
abbrev logs_or_none : Result (Unit {0}) (List ℕ) → List ℕ
logs_or_none (ok logs) = logs
logs_or_none (err e) = []

-- The status that `frpc_status` makes of an inspection and the log.
unfoldable pub status_of : Inspection → List ℕ → FrpcServiceStatus
status_of i logs =
    let running = is_running i.running in
    record {
      state =
          if running
          then FrpcServiceState.running
          else if is_zero_code i.exit_code
          then FrpcServiceState.stopped
          else FrpcServiceState.error;
      connected = running && logged_in logs;
      image = i.image;
      started_at = i.started_at;
      exit_code = i.exit_code;
    }

-- What an inspection with a good answer or an error leads to.
unfoldable pub managed : {D : Type 0} → Result InspectError Inspection → Call D (Option Inspection)
unfolding is_managed_frpc
managed (ok i) = if is_managed_frpc i then pure (some i) else raise tt
managed (err not_found) = pure none
managed (err other_error) = raise tt

-- The code of a failed test, where the log names one.
abbrev failed_with : FrpcTestCode → FrpcTestResult
failed_with code = record { success = false; code = code }

abbrev is_stopped : Option Bool → Bool
is_stopped none = false
is_stopped (some running) = not running

module _ {D : Type 0} (calls : FrpcCalls D) where
  unfoldable pub inspect_managed_frpc : String → Call D (Option Inspection)
  unfolding managed
  inspect_managed_frpc name = do answer ← attempt (calls.inspect_container name); managed answer

  abbrev status_of_some : String → Option Inspection → Call D FrpcServiceStatus
  unfolding status_of not_created_frpc_status
  status_of_some name none = pure not_created_frpc_status
  status_of_some name (some i) = do
    logs ← attempt (calls.recent_logs name)
    pure (status_of i (logs_or_none logs))

  unfoldable pub frpc_status : String → Call D FrpcServiceStatus
  unfolding inspect_managed_frpc status_of_some
  frpc_status name = do found ← inspect_managed_frpc name; status_of_some name found

  abbrev stop_some : String → Option Inspection → Call D FrpcServiceStatus
  unfolding frpc_status not_created_frpc_status
  stop_some name none = pure not_created_frpc_status
  stop_some name (some i) = do
    when (is_running i.running) (calls.stop_container name)
    frpc_status name

  unfoldable pub stop_frpc : String → Call D FrpcServiceStatus
  unfolding inspect_managed_frpc stop_some
  stop_frpc name = do found ← inspect_managed_frpc name; stop_some name found

  abbrev remove_some : String → Option Inspection → Call D (Unit {0})
  remove_some name none = pure tt
  remove_some name (some i) = calls.remove_container name

  unfoldable pub remove_frpc : String → Call D (Unit {0})
  unfolding inspect_managed_frpc
  remove_frpc name = do found ← inspect_managed_frpc name; remove_some name found

  abbrev inspected : String → Call D Inspection
  inspected name d =
      let r = calls.inspect_container name d in
      elim r.0 [ ok i ↦ (ok i, r.1) | err e ↦ (err tt, r.1) ]

  -- A round of the test, after its log was read; `later` are the rounds after it.
  abbrev judge_logs : String → List ℕ → Call D FrpcTestResult → Call D FrpcTestResult
  judge_logs name logs later =
      if logged_in logs
      then pure (record { success = true; code = FrpcTestCode.connected })
      else elim (classify_frpc_failure logs) [
        | some code ↦ pure (failed_with code)
        | none ↦ inspected name >>= λ i.
            if is_stopped i.running then pure (failed_with FrpcTestCode.client_exited) else later
      ]

  -- The loop of `test_frpc_connectivity`: so many rounds are left.
  unfoldable pub await_login : String → ℕ → Call D FrpcTestResult
  await_login name zero = pure (failed_with FrpcTestCode.unknown)
  await_login name (suc rounds) = attempt (calls.recent_logs name) >>= λ logs.
      judge_logs name (logs_or_none logs) (await_login name rounds)

  abbrev clean_test : String → D → D
  clean_test name d = (calls.remove_container name d).1

  unfoldable pub test_frpc_connectivity : String → ServerSettings → List ℕ → Call D FrpcTestResult
  unfolding await_login
  test_frpc_connectivity name settings token = do
    calls.ensure_image settings.frpc_image
    calls.create_frpc_test_container name settings token
    or_clean (calls.start_container name) (clean_test name)
    result ← await_login name 40
    calls.remove_container name
    pure result
