-- ===== src/Docker/Tests.antt =====
-- The theorems on crates/controller/src/docker.rs at concrete inputs.
use webtop_manager.Docker.ServiceLaws.{
  frpc-unmanaged, test_frpc_connectivity-IsRemovedAfter, IsRemovedAfter,
}
use webtop_manager.Docker.LogLaws.{
  classify_proxy_registrations-reports, reports_settled, reports_lost,
  frpc_conflicting_proxy_ids-IsAnswer, IsAnswer,
}
use webtop_manager.Prelude.{
  true, none, any, ◌+◌, ℕ, mem, List, String, ◌≡◌, ◌<◌, refl, some, [], ◌∷◌,
}
use webtop_manager.Prelude.Text.{
  decimal, codes, parse_unsigned, is_blank, is_whitespace, has_whitespace, codes_start_with,
  codes_contain, codes_end_with, to_ascii_uppercase, parse_digits,
}
use webtop_manager.Prelude.Results.{err, Result, ok}
use webtop_manager.Contracts.Spec.{EnvironmentSpec, default_environment_spec}
use webtop_manager.Contracts.Validate.{
  validate, is_shm_too_small, check_publication, is_reserved_key, check_keys, get_value,
  is_bad_port, check_port, check_ports, check_mounts,
}
use webtop_manager.Contracts.Validity.{validate-ok_iff}
use webtop_manager.Controller.Docker.{Call}
use webtop_manager.Controller.Proxies.{Proxy}
use webtop_manager.Docker.Logs.{
  lines, register_line, frpc_conflicting_proxy_ids, register_lines, classify_proxy_registrations,
}
use webtop_manager.Docker.Service.{
  is_managed_frpc, await_login, Inspection, FrpcCalls, frpc_status, stop_frpc, remove_frpc,
  test_frpc_connectivity,
}
use webtop_manager.Contracts.Settings.{FrpcTestResult, FrpcTestCode, default_server_settings}
use webtop_manager.Docker.Bindings.{webtop_https_port, webtop_https_port-valid}

abbrev custom_spec : EnvironmentSpec
custom_spec = record default_environment_spec {
  name = "desk";
  extra_environment = ("CUSTOM_HTTPS_PORT", "8443") ∷ [];
}

accepted : validate custom_spec ≡ ok tt
unfolding validate is_shm_too_small check_publication is_reserved_key check_keys get_value
    is_bad_port check_port check_ports check_mounts is_blank is_whitespace has_whitespace
    codes_start_with codes_contain codes_end_with to_ascii_uppercase parse_unsigned parse_digits
accepted = refl

webtop_https_port-valid_example :
    (0 < webtop_https_port custom_spec)
    × ((value : String)
        → get_value "CUSTOM_HTTPS_PORT" custom_spec.extra_environment ≡ some value
        → parse_unsigned 65535 (codes value) ≡ some (webtop_https_port custom_spec))
webtop_https_port-valid_example =
    webtop_https_port-valid custom_spec ((validate-ok_iff custom_spec).0 accepted)

abbrev lost_log : List ℕ
lost_log = codes "[webtop-7] start error: Port already used\n[webtop-8] start proxy success"

abbrev two_proxies : List Proxy
two_proxies =
    record { resource_id = 7; local_port = 32768; remote_port = 20000 }
    ∷ record { resource_id = 8; local_port = 32769; remote_port = 20001 }
    ∷ []

lost_log-conflicts : (classify_proxy_registrations decimal lost_log two_proxies).conflicts ≡ 7 ∷ []
unfolding classify_proxy_registrations register_lines register_line lines codes_contain decimal
lost_log-conflicts = refl

lost_log-settled : (classify_proxy_registrations decimal lost_log two_proxies).settled ≡ 8 ∷ 7 ∷ []
unfolding classify_proxy_registrations register_lines register_line lines codes_contain decimal
lost_log-settled = refl

classify_proxy_registrations-reports_example :
    (mem 7 (classify_proxy_registrations decimal lost_log two_proxies).conflicts
      ≡ any (reports_lost decimal 7 two_proxies) (lines lost_log))
    × (mem 7 (classify_proxy_registrations decimal lost_log two_proxies).settled
        ≡ any (reports_settled decimal 7 two_proxies) (lines lost_log))
classify_proxy_registrations-reports_example =
    classify_proxy_registrations-reports decimal lost_log two_proxies 7

abbrev read_lost : Call ℕ (List ℕ)
read_lost reads = (ok lost_log, reads + 1)

frpc_conflicting_proxy_ids-IsAnswer_example :
    IsAnswer decimal read_lost two_proxies
      (frpc_conflicting_proxy_ids decimal read_lost two_proxies 0).0
frpc_conflicting_proxy_ids-IsAnswer_example =
    frpc_conflicting_proxy_ids-IsAnswer decimal read_lost two_proxies 0

-- A daemon that counts its removals, and whose container has no labels.
abbrev foreign : Inspection
foreign = record {
  labels = none;
  image = none;
  running = some true;
  exit_code = none;
  started_at = none;
}

abbrev test_calls : FrpcCalls ℕ
test_calls = record {
  inspect_container = λ name d. (ok foreign, d);
  stop_container = λ name d. (ok tt, d);
  start_container = λ name d. (ok tt, d);
  remove_container = λ name d. (ok tt, d + 1);
  recent_logs = λ name d. (ok (codes "[I] login to server success"), d);
  ensure_image = λ image d. (ok tt, d);
  create_frpc_test_container = λ name settings token d. (ok tt, d);
}

abbrev tested : Result (Unit {0}) FrpcTestResult × ℕ
tested = test_frpc_connectivity test_calls "frpc-test" default_server_settings [] 0

tested-connected : tested ≡ (ok (record { success = true; code = FrpcTestCode.connected }), 1)
unfolding test_frpc_connectivity await_login codes_contain
tested-connected = refl

test_frpc_connectivity-IsRemovedAfter_example : IsRemovedAfter test_calls "frpc-test" tested
test_frpc_connectivity-IsRemovedAfter_example =
    test_frpc_connectivity-IsRemovedAfter test_calls "frpc-test" default_server_settings [] 0

frpc-unmanaged_example :
    (frpc_status test_calls "frpc" 0 ≡ (err tt, 0))
    × (stop_frpc test_calls "frpc" 0 ≡ (err tt, 0))
    × (remove_frpc test_calls "frpc" 0 ≡ (err tt, 0))
unfolding is_managed_frpc
frpc-unmanaged_example = frpc-unmanaged test_calls "frpc" foreign 0 refl refl
