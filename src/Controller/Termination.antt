-- ===== src/Controller/Termination.antt =====
-- The retry loop of `start_frpc_with_port_retry` (crates/controller/src/api.rs) ends.
use mathlib.Core.Path.{subst}
use webtop_manager.Prelude.{
  ℕ, zero, suc, ◌≡◌, ◌<◌, ◌+◌, ◌-◌, refl, List, [], ◌∷◌, ◌++◌, arith, inl, inr, ◌≢◌, String, false,
}
use webtop_manager.Prelude.Results.{Result, ok, err}
use webtop_manager.Prelude.Actions.{Action, ◌>>=◌, pure, map_err}
use webtop_manager.Prelude.Steps.{
  >>=-eq-ok, Preserves-map_err, >>=-eq-err, map_err-eq-err, map_err-eq-ok, map_err-state,
}
use webtop_manager.Contracts.Failures
use webtop_manager.Contracts.Settings.{ServerSettings, FrpcServiceStatus}
use webtop_manager.Database.Keys.{HasKey}
use webtop_manager.Database.State.{save_frp_token_metadata}
use webtop_manager.Database.Environments.{environment_id, list_environments}
use webtop_manager.Controller.State.{AppState, Handler}
use webtop_manager.Controller.Proxies.{allocated_ports, Proxy}
use webtop_manager.Controller.Docker.{DockerApi}
use webtop_manager.Controller.Token.{required_server_token, inspect_or_initialize_server_token}
use webtop_manager.Controller.Frpc.{
  Retry, call, resolve_conflicts, current_environment_proxies, retry_round, retry_loop, retry_fuel,
  Stop, out_of_fuel, failure, finish_round, required_server_settings, start_frpc_with_port_retry,
}
use webtop_manager.Controller.FreePorts.{free_count-le, free_count_mono}
use webtop_manager.Controller.Upkeep.{
  Preserves-call, Holds, Preserves-current_environment_proxies, Holds-Stable,
}
use webtop_manager.Controller.Rounds.{
  free, used, resolve_conflicts-free, Tracks-start, used_before, used_after,
}

module _ {D : Type 0} (settings : ServerSettings) where
  finish_round-free :
      (rejected rejected' : List ℕ) (status : FrpcServiceStatus) (conflicts : List ℕ)
      (s s' : AppState D)
      → finish_round settings rejected status conflicts s ≡ (ok (err rejected'), s')
      → HasKey environment_id s.database.environments
      → HasKey environment_id s'.database.environments
        × (free settings (used s' rejected') < free settings (used s rejected))
  unfolding finish_round
  finish_round-free rejected rejected' status [] s s' e key = absurd (ground arith)
  finish_round-free rejected rejected' status (id ∷ ids) s s' e key =
      let start : Retry = record {
        environments = list_environments s.database;
        rejected_ports = rejected;
        allocated = allocated_ports (list_environments s.database) ++ rejected;
      } in
      let (r, t, resolved, last) =
        >>=-eq-ok (resolve_conflicts settings (id ∷ ids) start) (λ r. pure (err r.rejected_ports)) s
          s' (err rejected') e in
      let state : t ≡ s' = ground arith in
      let ports : r.rejected_ports ≡ rejected' = ground arith in
      let (tracks, fewer) =
        resolve_conflicts-free settings id ids start r s t resolved
          (Tracks-start s.database rejected key) in
      let count = settings.remote_port_end + 1 - settings.remote_port_start in
      rw⁻¹ (state, ports)
        (
          tracks.key,
          omega (
            arith,
            fewer,
            free_count_mono count settings.remote_port_start r.allocated (used t r.rejected_ports)
                (used_after t.database r tracks),
            free_count_mono count settings.remote_port_start (used s rejected) start.allocated
                (used_before s.database rejected),
          ),
        )

module _ {D : Type 0} (docker : DockerApi D) (settings : ServerSettings) (token : List ℕ) where
  abbrev ask :
      List ℕ → List Proxy → FrpcServiceStatus → Handler D (Result (List ℕ) FrpcServiceStatus)
  ask rejected proxies status = do
    conflicts ← map_err (λ _. Failures.docker) (call (docker.frpc_conflicting_proxy_ids proxies))
    finish_round settings rejected status conflicts

  abbrev launch : List ℕ → List Proxy → Handler D (Result (List ℕ) FrpcServiceStatus)
  launch rejected proxies = do
    status ← map_err (λ _. Failures.docker) (call (docker.start_frpc settings token proxies))
    ask rejected proxies status

  -- A round that meets conflicts leaves fewer free ports to the next one.
  retry_round-free :
      (rejected rejected' : List ℕ) (s s' : AppState D)
      → retry_round docker settings token rejected s ≡ (ok (err rejected'), s')
      → HasKey environment_id s.database.environments
      → HasKey environment_id s'.database.environments
        × (free settings (used s' rejected') < free settings (used s rejected))
  unfolding retry_round
  retry_round-free rejected rejected' s s' e key =
      let holds = Holds (allocated_ports s.database.environments) in
      let internal = λ (_ : Unit {0}). Failures.internal in
      let failed = λ (_ : Unit {0}). Failures.docker in
      let (proxies, s1, listed, e1) =
        >>=-eq-ok (map_err internal (current_environment_proxies docker)) (launch rejected) s s'
          (err rejected') e in
      let (status, s2, started, e2) =
        >>=-eq-ok (map_err failed (call (docker.start_frpc settings token proxies)))
          (ask rejected proxies) s1 s' (err rejected') e1 in
      let (conflicts, s3, asked, e3) =
        >>=-eq-ok (map_err failed (call (docker.frpc_conflicting_proxy_ids proxies)))
          (finish_round settings rejected status) s2 s' (err rejected') e2 in
      let stable = Holds-Stable (allocated_ports s.database.environments) in
      let listing =
        Preserves-map_err internal (Preserves-current_environment_proxies stable docker) in
      let starting =
        Preserves-map_err failed
          (Preserves-call stable (docker.start_frpc settings token proxies)) in
      let asking =
        Preserves-map_err failed
          (Preserves-call stable (docker.frpc_conflicting_proxy_ids proxies)) in
      let h1 : holds s1 = subst (λ r. holds r.1) listed (listing.keep s (key, refl)) in
      let h2 : holds s2 = subst (λ r. holds r.1) started (starting.keep s1 h1) in
      let h3 : holds s3 = subst (λ r. holds r.1) asked (asking.keep s2 h2) in
      let (kept, fewer) =
        finish_round-free settings rejected rejected' status conflicts s3 s' e3 h3.0 in
      (kept, rw (h3.1) at fewer)

  abbrev continues :
      ℕ → Result (List ℕ) FrpcServiceStatus → Action (AppState D) Stop FrpcServiceStatus
  continues fuel (ok status) = pure status
  continues fuel (err rejected) = retry_loop docker fuel settings token rejected

  -- Enough fuel for the free ports is enough for the loop.
  retry_loop_fuel :
      (fuel : ℕ) (rejected : List ℕ) (s : AppState D)
      → HasKey environment_id s.database.environments
      → free settings (used s rejected) < fuel
      → (retry_loop docker fuel settings token rejected s).0 ≢ err out_of_fuel
  unfolding retry_loop
  retry_loop_fuel zero rejected s key enough h = absurd (omega (arith, enough))
  retry_loop_fuel (suc fuel) rejected s key enough h =
      elim (>>=-eq-err (map_err failure (retry_round docker settings token rejected))
        (continues fuel) s out_of_fuel h) [
          | inl failed ↦ absurd (
              let (x, e) =
                map_err-eq-err failure (retry_round docker settings token rejected) s out_of_fuel
                  failed in
              ground (arith, e))
          | inr (ok status, went, last) ↦ ground (arith, last)
          | inr (err next, went, last) ↦
              let t = (map_err failure (retry_round docker settings token rejected) s).1 in
              let (kept, fewer) =
                retry_round-free rejected next s t
                  (map_err-eq-ok failure (retry_round docker settings token rejected) s t (err next)
                    went)
                  key in
              retry_loop_fuel fuel next t kept (omega (arith, fewer, enough)) last
        ]

  retry_loop-ends :
      (rejected : List ℕ) (s : AppState D)
      → HasKey environment_id s.database.environments
      → (retry_loop docker (retry_fuel settings) settings token rejected s).0 ≢ err out_of_fuel
  retry_loop-ends rejected s key = retry_loop_fuel (retry_fuel settings) rejected s key (
      omega (
        arith,
        free_count-le (settings.remote_port_end + 1 - settings.remote_port_start)
            settings.remote_port_start (used s rejected),
      ))

settings_environments :
    {D : Type 0} (s : AppState D)
    → (required_server_settings s).1.database.environments ≡ s.database.environments
unfolding required_server_settings
settings_environments s = ground arith

token_environments :
    {D : Type 0} (fingerprint : List ℕ → String) (generated : List ℕ) (s : AppState D)
    → (required_server_token fingerprint generated false s).1.database.environments
      ≡ s.database.environments
unfolding required_server_token inspect_or_initialize_server_token save_frp_token_metadata
token_environments fingerprint generated s = ground arith

-- The start of frpc ends: whatever the daemon answers, and however often frpc reports that ports
-- are refused, the loop returns a status or a failure of the handler after at most one round for
-- each port of the range and one more, if no two environments share an id.
pub start_frpc_with_port_retry-ends :
    {D : Type 0} (docker : DockerApi D) (fingerprint : List ℕ → String) (generated : List ℕ)
    (s : AppState D)
    → HasKey environment_id s.database.environments
    → (start_frpc_with_port_retry docker fingerprint generated s).0 ≢ err out_of_fuel
unfolding start_frpc_with_port_retry
start_frpc_with_port_retry-ends docker fingerprint generated s key h =
    elim (>>=-eq-err (map_err failure required_server_settings) (go docker fingerprint generated) s
      out_of_fuel h) [
        | inl failed ↦ handler_failure required_server_settings s failed
        | inr (settings, read, h1) ↦
            let s1 = (map_err failure required_server_settings s).1 in
            elim (>>=-eq-err (map_err failure (required_server_token fingerprint generated false))
              (λ token. retry_loop docker (retry_fuel settings) settings token []) s1 out_of_fuel
              h1) [
                | inl failed ↦
                    handler_failure (required_server_token fingerprint generated false) s1 failed
                | inr (token, opened, h2) ↦
                    retry_loop-ends docker settings token []
                      (map_err failure (required_server_token fingerprint generated false) s1).1
                      (rw
                        (
                          map_err-state failure (required_server_token fingerprint generated false)
                              s1,
                          token_environments fingerprint generated s1,
                          map_err-state failure required_server_settings s,
                          settings_environments s,
                        )
                        key)
                      h2
              ]
      ]
  where
    go :
        {D : Type 0} (docker : DockerApi D) (fingerprint : List ℕ → String) (generated : List ℕ)
        → ServerSettings
        → Action (AppState D) Stop FrpcServiceStatus
    go docker fingerprint generated settings = do
      token ← map_err failure (required_server_token fingerprint generated false)
      retry_loop docker (retry_fuel settings) settings token []

    handler_failure :
        {D A : Type 0} (m : Handler D A) (s : AppState D)
        → (map_err failure m s).0 ≢ err out_of_fuel
    handler_failure m s h =
        let (x, e) = map_err-eq-err failure m s out_of_fuel h in ground (arith, e)
