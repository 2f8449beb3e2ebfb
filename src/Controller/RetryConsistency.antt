-- ===== src/Controller/RetryConsistency.antt =====
-- The retry loop of crates/controller/src/api.rs gives no environment a port that another one has,
-- whether it succeeds or fails.
use webtop_manager.Prelude.{
  zero, ◌&&◌, ◌||◌, not, Bool, false, suc, String, ℕ, ◌≡◌, ◌≢◌, some, List, [], ◌∷◌, ◌++◌, arith,
  inl, inr,
}
use webtop_manager.Prelude.Results.{ok, err, Result-cases}
use webtop_manager.Prelude.Actions.{pure}
use webtop_manager.Prelude.Steps.{
  Preserves, Preserves->>=, Preserves-map_err, Preserves-pure, Preserves-reject_if, Preserves-ok_or,
}
use webtop_manager.Contracts.Failures
use webtop_manager.Contracts.Settings.{ServerSettings, FrpcServiceStatus}
use webtop_manager.Database.Table.{select}
use webtop_manager.Database.State.{save_frp_token_metadata}
use webtop_manager.Database.Records.{EnvironmentRecord}
use webtop_manager.Database.Environments.{environment_id, list_environments}
use webtop_manager.Controller.State.{AppState}
use webtop_manager.Controller.Token.{
  is_ready, is_pending, inspect_or_initialize_server_token, required_server_token,
}
use webtop_manager.Controller.Docker.{DockerApi}
use webtop_manager.Controller.Proxies.{allocated_ports}
use webtop_manager.Controller.Frpc.{
  retry_fuel, failure, start_frpc_with_port_retry, retry_loop, required_server_settings, Retry,
  set_remote_port, resolve_conflict, resolve_conflicts, finish_round, retry_round,
}
use webtop_manager.Controller.Allocation.{port_of}
use webtop_manager.Controller.Distinct.{taken_of_select}
use webtop_manager.Controller.Consistency.{
  Consistent, Consistent-Stable, update_environment_spec-Consistent,
}
use webtop_manager.Controller.Retry.{
  Tracks, Resolved, resolve_conflict-Resolved, Resolved-Tracks, Resolved-fresh,
}
use webtop_manager.Controller.Rounds.{Tracks-start}
use webtop_manager.Controller.Upkeep.{Preserves-call, Preserves-current_environment_proxies}

module _ {D : Type 0} (settings : ServerSettings) where
  refused_state :
      (id : ℕ) (r : Retry) (s : AppState D) {x : _}
      → (resolve_conflict settings id r s).0 ≡ err x
      → (resolve_conflict settings id r s).1 ≡ s
  unfolding resolve_conflict
  refused_state id r s e = ground arith

  Resolved-Consistent :
      (id : ℕ) (r r' : Retry) (s s' : AppState D)
      → Resolved settings id r s r' s'
      → Tracks s.database r
      → Consistent s
      → Consistent s'
  unfolding set_remote_port
  Resolved-Consistent id r r' s s' step t c =
      let (low, high, fresh, now, more) = Resolved-fresh step t in
      let other : (j p : ℕ) (b : EnvironmentRecord)
          → some step.replacement ≡ some p
          → j ≢ id
          → select environment_id j s.database.environments ≡ some b
          → port_of b ≢ some p =
        λ j p b e differs found has.
          ground (
            arith,
            e,
            fresh,
            t.taken p (taken_of_select j p s.database.environments b found has),
          ) in
      rw step.state (
        update_environment_spec-Consistent s c id
          (set_remote_port step.replacement step.environment.spec) other)

  resolve_conflicts-Consistent :
      (ids : List ℕ) (r : Retry) (s : AppState D)
      → Tracks s.database r
      → Consistent s
      → Consistent (resolve_conflicts settings ids r s).1
  unfolding resolve_conflicts
  resolve_conflicts-Consistent [] r s t c = c
  resolve_conflicts-Consistent (id ∷ ids) r s t c =
      elim (Result-cases (resolve_conflict settings id r s).0) [
        | inr (x, e) ↦ rw (e, refused_state id r s e) c
        | inl (r1, e) ↦
            let s1 = (resolve_conflict settings id r s).1 in
            let step = resolve_conflict-Resolved settings id r r1 s s1 (ground (arith, e)) in
            rw e (
              resolve_conflicts-Consistent ids r1 s1 (Resolved-Tracks step t)
                (Resolved-Consistent id r r1 s s1 step t c))
      ]

  finish_round-Consistent :
      (rejected : List ℕ) (status : FrpcServiceStatus) (conflicts : List ℕ)
      → Preserves {S = AppState D} Consistent (finish_round settings rejected status conflicts)
  unfolding finish_round
  finish_round-Consistent rejected status [] = record { keep = λ s c. c }
  finish_round-Consistent rejected status (id ∷ ids) = record {
    keep = λ s c.
        let start : Retry = record {
          environments = list_environments s.database;
          rejected_ports = rejected;
          allocated = allocated_ports (list_environments s.database) ++ rejected;
        } in
        let after =
          resolve_conflicts-Consistent (id ∷ ids) start s (Tracks-start s.database rejected c.key)
            c in
        elim (Result-cases (resolve_conflicts settings (id ∷ ids) start s).0) [
          | inl (r, e) ↦ rw e after
          | inr (x, e) ↦ rw e after
        ];
  }

module _ {D : Type 0} where
  pub required_server_settings-Consistent :
      Preserves {S = AppState D} Consistent required_server_settings
  unfolding required_server_settings
  required_server_settings-Consistent = record { keep = λ s c. ground (arith, c) }

  pub inspect-Consistent :
      (fingerprint : List ℕ → String) (generated : List ℕ)
      → Preserves {S = AppState D} Consistent
          (inspect_or_initialize_server_token fingerprint generated)
  unfolding inspect_or_initialize_server_token save_frp_token_metadata
  inspect-Consistent fingerprint generated = record { keep = λ s c. ground (arith, c) }

  required_server_token-Consistent :
      (fingerprint : List ℕ → String) (generated : List ℕ) (allow : Bool)
      → Preserves {S = AppState D} Consistent (required_server_token fingerprint generated allow)
  unfolding required_server_token
  required_server_token-Consistent fingerprint generated allow =
      Preserves->>=
        (Preserves-map_err (λ _. Failures.internal) (inspect-Consistent fingerprint generated))
        (λ m.
          Preserves->>=
            (Preserves-reject_if (not (is_ready m.state || (allow && is_pending m.state)))
              Failures.frp_token_recovery_required)
            (λ _. Preserves-ok_or m.token Failures.frp_token_recovery_required))

module _ {D : Type 0} (docker : DockerApi D) where
  retry_round-Consistent :
      (settings : ServerSettings) (token rejected : List ℕ)
      → Preserves Consistent (retry_round docker settings token rejected)
  unfolding retry_round
  retry_round-Consistent settings token rejected =
      Preserves->>=
        (Preserves-map_err (λ _. Failures.internal)
          (Preserves-current_environment_proxies Consistent-Stable docker))
        (λ proxies.
          Preserves->>=
            (Preserves-map_err (λ _. Failures.docker)
              (Preserves-call Consistent-Stable (docker.start_frpc settings token proxies)))
            (λ status.
              Preserves->>=
                (Preserves-map_err (λ _. Failures.docker)
                  (Preserves-call Consistent-Stable (docker.frpc_conflicting_proxy_ids proxies)))
                (λ conflicts. finish_round-Consistent settings rejected status conflicts)))

  retry_loop-Consistent :
      (fuel : ℕ) (settings : ServerSettings) (token rejected : List ℕ)
      → Preserves Consistent (retry_loop docker fuel settings token rejected)
  unfolding retry_loop
  retry_loop-Consistent zero settings token rejected = record { keep = λ s c. c }
  retry_loop-Consistent (suc fuel) settings token rejected =
      let again = retry_loop-Consistent fuel settings token in
      Preserves->>=
        {f = elim [
          | ok status ↦ pure status
          | err next ↦ retry_loop docker fuel settings token next
        ]}
        (Preserves-map_err failure (retry_round-Consistent settings token rejected))
        (elim [ ok status ↦ Preserves-pure status | err next ↦ again next ])

  pub start_frpc-Consistent :
      (fingerprint : List ℕ → String) (generated : List ℕ)
      → Preserves Consistent (start_frpc_with_port_retry docker fingerprint generated)
  unfolding start_frpc_with_port_retry
  start_frpc-Consistent fingerprint generated =
      Preserves->>= (Preserves-map_err failure required_server_settings-Consistent) (λ settings.
        Preserves->>=
          (Preserves-map_err failure (required_server_token-Consistent fingerprint generated false))
          (λ token. retry_loop-Consistent (retry_fuel settings) settings token []))
