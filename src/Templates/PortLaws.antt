-- ===== src/Templates/PortLaws.antt =====
-- The remote port of an environment that is made of a template
-- (crates/controller/src/templates.rs).
use webtop_manager.Prelude.{
  ℕ, ◌≤◌, ◌<◌, Bool, Option, true, false, ◌≡◌, none, some, arith, mem, inl, inr, Bool-cases,
}
use webtop_manager.Prelude.Results.{ok, Result-cases}
use webtop_manager.Contracts.Spec.{EnvironmentSpec}
use webtop_manager.Contracts.Settings.{validate_settings}
use webtop_manager.Contracts.Ports.{allocate_remote_port, allocate_remote_port-ok_iff}
use webtop_manager.Database.State.{get_server_settings}
use webtop_manager.Database.Environments.{list_environments}
use webtop_manager.Controller.State.{AppState}
use webtop_manager.Controller.Proxies.{allocated_ports}
use webtop_manager.Templates.Restore.{allocate_publication_port}

-- A port that no environment has, and that lies in the configured range.
abbrev pub IsFreePort : {D : Type 0} → ℕ → AppState D → Type 0
IsFreePort p s =
    (mem p (allocated_ports (list_environments s.database)) ≡ false)
    × ((get_server_settings s.database).remote_port_start ≤ p)
    × (p ≤ (get_server_settings s.database).remote_port_end)

-- The spec with another port, and nothing else changed.
abbrev pub with_port : Option ℕ → Bool → EnvironmentSpec → EnvironmentSpec
with_port port automatic spec = record spec {
  publication = record {
    enabled = spec.publication.enabled;
    remote_port = port;
    automatic_port = automatic;
  };
}

module _ {D : Type 0} where
  -- Where a port is allocated for an environment that is made of a template, the state stays as it is; a
  -- spec that is not published loses its port and keeps all else; one that is published gets a free port
  -- of the configured range below which each port of the range is taken, is marked as automatic, and
  -- keeps all else.
  pub allocate_publication_port-IsFreePort :
      (spec spec' : EnvironmentSpec) (s t : AppState D)
      → allocate_publication_port spec s ≡ (ok spec', t)
      → (t ≡ s)
        × (spec.publication.enabled ≡ false
            → spec' ≡ with_port none spec.publication.automatic_port spec)
        × (spec.publication.enabled ≡ true
            → (p : ℕ) × (spec' ≡ with_port (some p) true spec)
              × IsFreePort p s
              × ((q : ℕ)
                  → (get_server_settings s.database).remote_port_start ≤ q
                  → q < p
                  → mem q (allocated_ports (list_environments s.database)) ≡ true))
  unfolding allocate_publication_port
  allocate_publication_port-IsFreePort spec spec' s t e =
      elim (Bool-cases spec.publication.enabled) [
        | inr closed ↦ (
          ground (arith, closed),
          (λ h. ground (arith, closed)),
          (λ h. absurd (ground (arith, closed))),
        )
        | inl open' ↦
            let settings = get_server_settings s.database in
            let taken = allocated_ports (list_environments s.database) in
            elim (Result-cases (validate_settings settings)) [
              | inr (x, bad) ↦ absurd (ground (arith, open', bad))
              | inl (u, good) ↦
                  elim (Result-cases (
                    allocate_remote_port settings.remote_port_start settings.remote_port_end
                      taken)) [
                        | inr (x, full) ↦ absurd (ground (arith, open', good, full))
                        | inl (p, found) ↦
                            let first =
                              (allocate_remote_port-ok_iff settings.remote_port_start
                                  settings.remote_port_end taken p).0
                                found in
                            (
                              ground (arith, open', good, found),
                              (λ h. absurd (ground (arith, open'))),
                              (λ h. (
                                p,
                                ground (arith, open', good, found),
                                (first.free, first.lower, omega (arith, first.upper)),
                                first.first,
                              )),
                            )
                      ]
            ]
      ]
