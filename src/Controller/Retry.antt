-- ===== src/Controller/Retry.antt =====
-- The retry loop of `start_frpc_with_port_retry` (crates/controller/src/api.rs): what a replacement
-- does to the set of ports that are taken.
use webtop_manager.Prelude.{
  ℕ, ◌+◌, ◌≤◌, ◌<◌, ◌≡◌, refl, ◌∙◌, sym, ap, ◌⊎◌, inl, inr, true, false, some, ◌∷◌, arith, mem,
  Option-cases,
}
use webtop_manager.Prelude.Results.{Result-cases, ok}
use webtop_manager.Contracts.Settings.{ServerSettings}
use webtop_manager.Contracts.Ports.{allocate_remote_port, allocate_remote_port-ok_iff}
use webtop_manager.Database.Table.{select, update, select-update}
use webtop_manager.Database.Keys.{HasKey, HasKey-update}
use webtop_manager.Database.Records.{EnvironmentRecord}
use webtop_manager.Database.State.{Database}
use webtop_manager.Database.Environments.{environment_id, update_environment_spec}
use webtop_manager.Controller.State.{AppState, with_database}
use webtop_manager.Controller.Proxies.{allocated_ports}
use webtop_manager.Controller.Frpc.{Retry, set_remote_port, resolve_conflict}
use webtop_manager.Controller.Allocation.{
  Covers, port_of, ports-update, ports_of_update, port-update,
}

-- What a successful replacement did.
pub record Resolved {D : Type 0} (settings : ServerSettings) (id : ℕ) (r : Retry) (s : AppState D)
    (r' : Retry) (s' : AppState D) : Type 0 where
  pub environment : EnvironmentRecord
  pub current : ℕ
  pub replacement : ℕ
  pub found : select environment_id id r.environments ≡ some environment
  pub had : port_of environment ≡ some current
  pub automatic : environment.spec.publication.automatic_port ≡ true
  pub allocation :
      allocate_remote_port settings.remote_port_start settings.remote_port_end
        (current ∷ r.allocated)
      ≡ ok replacement
  pub next : r' ≡ record {
    environments =
        update environment_id id
          (λ e. record e { spec = set_remote_port replacement environment.spec })
          r.environments;
    rejected_ports = current ∷ r.rejected_ports;
    allocated = replacement ∷ current ∷ r.allocated;
  }
  pub state :
      s'
      ≡ with_database (update_environment_spec id (set_remote_port replacement environment.spec)) s

module _ {D : Type 0} (settings : ServerSettings) where
  pub resolve_conflict-Resolved :
      (id : ℕ) (r r' : Retry) (s s' : AppState D)
      → resolve_conflict settings id r s ≡ (ok r', s')
      → Resolved settings id r s r' s'
  unfolding resolve_conflict
  resolve_conflict-Resolved id r r' s s' e =
      elim (Option-cases (select environment_id id r.environments)) [
        | inl missing ↦ ground arith
        | inr (environment, found) ↦ elim (Option-cases (port_of environment)) [
          | inl no_port ↦ ground arith
          | inr (current, had) ↦
              elim (Result-cases (
                allocate_remote_port settings.remote_port_start settings.remote_port_end
                  (current ∷ r.allocated))) [
                    | inr (error, full) ↦ ground arith
                    | inl (replacement, allocation) ↦ record {
                      environment = environment;
                      current = current;
                      replacement = replacement;
                      found = found;
                      had = had;
                      automatic = ground arith;
                      allocation = allocation;
                      next = ground arith;
                      state = ground arith;
                    }
                  ]
        ]
      ]

-- What the loop over the conflicts keeps: its copy of the environments is that of the store, each
-- port in the store counts as allocated, and what counts as allocated is in the store or was
-- rejected.
pub record Tracks (db : Database) (r : Retry) : Type 0 where
  pub key : HasKey environment_id db.environments
  pub mirror :
      (k : ℕ) → select environment_id k r.environments ≡ select environment_id k db.environments
  pub taken : Covers r.allocated (allocated_ports db.environments)
  pub covered :
      (q : ℕ)
      → mem q r.allocated ≡ true
      → (mem q (allocated_ports db.environments) ≡ true) ⊎ (mem q r.rejected_ports ≡ true)

module _ {D : Type 0} {settings : ServerSettings} {id : ℕ} {r r' : Retry} {s s' : AppState D}
    (step : Resolved settings id r s r' s') (t : Tracks s.database r) where
  abbrev reassign : EnvironmentRecord → EnvironmentRecord
  reassign e = record e { spec = set_remote_port step.replacement step.environment.spec }

  assigns : (e : EnvironmentRecord) → port_of (reassign e) ≡ some step.replacement
  unfolding set_remote_port
  assigns e = refl

  rows : s'.database.environments ≡ update environment_id id reassign s.database.environments
  unfolding update_environment_spec
  rows = ap (λ (st : AppState D). st.database.environments) step.state

  copies : r'.environments ≡ update environment_id id reassign r.environments
  copies = ap (λ (x : Retry). x.environments) step.next

  now_allocated : r'.allocated ≡ step.replacement ∷ step.current ∷ r.allocated
  now_allocated = ap (λ (x : Retry). x.allocated) step.next

  now_rejected : r'.rejected_ports ≡ step.current ∷ r.rejected_ports
  now_rejected = ap (λ (x : Retry). x.rejected_ports) step.next

  -- The replacement lies in the range and was free; what was allocated still is.
  pub Resolved-fresh :
      (settings.remote_port_start ≤ step.replacement)
      × (step.replacement < settings.remote_port_end + 1)
      × (mem step.replacement r.allocated ≡ false)
      × (mem step.replacement r'.allocated ≡ true)
      × Covers r'.allocated r.allocated
  Resolved-fresh =
      let first =
        (allocate_remote_port-ok_iff settings.remote_port_start settings.remote_port_end
            (step.current ∷ r.allocated) step.replacement).0
          step.allocation in
      (
        first.lower,
        first.upper,
        ground (arith, first.free),
        rw now_allocated (ground arith),
        (λ q h. rw now_allocated (ground arith)),
      )

  stored : select environment_id id s.database.environments ≡ some step.environment
  stored = sym (t.mirror id) ∙ step.found

  taken_after : Covers r'.allocated (allocated_ports s'.database.environments)
  taken_after q h =
      let before =
        ports_of_update id step.replacement step.current reassign assigns s.database.environments q
          (rw rows at h) in
      rw now_allocated (ground (arith, before, t.taken q))

  covered_after :
      (q : ℕ)
      → mem q r'.allocated ≡ true
      → (mem q (allocated_ports s'.database.environments) ≡ true) ⊎ (mem q r'.rejected_ports ≡ true)
  covered_after q h =
      let environments = s.database.environments in
      rw (rows, now_rejected)
        (ground (
          arith,
          rw now_allocated at h,
          t.covered q,
          port-update id step.replacement step.current reassign assigns environments
              step.environment stored,
          ports-update id step.replacement step.current reassign assigns environments
              step.environment q t.key stored step.had,
        ))

  pub Resolved-Tracks : Tracks s'.database r'
  Resolved-Tracks = record {
    key =
        rw rows
          (HasKey-update environment_id id reassign s.database.environments (λ e. refl) t.key);
    mirror = λ k. rw (
      copies,
      rows,
      select-update environment_id id k reassign r.environments (λ e. refl),
      select-update environment_id id k reassign s.database.environments (λ e. refl),
      t.mirror k,
    );
    taken = taken_after;
    covered = covered_after;
  }
