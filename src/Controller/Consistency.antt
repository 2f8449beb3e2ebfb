-- ===== src/Controller/Consistency.antt =====
-- The invariant of the environments: no two rows share an id, and no two share a remote port. What
-- the writes of crates/controller/src/api.rs to the table need to keep it.
use webtop_manager.Prelude.{ℕ, ◌≡◌, ◌≢◌, refl, Bool, none, some, List, [], ◌∷◌, ◌++◌}
use webtop_manager.Contracts.Spec.{EnvironmentSpec}
use webtop_manager.Database.Table.{select, update}
use webtop_manager.Database.Keys.{
  HasKey, HasKey-update, HasKey-append, HasKey-delete, IsAbsent-of_select-none,
}
use webtop_manager.Database.Records.{EnvironmentRecord}
use webtop_manager.Database.Environments.{
  environment_id, set_environment_local_port, set_desired_running, update_environment_spec,
  delete_environment,
}
use webtop_manager.Controller.State.{AppState, with_database}
use webtop_manager.Controller.Allocation.{port_of}
use webtop_manager.Controller.Distinct.{
  Distinct, Distinct-update_keeping, Distinct-update_assigning, Distinct-append, Distinct-delete,
}
use webtop_manager.Controller.Upkeep.{Stable}

pub record IsConsistent (rs : List EnvironmentRecord) : Type 0 where
  pub key : HasKey environment_id rs
  pub distinct : Distinct rs

abbrev pub Consistent : {D : Type 0} → AppState D → Type 0
Consistent s = IsConsistent s.database.environments

keeping :
    (k : ℕ) (f : EnvironmentRecord → EnvironmentRecord) (rs : List EnvironmentRecord)
    → ((r : EnvironmentRecord) → environment_id (f r) ≡ environment_id r)
    → ((r : EnvironmentRecord) → port_of (f r) ≡ port_of r)
    → IsConsistent rs
    → IsConsistent (update environment_id k f rs)
keeping k f rs same keeps c = record {
  key = HasKey-update environment_id k f rs same c.key;
  distinct = Distinct-update_keeping k f rs same keeps c.distinct;
}

pub Consistent-Stable : {D : Type 0} → Stable {D = D} Consistent
unfolding set_environment_local_port
Consistent-Stable = record {
  daemon = λ d s c. c;
  local_port = λ k port s c.
      keeping k (λ r. record r { local_port = port }) s.database.environments (λ r. refl)
        (λ r. refl) c;
}

module _ {D : Type 0} (s : AppState D) (c : Consistent s) where
  pub set_desired_running-Consistent :
      (k : ℕ) (running : Bool) → Consistent (with_database (set_desired_running k running) s)
  unfolding set_desired_running
  set_desired_running-Consistent k running =
      keeping k (λ r. record r { desired_running = running }) s.database.environments (λ r. refl)
        (λ r. refl) c

  -- A row may get a port that no other row has.
  pub update_environment_spec-Consistent :
      (k : ℕ) (spec : EnvironmentSpec)
      → ((j p : ℕ) (b : EnvironmentRecord)
          → spec.publication.remote_port ≡ some p
          → j ≢ k
          → select environment_id j s.database.environments ≡ some b
          → port_of b ≢ some p)
      → Consistent (with_database (update_environment_spec k spec) s)
  unfolding update_environment_spec
  update_environment_spec-Consistent k spec fresh = record {
    key =
        HasKey-update environment_id k (λ r. record r { spec = spec }) s.database.environments
          (λ r. refl) c.key;
    distinct =
        Distinct-update_assigning k (λ r. record r { spec = spec }) s.database.environments
          (λ r. refl) spec.publication.remote_port (λ r. refl) fresh c.distinct;
  }

  pub delete_environment-Consistent : (k : ℕ) → Consistent (with_database (delete_environment k) s)
  unfolding delete_environment
  delete_environment-Consistent k = record {
    key = HasKey-delete environment_id k s.database.environments c.key;
    distinct = Distinct-delete k s.database.environments c.distinct;
  }

-- A new row, with an id and a port that no row has.
pub append-IsConsistent :
    (rs : List EnvironmentRecord) (r : EnvironmentRecord)
    → select environment_id r.id rs ≡ none
    → ((p j : ℕ) (b : EnvironmentRecord)
        → port_of r ≡ some p
        → select environment_id j rs ≡ some b
        → port_of b ≢ some p)
    → IsConsistent rs
    → IsConsistent (rs ++ r ∷ [])
append-IsConsistent rs r absent fresh c = record {
  key =
      HasKey-append environment_id rs r c.key
        (IsAbsent-of_select-none environment_id r.id rs absent);
  distinct = Distinct-append rs r fresh c.distinct;
}
