-- ===== src/Controller/Rounds.antt =====
-- What one round of the retry loop of `start_frpc_with_port_retry` (crates/controller/src/api.rs)
-- does to the number of free ports.
use webtop_manager.Prelude.{ℕ, ◌≡◌, ◌<◌, ◌+◌, ◌-◌, List, [], ◌∷◌, ◌++◌, arith}
use webtop_manager.Prelude.Results.{ok}
use webtop_manager.Prelude.Steps.{>>=-eq-ok}
use webtop_manager.Contracts.Settings.{ServerSettings}
use webtop_manager.Database.Keys.{HasKey}
use webtop_manager.Database.State.{Database}
use webtop_manager.Database.Environments.{environment_id, list_environments}
use webtop_manager.Controller.State.{AppState}
use webtop_manager.Controller.Proxies.{allocated_ports}
use webtop_manager.Controller.Frpc.{Retry, resolve_conflict, resolve_conflicts}
use webtop_manager.Controller.Allocation.{
  Covers, mem-append, mem-order_by_time, select-order_by_time,
}
use webtop_manager.Controller.FreePorts.{free_count, free_count-lt}
use webtop_manager.Controller.Retry.{
  Tracks, resolve_conflict-Resolved, Resolved-Tracks, Resolved-fresh,
}

-- How many ports of the configured range are free.
abbrev pub free : ServerSettings → List ℕ → ℕ
free settings allocated =
    free_count (settings.remote_port_end + 1 - settings.remote_port_start)
      settings.remote_port_start allocated

-- The ports that a round may not hand out: those of the store and those rejected so far.
abbrev pub used : {D : Type 0} → AppState D → List ℕ → List ℕ
used s rejected = allocated_ports s.database.environments ++ rejected

module _ {D : Type 0} (settings : ServerSettings) where
  resolve_conflicts-Tracks :
      (ids : List ℕ) (r r' : Retry) (s s' : AppState D)
      → resolve_conflicts settings ids r s ≡ (ok r', s')
      → Tracks s.database r
      → Tracks s'.database r' × Covers r'.allocated r.allocated
  unfolding resolve_conflicts
  resolve_conflicts-Tracks [] r r' s s' e t =
      let same : r ≡ r' = ground arith in
      let state : s ≡ s' = ground arith in rw⁻¹ (same, state) (t, (λ q h. h))
  resolve_conflicts-Tracks (id ∷ ids) r r' s s' e t =
      let (r1, s1, first, rest) =
        >>=-eq-ok (resolve_conflict settings id r) (resolve_conflicts settings ids) s s' r' e in
      let step = resolve_conflict-Resolved settings id r r1 s s1 first in
      let (kept, covers) = resolve_conflicts-Tracks ids r1 r' s1 s' rest (Resolved-Tracks step t) in
      let (low, high, fresh, now, more) = Resolved-fresh step t in
      (kept, (λ q h. covers q (more q h)))

  -- Each replacement takes a free port of the range.
  pub resolve_conflicts-free :
      (id : ℕ) (ids : List ℕ) (r r' : Retry) (s s' : AppState D)
      → resolve_conflicts settings (id ∷ ids) r s ≡ (ok r', s')
      → Tracks s.database r
      → Tracks s'.database r' × (free settings r'.allocated < free settings r.allocated)
  unfolding resolve_conflicts
  resolve_conflicts-free id ids r r' s s' e t =
      let (r1, s1, first, rest) =
        >>=-eq-ok (resolve_conflict settings id r) (resolve_conflicts settings ids) s s' r' e in
      let step = resolve_conflict-Resolved settings id r r1 s s1 first in
      let (kept, covers) = resolve_conflicts-Tracks ids r1 r' s1 s' rest (Resolved-Tracks step t) in
      let (low, high, fresh, now, more) = Resolved-fresh step t in
      (
        kept,
        free_count-lt (settings.remote_port_end + 1 - settings.remote_port_start)
            settings.remote_port_start r.allocated r'.allocated step.replacement
            (λ q h. covers q (more q h)) low (omega (arith, low, high)) fresh
            (covers step.replacement now),
      )

-- The loop over the conflicts starts from what the store holds.
pub Tracks-start :
    (db : Database) (rejected : List ℕ)
    → HasKey environment_id db.environments
    → Tracks db (record {
      environments = list_environments db;
      rejected_ports = rejected;
      allocated = allocated_ports (list_environments db) ++ rejected;
    })
unfolding list_environments
Tracks-start db rejected key = record {
  key = key;
  mirror = λ k. select-order_by_time k db.environments key;
  taken = λ q h. rw (mem-append q, mem-order_by_time q db.environments) (ground (arith, h));
  covered = λ q h. ground (
    arith,
    h,
    mem-append q (allocated_ports (list_environments db)) rejected,
    mem-order_by_time q db.environments,
  );
}

pub used_before :
    (db : Database) (rejected : List ℕ)
    → Covers
        (allocated_ports (list_environments db) ++ rejected)
        (allocated_ports db.environments ++ rejected)
unfolding list_environments
used_before db rejected q h = ground (
  arith,
  h,
  mem-append q (allocated_ports (list_environments db)) rejected,
  mem-append q (allocated_ports db.environments) rejected,
  mem-order_by_time q db.environments,
)

pub used_after :
    (db : Database) (r : Retry)
    → Tracks db r
    → Covers (allocated_ports db.environments ++ r.rejected_ports) r.allocated
used_after db r t q h =
    ground (arith, t.covered q h, mem-append q (allocated_ports db.environments) r.rejected_ports)
