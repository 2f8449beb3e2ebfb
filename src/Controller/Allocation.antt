-- ===== src/Controller/Allocation.antt =====
-- The ports that environments hold, in whatever order they are listed, and after one of them gets
-- another port (`allocated_ports` stands for the sets that crates/controller/src/api.rs collects).
use webtop_manager.Prelude.{
  ℕ, ◌≡◌, ◌≢◌, refl, ◌⊎◌, inl, inr, true, ◌||◌, Option, some, List, [], ◌∷◌, ◌++◌, arith, mem, All,
  Bool-cases, leb, ◌==◌,
}
use webtop_manager.Database.Table.{select, update}
use webtop_manager.Database.Keys.{IsAbsent, HasKey, update_absent}
use webtop_manager.Database.Records.{EnvironmentRecord}
use webtop_manager.Database.Environments.{environment_id, insert_by_time, order_by_time}
use webtop_manager.Controller.Proxies.{allocated_ports}

-- Every number in `a` is in `b`.
abbrev pub Covers : List ℕ → List ℕ → Type 0
Covers b a = (q : ℕ) → mem q a ≡ true → mem q b ≡ true

pub mem-append : (q : ℕ) (xs ys : List ℕ) → mem q (xs ++ ys) ≡ (mem q xs || mem q ys)
mem-append q [] ys = refl
mem-append q (x ∷ xs) ys = ground (arith, mem-append q xs ys)

abbrev pub port_of : EnvironmentRecord → Option ℕ
port_of r = r.spec.publication.remote_port

mem-insert :
    (q : ℕ) (r : EnvironmentRecord) (rs : List EnvironmentRecord)
    → mem q (allocated_ports (insert_by_time r rs)) ≡ mem q (allocated_ports (r ∷ rs))
unfolding insert_by_time allocated_ports
mem-insert q r [] = refl
mem-insert q r (s ∷ rs) = ground (arith, mem-insert q r rs)

-- The order of the rows does not matter.
pub mem-order_by_time :
    (q : ℕ) (rs : List EnvironmentRecord)
    → mem q (allocated_ports (order_by_time rs)) ≡ mem q (allocated_ports rs)
unfolding order_by_time allocated_ports
mem-order_by_time q [] = refl
mem-order_by_time q (r ∷ rs) =
    ground (arith, mem-insert q r (order_by_time rs), mem-order_by_time q rs)

All-insert :
    (P : EnvironmentRecord → Type 0) (r : EnvironmentRecord) (rs : List EnvironmentRecord)
    → P r
    → All P rs
    → All P (insert_by_time r rs)
unfolding insert_by_time
All-insert P r [] p h = (p, tt)
All-insert P r (s ∷ rs) p h = elim (Bool-cases (leb r.created_at s.created_at)) [
  | inl earlier ↦ rw earlier (p, (h.0, h.1))
  | inr later ↦ rw later (h.0, All-insert P r rs p h.1)
]

pub All-order_by_time :
    (P : EnvironmentRecord → Type 0) (rs : List EnvironmentRecord)
    → All P rs
    → All P (order_by_time rs)
unfolding order_by_time
All-order_by_time P [] h = tt
All-order_by_time P (r ∷ rs) h = All-insert P r (order_by_time rs) h.0 (All-order_by_time P rs h.1)

select-insert :
    (k : ℕ) (r : EnvironmentRecord) (rs : List EnvironmentRecord)
    → IsAbsent environment_id r.id rs
    → select environment_id k (insert_by_time r rs) ≡ select environment_id k (r ∷ rs)
unfolding insert_by_time select
select-insert k r [] h = refl
select-insert k r (s ∷ rs) h = ground (arith, h.0, select-insert k r rs h.1)

pub select-order_by_time :
    (k : ℕ) (rs : List EnvironmentRecord)
    → HasKey environment_id rs
    → select environment_id k (order_by_time rs) ≡ select environment_id k rs
unfolding order_by_time select
select-order_by_time k [] h = refl
select-order_by_time k (r ∷ rs) h = ground (
  arith,
  select-insert k r (order_by_time rs) (All-order_by_time (λ s. s.id ≢ r.id) rs h.0),
  select-order_by_time k rs h.1,
)

module _ (k port current : ℕ) (f : EnvironmentRecord → EnvironmentRecord)
    (assigns : (r : EnvironmentRecord) → port_of (f r) ≡ some port) where
  -- What was taken stays taken, but for the port that the row gave up.
  pub ports-update :
      (rs : List EnvironmentRecord) (e : EnvironmentRecord) (q : ℕ)
      → HasKey environment_id rs
      → select environment_id k rs ≡ some e
      → port_of e ≡ some current
      → mem q (allocated_ports rs) ≡ true
      → (mem q (allocated_ports (update environment_id k f rs)) ≡ true) ⊎ (q ≡ current)
  unfolding update select allocated_ports
  ports-update [] e q key found had taken = cc
  ports-update (r ∷ rs) e q key found had taken = elim (Bool-cases (r.id == k)) [
    | inl here ↦
        let same : r.id ≡ k = ground arith in
        ground (arith, update_absent environment_id k f rs (rw same at (key.0)), assigns r)
    | inr below ↦ ground (arith, ports-update rs e q key.1)
  ]

  -- What is taken afterwards was taken before, or is the new port.
  pub ports_of_update :
      (rs : List EnvironmentRecord) (q : ℕ)
      → mem q (allocated_ports (update environment_id k f rs)) ≡ true
      → (mem q (allocated_ports rs) ≡ true) ⊎ (q ≡ port)
  unfolding update allocated_ports
  ports_of_update [] q taken = cc
  ports_of_update (r ∷ rs) q taken = ground (arith, assigns r, ports_of_update rs q)

  pub port-update :
      (rs : List EnvironmentRecord) (e : EnvironmentRecord)
      → select environment_id k rs ≡ some e
      → mem port (allocated_ports (update environment_id k f rs)) ≡ true
  unfolding update select allocated_ports
  port-update [] e found = cc
  port-update (r ∷ rs) e found = ground (arith, assigns r, port-update rs e)
