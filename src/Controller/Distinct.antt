-- ===== src/Controller/Distinct.antt =====
-- No two environments hold the same remote port: what the `UPDATE`s, the `INSERT` and the `DELETE` of
-- the `environments` table do to it.
use webtop_manager.Prelude.{
  Option-cases, ◌⊎◌, ℕ, ◌≡◌, ◌≢◌, true, Option, none, some, List, [], ◌∷◌, ◌++◌, arith, mem,
  Bool-cases, inl, inr, ◌==◌,
}
use webtop_manager.Database.Table.{
  select-append_old, select, update, delete, select-update, select-append, select-delete,
}
use webtop_manager.Database.Records.{EnvironmentRecord}
use webtop_manager.Database.Environments.{environment_id}
use webtop_manager.Controller.Proxies.{allocated_ports}
use webtop_manager.Controller.Allocation.{port_of}

-- Two rows with the same remote port are the same row.
pub Distinct : List EnvironmentRecord → Type 0
Distinct rs =
    (i j p : ℕ) (a b : EnvironmentRecord)
    → select environment_id i rs ≡ some a
    → select environment_id j rs ≡ some b
    → port_of a ≡ some p
    → port_of b ≡ some p
    → i ≡ j

pub Distinct-nil : Distinct []
unfolding Distinct select
Distinct-nil i j p a b ea eb ha hb = cc

pub taken_of_select :
    (i p : ℕ) (rs : List EnvironmentRecord) (a : EnvironmentRecord)
    → select environment_id i rs ≡ some a
    → port_of a ≡ some p
    → mem p (allocated_ports rs) ≡ true
unfolding select allocated_ports
taken_of_select i p [] a e h = cc
taken_of_select i p (r ∷ rs) a e h = ground (arith, taken_of_select i p rs a)

module _ (k : ℕ) (f : EnvironmentRecord → EnvironmentRecord) (rs : List EnvironmentRecord)
    (same : (r : EnvironmentRecord) → environment_id (f r) ≡ environment_id r) where
  -- A selected row of the updated table, before the update.
  before :
      (i : ℕ) (a : EnvironmentRecord)
      → select environment_id i (update environment_id k f rs) ≡ some a
      → (r : EnvironmentRecord) × (select environment_id i rs ≡ some r)
        × (((i ≡ k) × (a ≡ f r)) ⊎ ((i ≢ k) × (a ≡ r)))
  before i a e = elim (Option-cases (select environment_id i rs)) [
    | inl missing ↦ absurd (ground (arith, e, missing, select-update environment_id k i f rs same))
    | inr (r, found) ↦ elim (Bool-cases (k == i)) [
      | inl here ↦ (
        r,
        found,
        inl (
          ground (arith, here),
          ground (arith, e, found, here, select-update environment_id k i f rs same),
        ),
      )
      | inr other ↦ (
        r,
        found,
        inr (
          (λ h. ground (arith, other, h)),
          ground (arith, e, found, other, select-update environment_id k i f rs same),
        ),
      )
    ]
  ]

  pub Distinct-update_keeping :
      ((r : EnvironmentRecord) → port_of (f r) ≡ port_of r)
      → Distinct rs
      → Distinct (update environment_id k f rs)
  unfolding Distinct
  Distinct-update_keeping keeps d i j p a b ea eb ha hb =
      let (ra, sa, ca) = before i a ea in
      let (rb, sb, cb) = before j b eb in
      d i j p ra rb sa sb (ground (arith, keeps ra)) (ground (arith, keeps rb))

  -- One row gets the port `o`, which no other row has.
  pub Distinct-update_assigning :
      (o : Option ℕ)
      → ((r : EnvironmentRecord) → port_of (f r) ≡ o)
      → ((j p : ℕ) (b : EnvironmentRecord)
          → o ≡ some p
          → j ≢ k
          → select environment_id j rs ≡ some b
          → port_of b ≢ some p)
      → Distinct rs
      → Distinct (update environment_id k f rs)
  unfolding Distinct
  Distinct-update_assigning o assigns fresh d i j p a b ea eb ha hb =
      let (ra, sa, ca) = before i a ea in
      let (rb, sb, cb) = before j b eb in
      ground (arith, d i j p ra rb sa sb, assigns ra, assigns rb, fresh j p rb, fresh i p ra)

appended :
    (i : ℕ) (rs : List EnvironmentRecord) (r a : EnvironmentRecord)
    → select environment_id i (rs ++ r ∷ []) ≡ some a
    → (select environment_id i rs ≡ some a)
      ⊎ ((i ≡ r.id) × (a ≡ r) × (select environment_id i rs ≡ none))
appended i rs r a e = elim (Option-cases (select environment_id i rs)) [
  | inl missing ↦ inr (
    ground (arith, e, select-append environment_id i rs r missing),
    ground (arith, e, select-append environment_id i rs r missing),
    missing,
  )
  | inr (b, found) ↦ inl (ground (arith, e, found, select-append_old environment_id i rs r b found))
]

pub Distinct-append :
    (rs : List EnvironmentRecord) (r : EnvironmentRecord)
    → ((p j : ℕ) (b : EnvironmentRecord)
        → port_of r ≡ some p
        → select environment_id j rs ≡ some b
        → port_of b ≢ some p)
    → Distinct rs
    → Distinct (rs ++ r ∷ [])
unfolding Distinct
Distinct-append rs r fresh d i j p a b ea eb ha hb =
    ground
      (arith, appended i rs r a ea, appended j rs r b eb, d i j p a b, fresh p i a, fresh p j b)

pub Distinct-delete :
    (k : ℕ) (rs : List EnvironmentRecord) → Distinct rs → Distinct (delete environment_id k rs)
unfolding Distinct
Distinct-delete k rs d i j p a b ea eb ha hb =
    d i j p a b (ground (arith, ea, select-delete environment_id k i rs))
      (ground (arith, eb, select-delete environment_id k j rs)) ha hb
