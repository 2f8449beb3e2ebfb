-- ===== src/Database/RoundTrip.antt =====
-- Operations are read back as they were written (crates/controller/src/database.rs).
use webtop_manager.Prelude.{
  ℕ, ◌≡◌, ◌≢◌, ◌<◌, refl, ap, Option, none, some, [], ◌∷◌, ◌++◌, arith, inl, inr, Option-cases,
}
use webtop_manager.Prelude.Results.{ok}
use webtop_manager.Database.Table.{select, select-append, select-append_old}
use webtop_manager.Database.Records.{Operation, OperationRequest}
use webtop_manager.Database.State.{Database}
use webtop_manager.Database.Operations.{
  row_id, store_progress, load_progress, store_operation, parse_operation, insert_operation_json,
  get_operation, get_operation_request,
}

-- A percentage is a `u8`.
abbrev pub IsByte : Option ℕ → Type 0
IsByte none = Unit
IsByte (some p) = p < 256

load_store_progress : (p : Option ℕ) → IsByte p → load_progress (store_progress p) ≡ p
unfolding load_progress store_progress
load_store_progress none h = refl
load_store_progress (some p) h = ap some (omega (arith, h))

load_store_error :
    (o : Operation) (request : Option OperationRequest)
    → (parse_operation (store_operation o request)).error ≡ o.error
unfolding parse_operation store_operation
load_store_error o request = ground arith

parse_store :
    (o : Operation) (request : Option OperationRequest)
    → IsByte o.progress_percent
    → parse_operation (store_operation o request) ≡ o
unfolding parse_operation store_operation
parse_store o request h =
    ground (arith, load_store_progress o.progress_percent h, load_store_error o request)

inserted :
    (o : Operation) (request : Option OperationRequest) (db db' : Database)
    → insert_operation_json o request db ≡ ok db'
    → (select row_id o.id db.operations ≡ none)
      × (db'.operations ≡ db.operations ++ store_operation o request ∷ [])
unfolding insert_operation_json
inserted o request db db' e = elim (Option-cases (select row_id o.id db.operations)) [
  | inr (old, found) ↦ absurd (ground (arith, found))
  | inl absent ↦ (absent, ground (arith, absent))
]

-- An operation that was inserted, with a percentage that fits a `u8`, is read back unchanged,
-- with its request, and every other operation is read as before.
pub insert_operation-get :
    (o : Operation) (request : Option OperationRequest) (db db' : Database)
    → insert_operation_json o request db ≡ ok db'
    → IsByte o.progress_percent
    → (get_operation o.id db' ≡ some o)
      × (get_operation_request o.id db' ≡ request)
      × ((j : ℕ) → j ≢ o.id → get_operation j db' ≡ get_operation j db)
unfolding get_operation get_operation_request
insert_operation-get o request db db' e h =
    let (absent, rows) = inserted o request db db' e in
    let row = store_operation o request in
    let same_id : row.id ≡ o.id = unfold store_operation in refl in
    let same_request : row.request ≡ request = unfold store_operation in refl in
    let found : select row_id o.id db'.operations ≡ some row =
      ground (arith, rows, same_id, select-append row_id o.id db.operations row absent) in
    (
      ground (arith, found, parse_store o request h),
      ground (arith, found, same_request),
      (λ j differs. elim (Option-cases (select row_id j db.operations)) [
        | inl missing ↦ ground (
          arith,
          missing,
          differs,
          same_id,
          rows,
          select-append row_id j db.operations row missing,
        )
        | inr (old, kept) ↦
            ground (arith, kept, rows, select-append_old row_id j db.operations row old kept)
      ]),
    )
