-- ===== src/Database/Recovery.antt =====
-- `recover_unfinished_operations` of crates/controller/src/database.rs, which main runs at start.
use mathlib.Core.List.{append_assoc}
use webtop_manager.Prelude.{
  ◌⊎◌, ℕ, ◌≡◌, refl, ◌≢◌, ◌∙◌, sym, ap, Bool, true, false, ◌&&◌, Option, none, List, [], ◌∷◌, ◌++◌,
  map, arith, if◌then◌else◌, is_some, All, All-append, Bool-cases, inl, inr,
}
use webtop_manager.Database.Table.{select, update}
use webtop_manager.Database.Keys.{IsAbsent, HasKey, select-middle, update-middle}
use webtop_manager.Database.Records.{OperationRow, Operation, queued, retryable, OperationPhase}
use webtop_manager.Database.State.{Database}
use webtop_manager.Database.Operations.{
  row_id, is_finished, is_pull, unfinished, is_resumable, recover_each, set_row, load_progress,
  parse_operation, update_operation, get_operation_request, recover_unfinished_operations,
  list_unfinished_operations,
}

-- What recovery makes of one row, with no reference to the rest of the table.
abbrev pub recover_row : ℕ → OperationRow → OperationRow
recover_row now r =
    if is_finished r.phase
    then r
    else set_row now (if is_pull r.kind && is_some r.request then queued else retryable)
        (load_progress r.progress_percent) none none r

abbrev pub with_operations : Database → List OperationRow → Database
with_operations db rows = record db { operations = rows }

-- The row that the loop has reached is the only one with its id.
step_update :
    (now : ℕ) (phase : OperationPhase) (p : Option ℕ) (db : Database) (before : List OperationRow)
    (r : OperationRow) (after : List OperationRow)
    → IsAbsent row_id r.id before
    → IsAbsent row_id r.id after
    → update_operation now r.id phase p none none (with_operations db (before ++ r ∷ after))
      ≡ with_operations db ((before ++ set_row now phase p none none r ∷ []) ++ after)
unfolding update_operation update
step_update now phase p db before r after hb ha =
    ap (with_operations db)
      (update-middle row_id r.id (set_row now phase p none none) before r after refl hb ha)

step_request :
    (db : Database) (before : List OperationRow) (r : OperationRow) (after : List OperationRow)
    → IsAbsent row_id r.id before
    → get_operation_request r.id (with_operations db (before ++ r ∷ after)) ≡ r.request
unfolding get_operation_request select
step_request db before r after h =
    rw (select-middle row_id r.id before r after refl h, get_operation_request)

-- The pull that is resumed, if the row is one.
abbrev pub resumed_row : OperationRow → List Operation
resumed_row r =
    if is_finished r.phase
    then []
    else if is_pull r.kind && is_some r.request
    then parse_operation r ∷ []
    else []

abbrev pub resumed_rows : List OperationRow → List Operation
resumed_rows [] = []
resumed_rows (r ∷ rs) = resumed_row r ++ resumed_rows rs

is_resumable_row :
    (db : Database) (before : List OperationRow) (r : OperationRow) (after : List OperationRow)
    → IsAbsent row_id r.id before
    → is_resumable (parse_operation r) (with_operations db (before ++ r ∷ after))
      ≡ (is_pull r.kind && is_some r.request)
unfolding is_resumable parse_operation
is_resumable_row db before r after h = rw (step_request db before r after h)

IsAbsent-after :
    (before : List OperationRow) (r r' : OperationRow) (rest : List OperationRow)
    → r'.id ≡ r.id
    → IsAbsent row_id r.id rest
    → All (λ s. IsAbsent row_id s.id before) rest
    → All (λ s. IsAbsent row_id s.id (before ++ r' ∷ [])) rest
IsAbsent-after before r r' [] e h a = tt
IsAbsent-after before r r' (s ∷ rest) e h a = (
  All-append (λ t. t.id ≢ s.id) before (r' ∷ []) a.0 ((λ p. h.0 (sym p ∙ e)), tt),
  IsAbsent-after before r r' rest e h.1 a.1,
)

push_if :
    (b : Bool) (o : Operation) (os : List Operation)
    → (if b then o ∷ os else os) ≡ (if b then o ∷ [] else []) ++ os
push_if true o os = refl
push_if false o os = refl

regroup :
    (before : List OperationRow) (r : OperationRow) (after : List OperationRow)
    → (before ++ r ∷ []) ++ after ≡ before ++ r ∷ after
regroup before r after = append_assoc before (r ∷ []) after

recover_each-map :
    (now : ℕ) (db : Database) (before rest : List OperationRow)
    → HasKey row_id rest
    → All (λ s. IsAbsent row_id s.id before) rest
    → recover_each now (unfinished rest) (with_operations db (before ++ rest))
      ≡ (with_operations db (before ++ map (recover_row now) rest), resumed_rows rest)
unfolding recover_each unfinished parse_operation
recover_each-map now db before [] key apart = refl
recover_each-map now db before (r ∷ rest) key apart = elim (Bool-cases (is_finished r.phase)) [
  | inl done ↦
      let ih =
        recover_each-map now db (before ++ r ∷ []) rest key.1
          (IsAbsent-after before r r rest refl key.0 apart.1) in
      rw done (cc (ih, regroup before r rest, regroup before r (map (recover_row now) rest)))
  | inr unfinished_row ↦
      let phase = if is_pull r.kind && is_some r.request then queued else retryable in
      let r' = set_row now phase (load_progress r.progress_percent) none none r in
      let ih =
        recover_each-map now db (before ++ r' ∷ []) rest key.1
          (IsAbsent-after before r r' rest refl key.0 apart.1) in
      let step =
        step_update now phase (load_progress r.progress_percent) db before r rest apart.0 key.0 in
      rw
        (
          unfinished_row,
          is_resumable_row db before r rest apart.0,
          step,
          ih,
          regroup before r' (map (recover_row now) rest),
        )
        (rw (push_if (is_pull r.kind && is_some r.request) (parse_operation r) (resumed_rows rest)))
]

nothing-before : (rows : List OperationRow) → All (λ s. IsAbsent row_id s.id []) rows
nothing-before [] = tt
nothing-before (r ∷ rows) = (tt, nothing-before rows)

-- What recovery does: it maps each row by itself. A finished operation stays as it is; an
-- unfinished image pull whose request is stored is queued again and returned for resumption; any
-- other unfinished operation becomes retryable. This needs the primary key of the table.
pub recover_unfinished_operations-map :
    (now : ℕ) (db : Database)
    → HasKey row_id db.operations
    → recover_unfinished_operations now db
      ≡ (with_operations db (map (recover_row now) db.operations), resumed_rows db.operations)
unfolding recover_unfinished_operations list_unfinished_operations
recover_unfinished_operations-map now db key =
    recover_each-map now db [] db.operations key (nothing-before db.operations)

-- An operation that the controller need not look at again, or a pull that waits for resumption.
abbrev pub IsSettled : OperationRow → Type 0
IsSettled r =
    (is_finished r.phase ≡ true)
    ⊎ ((r.phase ≡ queued) × (is_pull r.kind ≡ true) × (is_some r.request ≡ true))

recover_row-IsSettled : (now : ℕ) (r : OperationRow) → IsSettled (recover_row now r)
recover_row-IsSettled now r = ground arith

recover_rows-IsSettled :
    (now : ℕ) (rows : List OperationRow) → All IsSettled (map (recover_row now) rows)
recover_rows-IsSettled now [] = tt
recover_rows-IsSettled now (r ∷ rows) =
    (recover_row-IsSettled now r, recover_rows-IsSettled now rows)

-- After recovery each operation is finished or retryable, or is a queued image pull that has its
-- request. This needs the primary key of the table.
pub recover_unfinished_operations-IsSettled :
    (now : ℕ) (db : Database)
    → HasKey row_id db.operations
    → All IsSettled (recover_unfinished_operations now db).0.operations
recover_unfinished_operations-IsSettled now db key =
    rw (recover_unfinished_operations-map now db key) (recover_rows-IsSettled now db.operations)
