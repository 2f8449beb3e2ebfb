-- ===== src/Database/Log.antt =====
-- The log of an operation keeps its last 200 lines (`append_operation_log` of
-- crates/controller/src/database.rs).
use mathlib.Core.Option
use mathlib.Core.List.{tail, append_assoc, append-nil}
use webtop_manager.Prelude.{
  ℕ, zero, suc, ◌+◌, ◌-◌, ◌≤◌, ◌<◌, ◌≡◌, refl, ◌∙◌, sym, ap, Option, none, some, List, [], ◌∷◌,
  ◌++◌, String, arith, leb, length, length-append, if◌then◌else◌, ◌==◌, Bool-cases, inl, inr,
}
use webtop_manager.Database.Table.{select, select-update}
use webtop_manager.Database.State.{Database}
use webtop_manager.Database.Operations.{row_id, push_log, append_operation_log}

module _ {A : Type 0} where
  abbrev pub drop : ℕ → List A → List A
  drop zero xs = xs
  drop (suc n) [] = []
  drop (suc n) (x ∷ xs) = drop n xs

  -- The last `n` elements.
  abbrev pub last_n : ℕ → List A → List A
  last_n n xs = drop (length xs - n) xs

  length-drop : (n : ℕ) (xs : List A) → length (drop n xs) ≡ length xs - n
  length-drop zero xs = omega arith
  length-drop (suc n) [] = omega arith
  length-drop (suc n) (x ∷ xs) = omega (arith, length-drop n xs)

  drop-append : (n : ℕ) (xs ys : List A) → n ≤ length xs → drop n (xs ++ ys) ≡ drop n xs ++ ys
  drop-append zero xs ys h = refl
  drop-append (suc n) [] ys h = absurd (omega arith)
  drop-append (suc n) (x ∷ xs) ys h = drop-append n xs ys (omega arith)

  drop-nil : (n : ℕ) → drop n [] ≡ []
  drop-nil zero = refl
  drop-nil (suc n) = refl

  drop_cong : {m n : ℕ} (xs : List A) → m ≡ n → drop m xs ≡ drop n xs
  drop_cong xs e = ap (λ m. drop m xs) e

  drop-drop : (n k : ℕ) (xs : List A) → drop n (drop k xs) ≡ drop (k + n) xs
  drop-drop n zero xs = drop_cong xs (omega arith)
  drop-drop n (suc k) [] = drop-nil n ∙ sym (drop-nil (suc k + n))
  drop-drop n (suc k) (x ∷ xs) =
      let e : suc (k + n) ≡ suc k + n = omega arith in drop-drop n k xs ∙ drop_cong (x ∷ xs) e

  -- Cutting before more is appended makes no difference.
  last_n-append : (n : ℕ) (xs ys : List A) → last_n n (last_n n xs ++ ys) ≡ last_n n (xs ++ ys)
  last_n-append n xs ys =
      let k = length xs - n in
      let zs = xs ++ ys in
      ap (last_n n) (sym (drop-append k xs ys (omega arith)))
      ∙ drop-drop (length (drop k zs) - n) k zs
      ∙ drop_cong zs (omega (arith, length-drop k zs, length-append {0} xs ys))

tail-append :
    (log : List String) (line : String)
    → 0 < length log
    → tail log ++ line ∷ [] ≡ drop 1 (log ++ line ∷ [])
tail-append [] line h = absurd (omega arith)
tail-append (l ∷ log) line h = refl

push_log_lem :
    (line : String) (log : List String)
    → length log ≤ 200
    → push_log line log ≡ last_n 200 (log ++ line ∷ [])
unfolding push_log
push_log_lem line log h =
    let longer = length-append {0} log (line ∷ []) in
    elim (Bool-cases (leb 200 (length log))) [
      | inl full ↦
          let n : length log ≡ 200 = ground arith in
          let one : 1 ≡ length (log ++ line ∷ []) - 200 = omega (arith, longer, n) in
          rw full (tail-append log line (omega (arith, n)) ∙ drop_cong (log ++ line ∷ []) one)
      | inr room ↦
          let n : length log < 200 = ground arith in
          let none_over : 0 ≡ length (log ++ line ∷ []) - 200 = omega (arith, longer, n) in
          rw room (drop_cong (log ++ line ∷ []) none_over)
    ]

length-last_n : (log : List String) → length (last_n 200 log) ≤ 200
length-last_n log = omega (arith, length-drop (length log - 200) log)

-- A job appends lines one after the other, each with its own time.
abbrev pub append_lines : ℕ → List (ℕ × String) → Database → Database
append_lines id [] db = db
append_lines id ((now, line) ∷ lines) db =
    append_lines id lines (append_operation_log now id line db)

abbrev pub texts : List (ℕ × String) → List String
texts [] = []
texts ((now, line) ∷ lines) = line ∷ texts lines

-- The log that the operation `id` has, if the operation exists.
unfoldable pub log_of : ℕ → Database → Option (List String)
log_of id db = elim (select row_id id db.operations) [ none ↦ none | some r ↦ some r.log_lines ]

log_of-append :
    (now id j : ℕ) (line : String) (db : Database)
    → log_of j (append_operation_log now id line db)
      ≡ (if id == j then Option.map (push_log line) (log_of j db) else log_of j db)
unfolding append_operation_log log_of
log_of-append now id j line db = ground (
  arith,
  select-update row_id id j
      (λ r. record r { log_lines = push_log line r.log_lines; updated_at = now }) db.operations
      (λ r. refl),
)

-- After any lines have been appended to a log of at most 200 lines, the log of the operation is
-- the last 200 of its old lines followed by the new ones.
pub append_lines-last_n :
    (id : ℕ) (lines : List (ℕ × String)) (db : Database) (log : List String)
    → log_of id db ≡ some log
    → length log ≤ 200
    → log_of id (append_lines id lines db) ≡ some (last_n 200 (log ++ texts lines))
append_lines-last_n id [] db log found h =
    let whole : 0 ≡ length log - 200 = omega (arith, h) in
    found ∙ ap some (drop_cong log whole ∙ ap (last_n 200) (sym (append-nil log)))
append_lines-last_n id ((now, line) ∷ lines) db log found h =
    let one_more = last_n 200 (log ++ line ∷ []) in
    let here : log_of id (append_operation_log now id line db) ≡ some one_more =
      ground (arith, log_of-append now id id line db, found, push_log_lem line log h) in
    append_lines-last_n id lines (append_operation_log now id line db) one_more here
      (length-last_n (log ++ line ∷ []))
    ∙ ap some (
        last_n-append 200 (log ++ line ∷ []) (texts lines)
        ∙ ap (last_n 200) (append_assoc log (line ∷ []) (texts lines)))

-- Appending to one operation's log leaves the log of every other operation.
append_lines-other :
    (id j : ℕ) (lines : List (ℕ × String)) (db : Database)
    → (id ≡ j → ⊥)
    → log_of j (append_lines id lines db) ≡ log_of j db
append_lines-other id j [] db differs = refl
append_lines-other id j ((now, line) ∷ lines) db differs =
    append_lines-other id j lines (append_operation_log now id line db) differs
    ∙ ground (arith, log_of-append now id j line db)
