-- ===== src/Database/Table.antt =====
-- The SQL that crates/controller/src/database.rs runs on a table with an `id` primary key:
-- `SELECT … WHERE id = ?`, `UPDATE … WHERE id = ?`, `DELETE … WHERE id = ?`, on rows in the order of
-- their insertion.
use mathlib.Core.Option
use webtop_manager.Prelude.{
  ℕ, ◌≡◌, refl, ◌≢◌, Option, none, some, List, [], ◌∷◌, ◌++◌, arith, ◌==◌, if◌then◌else◌,
  Bool-cases, inl, inr, All,
}

module _ {A : Type 0} (id : A → ℕ) where
  -- `fetch_optional`: the first row with the id.
  unfoldable pub select : ℕ → List A → Option A
  select k [] = none
  select k (r ∷ rs) = if id r == k then some r else select k rs

  unfoldable pub update : ℕ → (A → A) → List A → List A
  update k f [] = []
  update k f (r ∷ rs) = (if id r == k then f r else r) ∷ update k f rs

  unfoldable pub delete : ℕ → List A → List A
  delete k [] = []
  delete k (r ∷ rs) = let rest = delete k rs in if id r == k then rest else r ∷ rest

  -- An update that keeps the id changes what is selected by that id alone.
  pub select-update :
      (k j : ℕ) (f : A → A) (rs : List A)
      → ((r : A) → id (f r) ≡ id r)
      → select j (update k f rs) ≡ (if k == j then Option.map f (select j rs) else select j rs)
  unfolding select update
  select-update k j f [] same = ground arith
  select-update k j f (r ∷ rs) same = ground (arith, same r, select-update k j f rs same)

  pub select-delete :
      (k j : ℕ) (rs : List A) → select j (delete k rs) ≡ (if k == j then none else select j rs)
  unfolding select delete
  select-delete k j [] = ground arith
  select-delete k j (r ∷ rs) = ground (arith, select-delete k j rs)

  -- A new row is found behind the others.
  pub select-append :
      (k : ℕ) (rs : List A) (r : A)
      → select k rs ≡ none
      → select k (rs ++ r ∷ []) ≡ (if id r == k then some r else none)
  unfolding select
  select-append k [] r h = refl
  select-append k (s ∷ rs) r h = ground (arith, select-append k rs r)

  pub select-append_old :
      (k : ℕ) (rs : List A) (r s : A) → select k rs ≡ some s → select k (rs ++ r ∷ []) ≡ some s
  unfolding select
  select-append_old k [] r s h = cc
  select-append_old k (t ∷ rs) r s h = ground (arith, select-append_old k rs r s)

  pub id_of_select : (k : ℕ) (rs : List A) (r : A) → select k rs ≡ some r → id r ≡ k
  unfolding select
  id_of_select k [] r h = cc
  id_of_select k (s ∷ rs) r h = ground (arith, id_of_select k rs r)

  -- What holds of every row holds of the one that is selected.
  pub All-select :
      (P : A → Type 0) (k : ℕ) (rs : List A) (r : A) → All P rs → select k rs ≡ some r → P r
  unfolding select
  All-select P k [] r h e = cc
  All-select P k (s ∷ rs) r h e = elim (Bool-cases (id s == k)) [
    | inl found ↦ let same : s ≡ r = ground arith in rw same at (h.0)
    | inr other ↦ All-select P k rs r h.1 (ground arith)
  ]

  pub All-update :
      (P Q : A → Type 0) (k : ℕ) (f : A → A) (rs : List A)
      → ((r : A) → P r → id r ≡ k → Q (f r))
      → ((r : A) → P r → id r ≢ k → Q r)
      → All P rs
      → All Q (update k f rs)
  unfolding update
  All-update P Q k f [] hit miss h = tt
  All-update P Q k f (r ∷ rs) hit miss h = elim (Bool-cases (id r == k)) [
    | inl found ↦ rw found (hit r h.0 (ground arith), All-update P Q k f rs hit miss h.1)
    | inr other ↦ rw other (miss r h.0 (ground arith), All-update P Q k f rs hit miss h.1)
  ]

  pub All-delete : (P : A → Type 0) (k : ℕ) (rs : List A) → All P rs → All P (delete k rs)
  unfolding delete
  All-delete P k [] h = tt
  All-delete P k (r ∷ rs) h = elim (Bool-cases (id r == k)) [
    | inl found ↦ rw found (All-delete P k rs h.1)
    | inr other ↦ rw other (h.0, All-delete P k rs h.1)
  ]
