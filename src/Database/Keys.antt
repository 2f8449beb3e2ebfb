-- ===== src/Database/Keys.antt =====
-- Primary keys of the tables of crates/controller/src/database.rs: no two rows share an id.
use webtop_manager.Prelude.{
  ℕ, ◌≡◌, refl, ◌≢◌, sym, none, some, List, [], ◌∷◌, ◌++◌, arith, ◌==◌, if◌then◌else◌, Bool-cases,
  inl, inr, All, All-append,
}
use webtop_manager.Database.Table.{select, update, delete}

module _ {A : Type 0} (id : A → ℕ) where
  abbrev pub IsAbsent : ℕ → List A → Type 0
  IsAbsent k rs = All (λ r. id r ≢ k) rs

  abbrev pub HasKey : List A → Type 0
  HasKey [] = Unit
  HasKey (r ∷ rs) = IsAbsent (id r) rs × HasKey rs

  pub update-append :
      (k : ℕ) (f : A → A) (xs ys : List A)
      → update id k f (xs ++ ys) ≡ update id k f xs ++ update id k f ys
  unfolding update
  update-append k f [] ys = refl
  update-append k f (x ∷ xs) ys = rw (update-append k f xs ys)

  pub update_absent : (k : ℕ) (f : A → A) (rs : List A) → IsAbsent k rs → update id k f rs ≡ rs
  unfolding update
  update_absent k f [] h = refl
  update_absent k f (r ∷ rs) h = ground (arith, h.0, update_absent k f rs h.1)

  pub select-append_absent :
      (k : ℕ) (xs ys : List A) → IsAbsent k xs → select id k (xs ++ ys) ≡ select id k ys
  unfolding select
  select-append_absent k [] ys h = refl
  select-append_absent k (x ∷ xs) ys h = ground (arith, h.0, select-append_absent k xs ys h.1)

  pub IsAbsent-of_select-none : (k : ℕ) (rs : List A) → select id k rs ≡ none → IsAbsent k rs
  unfolding select
  IsAbsent-of_select-none k [] h = tt
  IsAbsent-of_select-none k (r ∷ rs) h =
      ((λ e. ground arith), IsAbsent-of_select-none k rs (ground arith))

  -- The row between `before` and `after` is the only one with its id.
  pub update-middle :
      (k : ℕ) (f : A → A) (before : List A) (r : A) (after : List A)
      → id r ≡ k
      → IsAbsent k before
      → IsAbsent k after
      → update id k f (before ++ r ∷ after) ≡ (before ++ f r ∷ []) ++ after
  unfolding update
  update-middle k f [] r after e hb ha = ground (arith, e, update_absent k f after ha)
  update-middle k f (b ∷ before) r after e hb ha =
      ground (arith, hb.0, update-middle k f before r after e hb.1 ha)

  pub select-middle :
      (k : ℕ) (before : List A) (r : A) (after : List A)
      → id r ≡ k
      → IsAbsent k before
      → select id k (before ++ r ∷ after) ≡ some r
  unfolding select
  select-middle k before r after e hb =
      rw (select-append_absent k before (r ∷ after) hb) (ground arith)

  IsAbsent-update :
      (j k : ℕ) (f : A → A) (rs : List A)
      → ((r : A) → id (f r) ≡ id r)
      → IsAbsent j rs
      → IsAbsent j (update id k f rs)
  unfolding update
  IsAbsent-update j k f [] same h = tt
  IsAbsent-update j k f (r ∷ rs) same h =
      ((λ e. ground (arith, same r, h.0)), IsAbsent-update j k f rs same h.1)

  -- A row that keeps its id keeps the key.
  pub HasKey-update :
      (k : ℕ) (f : A → A) (rs : List A)
      → ((r : A) → id (f r) ≡ id r)
      → HasKey rs
      → HasKey (update id k f rs)
  unfolding update
  HasKey-update k f [] same h = tt
  HasKey-update k f (r ∷ rs) same h =
      let head-id : id (if id r == k then f r else r) ≡ id r = ground (arith, same r) in
      (rw head-id (IsAbsent-update (id r) k f rs same h.0), HasKey-update k f rs same h.1)

  pub HasKey-append : (rs : List A) (r : A) → HasKey rs → IsAbsent (id r) rs → HasKey (rs ++ r ∷ [])
  HasKey-append [] r h a = (tt, tt)
  HasKey-append (s ∷ rs) r h a = (
    All-append (λ t. id t ≢ id s) rs (r ∷ []) h.0 ((λ e. a.0 (sym e)), tt),
    HasKey-append rs r h.1 a.1,
  )

  IsAbsent-delete : (j k : ℕ) (rs : List A) → IsAbsent j rs → IsAbsent j (delete id k rs)
  unfolding delete
  IsAbsent-delete j k [] h = tt
  IsAbsent-delete j k (r ∷ rs) h = elim (Bool-cases (id r == k)) [
    | inl gone ↦ rw gone (IsAbsent-delete j k rs h.1)
    | inr stays ↦ rw stays (h.0, IsAbsent-delete j k rs h.1)
  ]

  pub HasKey-delete : (k : ℕ) (rs : List A) → HasKey rs → HasKey (delete id k rs)
  unfolding delete
  HasKey-delete k [] h = tt
  HasKey-delete k (r ∷ rs) h = elim (Bool-cases (id r == k)) [
    | inl gone ↦ rw gone (HasKey-delete k rs h.1)
    | inr stays ↦ rw stays (IsAbsent-delete (id r) k rs h.0, HasKey-delete k rs h.1)
  ]
