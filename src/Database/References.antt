-- ===== src/Database/References.antt =====
-- The parents of the stored templates stay in the table
-- (crates/controller/src/database.rs).
use webtop_manager.Prelude.{
  ℕ, true, false, not, ◌&&◌, ◌≡◌, ◌≢◌, refl, none, some, List, [], ◌∷◌, ◌++◌, arith, All,
  All-append, All-map, any, is_some, ◌==◌, inl, inr, Bool-cases, Option-cases,
}
use webtop_manager.Prelude.Results.{ok}
use webtop_manager.Database.Table.{
  select-delete, delete, select, update, select-append, select-append_old, select-update,
  All-update,
}
use webtop_manager.Database.Records.{Template, TemplateRow}
use webtop_manager.Database.State.{Database}
use webtop_manager.Database.Templates.{
  delete_template, template_id, is_id, has_parent, template_row, set_template, insert_template,
  update_template,
}

-- The parent of a row, if it has one, is a row of the table.
abbrev pub HasParent : List TemplateRow → TemplateRow → Type 0
HasParent rows r =
    (p : ℕ) → r.parent_template_id ≡ some p → is_some (select template_id p rows) ≡ true

abbrev pub HasParents : Database → Type 0
HasParents db = All (HasParent db.templates) db.templates

inserted :
    (reread : Template → Template) (t : Template) (db db' : Database)
    → insert_template reread t db ≡ ok db'
    → (select template_id t.id db.templates ≡ none)
      × (has_parent t db.templates ≡ true)
      × (db'.templates ≡ db.templates ++ template_row reread t ∷ [])
unfolding insert_template
inserted reread t db db' e = elim (Option-cases (select template_id t.id db.templates)) [
  | inr (old, found) ↦ absurd (ground (arith, found))
  | inl absent ↦ (absent, ground (arith, absent), ground (arith, absent))
]

more_rows :
    (p : ℕ) (rows : List TemplateRow) (r : TemplateRow)
    → is_some (select template_id p rows) ≡ true
    → is_some (select template_id p (rows ++ r ∷ [])) ≡ true
more_rows p rows r h = elim (Option-cases (select template_id p rows)) [
  | inl missing ↦ absurd (ground (arith, missing, h))
  | inr (s, found) ↦ ground (arith, select-append_old template_id p rows r s found)
]

new_row :
    (reread : Template → Template) (t : Template) (rows : List TemplateRow)
    → select template_id t.id rows ≡ none
    → has_parent t rows ≡ true
    → HasParent (rows ++ template_row reread t ∷ []) (template_row reread t)
new_row reread t rows absent h p e = elim (Bool-cases (p == t.id)) [
  | inl own ↦
      let same : p ≡ t.id = ground (arith, own) in
      rw same (ground (arith, select-append template_id t.id rows (template_row reread t) absent))
  | inr other ↦ more_rows p rows (template_row reread t) (ground (arith, e, h, other))
]

-- Inserting a template keeps every parent in the table.
insert_template-HasParents :
    (reread : Template → Template) (t : Template) (db db' : Database)
    → insert_template reread t db ≡ ok db'
    → HasParents db
    → HasParents db'
insert_template-HasParents reread t db db' e h =
    let (absent, parent, rows) = inserted reread t db db' e in
    rw rows (
      All-append (HasParent (db.templates ++ template_row reread t ∷ [])) db.templates
        (template_row reread t ∷ [])
        (All-map (λ r k p q. more_rows p db.templates (template_row reread t) (k p q)) db.templates
          h)
        (new_row reread t db.templates absent parent, tt))

same_rows :
    (p k : ℕ) (reread : Template → Template) (t : Template) (rows : List TemplateRow)
    → is_some (select template_id p (update template_id k (set_template reread t) rows))
      ≡ is_some (select template_id p rows)
same_rows p k reread t rows =
    ground (arith, select-update template_id k p (set_template reread t) rows (λ r. refl))

update_template-HasParents :
    (reread : Template → Template) (t : Template) (db db' : Database)
    → update_template reread t db ≡ ok db'
    → HasParents db
    → HasParents db'
unfolding update_template
update_template-HasParents reread t db db' e h =
    let rows' = update template_id t.id (set_template reread t) db.templates in
    let rows : db'.templates ≡ rows' = ground arith in
    let kept : All (HasParent rows') db.templates =
      All-map (λ r k p q. ground (arith, same_rows p t.id reread t db.templates, k p q))
        db.templates h in
    rw rows (
      All-update template_id (HasParent rows') (HasParent rows') t.id (set_template reread t)
        db.templates (λ r k m. k) (λ r k m. k) kept)

-- No other row has the deleted one as its parent.
unused :
    (id : ℕ) (rows : List TemplateRow)
    → any (λ r. not (r.id == id) && is_id id r.parent_template_id) rows ≡ false
    → All (λ r. r.id ≢ id → r.parent_template_id ≢ some id) rows
unused id [] h = tt
unused id (r ∷ rows) h =
    ((λ other e. ground (arith, other, e, h)), unused id rows (ground (arith, h)))

All-delete_other :
    (P : TemplateRow → Type 0) (id : ℕ) (rows : List TemplateRow)
    → All P rows
    → All (λ r. P r × (r.id ≢ id)) (delete template_id id rows)
unfolding delete
All-delete_other P id [] h = tt
All-delete_other P id (r ∷ rows) h = elim (Bool-cases (r.id == id)) [
  | inl gone ↦ rw gone (All-delete_other P id rows h.1)
  | inr stays ↦ rw stays ((h.0, (λ e. ground (arith, e, stays))), All-delete_other P id rows h.1)
]

-- What a deletion that succeeds has checked of each row.
restricted :
    (id : ℕ) (db db' : Database)
    → delete_template id db ≡ ok db'
    → (db'.templates ≡ delete template_id id db.templates)
      × (is_some (select template_id id db.templates) ≡ true
          → All (λ r. r.id ≢ id → r.parent_template_id ≢ some id) db.templates)
unfolding delete_template
restricted id db db' e = (ground arith, (λ there. unused id db.templates (ground arith)))

both :
    (P Q : TemplateRow → Type 0) (rows : List TemplateRow)
    → All P rows
    → All Q rows
    → All (λ r. P r × Q r) rows
both P Q [] h k = tt
both P Q (r ∷ rows) h k = ((h.0, k.0), both P Q rows h.1 k.1)

delete_template-HasParents :
    (id : ℕ) (db db' : Database) → delete_template id db ≡ ok db' → HasParents db → HasParents db'
delete_template-HasParents id db db' e h =
    let (rows, safe) = restricted id db db' e in
    rw rows (elim (Bool-cases (is_some (select template_id id db.templates))) [
      | inr absent ↦
          All-map
            (λ r k p q.
              ground (arith, select-delete template_id id p db.templates, k.0 p q, absent))
            (delete template_id id db.templates)
            (All-delete_other (HasParent db.templates) id db.templates h)
      | inl there ↦
          All-map
            (λ r k p q.
              ground (arith, select-delete template_id id p db.templates, k.0.0 p q, k.0.1 k.1, q))
            (delete template_id id db.templates)
            (All-delete_other
              (λ r. HasParent db.templates r × (r.id ≢ id → r.parent_template_id ≢ some id)) id
              db.templates
              (both (HasParent db.templates) (λ r. r.id ≢ id → r.parent_template_id ≢ some id)
                db.templates h (safe there)))
    ])

-- A change of the table that succeeds.
pub data Change (db db' : Database) : Type 0 where
  insertion :
      (reread : Template → Template) (t : Template)
      → insert_template reread t db ≡ ok db'
      → Change db db'
  replacement :
      (reread : Template → Template) (t : Template)
      → update_template reread t db ≡ ok db'
      → Change db db'
  deletion : (id : ℕ) → delete_template id db ≡ ok db' → Change db db'

-- Whatever is inserted, replaced or deleted, if each parent was a row of the table, each one still is.
pub Change-HasParents : {db db' : Database} → Change db db' → HasParents db → HasParents db'
Change-HasParents {db} {db'} (insertion reread t e) h =
    insert_template-HasParents reread t db db' e h
Change-HasParents {db} {db'} (replacement reread t e) h =
    update_template-HasParents reread t db db' e h
Change-HasParents {db} {db'} (deletion id e) h = delete_template-HasParents id db db' e h
