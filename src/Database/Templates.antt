-- ===== src/Database/Templates.antt =====
-- The `templates` table (crates/controller/src/database.rs). A row repeats some columns of the record
-- that it holds as JSON.
use webtop_manager.Prelude.{
  ◌&&◌, ℕ, String, Bool, true, false, ◌||◌, not, ◌==◌, Option, none, some, List, [], ◌∷◌, ◌++◌, any,
  leb, str_eq, if◌then◌else◌, is_some, map, length, keep,
}
use webtop_manager.Prelude.Results.{Result, ok, err}
use webtop_manager.Database.Table.{select, update, delete}
use webtop_manager.Database.Records.{Template, TemplateRow}
use webtop_manager.Database.State.{Database}

abbrev pub template_id : TemplateRow → ℕ
template_id r = r.id

-- `ORDER BY created_at DESC`: a stable insertion sort, the latest first.
unfoldable pub insert_latest : TemplateRow → List TemplateRow → List TemplateRow
insert_latest r [] = r ∷ []
insert_latest r (s ∷ rs) =
    let earlier = insert_latest r rs in
    if leb s.created_at r.created_at then r ∷ s ∷ rs else s ∷ earlier

unfoldable pub order_latest : List TemplateRow → List TemplateRow
unfolding insert_latest
order_latest [] = []
order_latest (r ∷ rs) = insert_latest r (order_latest rs)

unfoldable pub template_name_exists : String → Database → Bool
template_name_exists name db = any (λ r. str_eq r.name name) db.templates

abbrev pub is_id : ℕ → Option ℕ → Bool
is_id id none = false
is_id id (some k) = k == id

-- The foreign key: a parent is a row of the table, or the new row itself.
abbrev pub has_parent : Template → List TemplateRow → Bool
has_parent t rows = elim t.parent_template_id [
  | none ↦ true
  | some parent ↦ (parent == t.id) || is_some (select template_id parent rows)
]

-- `reread` is what `serde_json::from_str` makes of the text that `serde_json::to_string` writes.
abbrev pub template_row : (Template → Template) → Template → TemplateRow
template_row reread t = record {
  id = t.id;
  name = t.name;
  parent_template_id = t.parent_template_id;
  source_environment_id = t.source_environment_id;
  template = reread t;
  created_at = t.created_at;
}

-- The insertion fails where the id or the name is taken, or the parent is not there.
unfoldable pub insert_template :
    (Template → Template) → Template → Database → Result (Unit {0}) Database
unfolding select
insert_template reread t db =
    if is_some (select template_id t.id db.templates)
      || any (λ r. str_eq r.name t.name) db.templates
      || not (has_parent t db.templates)
    then err tt
    else ok (record db { templates = db.templates ++ template_row reread t ∷ [] })

abbrev pub set_template : (Template → Template) → Template → TemplateRow → TemplateRow
set_template reread t r = record r { name = t.name; template = reread t }

-- The update fails where another row has the name.
unfoldable pub update_template :
    (Template → Template) → Template → Database → Result (Unit {0}) Database
unfolding select update
update_template reread t db =
    if is_some (select template_id t.id db.templates)
      && any (λ r. not (r.id == t.id) && str_eq r.name t.name) db.templates
    then err tt
    else ok (record db { templates = update template_id t.id (set_template reread t) db.templates })

unfoldable pub list_templates : Database → List Template
unfolding order_latest
list_templates db = map (λ r. r.template) (order_latest db.templates)

unfoldable pub get_template : ℕ → Database → Option Template
unfolding select
get_template id db = elim (select template_id id db.templates) [
  | none ↦ none
  | some r ↦ some r.template
]

-- `SELECT COUNT(*) … WHERE template_id = ?` and `… WHERE parent_template_id = ?`.
unfoldable pub template_dependency_counts : ℕ → Database → ℕ × ℕ
template_dependency_counts id db = (
  length (keep (λ e. is_id id e.template_id) db.environments),
  length (keep (λ r. is_id id r.parent_template_id) db.templates),
)

-- `ON DELETE RESTRICT`: the deletion fails where another row has the row as its parent.
unfoldable pub delete_template : ℕ → Database → Result (Unit {0}) Database
unfolding select delete
delete_template id db =
    if is_some (select template_id id db.templates)
      && any (λ r. not (r.id == id) && is_id id r.parent_template_id) db.templates
    then err tt
    else ok (record db { templates = delete template_id id db.templates })
