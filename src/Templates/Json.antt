-- ===== src/Templates/Json.antt =====
-- JSON values (`serde_json::Value`), as crates/controller/src/templates.rs takes them apart and changes
-- them. The members of an object keep their places.
use webtop_manager.Prelude.{ℕ, suc, String, Bool, Option, none, some, str_eq, if◌then◌else◌}

mutual
  pub data Json : Type 0 where
    null : Json
    bool : Bool → Json
    number : ℕ → Json
    string : String → Json
    array : Items → Json
    object : Members → Json

  pub data Items : Type 0 where
    no_items : Items
    item : Json → Items → Items

  pub data Members : Type 0 where
    no_members : Members
    member : String → Json → Members → Members

-- `object.get(key)`.
unfoldable pub get_member : String → Members → Option Json
get_member key no_members = none
get_member key (member k v ms) = if str_eq k key then some v else get_member key ms

-- `object.insert(key, value)`.
unfoldable pub set_member : String → Json → Members → Members
set_member key value no_members = member key value no_members
set_member key value (member k v ms) =
    let rest = set_member key value ms in
    if str_eq k key then member key value ms else member k v rest

-- `object.remove(key)`, without what it returns.
unfoldable pub remove_member : String → Members → Members
remove_member key no_members = no_members
remove_member key (member k v ms) =
    let rest = remove_member key ms in if str_eq k key then rest else member k v rest

-- `object.retain(|key, _| …)` and `array.retain(…)`.
unfoldable pub retain_members : (String → Bool) → Members → Members
retain_members p no_members = no_members
retain_members p (member k v ms) =
    let rest = retain_members p ms in if p k then member k v rest else rest

unfoldable pub retain_items : (Json → Bool) → Items → Items
retain_items p no_items = no_items
retain_items p (item v vs) = let rest = retain_items p vs in if p v then item v rest else rest

abbrev pub as_str : Json → Option String
as_str (string s) = some s
as_str _ = none

abbrev pub as_array : Json → Option Items
as_array (array vs) = some vs
as_array _ = none

abbrev pub as_object : Json → Option Members
as_object (object ms) = some ms
as_object _ = none

-- `value.get(key)`.
abbrev pub get : String → Json → Option Json
get key (object ms) = get_member key ms
get key _ = none

abbrev pub count_items : Items → ℕ
count_items no_items = 0
count_items (item v vs) = suc (count_items vs)

abbrev pub first_item : Items → Option Json
first_item no_items = none
first_item (item v vs) = some v

-- `and_then`.
abbrev pub and_then : {A B : Type 0} → Option A → (A → Option B) → Option B
and_then none f = none
and_then (some a) f = f a

abbrev pub get_str : String → Json → Option String
get_str key value = and_then (get key value) as_str

-- `entry(key).or_insert_with({})`, with anything but an object replaced by an empty one.
abbrev pub object_at : String → Members → Members
object_at key ms = elim (and_then (get_member key ms) as_object) [
  | none ↦ no_members
  | some inner ↦ inner
]
