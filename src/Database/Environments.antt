-- ===== src/Database/Environments.antt =====
-- The `environments` table (crates/controller/src/database.rs).
use webtop_manager.Prelude.{
  ℕ, String, Bool, ◌||◌, Option, List, [], ◌∷◌, ◌++◌, any, leb, str_eq, if◌then◌else◌, is_some,
}
use webtop_manager.Prelude.Results.{Result, ok, err}
use webtop_manager.Contracts.Spec.{EnvironmentSpec}
use webtop_manager.Database.Table.{select, update, delete}
use webtop_manager.Database.Records.{EnvironmentRecord}
use webtop_manager.Database.State.{Database}

abbrev pub environment_id : EnvironmentRecord → ℕ
environment_id r = r.id

-- `ORDER BY created_at`: a stable insertion sort.
unfoldable pub insert_by_time : EnvironmentRecord → List EnvironmentRecord → List EnvironmentRecord
insert_by_time r [] = r ∷ []
insert_by_time r (s ∷ rs) =
    let later = insert_by_time r rs in
    if leb r.created_at s.created_at then r ∷ s ∷ rs else s ∷ later

unfoldable pub order_by_time : List EnvironmentRecord → List EnvironmentRecord
unfolding insert_by_time
order_by_time [] = []
order_by_time (r ∷ rs) = insert_by_time r (order_by_time rs)

unfoldable pub environment_name_exists : String → Database → Bool
environment_name_exists name db = any (λ r. str_eq r.name name) db.environments

-- The insertion fails where the id, the name or the container is taken.
unfoldable pub insert_environment : EnvironmentRecord → Database → Result (Unit {0}) Database
unfolding select
insert_environment r db =
    if is_some (select environment_id r.id db.environments)
      || any (λ s. str_eq s.name r.name) db.environments
      || any (λ s. str_eq s.container_id r.container_id) db.environments
    then err tt
    else ok (record db { environments = db.environments ++ r ∷ [] })

unfoldable pub list_environments : Database → List EnvironmentRecord
unfolding order_by_time
list_environments db = order_by_time db.environments

unfoldable pub get_environment : ℕ → Database → Option EnvironmentRecord
unfolding select
get_environment id db = select environment_id id db.environments

abbrev update_row : ℕ → (EnvironmentRecord → EnvironmentRecord) → Database → Database
update_row id f db = record db { environments = update environment_id id f db.environments }

unfoldable pub set_desired_running : ℕ → Bool → Database → Database
unfolding update
set_desired_running id desired db = update_row id (λ r. record r { desired_running = desired }) db

unfoldable pub set_environment_local_port : ℕ → Option ℕ → Database → Database
unfolding update
set_environment_local_port id port db = update_row id (λ r. record r { local_port = port }) db

unfoldable pub update_environment_spec : ℕ → EnvironmentSpec → Database → Database
unfolding update
update_environment_spec id spec db = update_row id (λ r. record r { spec = spec }) db

unfoldable pub delete_environment : ℕ → Database → Database
unfolding delete
delete_environment id db = record db { environments = delete environment_id id db.environments }
