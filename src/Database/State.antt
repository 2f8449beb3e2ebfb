-- ===== src/Database/State.antt =====
-- The tables of the store, and the singleton rows (crates/controller/src/database.rs).
use webtop_manager.Prelude.{
  String, Bool, true, false, ◌&&◌, Option, none, some, List, [], str_eq, if◌then◌else◌, is_some,
}
use webtop_manager.Contracts.Settings.{ServerSettings, default_server_settings}
use webtop_manager.Database.Records.{EnvironmentRecord, FrpTokenMetadata, OperationRow, TemplateRow}

-- A singleton table holds at most the row with `singleton = 1`; its `updated_at` is never read.
pub record Database : Type 0 where
  pub environments : List EnvironmentRecord
  pub operations : List OperationRow
  pub templates : List TemplateRow
  pub server_settings : Option ServerSettings
  pub frpc_service_state : Option Bool
  pub frp_token_metadata : Option FrpTokenMetadata

-- The tables that `open` creates.
abbrev pub empty_database : Database
empty_database = record {
  environments = [];
  operations = [];
  templates = [];
  server_settings = none;
  frpc_service_state = none;
  frp_token_metadata = none;
}

unfoldable pub get_server_settings : Database → ServerSettings
get_server_settings db = elim db.server_settings [
  | none ↦ default_server_settings
  | some settings ↦ settings
]

unfoldable pub save_server_settings : ServerSettings → Database → Database
save_server_settings settings db = record db { server_settings = some settings }

unfoldable pub has_server_settings : Database → Bool
has_server_settings db = is_some db.server_settings

unfoldable pub get_frp_token_metadata : Database → Option FrpTokenMetadata
get_frp_token_metadata db = db.frp_token_metadata

unfoldable pub save_frp_token_metadata : String → Bool → Database → Database
save_frp_token_metadata fingerprint pending db = record db {
  frp_token_metadata = some (record { fingerprint = fingerprint; recovery_pending = pending });
}

-- `UPDATE … WHERE singleton = 1 AND fingerprint = ? AND recovery_pending = 1`, and whether it met a
-- row.
unfoldable pub complete_frp_token_recovery : String → Database → Database × Bool
unfolding save_frp_token_metadata
complete_frp_token_recovery fingerprint db = elim db.frp_token_metadata [
  | none ↦ (db, false)
  | some m ↦
      if str_eq m.fingerprint fingerprint && m.recovery_pending
      then (save_frp_token_metadata m.fingerprint false db, true)
      else (db, false)
]

unfoldable pub frpc_desired_running : Database → Bool
frpc_desired_running db = elim db.frpc_service_state [ none ↦ false | some desired ↦ desired ]

unfoldable pub set_frpc_desired_running : Bool → Database → Database
set_frpc_desired_running desired db = record db { frpc_service_state = some desired }
