-- ===== src/Controller/State.antt =====
-- The state that the handlers of crates/controller/src/api.rs share, and the parts of it that are not
-- the program's: the Docker daemon's state, of type `D`, and the token file.
use webtop_manager.Prelude.{ℕ, String, Bool, Option, List}
use webtop_manager.Prelude.Actions.{Action}
use webtop_manager.Contracts.Errors.{ApiFailure}
use webtop_manager.Database.State.{Database}

-- The file at `server_token_path`: its bytes if it is there, and whether reading and writing it
-- succeed.
pub record TokenFile : Type 0 where
  pub contents : Option (List ℕ)
  pub readable : Bool
  pub writable : Bool

-- `AppState`. The locks are not part of it: a handler holds them while it runs. The two maps of
-- cancellation channels are their keys.
pub record AppState (D : Type 0) : Type 0 where
  pub database : Database
  pub docker : D
  pub token_file : TokenFile
  pub pull_cancellations : List ℕ
  pub operation_cancellations : List ℕ
  pub active_resources : List String

abbrev pub Handler : Type 0 → Type 0 → Type 0
Handler D A = Action (AppState D) ApiFailure A

-- An `anyhow::Result` or `io::Result`, whose error is only logged or mapped.
abbrev pub Fallible : Type 0 → Type 0 → Type 0
Fallible D A = Action (AppState D) (Unit {0}) A

module _ {D : Type 0} where
  abbrev pub with_database : (Database → Database) → AppState D → AppState D
  with_database f s = record s { database = f s.database }

  abbrev pub with_token : Option (List ℕ) → AppState D → AppState D
  with_token t s = record s { token_file = record (s.token_file) { contents = t } }
