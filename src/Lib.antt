-- ===== src/Lib.antt =====
-- Webtop Manager: a desktop application that runs web desktops in Docker containers. A controller
-- (crates/controller) keeps environments, operations and templates in SQLite, drives the Docker
-- daemon, and publishes environments through frpc under remote ports of a server; crates/contracts
-- holds the types and the validation that the controller and the application share.
--
-- What models what:
--
-- Prelude: numbers, lists, tests, text; Prelude/Results is `Result` with `?` as bind, Prelude/Actions
--   a handler that changes a state and may fail, where what was done before an error stays done, and
--   Prelude/Steps the lemmas on what such a handler keeps.
-- Contracts: crates/contracts/src/lib.rs. Contracts/Spec, Contracts/Settings and Contracts/Errors are
--   the types and their defaults; Contracts/Validate is `EnvironmentSpec::validate`, check by check,
--   and Contracts/Checks with Contracts/Validity what it accepts; Contracts/Paths has the components
--   of a Unix path and `require_contained_path`; Contracts/Ports is `allocate_remote_port`;
--   Contracts/Packages the types of images and packages;
--   Contracts/Failures has the failures of crates/controller/src/api.rs.
-- Database: crates/controller/src/database.rs. A table is the list of its rows in the order of
--   insertion, and Database/Table the SQL statements on it. Database/Records has the rows,
--   Database/State the tables and the singletons (settings, token metadata, frpc state),
--   Database/Environments, Database/Operations and Database/Templates the methods on those tables, one function each;
--   Database/Keys, Database/Recovery, Database/Log, Database/RoundTrip and Database/References have the lemmas.
-- Docker: crates/controller/src/docker.rs. Docker/Images is its table of official images,
--   Docker/Bindings `webtop_https_port`, Docker/Containers the container of an environment
--   (`create_environment_container_inner`), Docker/Logs what is read of the logs of
--   frpc, and Docker/Service the status, stop, removal and connection test of its container;
--   Docker/LogLaws and Docker/ServiceLaws have the theorems.
-- Controller: crates/controller/src/api.rs. Controller/State is `AppState`; Controller/Token has
--   `inspect_or_initialize_server_token`, `required_server_token` and `recover_server_token`;
--   Controller/Proxies and Controller/Frpc have `environment_proxies`, the synchronisation of local
--   ports and `start_frpc_with_port_retry`; Controller/Service the handlers of the frpc service and of
--   the settings, and the reconciliation; Controller/Publication `publish_environment` and
--   `unpublish_environment`; Controller/Lifecycle the creation, the start, the stop, the restart and
--   the deletion of an environment. Controller/Allocation, Controller/FreePorts, Controller/Retry,
--   Controller/Rounds and Controller/Termination carry the measure of the retry loop;
--   Controller/Distinct, Controller/Consistency, Controller/Upkeep, Controller/RetryConsistency,
--   Controller/Handlers, Controller/Creation, Controller/ServiceConsistency and Controller/Reachable
--   the invariant of the environments.
-- Templates: crates/controller/src/templates.rs. Templates/Jobs has the operations of jobs, their log,
--   `reserve_resources`, `release_resources` and how a task ends; Templates/Cancelling
--   `cancel_operation`; Templates/Host is what the jobs use of the daemon, the worker and the file
--   system; Templates/Images and Templates/Checks have the configuration of a commit and the checks of
--   images and containers; Templates/Names the names and paths; Templates/Listing, Templates/Commit,
--   Templates/Restore and Templates/Sources the handlers and jobs that list, make, use, check and
--   delete templates; Templates/Packages and Templates/Extraction the reading of a package,
--   Templates/Json, Templates/Sanitizing, Templates/Archives, Templates/Rewriting and
--   Templates/Loading the check and the rewriting of its image; Templates/Exporting and
--   Templates/Importing the two jobs that can be cancelled. Templates/Reservation, Templates/Ending,
--   Templates/Races, Templates/ImageLaws, Templates/SanitizingLaws, Templates/Acceptance,
--   Templates/NameLaws, Templates/LineageLaws and Templates/PortLaws have the lemmas.
-- Pulls: the image handlers of crates/controller/src/api.rs. Pulls/Images has the image cache,
--   Pulls/Tasks the start, the job, the resumption and the cancellation of a pull, Pulls/Progress its
--   percentages and the reattached stream; Pulls/Running is the step relation of the tasks that run
--   beside each other between their statements, Pulls/Accounting its invariant, and Pulls/Runs the
--   image handlers as runs of it; Pulls/ProgressLaws has the lemmas on percentages.
-- The modules named Tests, RaceTests and PackageTests apply the theorems at concrete states.
--
-- How the parts interact: a handler takes the state and returns its answer with the state afterwards.
-- It calls the methods of the database on the database of the state, and the daemon through the record
-- `DockerApi` and the file system through `Files` (Controller/Docker), whose functions are any functions
-- on a daemon state of any type. A `Uuid` is its number, a time its stamp, a token its bytes; the SHA-256
-- digest and the random generator are parameters. A job of templates.rs uses the records `Host`,
-- `ExportHost` and `ImportHost` in the same way, and a pull the record `ImageApi`; the clock and the
-- channels of cancellations are read from the state that is not the program's, so that they may change
-- between any two steps. A spawned task is its job, run on the state, and `end_task` or
-- `end_cancellable_task` behind it; Pulls/Running lets tasks start and end in
-- any order, and divides the handlers that start a job and the handlers of images between the taking
-- and the release of their resources. The loop that resumes interrupted pulls takes what the other
-- tasks do before each round as a parameter.
-- A template is stored as the value that serde_json reads back of the text that it writes, which is the
-- parameter `reread_template`; the columns are those of the template itself.
--
-- Fuel: only the retry loop runs on fuel, one more than the number of ports of the configured range,
-- and a loop that ran out of it would stop with `out_of_fuel`.
--
-- Outside Pulls/Running and Templates/Races a handler is one step: it runs with no other between its
-- statements. This is what the publication lock
-- gives to the handlers that take it; `create_environment` takes it only for the reconciliation at its end.
--
-- Not modelled: the making of the container of frpc and the stream of a pull in
-- crates/controller/src/docker.rs, which are calls of the daemon; the rendering of configurations (crates/controller/src/frp.rs), the
-- worker (crates/worker), the desktop application (src-tauri) and the front end, which are left; the
-- bytes of archives, of JSON texts and of files, which tar, zstd, serde_json and the file system
-- handle; SQL errors other than a taken key, a taken name or a foreign key; the text of a number of
-- bytes in a log line, which is a floating-point format.
mod Prelude
pub mod Contracts
pub mod Database
pub mod Docker
pub mod Controller
pub mod Templates
pub mod Pulls
