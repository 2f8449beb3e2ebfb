-- ===== src/Docker.antt =====
-- The Docker side of the controller: crates/controller/src/docker.rs.
pub mod Images
pub mod Bindings
pub mod Logs
pub mod LogLaws
pub mod Containers
pub mod Service
pub mod ServiceLaws
mod Tests
