-- ===== src/Database.antt =====
-- The controller's SQLite store: crates/controller/src/database.rs.
pub mod Table
pub mod Keys
pub mod Records
pub mod State
pub mod Operations
pub mod Environments
pub mod Templates
pub mod References
pub mod Recovery
pub mod Log
pub mod RoundTrip
mod Tests
