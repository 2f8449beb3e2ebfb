-- ===== src/Pulls.antt =====
-- Image pulls and the image cache: the image handlers of crates/controller/src/api.rs.
pub mod Images
pub mod Progress
pub mod ProgressLaws
pub mod Tasks
pub mod Running
pub mod Accounting
pub mod Runs
mod Tests
