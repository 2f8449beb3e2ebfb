-- ===== src/Contracts.antt =====
-- The shared contracts: crates/contracts/src/lib.rs.
pub mod Errors
pub mod Failures
pub mod Spec
pub mod Settings
pub mod Paths
pub mod Containment
pub mod Ports
pub mod Validate
pub mod Checks
pub mod Validity
pub mod Packages
mod Tests
