-- ===== src/Controller.antt =====
-- The controller: crates/controller/src/api.rs.
pub mod State
pub mod Token
pub mod TokenLaws
pub mod Proxies
pub mod Docker
pub mod Frpc
pub mod Allocation
pub mod FreePorts
pub mod Retry
pub mod Upkeep
pub mod Rounds
pub mod Termination
pub mod Distinct
pub mod Consistency
pub mod RetryConsistency
pub mod Service
pub mod Publication
pub mod Lifecycle
pub mod Handlers
pub mod Creation
pub mod ServiceConsistency
pub mod Reachable
mod Tests
