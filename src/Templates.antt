-- ===== src/Templates.antt =====
-- Templates: crates/controller/src/templates.rs.
pub mod Jobs
pub mod Reservation
pub mod Images
pub mod Names
pub mod Host
pub mod Checks
pub mod Listing
pub mod Commit
pub mod Restore
pub mod Sources
pub mod Packages
pub mod Json
pub mod Sanitizing
pub mod Archives
pub mod Rewriting
pub mod Loading
pub mod Cancelling
pub mod Exporting
pub mod Importing
pub mod Ending
pub mod Races
pub mod ImageLaws
pub mod SanitizingLaws
pub mod Acceptance
pub mod NameLaws
pub mod LineageLaws
pub mod PortLaws
mod Tests
mod RaceTests
mod PackageTests
pub mod Extraction
