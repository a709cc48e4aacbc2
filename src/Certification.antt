-- ===== src/Certification.antt =====
-- crates/database-memory-core/src/certification.rs: the certificate of a complete snapshot.
pub mod Data
pub mod Counts
pub mod Labels
pub mod Run
pub mod Reconcile
pub mod Certify
pub mod Spec
pub mod Correct
pub mod Checks
pub mod Whole
pub mod Discovered
pub mod Issued
pub mod Totals
pub mod Listed
pub mod Analysis
pub mod Accepted
pub mod Sample
mod Tests
