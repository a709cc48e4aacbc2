-- ===== src/Validation.antt =====
-- The validation of a schema snapshot: crates/database-memory-core/src/snapshot_validation.rs.
-- `State` has the validator and its primitive checks, `Run` the checks in the order of the source,
-- `Checks` the rules by which a list of checks is read as a predicate, and `Spec` the predicate.
pub mod State
pub mod Run
pub mod Checks
pub mod Primitive
pub mod Registry
pub mod Spec
mod Correct
mod Constraints
mod Sources
pub mod Whole
mod Integrity
pub mod Example
mod Tests
