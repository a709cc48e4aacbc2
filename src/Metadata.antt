-- ===== src/Metadata.antt =====
-- crates/database-memory-core/src/canonical_validation.rs: the validation of a canonical snapshot,
-- the schema snapshot in it and its metadata. A function that pushes issues is the list of them.
pub mod Kinds
pub mod Run
pub mod Spec
pub mod Correct
pub mod Loops
pub mod Whole
pub mod Example
pub mod Accepted
mod Tests
