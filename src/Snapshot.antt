-- ===== src/Snapshot.antt =====
-- The schema snapshot of crates/database-memory-core/src/lib.rs: the objects that an adapter
-- reports, and the warnings that its capabilities give.
pub mod Objects
pub mod Equality
pub mod Canonical
pub mod Normalize
pub mod Capability
