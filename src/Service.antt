-- ===== src/Service.antt =====
-- One analysis of a database: crates/database-memory-core/src/introspection.rs and
-- analysis_outcome.rs, over the data of certification.rs.
pub mod Outcome
pub mod Truncate
pub mod Lifecycle
pub mod Stages
mod Tests
