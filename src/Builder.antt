-- ===== src/Builder.antt =====
-- crates/database-memory-core/src/graph_builder.rs: the graph of a snapshot, as nodes and edges.
pub mod Nodes
pub mod Edges
pub mod Lengths
pub mod Projection
pub mod Known
pub mod Closed
pub mod Whole
pub mod Rows
pub mod Upserts
pub mod Replaced
pub mod Insert
pub mod Stamped
pub mod Stored
pub mod Atomic
pub mod Composed
mod Tests
