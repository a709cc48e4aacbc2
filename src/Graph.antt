-- ===== src/Graph.antt =====
-- The graph cache and its readers: crates/database-memory-core/src/graph_store.rs,
-- impact_analysis.rs, relationship_trace.rs and graph_query.rs.
pub mod Store
pub mod Memory
mod Sample
pub mod Edges
pub mod Walk
pub mod Impact
pub mod Trace
pub mod Query
