-- ===== src/Lib.antt =====
-- rdb-memory-mcp reads the schema of a relational database through an adapter, validates and
-- certifies the snapshot it gets, stores it as a graph in SQLite, and answers questions over that
-- graph. This library models the part of crates/database-memory-core/src that decides, and leaves
-- out the part that only talks to drivers.
--
-- The parts, each with its module and its source under crates/database-memory-core/src:
--   Key         ObjectKey and ObjectKind of lib.rs: the printed keys and their reader.
--   Snapshot    the records of lib.rs (SchemaSnapshot) and of canonical.rs (metadata), and
--               normalize_canonical_snapshot (Normalize).
--   Validation  snapshot_validation.rs. SnapshotValidator is a state that each check maps to the
--               next; State holds its methods, Run the loops of validate_schema_snapshot in the
--               order of the source, Spec a description that does not mention the validator.
--   Metadata    canonical_validation.rs. A function that pushes issues is the list of them; Kinds
--               holds which kinds of object may stand where, Run the checks, Spec a description
--               without issues, Correct and Loops that each check reports nothing exactly then.
--   Certification  certification.rs. Counts has what a snapshot emits, Run the checks that count
--               nothing, Reconcile the loops over the categories, once for objects and for
--               relationships (Labels), Certify the two entry points, Analysis the service over
--               them.
--   Service     introspection.rs and analysis_outcome.rs, over any certification: one analysis
--               from the request to its outcome.
--   Builder     graph_builder.rs, over the writing statements of graph_store.rs on rows in memory
--               (Rows): a statement that fails keeps what it wrote, and the transaction rolls back.
--               Nodes and Edges hold what is inserted, Projection the announced counts, Insert the
--               two entry points; Replaced is the description of the rows afterwards, Composed
--               joins the builder to a complete analysis.
--   Graph       graph_store.rs as an interface of queries with laws (Store) and in memory
--               (Memory), and the readers over it: impact_analysis.rs (Edges, Impact),
--               relationship_trace.rs (Trace) and graph_query.rs (Query).
--
-- How they interact: keys name all objects and their text is what validation and the graph compare;
-- an analysis is complete only with a snapshot that certification accepts, which validates it and
-- its metadata; the builder stores the graph of a certificate that verifies; the traversals read
-- the stored graph through the queries only.
--
-- Conventions. A `str` is the list of its code points (Base/Text); a BTreeMap is the list of its
-- entries in the order of its keys (Base/Map); a Result is `Result` with the error first
-- (Base/Fallible). A usize is a number up to usize_max; numbers that the source only copies are not
-- bounded. A HashSet that is only asked for members is a list.
--
-- Fuel: only the `while` loops of the traversals have it. Each round takes an entry from the
-- queue. In the impact analysis a node enters it once, so one round for each stored node and one
-- more are enough. In a trace with a bound, each entry pays for an edge, so one round for each path
-- of the bound and one more are enough; nothing is said of the fuel that a trace without a bound
-- needs. In a query each entry but the first comes with a hit, so 501 rounds are enough.
--
-- Parameters: SQLite answers the queries, so they are the fields of GraphStore, and IsLawful says
-- what their clauses promise; what each read of the cancellation token returns; certification and
-- redaction, in the analysis service (Certification/Analysis puts the certification of the program
-- there); the decimal print of a number; the JSON of a payload and the check of a stored one;
-- JSON values and lower case in a query.
--
-- Not modelled: the adapters, DDL and ODBC code (catalog SQL run by drivers), the command line and
-- the MCP server (printing and a protocol library), benchmarks, static contracts; paging,
-- single deletions, migration and payload versions of the graph store; schema_diff.rs, redaction
-- and configuration.
mod Base
pub mod Key
pub mod Snapshot
pub mod Validation
pub mod Metadata
pub mod Builder
pub mod Certification
pub mod Graph
pub mod Service
