-- ===== src/Builder/Rows.antt =====
-- The writing side of graph_store.rs over rows in memory: the upserts of its statements, the foreign
-- keys of its tables, and the transaction. What SQLite says of a failed constraint, and the check
-- of a payload that is to be stored, are parameters.
use rdb_memory_mcp.Base.{
  ℕ, ℤ, Bool, not, ◌&&◌, ◌||◌, Option, some, List, [], ◌∷◌, ◌++◌, Str, codes, str_eq, any, keep,
  length, ok, err, ◌==◌, if◌then◌else◌,
}
use rdb_memory_mcp.Snapshot.Objects.{SchemaSnapshot}
use rdb_memory_mcp.Snapshot.Canonical.{CanonicalMetadata}
use rdb_memory_mcp.Graph.Store.{GraphNodeRecord, GraphEdgeRecord, GraphStoreError, StoreResult}
use rdb_memory_mcp.Builder.Nodes.{Serialization, graph_nodes}
use rdb_memory_mcp.Builder.Edges.{graph_edges}

pub record GraphSnapshotRecord : Type 0 where
  pub snapshot_key : Str
  pub source : Option Str
  pub captured_at_unix_ms : ℤ
  pub payload_json : Str

pub record Rows : Type 0 where
  pub snapshots : List GraphSnapshotRecord
  pub nodes : List GraphNodeRecord
  pub edges : List GraphEdgeRecord

pub record Database : Type 0 where
  pub foreign_key_failed : Str
  pub validate_persisted_snapshot_payload : Str → StoreResult (Unit {0})

abbrev pub has_snapshot : Str → Rows → Bool
has_snapshot snapshot rows = any (λ r. str_eq r.snapshot_key snapshot) rows.snapshots

abbrev pub has_node : Str → Str → List GraphNodeRecord → Bool
has_node snapshot key nodes =
    any (λ n. str_eq n.snapshot_key snapshot && str_eq n.node_key key) nodes

-- A statement, with the rows that it leaves. What was written before an error stays written.
abbrev pub Statement : Type 0
Statement = Rows → StoreResult (Unit {0}) × Rows

-- The next statement runs on what the first leaves, unless `?` returns the error of the first.
infixl 5 ◌>>◌
abbrev pub ◌>>◌ : Statement → Statement → Statement
first >> next = λ rows. elim (first rows).0 [
  | ok _ ↦ next (first rows).1
  | err error ↦ (err error, (first rows).1)
]

-- The rows that are not of the snapshot stay: the nodes and edges of a snapshot go with it.
unfoldable pub delete_snapshot : Str → Statement
delete_snapshot snapshot rows = (
  ok tt,
  record {
    snapshots = keep (λ r. not (str_eq r.snapshot_key snapshot)) rows.snapshots;
    nodes = keep (λ n. not (str_eq n.snapshot_key snapshot)) rows.nodes;
    edges = keep (λ e. not (str_eq e.snapshot_key snapshot)) rows.edges;
  },
)

-- `ON CONFLICT … DO UPDATE`: the row takes the place of one with its key.
abbrev pub upsert_node : GraphNodeRecord → List GraphNodeRecord → List GraphNodeRecord
upsert_node n nodes =
    n ∷ keep (λ m. not (str_eq m.snapshot_key n.snapshot_key && str_eq m.node_key n.node_key)) nodes

abbrev pub upsert_edge : GraphEdgeRecord → List GraphEdgeRecord → List GraphEdgeRecord
upsert_edge e edges =
    e ∷ keep (λ f. not (str_eq f.snapshot_key e.snapshot_key && str_eq f.edge_key e.edge_key)) edges

module _ (database : Database) where
  abbrev violation : Statement
  violation rows = (err (GraphStoreError.storage database.foreign_key_failed), rows)

  unfoldable pub insert_snapshot : GraphSnapshotRecord → Statement
  insert_snapshot r rows = elim (database.validate_persisted_snapshot_payload r.payload_json) [
    | err error ↦ (err error, rows)
    | ok _ ↦ (
      ok tt,
      record rows {
        snapshots = r ∷ keep (λ q. not (str_eq q.snapshot_key r.snapshot_key)) rows.snapshots;
      },
    )
  ]

  unfoldable pub insert_node : GraphNodeRecord → Statement
  insert_node n rows =
      if has_snapshot n.snapshot_key rows
      then (ok tt, record rows { nodes = upsert_node n rows.nodes })
      else violation rows

  unfoldable pub insert_edge : GraphEdgeRecord → Statement
  insert_edge e rows =
      if has_node e.snapshot_key e.edge_from rows.nodes
        && has_node e.snapshot_key e.edge_to rows.nodes
      then (ok tt, record rows { edges = upsert_edge e rows.edges })
      else violation rows

  -- The inserts of the builder, each followed by `?`.
  unfoldable pub insert_nodes : List GraphNodeRecord → Statement
  insert_nodes [] rows = (ok tt, rows)
  insert_nodes (n ∷ ns) rows = (insert_node n >> insert_nodes ns) rows

  unfoldable pub insert_edges : List GraphEdgeRecord → Statement
  insert_edges [] rows = (ok tt, rows)
  insert_edges (e ∷ es) rows = (insert_edge e >> insert_edges es) rows

  module _ (serialization : Serialization) (decimal : ℕ → Str) where
    abbrev pub snapshot_record : Str → ℤ → SchemaSnapshot → Str → GraphSnapshotRecord
    snapshot_record key captured s payload = record {
      snapshot_key = key;
      source = some (s.source_kind ++ (codes ":" ++ s.connection_alias));
      captured_at_unix_ms = captured;
      payload_json = payload;
    }

    -- The payload of the snapshot is the JSON of the schema snapshot or of the certificate.
    unfoldable pub insert_schema_snapshot_graph_inner :
        Str → ℤ → SchemaSnapshot → Str → Option CanonicalMetadata → Statement
    insert_schema_snapshot_graph_inner key captured s payload metadata =
        delete_snapshot key
        >> insert_snapshot (snapshot_record key captured s payload)
        >> insert_nodes (graph_nodes serialization key s metadata)
        >> insert_edges (graph_edges serialization decimal key s metadata)

-- `SELECT COUNT(*) … WHERE snapshot_key = ?1`.
abbrev pub node_count_for_snapshot : Str → Rows → ℕ
node_count_for_snapshot key rows = length (keep (λ n. str_eq n.snapshot_key key) rows.nodes)

abbrev pub edge_count_for_snapshot : Str → Rows → ℕ
edge_count_for_snapshot key rows = length (keep (λ e. str_eq e.snapshot_key key) rows.edges)

unfoldable pub verify_projection_counts : Str → ℕ → ℕ → Statement
verify_projection_counts key expected_nodes expected_edges rows =
    let actual_nodes = node_count_for_snapshot key rows in
    let actual_edges = edge_count_for_snapshot key rows in
    if not (actual_nodes == expected_nodes) || not (actual_edges == expected_edges)
    then (
      err (
          GraphStoreError.projection_mismatch expected_nodes actual_nodes expected_edges
            actual_edges),
      rows,
    )
    else (ok tt, rows)

-- `with_transaction`: ROLLBACK brings back the rows of BEGIN, whatever a failed operation wrote. In
-- memory, BEGIN and COMMIT do not fail.
unfoldable pub with_transaction : Statement → Statement
with_transaction operation rows = elim (operation rows).0 [
  | ok _ ↦ (ok tt, (operation rows).1)
  | err error ↦ (err error, rows)
]
