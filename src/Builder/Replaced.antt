-- ===== src/Builder/Replaced.antt =====
-- What it means that the rows of a snapshot are replaced, and the rows that the inserts leave.
use rdb_memory_mcp.Base.{◌≡◌, not, ◌&&◌, List, [], ◌∷◌, Str, str_eq, keep, All}
use rdb_memory_mcp.Graph.Store.{GraphNodeRecord, GraphEdgeRecord}
use rdb_memory_mcp.Builder.Upserts.{
  last_or, upserts, keep-replaced, keep-replaced_others, keep-first, keep-first_others,
}
use rdb_memory_mcp.Builder.Rows.{Rows, GraphSnapshotRecord}

-- The store before and after a snapshot is replaced. Under the key of the snapshot stand its record
-- and, under each node key and each edge key, the last row of the graph that has it, and no other
-- rows; the rows of the other snapshots are those from before, in their order.
pub record IsReplaced (key : Str) (r : GraphSnapshotRecord) (ns : List GraphNodeRecord)
    (es : List GraphEdgeRecord) (before after : Rows) : Type 0 where
  pub snapshot : keep (λ q. str_eq q.snapshot_key key) after.snapshots ≡ r ∷ []
  pub nodes :
      (k : Str)
      → keep (λ n. str_eq n.snapshot_key key && str_eq n.node_key k) after.nodes
        ≡ last_or [] (keep (λ n. str_eq n.node_key k) ns)
  pub edges :
      (k : Str)
      → keep (λ e. str_eq e.snapshot_key key && str_eq e.edge_key k) after.edges
        ≡ last_or [] (keep (λ e. str_eq e.edge_key k) es)
  pub other_snapshots :
      keep (λ q. not (str_eq q.snapshot_key key)) after.snapshots
      ≡ keep (λ q. not (str_eq q.snapshot_key key)) before.snapshots
  pub other_nodes :
      keep (λ n. not (str_eq n.snapshot_key key)) after.nodes
      ≡ keep (λ n. not (str_eq n.snapshot_key key)) before.nodes
  pub other_edges :
      keep (λ e. not (str_eq e.snapshot_key key)) after.edges
      ≡ keep (λ e. not (str_eq e.snapshot_key key)) before.edges

abbrev pub upsert_nodes : List GraphNodeRecord → List GraphNodeRecord → List GraphNodeRecord
upsert_nodes = upserts (λ n. n.snapshot_key) (λ n. n.node_key)

abbrev pub upsert_edges : List GraphEdgeRecord → List GraphEdgeRecord → List GraphEdgeRecord
upsert_edges = upserts (λ e. e.snapshot_key) (λ e. e.edge_key)

-- The rows when a snapshot has been deleted, and its nodes and edges have been put in again.
abbrev pub replaced :
    Str → GraphSnapshotRecord → List GraphNodeRecord → List GraphEdgeRecord → Rows → Rows
replaced key r ns es rows = record {
  snapshots =
      r
      ∷ keep (λ q. not (str_eq q.snapshot_key r.snapshot_key))
          (keep (λ q. not (str_eq q.snapshot_key key)) rows.snapshots);
  nodes = upsert_nodes ns (keep (λ n. not (str_eq n.snapshot_key key)) rows.nodes);
  edges = upsert_edges es (keep (λ e. not (str_eq e.snapshot_key key)) rows.edges);
}

pub replaced-IsReplaced :
    (key : Str) (r : GraphSnapshotRecord) (ns : List GraphNodeRecord) (es : List GraphEdgeRecord)
    (rows : Rows)
    → r.snapshot_key ≡ key
    → All (λ n. n.snapshot_key ≡ key) ns
    → All (λ e. e.snapshot_key ≡ key) es
    → IsReplaced key r ns es rows (replaced key r ns es rows)
replaced-IsReplaced key r ns es rows same of_nodes of_edges = record {
  snapshot = keep-first (λ q. q.snapshot_key) key r rows.snapshots same;
  nodes = λ k. keep-replaced (λ n. n.snapshot_key) (λ n. n.node_key) key k ns rows.nodes of_nodes;
  edges = λ k. keep-replaced (λ e. e.snapshot_key) (λ e. e.edge_key) key k es rows.edges of_edges;
  other_snapshots = keep-first_others (λ q. q.snapshot_key) key r rows.snapshots same;
  other_nodes =
      keep-replaced_others (λ n. n.snapshot_key) (λ n. n.node_key) key ns rows.nodes of_nodes;
  other_edges =
      keep-replaced_others (λ e. e.snapshot_key) (λ e. e.edge_key) key es rows.edges of_edges;
}
