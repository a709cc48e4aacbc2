-- ===== src/Builder/Tests.antt =====
-- The graph of the shop, in a store that holds an older snapshot and another one.
use rdb_memory_mcp.Base.{
  Str, none, ◌∷◌, err, arith, is_blank, pos, ◌+◌, ◌≡◌, refl, some, [], codes, length, All, Memᴰ, ok,
}
use rdb_memory_mcp.Certification.Accepted.{certificate_valid, shop_certificate, unary}
use rdb_memory_mcp.Certification.Accepted.{store_certifiable}
use rdb_memory_mcp.Certification.Sample.{discovery, plain, finder, asked, quiet}
use rdb_memory_mcp.Certification.Analysis.{certification, analyze_with_cancellation-certifies}
use rdb_memory_mcp.Service.Lifecycle.{complete, analyze_with_cancellation}
use rdb_memory_mcp.Service.Stages.{IsValidRequest}
use rdb_memory_mcp.Builder.Composed.{analyze_with_cancellation-stores}
use rdb_memory_mcp.Builder.Nodes.{Serialization, graph_nodes}
use rdb_memory_mcp.Builder.Edges.{graph_edges}
use rdb_memory_mcp.Builder.Lengths.{left_out}
use rdb_memory_mcp.Builder.Projection.{
  certified_graph_projection_counts, certified_graph_projection_counts-exact,
}
use rdb_memory_mcp.Builder.Whole.{node_keys, graph_edges-closed}
use rdb_memory_mcp.Builder.Rows.{
  Database, Rows, GraphSnapshotRecord, insert_schema_snapshot_graph_inner, snapshot_record,
  delete_snapshot, insert_snapshot, with_transaction,
}
use rdb_memory_mcp.Builder.Insert.{insert_and_verify, insert_certified_schema_snapshot_graph}
use rdb_memory_mcp.Certification.Whole.{verify_certified_schema_snapshot_iff}
use rdb_memory_mcp.Graph.Store.{GraphNodeRecord, GraphStoreError}
use rdb_memory_mcp.Builder.Replaced.{IsReplaced}
use rdb_memory_mcp.Builder.Stored.{insert_schema_snapshot_graph_inner-stores}
use rdb_memory_mcp.Builder.Atomic.{
  HoldsGraph, KeepsOrRestores, insert_certified_schema_snapshot_graph-atomic,
  insert_certified_schema_snapshot_graph-restores,
}

abbrev json : Serialization
json = record {
  node_payload_json = λ _ _. codes "{}";
  edge_payload = λ edge_type. edge_type;
  payload_json = λ _. codes "{}";
}

abbrev trusting : Database
trusting = record {
  foreign_key_failed = codes "FOREIGN KEY constraint failed";
  validate_persisted_snapshot_payload = λ _. ok tt;
}

abbrev refusing : Database
refusing = record {
  foreign_key_failed = codes "FOREIGN KEY constraint failed";
  validate_persisted_snapshot_payload = λ _. err (GraphStoreError.storage (codes "payload"));
}

abbrev old_node : Str → GraphNodeRecord
old_node snapshot = record {
  snapshot_key = snapshot;
  node_key = codes "gone";
  label = codes "Table";
  display_name = none;
  payload_json = codes "{}";
}

abbrev old_snapshot : Str → GraphSnapshotRecord
old_snapshot snapshot = record {
  snapshot_key = snapshot;
  source = none;
  captured_at_unix_ms = pos 0;
  payload_json = codes "{}";
}

-- An older snapshot under the same key, and another snapshot.
abbrev old_rows : Rows
old_rows = record {
  snapshots = old_snapshot (codes "k") ∷ old_snapshot (codes "j") ∷ [];
  nodes = old_node (codes "k") ∷ old_node (codes "j") ∷ [];
  edges = [];
}

certified_graph_projection_counts-exact_example :
    ((certified_graph_projection_counts shop_certificate).objects
      ≡ length (
          graph_nodes json
            (codes "k")
            shop_certificate.snapshot.schema
            (some shop_certificate.snapshot.metadata)))
    × ((certified_graph_projection_counts shop_certificate).graph_edges
        ≡ length (
            graph_edges json unary
              (codes "k")
              shop_certificate.snapshot.schema
              (some shop_certificate.snapshot.metadata))
          + left_out shop_certificate.snapshot.schema)
certified_graph_projection_counts-exact_example =
    certified_graph_projection_counts-exact json unary (codes "k") shop_certificate
      certificate_valid

graph_edges-closed_example :
    All
      (λ e.
        Memᴰ e.edge_from (node_keys json (codes "k") shop_certificate.snapshot)
        × Memᴰ e.edge_to (node_keys json (codes "k") shop_certificate.snapshot)
        × (e.snapshot_key ≡ codes "k"))
      (graph_edges json unary
        (codes "k")
        shop_certificate.snapshot.schema
        (some shop_certificate.snapshot.metadata))
graph_edges-closed_example =
    graph_edges-closed json (codes "k") unary shop_certificate.snapshot certificate_valid.canonical

insert_schema_snapshot_graph_inner-stores_example :
    (stored : Rows) × (insert_schema_snapshot_graph_inner trusting json unary
        (codes "k")
        (pos 0)
        shop_certificate.snapshot.schema
        []
        (some shop_certificate.snapshot.metadata)
        old_rows
      ≡ (ok tt, stored))
    × IsReplaced
        (codes "k")
        (snapshot_record trusting json unary
          (codes "k")
          (pos 0)
          shop_certificate.snapshot.schema
          [])
        (graph_nodes json
          (codes "k")
          shop_certificate.snapshot.schema
          (some shop_certificate.snapshot.metadata))
        (graph_edges json unary
          (codes "k")
          shop_certificate.snapshot.schema
          (some shop_certificate.snapshot.metadata))
        old_rows
        stored
insert_schema_snapshot_graph_inner-stores_example =
    insert_schema_snapshot_graph_inner-stores trusting json unary (codes "k") (pos 0)
      shop_certificate.snapshot [] old_rows certificate_valid.canonical refl

insert_certified_schema_snapshot_graph-atomic_example :
    (stored : Rows) × HoldsGraph trusting json unary
      (codes "k")
      (pos 0)
      shop_certificate
      []
      old_rows
      stored
    × KeepsOrRestores trusting json unary (codes "k") (pos 0) shop_certificate [] old_rows stored
insert_certified_schema_snapshot_graph-atomic_example =
    insert_certified_schema_snapshot_graph-atomic trusting json unary (codes "k") (pos 0)
      shop_certificate [] old_rows certificate_valid refl

-- The payload is refused when the old snapshot has already been deleted.
shop_refused :
    (insert_certified_schema_snapshot_graph refusing json unary
      (codes "k")
      (pos 0)
      shop_certificate
      []
      old_rows).0
    ≡ err (GraphStoreError.storage (codes "payload"))
unfolding insert_certified_schema_snapshot_graph insert_and_verify with_transaction
    insert_schema_snapshot_graph_inner delete_snapshot insert_snapshot
shop_refused =
    rw
      (
        (verify_certified_schema_snapshot_iff unary shop_certificate).1 certificate_valid,
        insert_certified_schema_snapshot_graph,
      )
      refl

insert_certified_schema_snapshot_graph-restores_example :
    (insert_certified_schema_snapshot_graph refusing json unary
      (codes "k")
      (pos 0)
      shop_certificate
      []
      old_rows).1
    ≡ old_rows
insert_certified_schema_snapshot_graph-restores_example =
    insert_certified_schema_snapshot_graph-restores refusing json unary (codes "k") (pos 0)
      shop_certificate [] old_rows (GraphStoreError.storage (codes "payload")) shop_refused

asked-IsValidRequest : IsValidRequest asked
unfolding is_blank
asked-IsValidRequest = (refl, omega arith)

shop_analysis :
    (analyze_with_cancellation plain (certification unary) unary finder quiet asked 0).0
    ≡ complete shop_certificate
shop_analysis =
    (analyze_with_cancellation-certifies plain unary finder quiet asked 0 shop_certificate).1
      (asked-IsValidRequest, refl, refl, refl, (discovery, refl, (store_certifiable, refl)))

analyze_with_cancellation-stores_example :
    (stored : Rows) × HoldsGraph trusting json unary
      (codes "k")
      (pos 0)
      shop_certificate
      []
      old_rows
      stored
    × KeepsOrRestores trusting json unary (codes "k") (pos 0) shop_certificate [] old_rows stored
analyze_with_cancellation-stores_example =
    analyze_with_cancellation-stores plain unary finder quiet asked 0 shop_certificate trusting json
      (codes "k") (pos 0) [] old_rows shop_analysis refl
