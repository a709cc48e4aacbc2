-- ===== src/Graph/Sample.antt =====
-- A stored graph of three nodes, for the tests.
use rdb_memory_mcp.Base.{none, [], ◌∷◌, Str, codes}
use rdb_memory_mcp.Graph.Store.{GraphNodeRecord, GraphEdgeRecord, Tables}

abbrev pub snap : Str
snap = codes "p"

abbrev pub node : Str → GraphNodeRecord
node k = record {
  snapshot_key = snap;
  node_key = k;
  label = codes "T";
  display_name = none;
  payload_json = [];
}

abbrev pub edge : Str → Str → Str → GraphEdgeRecord
edge k a b = record {
  snapshot_key = snap;
  edge_key = k;
  edge_from = a;
  edge_to = b;
  edge_type = codes "F";
  payload_json = [];
}

-- a leads to b, b to c, and c back to a.
abbrev pub triangle : Tables
triangle = record {
  nodes = node (codes "a") ∷ node (codes "b") ∷ node (codes "c") ∷ [];
  edges =
      edge (codes "1") (codes "a") (codes "b")
      ∷ edge (codes "2") (codes "b") (codes "c")
      ∷ edge (codes "3") (codes "c") (codes "a")
      ∷ [];
}
