-- ===== src/Graph/Store.antt =====
-- The reading side of `GraphStore` as an interface. Its statements are run by SQLite, so a reader
-- takes the queries as functions that may fail; `IsLawful` says what a result of each is.
use rdb_memory_mcp.Base.{ℕ, ◌≤◌, ◌≡◌, List, Option, some, Str, Result, ok, All, length, Memᴰ}

pub record GraphNodeRecord : Type 0 where
  pub snapshot_key : Str
  pub node_key : Str
  pub label : Str
  pub display_name : Option Str
  pub payload_json : Str

pub record GraphEdgeRecord : Type 0 where
  pub snapshot_key : Str
  pub edge_key : Str
  pub edge_from : Str
  pub edge_to : Str
  pub edge_type : Str
  pub payload_json : Str

-- The error of a query, with the text of the error that it wraps.
pub data GraphStoreError : Type 0 where
  storage payload invalid_snapshot invalid_certification : Str → GraphStoreError
  projection_mismatch : ℕ → ℕ → ℕ → ℕ → GraphStoreError
  unsupported_schema_version : ℕ → GraphStoreError

abbrev pub StoreResult : Type 0 → Type 0
StoreResult A = Result GraphStoreError A

-- Each function takes the snapshot key first.
pub record GraphStore : Type 0 where
  pub get_node : Str → Str → StoreResult (Option GraphNodeRecord)
  pub nodes_by_label : Str → Str → StoreResult (List GraphNodeRecord)
  pub nodes_for_snapshot : Str → StoreResult (List GraphNodeRecord)
  pub edges_for_snapshot : Str → StoreResult (List GraphEdgeRecord)
  pub edges_from : Str → Str → StoreResult (List GraphEdgeRecord)
  pub edges_to : Str → Str → StoreResult (List GraphEdgeRecord)
  pub edges_from_limited : Str → Str → ℕ → StoreResult (List GraphEdgeRecord)
  pub edges_to_limited : Str → Str → ℕ → StoreResult (List GraphEdgeRecord)
  pub edges_from_by_type_limited : Str → Str → Str → ℕ → StoreResult (List GraphEdgeRecord)
  pub edges_to_by_type_limited : Str → Str → Str → ℕ → StoreResult (List GraphEdgeRecord)
  pub edges_by_type_limited : Str → Str → ℕ → StoreResult (List GraphEdgeRecord)

-- The rows that the store holds.
pub record Tables : Type 0 where
  pub nodes : List GraphNodeRecord
  pub edges : List GraphEdgeRecord

abbrev pub HasNode : Tables → Str → GraphNodeRecord → Type 0
HasNode t snapshot n = Memᴰ n t.nodes × (n.snapshot_key ≡ snapshot)

abbrev pub HasEdge : Tables → Str → GraphEdgeRecord → Type 0
HasEdge t snapshot e = Memᴰ e t.edges × (e.snapshot_key ≡ snapshot)

-- What the WHERE, ORDER BY and LIMIT clauses of the queries promise of a result.
pub record IsLawful (store : GraphStore) (t : Tables) : Type 0 where
  pub get_node_sound :
      (s k : Str) (n : GraphNodeRecord)
      → store.get_node s k ≡ ok (some n)
      → HasNode t s n × (n.node_key ≡ k)
  pub edges_from_sound :
      (s k : Str) (es : List GraphEdgeRecord)
      → store.edges_from s k ≡ ok es
      → All (λ e. HasEdge t s e × (e.edge_from ≡ k)) es
  pub edges_to_sound :
      (s k : Str) (es : List GraphEdgeRecord)
      → store.edges_to s k ≡ ok es
      → All (λ e. HasEdge t s e × (e.edge_to ≡ k)) es
  pub edges_from_limited_sound :
      (s k : Str) (limit : ℕ) (es : List GraphEdgeRecord)
      → store.edges_from_limited s k limit ≡ ok es
      → All (λ e. HasEdge t s e × (e.edge_from ≡ k)) es × (length es ≤ limit)
  pub edges_to_limited_sound :
      (s k : Str) (limit : ℕ) (es : List GraphEdgeRecord)
      → store.edges_to_limited s k limit ≡ ok es
      → All (λ e. HasEdge t s e × (e.edge_to ≡ k)) es × (length es ≤ limit)
  pub edges_from_by_type_limited_sound :
      (s k kind : Str) (limit : ℕ) (es : List GraphEdgeRecord)
      → store.edges_from_by_type_limited s k kind limit ≡ ok es
      → All (λ e. HasEdge t s e × ((e.edge_from ≡ k) × (e.edge_type ≡ kind))) es
        × (length es ≤ limit)
  pub edges_to_by_type_limited_sound :
      (s k kind : Str) (limit : ℕ) (es : List GraphEdgeRecord)
      → store.edges_to_by_type_limited s k kind limit ≡ ok es
      → All (λ e. HasEdge t s e × ((e.edge_to ≡ k) × (e.edge_type ≡ kind))) es × (length es ≤ limit)
