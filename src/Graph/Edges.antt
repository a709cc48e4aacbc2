-- ===== src/Graph/Edges.antt =====
-- The edges next to a node: `next_edges`, `next_edges_bounded` and `merge_bounded_edges` of
-- impact_analysis.rs. A `usize` is a number up to `usize_max`.
pub mod Laws
use Prim.Native.Nat.{compare, Ordering}
use rdb_memory_mcp.Base.{
  ℕ, ◌+◌, Bool, true, false, not, ◌&&◌, ◌||◌, List, [], ◌∷◌, ◌++◌, map, Str, codes, str_eq, str_cmp,
  length, take, ltb, ◌==◌, if◌then◌else◌, ok, ◌>>=◌, member, sort_by,
}
use rdb_memory_mcp.Graph.Store.{GraphStore, GraphEdgeRecord, StoreResult}

pub data Direction : Type 0 where
  inbound outbound both : Direction

-- `matches!(direction, Direction::Outbound | Direction::Both)`.
abbrev pub goes_out : Direction → Bool
goes_out inbound = false
goes_out _ = true

-- `matches!(direction, Direction::Inbound | Direction::Both)`.
abbrev pub goes_in : Direction → Bool
goes_in outbound = false
goes_in _ = true

-- `usize::MAX` on a 64-bit target.
abbrev pub usize_max : ℕ
usize_max = 0xffffffffffffffff

-- `n.saturating_add(1)`.
unfoldable pub saturating_succ : ℕ → ℕ
saturating_succ n = if n == usize_max then usize_max else n + 1

-- An edge with the key of the node at its other end.
abbrev pub NextEdge : Type 0
NextEdge = GraphEdgeRecord × Str

abbrev pub out_next : GraphEdgeRecord → NextEdge
out_next e = (e, e.edge_to)

abbrev pub in_next : GraphEdgeRecord → NextEdge
in_next e = (e, e.edge_from)

-- A query that is made only in some directions; otherwise it adds no row.
abbrev pub when_asked :
    Bool → StoreResult (List GraphEdgeRecord) → StoreResult (List GraphEdgeRecord)
when_asked true query = query
when_asked false query = ok []

-- `next_edges`.
unfoldable pub next_edges : GraphStore → Str → Str → Direction → StoreResult (List NextEdge)
next_edges store snapshot node direction =
    when_asked (goes_out direction) (store.edges_from snapshot node) >>= λ outgoing.
    when_asked (goes_in direction) (store.edges_to snapshot node) >>= λ incoming.
    ok (map out_next outgoing ++ map in_next incoming)

abbrev ownership_types : List Str
ownership_types =
    codes "DATABASE_HAS_SCHEMA"
    ∷ codes "SCHEMA_HAS_TABLE"
    ∷ codes "SCHEMA_HAS_VIEW"
    ∷ codes "SCHEMA_HAS_ROUTINE"
    ∷ codes "TABLE_HAS_COLUMN"
    ∷ []

-- `traversal_edge_priority`.
unfoldable pub traversal_edge_priority : Str → ℕ
traversal_edge_priority edge_type =
    if member str_eq edge_type ownership_types
    then 2
    else if str_eq edge_type (codes "TABLE_HAS_INDEX")
    then 1
    else 0

-- The comparison of the sort: by priority, then by edge key. Whether the first comes after the
-- second.
unfoldable pub comes_after : NextEdge → NextEdge → Bool
comes_after a b =
    elim (compare (traversal_edge_priority a.0.edge_type) (traversal_edge_priority b.0.edge_type)) [
      | Ordering.lt ↦ false
      | Ordering.gt ↦ true
      | Ordering.eq ↦ elim (str_cmp a.0.edge_key b.0.edge_key) [ Ordering.gt ↦ true | _ ↦ false ]
    ]

-- `edges.dedup_by(…)`: an edge with the key of the last edge kept is dropped.
unfoldable pub dedup_after : NextEdge → List NextEdge → List NextEdge
dedup_after x [] = []
dedup_after x (y ∷ ys) =
    let same = dedup_after x ys in
    let other = dedup_after y ys in if str_eq y.0.edge_key x.0.edge_key then same else y ∷ other

unfoldable pub dedup_edges : List NextEdge → List NextEdge
dedup_edges [] = []
dedup_edges (x ∷ xs) = x ∷ dedup_after x xs

-- `merge_bounded_edges`.
unfoldable pub merge_bounded_edges : List NextEdge → ℕ → Bool → List NextEdge × Bool
merge_bounded_edges edges max_edges source_truncated =
    let deduped = dedup_edges (sort_by comes_after edges) in
    (take max_edges deduped, source_truncated || ltb max_edges (length deduped))

-- The part of `next_edges_bounded` behind its queries.
abbrev pub merge_sources : ℕ → List GraphEdgeRecord → List GraphEdgeRecord → List NextEdge × Bool
merge_sources max_edges outgoing incoming =
    merge_bounded_edges (map out_next outgoing ++ map in_next incoming) max_edges
      (ltb max_edges (length outgoing) || ltb max_edges (length incoming))

-- `next_edges_bounded`.
unfoldable pub next_edges_bounded :
    GraphStore → Str → Str → Direction → ℕ → StoreResult (List NextEdge × Bool)
next_edges_bounded store snapshot node direction max_edges =
    if max_edges == usize_max
    then (next_edges store snapshot node direction >>= λ edges. ok (edges, false))
    else let fetch_limit = saturating_succ max_edges in
      when_asked (goes_out direction) (store.edges_from_limited snapshot node fetch_limit)
      >>= λ outgoing.
          when_asked (goes_in direction) (store.edges_to_limited snapshot node fetch_limit)
          >>= λ incoming. ok (merge_sources max_edges outgoing incoming)
