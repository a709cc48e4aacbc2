-- ===== src/Graph/Trace/Tests.antt =====
-- The trace over a graph of three nodes, and its theorems at that run.
use rdb_memory_mcp.Base.{
  ◌≡◌, ◌≤◌, refl, none, some, [], ◌∷◌, Str, codes, ok, All, false, arith, length, str_eq, str_cmp,
  member, sort_by, insert_by,
}
use rdb_memory_mcp.Graph.Store.{StoreResult}
use rdb_memory_mcp.Graph.Memory.{
  memory_store, memory_store-IsLawful, node_after, edge_after, priority_after, sqlite_limit,
}
use rdb_memory_mcp.Graph.Edges.{
  Direction, next_edges, next_edges_bounded, merge_bounded_edges, dedup_edges, dedup_after,
  comes_after, traversal_edge_priority, saturating_succ,
}
use rdb_memory_mcp.Graph.Trace.{
  GraphPathHop, BoundedRelationshipTraceResult, follow, trace_edge, trace_edges, trace_round,
  trace_loop, trace_relationships_bounded,
}
use rdb_memory_mcp.Graph.Trace.Sound.{IsPath, trace_relationships_bounded_sound}
use rdb_memory_mcp.Graph.Trace.Budget.{
  trace_relationships_bounded_budget, trace_relationships_bounded_ends,
}
use rdb_memory_mcp.Graph.Sample.{snap, triangle}

abbrev first : GraphPathHop
first = record {
  node_key = codes "a";
  label = codes "T";
  edge_type_used = none;
  edge_from = none;
  edge_to = none;
}

abbrev hop : Str → Str → GraphPathHop
hop from to = record {
  node_key = to;
  label = codes "T";
  edge_type_used = some (codes "F");
  edge_from = some from;
  edge_to = some to;
}

abbrev two_paths : BoundedRelationshipTraceResult
two_paths = record {
  paths =
      record { hops = first ∷ hop (codes "a") (codes "b") ∷ [] }
      ∷ record { hops = first ∷ hop (codes "a") (codes "b") ∷ hop (codes "b") (codes "c") ∷ [] }
      ∷ [];
  truncated = false;
}

triangle_trace :
    trace_relationships_bounded (memory_store triangle) snap Direction.outbound 3 4 5 (codes "a")
    ≡ some (ok two_paths)
unfolding trace_relationships_bounded trace_loop trace_round trace_edges trace_edge follow
    next_edges_bounded next_edges merge_bounded_edges dedup_edges dedup_after comes_after
    traversal_edge_priority saturating_succ sort_by insert_by member str_eq str_cmp node_after
    edge_after priority_after sqlite_limit
triangle_trace = refl

trace_relationships_bounded_sound_example :
    All
      (IsPath
        (memory_store triangle)
        triangle
        (memory_store-IsLawful triangle)
        snap
        (codes "a")
        Direction.outbound
        3
        4)
      two_paths.paths
trace_relationships_bounded_sound_example =
    trace_relationships_bounded_sound (memory_store triangle) triangle
      (memory_store-IsLawful triangle) snap (codes "a") Direction.outbound 3 4 5 two_paths
      triangle_trace

trace_relationships_bounded_budget_example : length two_paths.paths ≤ 4
trace_relationships_bounded_budget_example =
    trace_relationships_bounded_budget (memory_store triangle) triangle
      (memory_store-IsLawful triangle) snap Direction.outbound 3 4 5 (codes "a") two_paths
      (omega arith) triangle_trace

trace_relationships_bounded_ends_example :
    (r : StoreResult BoundedRelationshipTraceResult) × (trace_relationships_bounded
        (memory_store triangle)
        snap
        Direction.outbound
        3
        4
        5
        (codes "a")
      ≡ some r)
trace_relationships_bounded_ends_example =
    trace_relationships_bounded_ends (memory_store triangle) triangle
      (memory_store-IsLawful triangle) snap Direction.outbound 3 4 5 (codes "a") (omega arith)
      (omega arith)
