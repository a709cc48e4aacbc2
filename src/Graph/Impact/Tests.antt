-- ===== src/Graph/Impact/Tests.antt =====
-- A graph of three nodes: what the search reports, and its theorems at a run.
use rdb_memory_mcp.Base.{
  ℕ, ◌≡◌, ◌≢◌, ◌≤◌, refl, none, some, List, [], ◌∷◌, Str, codes, ok, Bool, All, Distinct, false,
  arith, length, str_eq, str_cmp, member, sort_by, insert_by,
}
use rdb_memory_mcp.Graph.Store.{StoreResult}
use rdb_memory_mcp.Graph.Memory.{
  memory_store, memory_store-IsLawful, node_after, edge_after, priority_after, sqlite_limit,
}
use rdb_memory_mcp.Graph.Edges.{
  Direction, next_edges, next_edges_bounded, merge_bounded_edges, dedup_edges, dedup_after,
  comes_after, traversal_edge_priority, saturating_succ,
}
use rdb_memory_mcp.Graph.Impact.{
  ImpactAnalysisNode, enter, visit_edge, visit_edges, expand, loop, search_from,
}
use rdb_memory_mcp.Graph.Impact.Sound.{Reported, node_keys, search_from_sound}
use rdb_memory_mcp.Graph.Impact.Ends.{search_from_ends}
use rdb_memory_mcp.Graph.Impact.Budget.{search_from-bounded}
use mathlib.Core.List.{Perm}
use rdb_memory_mcp.Graph.Impact.Groups.{flatten, groups_of, Uniform, Increasing, groups_of_lem}
use rdb_memory_mcp.Graph.Sample.{snap, triangle}

abbrev found : Str → ℕ → Str → ImpactAnalysisNode
found k d from = record {
  node_key = k;
  label = codes "T";
  display_name = none;
  depth = d;
  edge_type_used = codes "F";
  edge_from = from;
  edge_to = k;
}

triangle_run :
    search_from (memory_store triangle) snap Direction.outbound 2 3 4 (codes "a")
    ≡ some (ok (found (codes "b") 1 (codes "a") ∷ found (codes "c") 2 (codes "b") ∷ [], false))
unfolding search_from loop expand visit_edges visit_edge enter next_edges_bounded next_edges
    merge_bounded_edges dedup_edges dedup_after comes_after traversal_edge_priority saturating_succ
    sort_by insert_by member str_eq str_cmp node_after edge_after priority_after sqlite_limit
triangle_run = refl

search_from_sound_example :
    All
      (Reported
        (memory_store triangle)
        triangle
        (memory_store-IsLawful triangle)
        snap
        (codes "a")
        Direction.outbound
        2
        3)
      (found (codes "b") 1 (codes "a") ∷ found (codes "c") 2 (codes "b") ∷ [])
    × All
        (λ n. n.node_key ≢ codes "a")
        (found (codes "b") 1 (codes "a") ∷ found (codes "c") 2 (codes "b") ∷ [])
    × Distinct (node_keys (found (codes "b") 1 (codes "a") ∷ found (codes "c") 2 (codes "b") ∷ []))
search_from_sound_example =
    search_from_sound (memory_store triangle) triangle (memory_store-IsLawful triangle) snap
      (codes "a") Direction.outbound 2 3 4
      (found (codes "b") 1 (codes "a") ∷ found (codes "c") 2 (codes "b") ∷ []) false triangle_run

search_from_ends_example :
    (r : StoreResult (List ImpactAnalysisNode × Bool)) × (search_from
        (memory_store triangle)
        snap
        Direction.outbound
        2
        3
        4
        (codes "a")
      ≡ some r)
search_from_ends_example =
    search_from_ends (memory_store triangle) triangle (memory_store-IsLawful triangle) snap
      Direction.outbound 2 3 4 (codes "a") (omega arith)

search_from-bounded_example :
    length (found (codes "b") 1 (codes "a") ∷ found (codes "c") 2 (codes "b") ∷ []) ≤ 3
search_from-bounded_example =
    search_from-bounded (memory_store triangle) triangle (memory_store-IsLawful triangle) snap
      Direction.outbound 2 3 4 (codes "a")
      (found (codes "b") 1 (codes "a") ∷ found (codes "c") 2 (codes "b") ∷ []) false (omega arith)
      triangle_run

abbrev two_depths : List ImpactAnalysisNode
two_depths = found (codes "c") 2 (codes "b") ∷ found (codes "b") 1 (codes "a") ∷ []

groups_of_lem_example :
    Perm (flatten (groups_of two_depths)) two_depths
    × All Uniform (groups_of two_depths)
    × Increasing (groups_of two_depths)
groups_of_lem_example = groups_of_lem two_depths
