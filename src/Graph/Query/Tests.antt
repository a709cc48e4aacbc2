-- ===== src/Graph/Query/Tests.antt =====
-- A query over a graph of three nodes, and its theorem at that run.
use rdb_memory_mcp.Base.{
  arith, ◌+◌, ◌≡◌, ◌≤◌, refl, none, some, [], ◌∷◌, Str, codes, ok, true, false, length, str_eq,
  str_cmp, member, sort_by, insert_by,
}
use rdb_memory_mcp.Graph.Memory.{
  memory_store, memory_store-IsLawful, node_after, edge_after, priority_after, sqlite_limit,
}
use rdb_memory_mcp.Graph.Edges.{
  Direction, next_edges, next_edges_bounded, merge_bounded_edges, dedup_edges, dedup_after,
  comes_after, traversal_edge_priority, saturating_succ,
}
use rdb_memory_mcp.Graph.Query.{
  Library, GraphQuery, GraphQueryResult, min_of, wants_nodes, next_query_edges_bounded, hit,
  query_edge_step, query_edge_steps, query_round, query_loop, bounded_traversal, node_matches,
  matching_nodes, found_nodes, found_edges, found_hits, result_from, query_graph,
}
use rdb_memory_mcp.Graph.Query.Limit.{query_graph_limit}
use rdb_memory_mcp.Graph.Query.Ends.{query_graph_ends}
use rdb_memory_mcp.Graph.Store.{StoreResult}
use rdb_memory_mcp.Graph.Sample.{snap, triangle}

-- Payloads are left as text.
abbrev plain : Library Str
plain = record { payload_value = λ s. s; array_len = λ _ _. none; to_lowercase = λ s. s }

-- All that is reached from a, over edges of one type, with a limit above the greatest.
abbrev reachable : GraphQuery
reachable = record {
  snapshot_key = snap;
  node_label = none;
  node_key_contains = some (codes "b");
  name_contains = none;
  edge_type = some (codes "F");
  payload_array_min_len = none;
  traversal =
      some (record { start_node_key = codes "a"; direction = Direction.outbound; max_depth = 2 });
  limit = 600;
}

abbrev answer : GraphQueryResult Str
answer = record {
  snapshot_key = snap;
  limit_requested = 600;
  limit_applied = 500;
  limit_clamped = true;
  max_depth_requested = some 2;
  max_depth_applied = some 2;
  max_depth_clamped = false;
  result_count = 3;
  truncated = false;
  nodes =
      record { node_key = codes "b"; label = codes "T"; display_name = none; payload = [] } ∷ [];
  edges = [];
  traversal =
      record {
        node_key = codes "b";
        label = codes "T";
        display_name = none;
        depth = 1;
        edge_key = codes "1";
        edge_type = codes "F";
      }
      ∷ record {
        node_key = codes "c";
        label = codes "T";
        display_name = none;
        depth = 2;
        edge_key = codes "2";
        edge_type = codes "F";
      }
      ∷ [];
}

query_run : query_graph (memory_store triangle) plain 4 reachable ≡ some (ok answer)
unfolding query_graph result_from found_nodes found_edges found_hits matching_nodes node_matches
    wants_nodes min_of bounded_traversal query_loop query_round query_edge_steps query_edge_step hit
    next_query_edges_bounded next_edges_bounded next_edges merge_bounded_edges dedup_edges
    dedup_after comes_after traversal_edge_priority saturating_succ sort_by insert_by member str_eq
    str_cmp node_after edge_after priority_after sqlite_limit
query_run = refl

query_graph_limit_example :
    (answer.result_count ≡ length answer.nodes + length answer.edges + length answer.traversal)
    × (answer.result_count ≤ answer.limit_applied)
    × (answer.limit_applied ≤ reachable.limit)
    × (answer.limit_applied ≤ 500)
query_graph_limit_example =
    query_graph_limit (memory_store triangle) triangle (memory_store-IsLawful triangle) plain 4
      reachable answer query_run

query_graph_ends_example :
    (r : StoreResult (GraphQueryResult Str)) × (query_graph
        (memory_store triangle)
        plain
        501
        reachable
      ≡ some r)
query_graph_ends_example =
    query_graph_ends (memory_store triangle) triangle (memory_store-IsLawful triangle) plain 501
      reachable (omega arith)
