-- ===== src/Graph/Query.antt =====
-- `query_graph` of graph_query.rs: matching nodes, matching edges and a traversal under one limit.
-- JSON parsing and lower case are the libraries', and parameters.
pub mod Limit
pub mod Ends
mod Tests
use rdb_memory_mcp.Base.{
  is_some, ℕ, zero, suc, ◌+◌, ◌-◌, Bool, true, false, not, ◌&&◌, ◌||◌, Option, none, some, List, [],
  ◌∷◌, ◌++◌, map, Str, str_eq, member, keep, take, length, ltb, leb, Result, ok, err, ◌>>=◌, ◌==◌,
  if◌then◌else◌,
}
use mathlib.Core.Option
use rdb_memory_mcp.Graph.Store.{GraphStore, GraphNodeRecord, GraphEdgeRecord, StoreResult}
use rdb_memory_mcp.Graph.Edges.{
  Direction, NextEdge, next_edges_bounded, merge_sources, when_asked, goes_out, goes_in,
  saturating_succ,
}

abbrev pub graph_query_max_limit : ℕ
graph_query_max_limit = 500

abbrev pub graph_query_max_depth : ℕ
graph_query_max_depth = 8

pub record PayloadArrayMinLen : Type 0 where
  pub field : Str
  pub min_len : ℕ

pub record GraphQueryTraversal : Type 0 where
  pub start_node_key : Str
  pub direction : Direction
  pub max_depth : ℕ

pub record GraphQuery : Type 0 where
  pub snapshot_key : Str
  pub node_label : Option Str
  pub node_key_contains : Option Str
  pub name_contains : Option Str
  pub edge_type : Option Str
  pub payload_array_min_len : Option PayloadArrayMinLen
  pub traversal : Option GraphQueryTraversal
  pub limit : ℕ

pub record GraphQueryTraversalHit : Type 0 where
  pub node_key : Str
  pub label : Str
  pub display_name : Option Str
  pub depth : ℕ
  pub edge_key : Str
  pub edge_type : Str

-- The libraries' functions: the value of a payload (null where it is no JSON), the length of the
-- array in a field of a payload, and `to_lowercase`.
pub record Library (V : Type 0) : Type 0 where
  pub payload_value : Str → V
  pub array_len : Str → Str → Option ℕ
  pub to_lowercase : Str → Str

pub record GraphQueryNode (V : Type 0) : Type 0 where
  pub node_key : Str
  pub label : Str
  pub display_name : Option Str
  pub payload : V

pub record GraphQueryEdge (V : Type 0) : Type 0 where
  pub edge_key : Str
  pub edge_from : Str
  pub edge_to : Str
  pub edge_type : Str
  pub payload : V

pub record GraphQueryResult (V : Type 0) : Type 0 where
  pub snapshot_key : Str
  pub limit_requested : ℕ
  pub limit_applied : ℕ
  pub limit_clamped : Bool
  pub max_depth_requested : Option ℕ
  pub max_depth_applied : Option ℕ
  pub max_depth_clamped : Bool
  pub result_count : ℕ
  pub truncated : Bool
  pub nodes : List (GraphQueryNode V)
  pub edges : List (GraphQueryEdge V)
  pub traversal : List GraphQueryTraversalHit

-- `a.min(b)`.
unfoldable pub min_of : ℕ → ℕ → ℕ
min_of a b = if leb a b then a else b

-- `option.map(test).unwrap_or(default)`.
abbrev pub map_or {ℓ} : {A : Type ℓ} → Bool → (A → Bool) → Option A → Bool
map_or default test none = default
map_or default test (some a) = test a

abbrev starts_with : Str → Str → Bool
starts_with [] s = true
starts_with (x ∷ p) [] = false
starts_with (x ∷ p) (y ∷ s) = x == y && starts_with p s

-- `value.contains(needle)` on texts.
abbrev pub contains_text : Str → Str → Bool
contains_text needle [] = starts_with needle []
contains_text needle (x ∷ s) = starts_with needle (x ∷ s) || contains_text needle s

unfoldable pub wants_nodes : GraphQuery → Bool
wants_nodes q =
    is_some q.node_label
    || (is_some q.node_key_contains
        || (is_some q.name_contains
            || (is_some q.payload_array_min_len
                || (not (is_some q.edge_type) && not (is_some q.traversal)))))

-- The variables of the traversal.
pub record Hits : Type 0 where
  pub visited : List Str
  pub queue : List (Str × ℕ)
  pub hits : List GraphQueryTraversalHit
  pub truncated : Bool

abbrev pub hit_of : NextEdge → GraphNodeRecord → ℕ → GraphQueryTraversalHit
hit_of x node next_depth = record {
  node_key = x.1;
  label = node.label;
  display_name = node.display_name;
  depth = next_depth;
  edge_key = x.0.edge_key;
  edge_type = x.0.edge_type;
}

module _ (store : GraphStore) where
  -- `next_query_edges_bounded`.
  unfoldable pub next_query_edges_bounded :
      Str → Str → Direction → Option Str → ℕ → StoreResult (List NextEdge × Bool)
  next_query_edges_bounded snapshot node direction none max_edges =
      next_edges_bounded store snapshot node direction max_edges
  next_query_edges_bounded snapshot node direction (some edge_type) max_edges =
      let fetch_limit = saturating_succ max_edges in
      when_asked (goes_out direction)
        (store.edges_from_by_type_limited snapshot node edge_type fetch_limit)
      >>= λ outgoing.
          when_asked (goes_in direction)
            (store.edges_to_by_type_limited snapshot node edge_type fetch_limit)
          >>= λ incoming. ok (merge_sources max_edges outgoing incoming)

  module _ (snapshot_key : Str) (direction : Direction) (edge_type : Option Str)
      (max_depth limit : ℕ) where
    unfoldable pub hit : NextEdge → ℕ → Hits → Option GraphNodeRecord → Hits
    hit x depth st none = record st { visited = x.1 ∷ st.visited }
    hit x depth st (some node) =
        let longer = st.queue ++ (x.1, depth + 1) ∷ [] in
        record st {
          visited = x.1 ∷ st.visited;
          hits = st.hits ++ hit_of x node (depth + 1) ∷ [];
          queue = if ltb (depth + 1) max_depth then longer else st.queue;
        }

    -- The body of the `for` loop, and the loop.
    unfoldable pub query_edge_step : NextEdge → ℕ → Hits → StoreResult Hits
    query_edge_step x depth st =
        if member str_eq x.1 st.visited
        then ok st
        else (store.get_node snapshot_key x.1 >>= λ found. ok (hit x depth st found))

    unfoldable pub query_edge_steps : List NextEdge → ℕ → Hits → StoreResult Hits
    query_edge_steps [] depth st = ok st
    query_edge_steps (x ∷ xs) depth st =
        query_edge_step x depth st >>= λ st'. query_edge_steps xs depth st'

    -- The rest of a round, after the node left the queue below the depth bound and the limit.
    unfoldable pub query_round : Str → ℕ → Hits → StoreResult (Hits × Bool)
    query_round node_key depth st =
        next_query_edges_bounded snapshot_key node_key direction edge_type (limit - length st.hits)
        >>= λ found.
            query_edge_steps found.0 depth (record st { truncated = st.truncated || found.1 })
            >>= λ st'. ok (st', found.1)

    -- The `while let` loop on fuel.
    unfoldable pub query_loop : ℕ → Hits → Option (StoreResult Hits)
    query_loop zero st = elim st.queue [ [] ↦ some (ok st) | _ ∷ _ ↦ none ]
    query_loop (suc fuel) st = elim st.queue [
      | [] ↦ some (ok st)
      | (node_key, depth) ∷ rest ↦
          let st₁ : Hits = record st { queue = rest } in
          elim (depth == max_depth) [
            | true ↦ query_loop fuel st₁
            | false ↦ elim (length st.hits == limit) [
              | true ↦ some (ok (record st₁ { truncated = true }))
              | false ↦ elim (query_round node_key depth st₁) [
                | err e ↦ some (err e)
                | ok (st₂, stop) ↦ elim stop [ true ↦ some (ok st₂) | false ↦ query_loop fuel st₂ ]
              ]
            ]
          ]
    ]

    abbrev pub query_start : Str → Hits
    query_start start_key = record {
      visited = start_key ∷ [];
      queue = (start_key, 0) ∷ [];
      hits = [];
      truncated = false;
    }

    -- `bounded_traversal`: the hits, and whether they are truncated.
    unfoldable pub bounded_traversal :
        ℕ → Str → Option (StoreResult (List GraphQueryTraversalHit × Bool))
    bounded_traversal fuel start_key = elim (max_depth == 0) [
      | true ↦ some (ok ([], false))
      | false ↦ elim (store.get_node snapshot_key start_key) [
        | err e ↦ some (err e)
        | ok none ↦ some (ok ([], false))
        | ok (some _) ↦ elim (query_loop fuel (query_start start_key)) [
          | none ↦ none
          | some (err e) ↦ some (err e)
          | some (ok st) ↦ some (ok (st.hits, st.truncated))
        ]
      ]
    ]

  module _ {V : Type 0} (library : Library V) where
    abbrev pub contains_ignore_case : Str → Str → Bool
    contains_ignore_case value needle =
        contains_text (library.to_lowercase needle) (library.to_lowercase value)

    abbrev pub payload_array_len_at_least : Str → PayloadArrayMinLen → Bool
    payload_array_len_at_least payload filter =
        map_or false (λ n. leb filter.min_len n) (library.array_len payload filter.field)

    unfoldable pub node_matches : GraphQuery → GraphNodeRecord → Bool
    node_matches q node =
        map_or true (contains_ignore_case node.node_key) q.node_key_contains
        && (map_or true
              (λ needle. map_or false (λ name. contains_ignore_case name needle) node.display_name)
              q.name_contains
            && map_or true (payload_array_len_at_least node.payload_json) q.payload_array_min_len)

    unfoldable pub matching_nodes : GraphQuery → StoreResult (List GraphNodeRecord)
    matching_nodes q =
        elim q.node_label [
          | none ↦ store.nodes_for_snapshot q.snapshot_key
          | some label ↦ store.nodes_by_label q.snapshot_key label
        ]
        >>= λ nodes. ok (keep (node_matches q) nodes)

    abbrev pub query_node : GraphNodeRecord → GraphQueryNode V
    query_node n = record {
      node_key = n.node_key;
      label = n.label;
      display_name = n.display_name;
      payload = library.payload_value n.payload_json;
    }

    abbrev pub query_edge : GraphEdgeRecord → GraphQueryEdge V
    query_edge e = record {
      edge_key = e.edge_key;
      edge_from = e.edge_from;
      edge_to = e.edge_to;
      edge_type = e.edge_type;
      payload = library.payload_value e.payload_json;
    }

    -- The nodes of the result, with the limit that remains, and whether there are more.
    unfoldable pub found_nodes : GraphQuery → ℕ → StoreResult (List (GraphQueryNode V) × Bool)
    found_nodes q remaining =
        if wants_nodes q
        then (matching_nodes q >>= λ ms.
            ok (map query_node (take remaining ms), ltb remaining (length ms)))
        else ok ([], false)

    -- The edges of the result, which only a query without a traversal has.
    unfoldable pub found_edges : GraphQuery → ℕ → StoreResult (List (GraphQueryEdge V) × Bool)
    found_edges q remaining = elim q.traversal [
      | some _ ↦ ok ([], false)
      | none ↦ elim q.edge_type [
        | none ↦ ok ([], false)
        | some edge_type ↦
            store.edges_by_type_limited q.snapshot_key edge_type (saturating_succ remaining)
            >>= λ ms. ok (map query_edge (take remaining ms), ltb remaining (length ms))
      ]
    ]

    abbrev pub depth_applied : GraphQueryTraversal → ℕ
    depth_applied tr = min_of tr.max_depth graph_query_max_depth

    -- The hits of the traversal, where the query has one.
    unfoldable pub found_hits :
        ℕ → GraphQuery → ℕ → Option (StoreResult (List GraphQueryTraversalHit × Bool))
    found_hits fuel q remaining = elim q.traversal [
      | none ↦ some (ok ([], false))
      | some tr ↦
          bounded_traversal q.snapshot_key tr.direction q.edge_type (depth_applied tr) remaining
            fuel tr.start_node_key
    ]

    -- `a != b` on optional numbers.
    abbrev pub differ : Option ℕ → Option ℕ → Bool
    differ none none = false
    differ none (some _) = true
    differ (some _) none = true
    differ (some a) (some b) = not (a == b)

    unfoldable pub result_from :
        GraphQuery
        → List (GraphQueryNode V) × Bool
        → List (GraphQueryEdge V) × Bool
        → List GraphQueryTraversalHit × Bool
        → GraphQueryResult V
    result_from q nodes edges hits =
        let limit_applied = min_of q.limit graph_query_max_limit in
        let requested = Option.map (λ tr. tr.max_depth) q.traversal in
        let applied = Option.map depth_applied q.traversal in
        record {
          snapshot_key = q.snapshot_key;
          limit_requested = q.limit;
          limit_applied = limit_applied;
          limit_clamped = not (q.limit == limit_applied);
          max_depth_requested = requested;
          max_depth_applied = applied;
          max_depth_clamped = differ requested applied;
          result_count = length nodes.0 + length edges.0 + length hits.0;
          truncated = (nodes.1 || edges.1) || hits.1;
          nodes = nodes.0;
          edges = edges.0;
          traversal = hits.0;
        }

    -- `query_graph`, with fuel for its traversal.
    unfoldable pub query_graph : ℕ → GraphQuery → Option (StoreResult (GraphQueryResult V))
    query_graph fuel q =
        let limit_applied = min_of q.limit graph_query_max_limit in
        elim (found_nodes q limit_applied) [
          | err e ↦ some (err e)
          | ok nodes ↦
              let remaining = limit_applied - length nodes.0 in
              elim (found_edges q remaining) [
                | err e ↦ some (err e)
                | ok edges ↦ elim (found_hits fuel q (remaining - length edges.0)) [
                  | none ↦ none
                  | some (err e) ↦ some (err e)
                  | some (ok hits) ↦ some (ok (result_from q nodes edges hits))
                ]
              ]
        ]
