-- ===== src/Graph/Impact.antt =====
-- `impact_analysis` and `impact_analysis_bounded` of impact_analysis.rs: a breadth-first search
-- from one object, with a budget of edges, and the grouping of what it finds.
pub mod Loop
pub mod Sound
pub mod Ends
pub mod Budget
pub mod Groups
mod Tests
use rdb_memory_mcp.Base.{
  ℕ, ◌+◌, ◌-◌, suc, zero, Bool, true, false, ◌||◌, Option, none, some, List, [], ◌∷◌, ◌++◌, Str,
  str_eq, str_cmp, member, length, Result, ok, err, ◌>>=◌, ◌==◌, if◌then◌else◌, map,
}
use Prim.Native.Nat.{compare, Ordering}
use rdb_memory_mcp.Graph.Store.{
  GraphStore, GraphStoreError, GraphNodeRecord, GraphEdgeRecord, StoreResult,
}
use rdb_memory_mcp.Graph.Edges.{Direction, NextEdge, next_edges_bounded, usize_max}

pub record ImpactAnalysisNode : Type 0 where
  pub node_key : Str
  pub label : Str
  pub display_name : Option Str
  pub depth : ℕ
  pub edge_type_used : Str
  pub edge_from : Str
  pub edge_to : Str

pub record ImpactAnalysisGroup : Type 0 where
  pub label : Str
  pub depth : ℕ
  pub nodes : List ImpactAnalysisNode

pub record ImpactAnalysisResult : Type 0 where
  pub snapshot_key : Str
  pub object_key : Str
  pub direction : Direction
  pub max_depth : ℕ
  pub groups : List ImpactAnalysisGroup

pub record BoundedImpactAnalysisResult : Type 0 where
  pub result : ImpactAnalysisResult
  pub truncated : Bool

-- The variables of the search: `visited`, `queue`, `nodes`, `truncated`, `remaining_budget`.
pub record Search : Type 0 where
  pub visited : List Str
  pub queue : List (Str × ℕ)
  pub nodes : List ImpactAnalysisNode
  pub truncated : Bool
  pub remaining_budget : ℕ

-- The node that is reported for an edge to it.
abbrev pub impact_node : NextEdge → GraphNodeRecord → ℕ → ImpactAnalysisNode
impact_node x node next_depth = record {
  node_key = x.1;
  label = node.label;
  display_name = node.display_name;
  depth = next_depth;
  edge_type_used = x.0.edge_type;
  edge_from = x.0.edge_from;
  edge_to = x.0.edge_to;
}

-- The key is marked, and the node, where the store has it, is queued and reported.
unfoldable pub enter : NextEdge → ℕ → Search → Option GraphNodeRecord → Search
enter x depth st none = record st { visited = x.1 ∷ st.visited }
enter x depth st (some node) = record st {
  visited = x.1 ∷ st.visited;
  queue = st.queue ++ (x.1, depth + 1) ∷ [];
  nodes = st.nodes ++ impact_node x node (depth + 1) ∷ [];
}

module _ (store : GraphStore) (snapshot_key : Str) where
  -- The body of the `for` loop.
  unfoldable pub visit_edge : NextEdge → ℕ → Search → StoreResult Search
  visit_edge x depth st =
      if member str_eq x.1 st.visited
      then ok st
      else (store.get_node snapshot_key x.1 >>= λ found. ok (enter x depth st found))

  unfoldable pub visit_edges : List NextEdge → ℕ → Search → StoreResult Search
  visit_edges [] depth st = ok st
  visit_edges (x ∷ xs) depth st = visit_edge x depth st >>= λ st'. visit_edges xs depth st'

  module _ (direction : Direction) (max_depth max_results : ℕ) where
    -- `if max_results != usize::MAX { remaining_budget -= edges.len() }`.
    abbrev pub spend : ℕ → ℕ → ℕ
    spend budget used = if max_results == usize_max then budget else budget - used

    abbrev pub charge : Search → List NextEdge × Bool → Search
    charge st found = record st {
      remaining_budget = spend st.remaining_budget (length found.0);
      truncated = st.truncated || found.1;
    }

    -- The rest of a round, after the node left the queue below the depth bound: the new state, and
    -- whether the search stops.
    unfoldable pub expand : Str → ℕ → Search → StoreResult (Search × Bool)
    expand node_key depth st =
        next_edges_bounded store snapshot_key node_key direction st.remaining_budget >>= λ found.
        visit_edges found.0 depth (charge st found) >>= λ st'. ok (st', found.1)

    -- The `while let` loop on fuel; `none` means that the fuel ran out.
    unfoldable pub loop : ℕ → Search → Option (StoreResult Search)
    loop zero st = elim st.queue [ [] ↦ some (ok st) | _ ∷ _ ↦ none ]
    loop (suc fuel) st = elim st.queue [
      | [] ↦ some (ok st)
      | (node_key, depth) ∷ rest ↦
          let st₁ : Search = record st { queue = rest } in
          elim (depth == max_depth) [
            | true ↦ loop fuel st₁
            | false ↦ elim (expand node_key depth st₁) [
              | err e ↦ some (err e)
              | ok (st₂, stop) ↦ elim stop [ true ↦ some (ok st₂) | false ↦ loop fuel st₂ ]
            ]
          ]
    ]

    abbrev pub start : Str → Search
    start object_key = record {
      visited = object_key ∷ [];
      queue = (object_key, 0) ∷ [];
      nodes = [];
      truncated = false;
      remaining_budget = max_results;
    }

    -- The search, before its nodes are grouped.
    unfoldable pub search_from : ℕ → Str → Option (StoreResult (List ImpactAnalysisNode × Bool))
    search_from fuel object_key = elim (store.get_node snapshot_key object_key) [
      | err e ↦ some (err e)
      | ok none ↦ some (ok ([], false))
      | ok (some _) ↦ elim (loop fuel (start object_key)) [
        | none ↦ none
        | some (err e) ↦ some (err e)
        | some (ok st) ↦ some (ok (st.nodes, st.truncated))
      ]
    ]
