-- ===== src/Graph/Trace.antt =====
-- `trace_relationships` and `trace_relationships_bounded` of relationship_trace.rs: a breadth-first
-- search over whole paths, each with the nodes that it has visited.
pub mod Loop
pub mod Sound
pub mod Budget
mod Tests
use rdb_memory_mcp.Base.{
  ℕ, ◌+◌, ◌-◌, suc, zero, Bool, true, false, ◌||◌, Option, none, some, List, [], ◌∷◌, ◌++◌, Str,
  str_eq, member, length, ltb, ok, err, ◌>>=◌, ◌==◌, if◌then◌else◌,
}
use rdb_memory_mcp.Graph.Store.{GraphStore, GraphNodeRecord, StoreResult}
use rdb_memory_mcp.Graph.Edges.{Direction, NextEdge, next_edges_bounded, usize_max}

pub record GraphPathHop : Type 0 where
  pub node_key : Str
  pub label : Str
  pub edge_type_used : Option Str
  pub edge_from : Option Str
  pub edge_to : Option Str

pub record GraphPath : Type 0 where
  pub hops : List GraphPathHop

pub record BoundedRelationshipTraceResult : Type 0 where
  pub paths : List GraphPath
  pub truncated : Bool

-- An entry of the queue. Its vector of hops is never empty: the hops before the last, and the last.
pub record Trail : Type 0 where
  pub earlier : List GraphPathHop
  pub last : GraphPathHop
  pub visited : List Str

abbrev pub hops_of : Trail → List GraphPathHop
hops_of t = t.earlier ++ t.last ∷ []

-- The variables of the search.
pub record Tracing : Type 0 where
  pub queue : List Trail
  pub paths : List GraphPath
  pub truncated : Bool
  pub remaining_budget : ℕ

abbrev pub next_hop : NextEdge → GraphNodeRecord → GraphPathHop
next_hop x node = record {
  node_key = x.1;
  label = node.label;
  edge_type_used = some x.0.edge_type;
  edge_from = some x.0.edge_from;
  edge_to = some x.0.edge_to;
}

abbrev pub extend : Trail → NextEdge → GraphNodeRecord → Trail
extend t x node = record { earlier = hops_of t; last = next_hop x node; visited = x.1 ∷ t.visited }

abbrev pub start_hop : Str → GraphNodeRecord → GraphPathHop
start_hop start_key node = record {
  node_key = start_key;
  label = node.label;
  edge_type_used = none;
  edge_from = none;
  edge_to = none;
}

module _ (store : GraphStore) (snapshot_key : Str) (direction : Direction)
    (max_depth max_paths : ℕ) where
  -- The longer path is reported, and goes on where it is shorter than the bound. The depth of the
  -- trail, `hops.len() - 1`, is the number of the earlier hops.
  unfoldable pub follow : Trail → NextEdge → Tracing → Option GraphNodeRecord → Tracing
  follow t x st none = st
  follow t x st (some node) =
      let next = extend t x node in
      let longer = st.queue ++ next ∷ [] in
      record st {
        paths = st.paths ++ record { hops = hops_of next } ∷ [];
        queue = if ltb (length t.earlier + 1) max_depth then longer else st.queue;
      }

  unfoldable pub trace_edge : Trail → NextEdge → Tracing → StoreResult Tracing
  trace_edge t x st =
      if member str_eq x.1 t.visited
      then ok st
      else (store.get_node snapshot_key x.1 >>= λ found. ok (follow t x st found))

  unfoldable pub trace_edges : Trail → List NextEdge → Tracing → StoreResult Tracing
  trace_edges t [] st = ok st
  trace_edges t (x ∷ xs) st = trace_edge t x st >>= λ st'. trace_edges t xs st'

  abbrev pub pay : Tracing → List NextEdge × Bool → Tracing
  pay st found = record st {
    remaining_budget =
        if max_paths == usize_max
        then st.remaining_budget
        else st.remaining_budget - length found.0;
    truncated = st.truncated || found.1;
  }

  -- The rest of a round, after the trail left the queue below the depth bound.
  unfoldable pub trace_round : Trail → Tracing → StoreResult (Tracing × Bool)
  trace_round t st =
      next_edges_bounded store snapshot_key t.last.node_key direction st.remaining_budget
      >>= λ found. trace_edges t found.0 (pay st found) >>= λ st'. ok (st', found.1)

  -- The `while let` loop on fuel.
  unfoldable pub trace_loop : ℕ → Tracing → Option (StoreResult Tracing)
  trace_loop zero st = elim st.queue [ [] ↦ some (ok st) | _ ∷ _ ↦ none ]
  trace_loop (suc fuel) st = elim st.queue [
    | [] ↦ some (ok st)
    | t ∷ rest ↦
        let st₁ : Tracing = record st { queue = rest } in
        elim (length t.earlier == max_depth) [
          | true ↦ trace_loop fuel st₁
          | false ↦ elim (trace_round t st₁) [
            | err e ↦ some (err e)
            | ok (st₂, stop) ↦ elim stop [ true ↦ some (ok st₂) | false ↦ trace_loop fuel st₂ ]
          ]
        ]
  ]

  abbrev pub trace_start : Str → GraphNodeRecord → Tracing
  trace_start start_key node = record {
    queue = record { earlier = []; last = start_hop start_key node; visited = start_key ∷ [] } ∷ [];
    paths = [];
    truncated = false;
    remaining_budget = max_paths;
  }

  abbrev no_paths : BoundedRelationshipTraceResult
  no_paths = record { paths = []; truncated = false }

  unfoldable pub trace_relationships_bounded :
      ℕ → Str → Option (StoreResult BoundedRelationshipTraceResult)
  trace_relationships_bounded fuel start_key = elim (store.get_node snapshot_key start_key) [
    | err e ↦ some (err e)
    | ok none ↦ some (ok no_paths)
    | ok (some node) ↦ elim (max_depth == 0) [
      | true ↦ some (ok no_paths)
      | false ↦ elim (trace_loop fuel (trace_start start_key node)) [
        | none ↦ none
        | some (err e) ↦ some (err e)
        | some (ok st) ↦ some (ok (record { paths = st.paths; truncated = st.truncated }))
      ]
    ]
  ]

-- `trace_relationships`: without a bound on the paths.
unfoldable pub trace_relationships :
    GraphStore → Str → Direction → ℕ → ℕ → Str → Option (StoreResult (List GraphPath))
trace_relationships store snapshot_key direction max_depth fuel start_key =
    elim (trace_relationships_bounded store snapshot_key direction max_depth usize_max fuel
      start_key) [
        | none ↦ none
        | some (err e) ↦ some (err e)
        | some (ok result) ↦ some (ok result.paths)
      ]
