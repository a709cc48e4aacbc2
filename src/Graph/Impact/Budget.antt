-- ===== src/Graph/Impact/Budget.antt =====
-- A bounded search spends no more than its budget of edges, and reports no more nodes.
use rdb_memory_mcp.Base.{
  ℕ, ◌+◌, ◌-◌, ◌≤◌, ◌<◌, ◌≡◌, ◌≢◌, inl, inr, Bool, Option, none, some, List, [], ◌∷◌, Str, ok,
  arith, ap, sym, ◌∙◌, length, length-append, >>=-eq-ok, ok-injective, Bool-cases, ◌==◌,
}
use rdb_memory_mcp.Graph.Store.{GraphStore, GraphNodeRecord, Tables, IsLawful}
use rdb_memory_mcp.Graph.Edges.{Direction, NextEdge, usize_max}
use rdb_memory_mcp.Graph.Edges.Laws.{next_edges_bounded-Follows}
use rdb_memory_mcp.Graph.Impact.{
  Search, ImpactAnalysisNode, enter, visit_edge, visit_edges, expand, start, search_from, spend,
  charge,
}
use rdb_memory_mcp.Graph.Impact.Loop.{visit_edge-eq-ok, expand-eq-ok, loop_rule, search_from-eq-ok}

module _ (store : GraphStore) (t : Tables) (lawful : IsLawful store t) (s : Str) where
  module _ (direction : Direction) (max_depth max_results : ℕ) where
    -- The budget of edges that is left, with the nodes that were found for those spent.
    abbrev Within : Search → Type 0
    Within st = st.remaining_budget + length st.nodes ≤ max_results

    visit_edge-one :
        (x : NextEdge) (d : ℕ) (st st' : Search)
        → visit_edge store s x d st ≡ ok st'
        → (length st'.nodes ≤ length st.nodes + 1) × (st'.remaining_budget ≡ st.remaining_budget)
    unfolding enter
    visit_edge-one x d st st' h = elim (visit_edge-eq-ok store s x d st st' h) [
      | inl same ↦
          (omega (arith, ap (λ r. length r.nodes) same), ap (λ r. r.remaining_budget) (sym same))
      | inr (found, new, get, e) ↦ go found e
    ]
      where
        go :
            (found : Option GraphNodeRecord)
            → enter x d st found ≡ st'
            → (length st'.nodes ≤ length st.nodes + 1)
              × (st'.remaining_budget ≡ st.remaining_budget)
        go none e =
            (omega (arith, ap (λ r. length r.nodes) e), ap (λ r. r.remaining_budget) (sym e))
        go (some node) e = (
          omega (arith, ap (λ r. length r.nodes) e, length-append {0} st.nodes),
          ap (λ r. r.remaining_budget) (sym e),
        )

    visit_edges-each :
        (xs : List NextEdge) (d : ℕ) (st st' : Search)
        → visit_edges store s xs d st ≡ ok st'
        → (length st'.nodes ≤ length st.nodes + length xs)
          × (st'.remaining_budget ≡ st.remaining_budget)
    unfolding visit_edges
    visit_edges-each [] d st st' h =
        let same = ok-injective h in
        (omega (arith, ap (λ r. length r.nodes) same), ap (λ r. r.remaining_budget) (sym same))
    visit_edges-each (x ∷ xs) d st st' h =
        let (st₁, e, h') = >>=-eq-ok (visit_edge store s x d st) _ h in
        let (one, left) = visit_edge-one x d st st₁ e in
        let (rest, left') = visit_edges-each xs d st₁ st' h' in (omega arith, left' ∙ left)

    spend_lem :
        (budget used : ℕ)
        → max_results ≢ usize_max
        → spend store s direction max_depth max_results budget used ≡ budget - used
    spend_lem budget used n = elim (Bool-cases (max_results == usize_max)) [
      | inl e ↦ absurd (n (ground arith))
      | inr e ↦ rw e
    ]

    round-Within :
        max_results < usize_max
        → (st st' : Search) (k : Str) (d : ℕ) (rest : List (Str × ℕ)) (stop : Bool)
        → st.queue ≡ (k, d) ∷ rest
        → Within st
        → d ≢ max_depth
        → expand store s direction max_depth max_results k d (record st { queue = rest })
          ≡ ok (st', stop)
        → Within st'
    round-Within bounded st st' k d rest stop e w deep h =
        let now : Search = record st { queue = rest } in
        let (found, edges, visits, _) =
          expand-eq-ok store s direction max_depth max_results k d now st' stop h in
        let few =
          (next_edges_bounded-Follows store t lawful s k direction st.remaining_budget found.0
              found.1 edges).1
            (λ full. absurd (omega arith)) in
        let (grown, left) =
          visit_edges-each found.0 d (charge store s direction max_depth max_results now found) st'
            visits in
        omega (arith, spend_lem st.remaining_budget (length found.0) (λ full. absurd (omega arith)))

    -- Over a store whose queries return what their clauses promise, a search bounded below
    -- `usize::MAX` that returns reports at most as many nodes as its bound.
    pub search_from-bounded :
        (fuel : ℕ) (object_key : Str) (nodes : List ImpactAnalysisNode) (truncated : Bool)
        → max_results < usize_max
        → search_from store s direction max_depth max_results fuel object_key
          ≡ some (ok (nodes, truncated))
        → length nodes ≤ max_results
    search_from-bounded fuel object_key nodes truncated bounded h =
        elim (search_from-eq-ok store s direction max_depth max_results fuel object_key nodes
          truncated h) [
            | inl none_found ↦ omega (arith, ap (length {A = ImpactAnalysisNode}) none_found)
            | inr (st, run, same, _) ↦
                let w : Within st =
                  loop_rule store s direction max_depth max_results Within (λ st k d rest e w. w)
                    (round-Within bounded) fuel
                    (start store s direction max_depth max_results object_key) st run
                    (omega arith) in
                omega (arith, ap (length {A = ImpactAnalysisNode}) same)
          ]
