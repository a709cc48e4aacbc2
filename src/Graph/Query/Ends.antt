-- ===== src/Graph/Query/Ends.antt =====
-- The loop of a query's traversal ends: a node enters the queue only with a hit, and there are no
-- more hits than the limit.
use rdb_memory_mcp.Base.{
  ℕ, zero, suc, ◌+◌, ◌-◌, ◌≤◌, ◌<◌, ◌≡◌, inl, inr, Bool, true, false, ◌||◌, Option, none, some,
  List, [], ◌∷◌, ◌++◌, Str, str_eq, member, ok, err, arith, subst, ap, ◌∙◌, length, length-append,
  >>=-eq-ok, ok-injective, Bool-cases, Result-cases, Option-cases, List-cases, ◌==◌, if◌then◌else◌,
  ltb,
}
use rdb_memory_mcp.Graph.Store.{GraphStore, GraphNodeRecord, Tables, IsLawful, StoreResult}
use rdb_memory_mcp.Graph.Edges.{Direction, NextEdge, usize_max}
use rdb_memory_mcp.Graph.Query.{
  GraphQuery, GraphQueryTraversalHit, GraphQueryResult, Library, Hits, hit, query_edge_step,
  query_edge_steps, query_round, query_loop, query_start, bounded_traversal,
  next_query_edges_bounded, min_of, found_nodes, found_edges, found_hits, result_from, query_graph,
  depth_applied,
}
use rdb_memory_mcp.Graph.Query.Limit.{query_round-limit, min_of-le}

-- The queue has grown no more than the hits.
abbrev Pays : Hits → Hits → Type 0
Pays st st' = length st'.queue + length st.hits ≤ length st.queue + length st'.hits

module _ (store : GraphStore) (t : Tables) (lawful : IsLawful store t) where
  module _ (s : Str) (direction : Direction) (edge_type : Option Str) (max_depth limit : ℕ) where
    query_edge_step-Pays :
        (x : NextEdge) (d : ℕ) (st st' : Hits)
        → query_edge_step store s direction edge_type max_depth limit x d st ≡ ok st'
        → Pays st st'
    unfolding query_edge_step hit
    query_edge_step-Pays x d st st' h = elim (Bool-cases (member str_eq x.1 st.visited)) [
      | inl old ↦ subst (Pays st) (ok-injective (rw (old, query_edge_step) at h)) (omega arith)
      | inr new ↦
          let (found, _, h') =
            >>=-eq-ok (store.get_node s x.1) _ (rw (new, query_edge_step) at h) in
          subst (Pays st) (ok-injective h') (go found)
    ]
      where
        grown :
            (b : Bool)
            → length (if b then st.queue ++ (x.1, d + 1) ∷ [] else st.queue) ≤ length st.queue + 1
        grown true = omega (arith, length-append st.queue ((x.1, d + 1) ∷ []))
        grown false = omega arith

        go :
            (found : Option GraphNodeRecord)
            → Pays st (hit store s direction edge_type max_depth limit x d st found)
        go none = omega arith
        go (some node) = omega (
          arith,
          length-append {0} {A = GraphQueryTraversalHit} st.hits,
          grown (ltb (d + 1) max_depth),
        )

    query_edge_steps-Pays :
        (xs : List NextEdge) (d : ℕ) (st st' : Hits)
        → query_edge_steps store s direction edge_type max_depth limit xs d st ≡ ok st'
        → Pays st st'
    unfolding query_edge_steps
    query_edge_steps-Pays [] d st st' h = subst (Pays st) (ok-injective h) (omega arith)
    query_edge_steps-Pays (x ∷ xs) d st st' h =
        let (st₁, e, h') =
          >>=-eq-ok (query_edge_step store s direction edge_type max_depth limit x d st) _ h in
        omega (arith, query_edge_step-Pays x d st st₁ e, query_edge_steps-Pays xs d st₁ st' h')

    query_round-Pays :
        (k : Str) (d : ℕ) (st st' : Hits) (stop : Bool)
        → query_round store s direction edge_type max_depth limit k d st ≡ ok (st', stop)
        → Pays st st'
    unfolding query_round
    query_round-Pays k d st st' stop h =
        let room = limit - length st.hits in
        let (found, e, h₁) =
          >>=-eq-ok (next_query_edges_bounded store s k direction edge_type room) _ h in
        let now : Hits = record st { truncated = st.truncated || found.1 } in
        let (st₂, e', h₂) =
          >>=-eq-ok (query_edge_steps store s direction edge_type max_depth limit found.0 d now)
            (λ r. ok (r, found.1)) h₁ in
        subst (λ p. Pays st p.0) (ok-injective h₂) (query_edge_steps-Pays found.0 d now st₂ e')

    query_loop-skip :
        (fuel : ℕ) (st : Hits) (k : Str) (d : ℕ) (rest : List (Str × ℕ))
        → st.queue ≡ (k, d) ∷ rest
        → (d == max_depth) ≡ true
        → query_loop store s direction edge_type max_depth limit (suc fuel) st
          ≡ query_loop store s direction edge_type max_depth limit fuel (record st { queue = rest })
    unfolding query_loop
    query_loop-skip fuel st k d rest e last = rw (e, last, query_loop)

    query_loop-on :
        (fuel : ℕ) (st st₂ : Hits) (k : Str) (d : ℕ) (rest : List (Str × ℕ))
        → st.queue ≡ (k, d) ∷ rest
        → (d == max_depth) ≡ false
        → (length st.hits == limit) ≡ false
        → query_round store s direction edge_type max_depth limit k d (record st { queue = rest })
          ≡ ok (st₂, false)
        → query_loop store s direction edge_type max_depth limit (suc fuel) st
          ≡ query_loop store s direction edge_type max_depth limit fuel st₂
    unfolding query_loop
    query_loop-on fuel st st₂ k d rest e more room x = rw (e, more, room, x, query_loop)

    query_loop_ends :
        limit < usize_max
        → (fuel : ℕ) (st : Hits) → length st.hits ≤ limit
        → length st.queue + (limit - length st.hits) ≤ fuel
        → (r : StoreResult Hits) × (query_loop store s direction edge_type max_depth limit fuel st
            ≡ some r)
    unfolding query_loop
    query_loop_ends below zero st within w = elim (List-cases st.queue) [
      | inl empty ↦ (ok st, simp (empty, query_loop))
      | inr (q, rest, e) ↦ absurd (omega (arith, ap (length {A = Str × ℕ}) e))
    ]
    query_loop_ends below (suc fuel) st within w = elim (List-cases st.queue) [
      | inl empty ↦ (ok st, simp (empty, query_loop))
      | inr ((k, d), rest, e) ↦
          let now : Hits = record st { queue = rest } in
          let popped = ap (length {A = Str × ℕ}) e in
          elim (Bool-cases (d == max_depth)) [
            | inl last ↦
                let (r, ends) = query_loop_ends below fuel now within (omega (arith, popped)) in
                (r, query_loop-skip fuel st k d rest e last ∙ ends)
            | inr more ↦ elim (Bool-cases (length st.hits == limit)) [
              | inl full ↦ (ok (record now { truncated = true }), simp (e, more, full, query_loop))
              | inr room ↦
                  elim (Result-cases
                    (query_round store s direction edge_type max_depth limit k d now)) [
                      | inr (bad, x) ↦ (err bad, simp (e, more, room, x, query_loop))
                      | inl ((st₂, stop), x) ↦ elim (Bool-cases stop) [
                        | inl halt ↦ (ok st₂, simp (e, more, room, x, halt, query_loop))
                        | inr on ↦
                            let within₂ =
                              query_round-limit store t lawful s direction edge_type max_depth limit
                                below k d now st₂ stop within x in
                            let pays = query_round-Pays k d now st₂ stop x in
                            let (r, ends) =
                              query_loop_ends below fuel st₂ within₂
                                (omega (arith, popped, pays)) in
                            (
                              r,
                              query_loop-on fuel st st₂ k d rest e more room
                                    (x ∙ ap (λ b. ok (st₂, b)) on)
                                  ∙ ends,
                            )
                      ]
                    ]
            ]
          ]
    ]

    bounded_traversal_ends :
        limit < usize_max
        → (fuel : ℕ) (start_key : Str) → limit < fuel
        → (r : StoreResult (List GraphQueryTraversalHit × Bool)) × (bounded_traversal store s
              direction edge_type max_depth limit fuel start_key
            ≡ some r)
    unfolding bounded_traversal
    bounded_traversal_ends below fuel start_key enough = elim (Bool-cases (max_depth == 0)) [
      | inl flat ↦ (ok ([], false), rw (flat, bounded_traversal))
      | inr deep ↦ elim (Result-cases (store.get_node s start_key)) [
        | inr (bad, e) ↦ (err bad, rw (deep, e, bounded_traversal))
        | inl (node, e) ↦ elim (Option-cases node) [
          | inl missing ↦ (ok ([], false), rw (deep, e, missing, bounded_traversal))
          | inr (_, there) ↦
              let first = query_start store s direction edge_type max_depth limit start_key in
              let (r, ends) = query_loop_ends below fuel first (omega arith) (omega arith) in
              elim (Result-cases r) [
                | inr (bad, b) ↦ (err bad, rw (deep, e, there, ends, b, bounded_traversal))
                | inl (st, b) ↦
                    (ok (st.hits, st.truncated), rw (deep, e, there, ends, b, bounded_traversal))
              ]
        ]
      ]
    ]

  module _ {V : Type 0} (library : Library V) where
    found_hits_ends :
        (fuel : ℕ) (q : GraphQuery) (remaining : ℕ)
        → remaining < usize_max
        → remaining < fuel
        → (r : StoreResult (List GraphQueryTraversalHit × Bool)) × (found_hits store library fuel q
              remaining
            ≡ some r)
    unfolding found_hits
    found_hits_ends fuel q remaining below enough = elim (Option-cases q.traversal) [
      | inl e ↦ (ok ([], false), rw (e, found_hits))
      | inr (tr, e) ↦
          let (r, ends) =
            bounded_traversal_ends q.snapshot_key tr.direction q.edge_type
              (depth_applied store library tr) remaining below fuel tr.start_node_key enough in
          (r, rw (e, found_hits) ends)
    ]

    -- Over a store whose queries return what their clauses promise: with more than 500 rounds for the
    -- traversal, every query returns, with a result or the error of a statement.
    pub query_graph_ends :
        (fuel : ℕ) (q : GraphQuery)
        → 500 < fuel
        → (r : StoreResult (GraphQueryResult V)) × (query_graph store library fuel q ≡ some r)
    unfolding query_graph
    query_graph_ends fuel q enough = elim (Result-cases (found_nodes store library q bound)) [
      | inr (bad, e) ↦ (err bad, rw (e, query_graph))
      | inl (nodes, e) ↦
          let left = bound - length nodes.0 in
          elim (Result-cases (found_edges store library q left)) [
            | inr (bad, e') ↦ (err bad, rw (e, e', query_graph))
            | inl (edges, e') ↦
                let rest = left - length edges.0 in
                let (res, ends) =
                  found_hits_ends fuel q rest (omega (arith, small)) (omega (arith, small)) in
                elim (Result-cases res) [
                  | inr (bad, b) ↦ (err bad, rw (e, e', ends, b, query_graph))
                  | inl (hits, b) ↦ (
                    ok (result_from store library q nodes edges hits),
                    rw (e, e', ends, b, query_graph),
                  )
                ]
          ]
    ]
      where
        bound : ℕ
        bound = min_of q.limit 500

        small : bound ≤ 500
        small = (min_of-le q.limit 500).1
