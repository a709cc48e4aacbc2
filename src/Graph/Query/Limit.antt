-- ===== src/Graph/Query/Limit.antt =====
-- A query returns no more than its limit, over the nodes, the edges and the hits together.
use rdb_memory_mcp.Base.{
  ℕ, zero, suc, ◌+◌, ◌-◌, ◌≤◌, ◌<◌, ◌≡◌, refl, inl, inr, Bool, false, ◌||◌, Option, none, some,
  List, [], ◌∷◌, ◌++◌, map, Str, str_eq, member, ok, arith, subst, ap, ◌∙◌, length, length-append,
  length-take, take, >>=-eq-ok, ok-injective, err-ne-ok, Bool-cases, Result-cases, Option-cases,
  List-cases, All-of, ◌==◌, ltb,
}
use mathlib.Core.Option.{none-ne-some, some-injective}
use rdb_memory_mcp.Graph.Store.{GraphStore, GraphNodeRecord, Tables, IsLawful, StoreResult}
use rdb_memory_mcp.Graph.Edges.{
  Direction, NextEdge, merge_sources, usize_max, out_next, in_next, when_asked, goes_out, goes_in,
  saturating_succ,
}
use rdb_memory_mcp.Graph.Edges.Laws.{next_edges_bounded-Follows, All-merge}
use rdb_memory_mcp.Graph.Query.{
  GraphQuery, GraphQueryNode, GraphQueryEdge, GraphQueryTraversalHit, GraphQueryResult, Library,
  Hits, hit, query_edge_step, query_edge_steps, query_round, query_loop, query_start,
  bounded_traversal, next_query_edges_bounded, min_of, found_nodes, found_edges, found_hits,
  matching_nodes, query_node, query_edge, result_from, query_graph, wants_nodes, depth_applied,
}

length-map {ℓ κ} :
    {A : Type ℓ} {B : Type κ} (f : A → B) (xs : List A) → length (map f xs) ≡ length xs
length-map f [] = refl
length-map f (x ∷ xs) = omega (arith, length-map f xs)

pub min_of-le : (a b : ℕ) → (min_of a b ≤ a) × (min_of a b ≤ b)
unfolding min_of
min_of-le a b = (ground arith, ground arith)

module _ (store : GraphStore) (t : Tables) (lawful : IsLawful store t) where
  next_query_edges_bounded-few :
      (s k : Str) (direction : Direction) (edge_type : Option Str) (max_edges : ℕ)
      (found : List NextEdge × Bool)
      → max_edges < usize_max
      → next_query_edges_bounded store s k direction edge_type max_edges ≡ ok found
      → length found.0 ≤ max_edges
  unfolding next_query_edges_bounded
  next_query_edges_bounded-few s k direction none max_edges found below h =
      (next_edges_bounded-Follows store t lawful s k direction max_edges found.0 found.1 h).1
        (λ full. absurd (omega arith))
  next_query_edges_bounded-few s k direction (some edge_type) max_edges found below h =
      let fetch_limit = saturating_succ max_edges in
      let (outgoing, _, h₁) =
        >>=-eq-ok
          (when_asked (goes_out direction)
            (store.edges_from_by_type_limited s k edge_type fetch_limit))
          _ h in
      let (incoming, _, h₂) =
        >>=-eq-ok
          (when_asked (goes_in direction)
            (store.edges_to_by_type_limited s k edge_type fetch_limit))
          (λ incoming. ok (merge_sources max_edges outgoing incoming)) h₁ in
      let edges : List NextEdge = map out_next outgoing ++ map in_next incoming in
      let more : Bool = ltb max_edges (length outgoing) || ltb max_edges (length incoming) in
      subst (λ r. length r.0 ≤ max_edges) (ok-injective h₂)
        (All-merge (λ _. Unit {0}) edges max_edges more (All-of _ (λ _. tt) edges)).1

  module _ (s : Str) (direction : Direction) (edge_type : Option Str) (max_depth limit : ℕ) where
    query_edge_step-one :
        (x : NextEdge) (d : ℕ) (st st' : Hits)
        → query_edge_step store s direction edge_type max_depth limit x d st ≡ ok st'
        → length st'.hits ≤ length st.hits + 1
    unfolding query_edge_step hit
    query_edge_step-one x d st st' h = elim (Bool-cases (member str_eq x.1 st.visited)) [
      | inl old ↦
          omega (arith, ap (λ r. length r.hits) (ok-injective (rw (old, query_edge_step) at h)))
      | inr new ↦
          let (found, _, h') =
            >>=-eq-ok (store.get_node s x.1) _ (rw (new, query_edge_step) at h) in
          omega (arith, ap (λ r. length r.hits) (ok-injective h'), go found)
    ]
      where
        go :
            (found : Option GraphNodeRecord)
            → length (hit store s direction edge_type max_depth limit x d st found).hits
              ≤ length st.hits + 1
        go none = omega arith
        go (some node) = omega (arith, length-append {0} {A = GraphQueryTraversalHit} st.hits)

    query_edge_steps-each :
        (xs : List NextEdge) (d : ℕ) (st st' : Hits)
        → query_edge_steps store s direction edge_type max_depth limit xs d st ≡ ok st'
        → length st'.hits ≤ length st.hits + length xs
    unfolding query_edge_steps
    query_edge_steps-each [] d st st' h = omega (arith, ap (λ r. length r.hits) (ok-injective h))
    query_edge_steps-each (x ∷ xs) d st st' h =
        let (st₁, e, h') =
          >>=-eq-ok (query_edge_step store s direction edge_type max_depth limit x d st) _ h in
        omega (arith, query_edge_step-one x d st st₁ e, query_edge_steps-each xs d st₁ st' h')

    pub query_round-limit :
        limit < usize_max
        → (k : Str) (d : ℕ) (st st' : Hits) (stop : Bool) → length st.hits ≤ limit
        → query_round store s direction edge_type max_depth limit k d st ≡ ok (st', stop)
        → length st'.hits ≤ limit
    unfolding query_round
    query_round-limit below k d st st' stop within h =
        let room = limit - length st.hits in
        let (found, e, h₁) =
          >>=-eq-ok (next_query_edges_bounded store s k direction edge_type room) _ h in
        let now : Hits = record st { truncated = st.truncated || found.1 } in
        let (st₂, e', h₂) =
          >>=-eq-ok (query_edge_steps store s direction edge_type max_depth limit found.0 d now)
            (λ r. ok (r, found.1)) h₁ in
        omega (
          arith,
          next_query_edges_bounded-few s k direction edge_type (limit - length st.hits) found
              (omega arith) e,
          query_edge_steps-each found.0 d now st₂ e',
          ap (λ p. length p.0.hits) (ok-injective h₂),
        )

    query_loop-limit :
        limit < usize_max
        → (fuel : ℕ) (st st' : Hits) → length st.hits ≤ limit
        → query_loop store s direction edge_type max_depth limit fuel st ≡ some (ok st')
        → length st'.hits ≤ limit
    unfolding query_loop
    query_loop-limit below zero st st' within h = elim (List-cases st.queue) [
      | inl empty ↦ omega (
        arith,
        ap (λ r. length r.hits) (ok-injective (some-injective _ _ (rw (empty, query_loop) at h))),
      )
      | inr (q, rest, e) ↦ absurd (none-ne-some _ (rw (e, query_loop) at h))
    ]
    query_loop-limit below (suc fuel) st st' within h = elim (List-cases st.queue) [
      | inl empty ↦ omega (
        arith,
        ap (λ r. length r.hits) (ok-injective (some-injective _ _ (rw (empty, query_loop) at h))),
      )
      | inr ((k, d), rest, e) ↦
          let now : Hits = record st { queue = rest } in
          elim (Bool-cases (d == max_depth)) [
            | inl last ↦ query_loop-limit below fuel now st' within (rw (e, last, query_loop) at h)
            | inr more ↦ elim (Bool-cases (length st.hits == limit)) [
              | inl full ↦ omega (
                arith,
                ap (λ r. length r.hits)
                    (ok-injective (some-injective _ _ (rw (e, more, full, query_loop) at h))),
              )
              | inr room ↦
                  elim (Result-cases
                    (query_round store s direction edge_type max_depth limit k d now)) [
                      | inr (bad, x) ↦
                          absurd (
                            err-ne-ok (some-injective _ _ (rw (e, more, room, x, query_loop) at h)))
                      | inl ((st₂, stop), x) ↦
                          let within₂ = query_round-limit below k d now st₂ stop within x in
                          elim (Bool-cases stop) [
                            | inl halt ↦
                                subst (λ r. length r.hits ≤ limit)
                                  (ok-injective (
                                    some-injective _ _
                                      (rw (e, more, room, x, halt, query_loop) at h)))
                                  within₂
                            | inr on ↦
                                query_loop-limit below fuel st₂ st' within₂
                                  (rw (e, more, room, x, on, query_loop) at h)
                          ]
                    ]
            ]
          ]
    ]

    bounded_traversal-limit :
        limit < usize_max
        → (fuel : ℕ) (start_key : Str) (found : List GraphQueryTraversalHit × Bool)
        → bounded_traversal store s direction edge_type max_depth limit fuel start_key
          ≡ some (ok found)
        → length found.0 ≤ limit
    unfolding bounded_traversal
    bounded_traversal-limit below fuel start_key found h = elim (Bool-cases (max_depth == 0)) [
      | inl flat ↦ done [] false (omega arith) (rw (flat, bounded_traversal) at h)
      | inr deep ↦ elim (Result-cases (store.get_node s start_key)) [
        | inr (bad, e) ↦
            absurd (err-ne-ok (some-injective _ _ (rw (deep, e, bounded_traversal) at h)))
        | inl (node, e) ↦ elim (Option-cases node) [
          | inl missing ↦
              done [] false (omega arith) (rw (deep, e, missing, bounded_traversal) at h)
          | inr (_, there) ↦
              let first = query_start store s direction edge_type max_depth limit start_key in
              elim (Option-cases
                (query_loop store s direction edge_type max_depth limit fuel first)) [
                  | inl out ↦
                      absurd (none-ne-some _ (rw (deep, e, there, out, bounded_traversal) at h))
                  | inr (r, run) ↦ elim (Result-cases r) [
                    | inr (bad, b) ↦ absurd (
                        err-ne-ok (
                          some-injective _ _ (rw (deep, e, there, run, b, bounded_traversal) at h)))
                    | inl (st, b) ↦
                        done st.hits st.truncated
                          (query_loop-limit below fuel first st (omega arith)
                            (run ∙ ap (λ o. some o) b))
                          (rw (deep, e, there, run, b, bounded_traversal) at h)
                  ]
                ]
        ]
      ]
    ]
      where
        done :
            (hits : List GraphQueryTraversalHit) (truncated : Bool)
            → length hits ≤ limit
            → ◌≡◌ {A = Option (StoreResult (List GraphQueryTraversalHit × Bool))}
                (some (ok (hits, truncated)))
                (some (ok found))
            → length found.0 ≤ limit
        done hits truncated le e =
            omega (arith, le, ap (λ r. length r.0) (ok-injective (some-injective _ _ e)))

  module _ {V : Type 0} (library : Library V) where
    found_nodes-limit :
        (q : GraphQuery) (remaining : ℕ) (found : List (GraphQueryNode V) × Bool)
        → found_nodes store library q remaining ≡ ok found
        → length found.0 ≤ remaining
    unfolding found_nodes
    found_nodes-limit q remaining found h = elim (Bool-cases (wants_nodes q)) [
      | inr unwanted ↦
          omega (arith, ap (λ r. length r.0) (ok-injective (rw (unwanted, found_nodes) at h)))
      | inl wanted ↦
          let (ms, _, h') =
            >>=-eq-ok (matching_nodes store library q) _ (rw (wanted, found_nodes) at h) in
          omega (
            arith,
            ap (λ r. length r.0) (ok-injective h'),
            length-map (query_node store library) (take remaining ms),
            length-take remaining ms,
          )
    ]

    found_edges-limit :
        (q : GraphQuery) (remaining : ℕ) (found : List (GraphQueryEdge V) × Bool)
        → found_edges store library q remaining ≡ ok found
        → length found.0 ≤ remaining
    unfolding found_edges
    found_edges-limit q remaining found h = elim (Option-cases q.traversal) [
      | inr (tr, e) ↦ omega (arith, ap (λ r. length r.0) (ok-injective (rw (e, found_edges) at h)))
      | inl e ↦ elim (Option-cases q.edge_type) [
        | inl n ↦ omega (arith, ap (λ r. length r.0) (ok-injective (rw (e, n, found_edges) at h)))
        | inr (kind, k) ↦
            let (ms, _, h') =
              >>=-eq-ok
                (store.edges_by_type_limited q.snapshot_key kind (saturating_succ remaining)) _
                (rw (e, k, found_edges) at h) in
            omega (
              arith,
              ap (λ r. length r.0) (ok-injective h'),
              length-map (query_edge store library) (take remaining ms),
              length-take remaining ms,
            )
      ]
    ]

    found_hits-limit :
        (fuel : ℕ) (q : GraphQuery) (remaining : ℕ) (found : List GraphQueryTraversalHit × Bool)
        → remaining < usize_max
        → found_hits store library fuel q remaining ≡ some (ok found)
        → length found.0 ≤ remaining
    unfolding found_hits
    found_hits-limit fuel q remaining found below h = elim (Option-cases q.traversal) [
      | inl e ↦ omega (
        arith,
        ap (λ r. length r.0) (ok-injective (some-injective _ _ (rw (e, found_hits) at h))),
      )
      | inr (tr, e) ↦
          bounded_traversal-limit q.snapshot_key tr.direction q.edge_type
            (depth_applied store library tr) remaining below fuel tr.start_node_key found
            (rw (e, found_hits) at h)
    ]

    -- Over a store whose queries return what their clauses promise: a query that returns a result
    -- counts the nodes, edges and hits in it, and they are no more than the applied limit, which is
    -- at most the requested one and at most 500.
    pub query_graph_limit :
        (fuel : ℕ) (q : GraphQuery) (r : GraphQueryResult V)
        → query_graph store library fuel q ≡ some (ok r)
        → (r.result_count ≡ length r.nodes + length r.edges + length r.traversal)
          × (r.result_count ≤ r.limit_applied)
          × (r.limit_applied ≤ q.limit)
          × (r.limit_applied ≤ 500)
    unfolding query_graph result_from
    query_graph_limit fuel q r h = elim (Result-cases (found_nodes store library q bound)) [
      | inr (bad, e) ↦ absurd (err-ne-ok (some-injective _ _ (rw (e, query_graph) at h)))
      | inl (nodes, e) ↦
          let left = bound - length nodes.0 in
          elim (Result-cases (found_edges store library q left)) [
            | inr (bad, e') ↦ absurd (err-ne-ok (some-injective _ _ (rw (e, e', query_graph) at h)))
            | inl (edges, e') ↦
                let rest = left - length edges.0 in
                elim (Option-cases (found_hits store library fuel q rest)) [
                  | inl out ↦ absurd (none-ne-some _ (rw (e, e', out, query_graph) at h))
                  | inr (res, e'') ↦ elim (Result-cases res) [
                    | inr (bad, b) ↦
                        absurd
                          (err-ne-ok (some-injective _ _ (rw (e, e', e'', b, query_graph) at h)))
                    | inl (hits, b) ↦
                        subst Limited
                          (ok-injective (some-injective _ _ (rw (e, e', e'', b, query_graph) at h)))
                          (
                            refl,
                            omega (
                              arith,
                              small,
                              found_nodes-limit q bound nodes e,
                              found_edges-limit q left edges e',
                              found_hits-limit fuel q rest hits (omega (arith, small))
                                  (e'' ∙ ap (λ o. some o) b),
                            ),
                            small.0,
                            small.1,
                          )
                  ]
                ]
          ]
    ]
      where
        bound : ℕ
        bound = min_of q.limit 500

        small : (bound ≤ q.limit) × (bound ≤ 500)
        small = min_of-le q.limit 500

        Limited : GraphQueryResult V → Type 0
        Limited r =
            (r.result_count ≡ length r.nodes + length r.edges + length r.traversal)
            × (r.result_count ≤ r.limit_applied)
            × (r.limit_applied ≤ q.limit)
            × (r.limit_applied ≤ 500)
