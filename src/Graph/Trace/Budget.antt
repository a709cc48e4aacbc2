-- ===== src/Graph/Trace/Budget.antt =====
-- A bounded trace ends within its budget of edges, and reports no more paths.
use rdb_memory_mcp.Base.{
  ℕ, zero, suc, ◌+◌, ◌-◌, ◌≤◌, ◌<◌, ◌≡◌, refl, inl, inr, Bool, true, false, Option, none, some,
  List, [], ◌∷◌, ◌++◌, Str, ok, err, arith, subst, ap, ◌∙◌, length, length-append, >>=-eq-ok,
  ok-injective, Bool-cases, Result-cases, Option-cases, List-cases, ◌==◌, if◌then◌else◌, ltb,
}
use rdb_memory_mcp.Graph.Store.{GraphStore, GraphNodeRecord, Tables, IsLawful, StoreResult}
use rdb_memory_mcp.Graph.Edges.{Direction, NextEdge, usize_max}
use rdb_memory_mcp.Graph.Edges.Laws.{next_edges_bounded-Follows}
use rdb_memory_mcp.Graph.Trace.{
  Trail, Tracing, GraphPath, BoundedRelationshipTraceResult, extend, follow, trace_edge,
  trace_edges, pay, trace_round, trace_loop, trace_start, trace_relationships_bounded,
}
use rdb_memory_mcp.Graph.Trace.Loop.{
  trace_edge-eq-ok, trace_round-eq-ok, trace_loop_rule, trace_relationships_bounded-eq-ok,
}

module _ (store : GraphStore) (t : Tables) (lawful : IsLawful store t) (s : Str)
    (direction : Direction) (max_depth max_paths : ℕ) where
  -- The paths and the budget of edges that is left stay within the bound.
  abbrev Within : Tracing → Type 0
  Within st =
      (length st.paths + st.remaining_budget ≤ max_paths) × (st.remaining_budget ≤ max_paths)

  -- One more path and one more trail at most, and the same budget.
  abbrev Grows : Tracing → Tracing → ℕ → Type 0
  Grows st st' n =
      (length st'.paths ≤ length st.paths + n)
      × (length st'.queue ≤ length st.queue + n)
      × (st'.remaining_budget ≡ st.remaining_budget)

  trace_edge-Grows :
      (trail : Trail) (x : NextEdge) (st st' : Tracing)
      → trace_edge store s direction max_depth max_paths trail x st ≡ ok st'
      → Grows st st' 1
  unfolding follow
  trace_edge-Grows trail x st st' h =
      elim (trace_edge-eq-ok store s direction max_depth max_paths trail x st st' h) [
        | inl same ↦ subst (λ r. Grows st r 1) same (omega arith, omega arith, refl)
        | inr (found, new, get, e) ↦ subst (λ r. Grows st r 1) e (go found)
      ]
    where
      queue_grows :
          (next : Trail) (b : Bool)
          → length (if b then st.queue ++ next ∷ [] else st.queue) ≤ length st.queue + 1
      queue_grows next true = omega (arith, length-append st.queue (next ∷ []))
      queue_grows next false = omega arith

      go :
          (found : Option GraphNodeRecord)
          → Grows st (follow store s direction max_depth max_paths trail x st found) 1
      go none = (omega arith, omega arith, refl)
      go (some node) = (
        omega (arith, length-append {0} {A = GraphPath} st.paths),
        queue_grows (extend trail x node) (ltb (length trail.earlier + 1) max_depth),
        refl,
      )

  trace_edges-Grows :
      (trail : Trail) (xs : List NextEdge) (st st' : Tracing)
      → trace_edges store s direction max_depth max_paths trail xs st ≡ ok st'
      → Grows st st' (length xs)
  unfolding trace_edges
  trace_edges-Grows trail [] st st' h =
      subst (λ r. Grows st r 0) (ok-injective h) (omega arith, omega arith, refl)
  trace_edges-Grows trail (x ∷ xs) st st' h =
      let (st₁, e, h') =
        >>=-eq-ok (trace_edge store s direction max_depth max_paths trail x st) _ h in
      let (p, q, b) = trace_edge-Grows trail x st st₁ e in
      let (p', q', b') = trace_edges-Grows trail xs st₁ st' h' in (omega arith, omega arith, b' ∙ b)

  -- A round takes from the budget as much as it adds at most.
  round-Grows :
      max_paths < usize_max
      → (trail : Trail) (st st' : Tracing) (stop : Bool) → st.remaining_budget ≤ max_paths
      → trace_round store s direction max_depth max_paths trail st ≡ ok (st', stop)
      → (length st'.paths + st'.remaining_budget ≤ length st.paths + st.remaining_budget)
        × (length st'.queue + st'.remaining_budget ≤ length st.queue + st.remaining_budget)
        × (st'.remaining_budget ≤ max_paths)
  round-Grows bounded trail st st' stop within h =
      let (found, edges, visits) =
        trace_round-eq-ok store s direction max_depth max_paths trail st st' stop h in
      let few =
        (next_edges_bounded-Follows store t lawful s trail.last.node_key direction
            st.remaining_budget found.0 found.1 edges).1
          (λ full. absurd (omega arith)) in
      let paid = pay_lem found in
      let (p, q, b) =
        trace_edges-Grows trail found.0 (pay store s direction max_depth max_paths st found) st'
          visits in
      (omega arith, omega arith, omega arith)
    where
      pay_lem :
          (found : List NextEdge × Bool)
          → (pay store s direction max_depth max_paths st found).remaining_budget
            ≡ st.remaining_budget - length found.0
      pay_lem found = elim (Bool-cases (max_paths == usize_max)) [
        | inl e ↦ let full : max_paths ≡ usize_max = ground arith in absurd (omega arith)
        | inr e ↦ rw e
      ]

  -- Over a store whose queries return what their clauses promise, a trace bounded below `usize::MAX`
  -- that returns reports at most as many paths as its bound.
  pub trace_relationships_bounded_budget :
      (fuel : ℕ) (start_key : Str) (result : BoundedRelationshipTraceResult)
      → max_paths < usize_max
      → trace_relationships_bounded store s direction max_depth max_paths fuel start_key
        ≡ some (ok result)
      → length result.paths ≤ max_paths
  trace_relationships_bounded_budget fuel start_key result bounded h =
      elim (trace_relationships_bounded-eq-ok store s direction max_depth max_paths fuel start_key
        result h) [
          | inl nothing ↦ omega (arith, ap (length {A = GraphPath}) nothing)
          | inr (node, st, get, run, same) ↦
              let kept : Within st =
                trace_loop_rule store s direction max_depth max_paths Within (λ st t rest e w. w)
                  (λ st st' trail rest stop e w deep x.
                    let (paths, _, within) =
                      round-Grows bounded trail (record st { queue = rest }) st' stop w.1 x in
                    (omega (arith, w.0), within))
                  fuel (trace_start store s direction max_depth max_paths start_key node) st run
                  (omega arith, omega arith) in
              omega (arith, kept.0, ap (length {A = GraphPath}) same)
        ]

  trace_loop-on :
      (fuel : ℕ) (st st₂ : Tracing) (trail : Trail) (rest : List Trail)
      → st.queue ≡ trail ∷ rest
      → (length trail.earlier == max_depth) ≡ false
      → trace_round store s direction max_depth max_paths trail (record st { queue = rest })
        ≡ ok (st₂, false)
      → trace_loop store s direction max_depth max_paths (suc fuel) st
        ≡ trace_loop store s direction max_depth max_paths fuel st₂
  unfolding trace_loop
  trace_loop-on fuel st st₂ trail rest e more x = rw (e, more, x, trace_loop)

  trace_loop-skip :
      (fuel : ℕ) (st : Tracing) (trail : Trail) (rest : List Trail)
      → st.queue ≡ trail ∷ rest
      → (length trail.earlier == max_depth) ≡ true
      → trace_loop store s direction max_depth max_paths (suc fuel) st
        ≡ trace_loop store s direction max_depth max_paths fuel (record st { queue = rest })
  unfolding trace_loop
  trace_loop-skip fuel st trail rest e last = rw (e, last, trace_loop)

  trace_loop_ends :
      max_paths < usize_max
      → (fuel : ℕ) (st : Tracing) → st.remaining_budget ≤ max_paths
      → length st.queue + st.remaining_budget ≤ fuel
      → (r : StoreResult Tracing) × (trace_loop store s direction max_depth max_paths fuel st
          ≡ some r)
  unfolding trace_loop
  trace_loop_ends bounded zero st within w = elim (List-cases st.queue) [
    | inl empty ↦ (ok st, simp (empty, trace_loop))
    | inr (q, rest, e) ↦ absurd (omega (arith, ap (length {A = Trail}) e))
  ]
  trace_loop_ends bounded (suc fuel) st within w = elim (List-cases st.queue) [
    | inl empty ↦ (ok st, simp (empty, trace_loop))
    | inr (trail, rest, e) ↦
        let now : Tracing = record st { queue = rest } in
        let popped = ap (length {A = Trail}) e in
        elim (Bool-cases (length trail.earlier == max_depth)) [
          | inl last ↦
              let (r, ends) = trace_loop_ends bounded fuel now within (omega (arith, popped)) in
              (r, trace_loop-skip fuel st trail rest e last ∙ ends)
          | inr more ↦
              elim (Result-cases (trace_round store s direction max_depth max_paths trail now)) [
                | inr (bad, x) ↦ (err bad, simp (e, more, x, trace_loop))
                | inl ((st₂, stop), x) ↦ elim (Bool-cases stop) [
                  | inl halt ↦ (ok st₂, simp (e, more, x, halt, trace_loop))
                  | inr on ↦
                      let (_, queue, within₂) = round-Grows bounded trail now st₂ stop within x in
                      let (r, ends) =
                        trace_loop_ends bounded fuel st₂ within₂ (omega (arith, popped)) in
                      (
                        r,
                        trace_loop-on fuel st st₂ trail rest e more (x ∙ ap (λ b. ok (st₂, b)) on)
                            ∙ ends,
                      )
                ]
              ]
        ]
  ]

  -- Over a store whose queries return what their clauses promise, a trace bounded below `usize::MAX`
  -- returns when it has one round for each path of its bound and one more: it finds its result, or
  -- the error of a query, and the loop has not been cut short.
  pub trace_relationships_bounded_ends :
      (fuel : ℕ) (start_key : Str)
      → max_paths < usize_max
      → max_paths < fuel
      → (r : StoreResult BoundedRelationshipTraceResult) × (trace_relationships_bounded store s
            direction max_depth max_paths fuel start_key
          ≡ some r)
  unfolding trace_relationships_bounded
  trace_relationships_bounded_ends fuel start_key bounded enough =
      elim (Result-cases (store.get_node s start_key)) [
        | inr (bad, e) ↦ (err bad, rw (e, trace_relationships_bounded))
        | inl (found, e) ↦ elim (Option-cases found) [
          | inl missing ↦ (ok nothing, rw (e, missing, trace_relationships_bounded))
          | inr (node, there) ↦ elim (Bool-cases (max_depth == 0)) [
            | inl flat ↦ (ok nothing, rw (e, there, flat, trace_relationships_bounded))
            | inr deep ↦
                let (r, ends) =
                  trace_loop_ends bounded fuel
                    (trace_start store s direction max_depth max_paths start_key node) (omega arith)
                    (omega arith) in
                elim (Result-cases r) [
                  | inr (bad, b) ↦
                      (err bad, rw (e, there, deep, ends, b, trace_relationships_bounded))
                  | inl (st, b) ↦ (
                    ok (record { paths = st.paths; truncated = st.truncated }),
                    rw (e, there, deep, ends, b, trace_relationships_bounded),
                  )
                ]
          ]
        ]
      ]
    where
      nothing : BoundedRelationshipTraceResult
      nothing = record { paths = []; truncated = false }
