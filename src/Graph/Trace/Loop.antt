-- ===== src/Graph/Trace/Loop.antt =====
-- Rules for the loops of the trace: what each step keeps, the whole run keeps.
use rdb_memory_mcp.Base.{
  ℕ, zero, suc, ◌≡◌, ◌≢◌, refl, ◌⊎◌, inl, inr, Bool, false, Option, none, some, List, [], ◌∷◌, Str,
  str_eq, member, ok, err, All, Result-cases, Option-cases, Bool-cases, List-cases, >>=-eq-ok,
  ok-injective, err-ne-ok, arith, ap, sym, ◌∙◌, ◌==◌, subst, length,
}
use mathlib.Core.Option.{none-ne-some, some-injective}
use rdb_memory_mcp.Graph.Store.{GraphStore, GraphNodeRecord, StoreResult}
use rdb_memory_mcp.Graph.Edges.{Direction, NextEdge, next_edges_bounded}
use rdb_memory_mcp.Graph.Trace.{
  Trail, Tracing, BoundedRelationshipTraceResult, follow, trace_edge, trace_edges, pay, trace_round,
  trace_loop, trace_start, trace_relationships_bounded,
}

module _ (store : GraphStore) (s : Str) (direction : Direction) (max_depth max_paths : ℕ) where
  pub trace_edge-eq-ok :
      (t : Trail) (x : NextEdge) (st st' : Tracing)
      → trace_edge store s direction max_depth max_paths t x st ≡ ok st'
      → (st ≡ st')
        ⊎ ((found : Option GraphNodeRecord) × (member str_eq x.1 t.visited ≡ false)
            × (store.get_node s x.1 ≡ ok found)
            × (follow store s direction max_depth max_paths t x st found ≡ st'))
  unfolding trace_edge
  trace_edge-eq-ok t x st st' h = elim (Bool-cases (member str_eq x.1 t.visited)) [
    | inl old ↦ inl (ok-injective (rw (old, trace_edge) at h))
    | inr new ↦
        let (found, e, h') = >>=-eq-ok _ _ (rw (new, trace_edge) at h) in
        inr (found, new, e, ok-injective h')
  ]

  -- What holds of every edge of the list may be used in each step.
  pub trace_edges_rule {κ μ} :
      (Q : Tracing → Type κ) (R : NextEdge → Type μ) (t : Trail)
      → ((x : NextEdge) (st st' : Tracing)
          → R x
          → trace_edge store s direction max_depth max_paths t x st ≡ ok st'
          → Q st
          → Q st')
      → (xs : List NextEdge) (st st' : Tracing) → All R xs
      → trace_edges store s direction max_depth max_paths t xs st ≡ ok st'
      → Q st
      → Q st'
  unfolding trace_edges
  trace_edges_rule Q R t keep [] st st' r h q = subst Q (ok-injective h) q
  trace_edges_rule Q R t keep (x ∷ xs) st st' r h q =
      let (st₁, e, h') = >>=-eq-ok _ _ h in
      trace_edges_rule Q R t keep xs st₁ st' r.1 h' (keep x st st₁ r.0 e q)

  pub trace_round-eq-ok :
      (t : Trail) (st st' : Tracing) (stop : Bool)
      → trace_round store s direction max_depth max_paths t st ≡ ok (st', stop)
      → (found : List NextEdge × Bool) × (next_edges_bounded store s t.last.node_key direction
            st.remaining_budget
          ≡ ok found)
        × (trace_edges store s direction max_depth max_paths t found.0
              (pay store s direction max_depth max_paths st found)
            ≡ ok st')
  unfolding trace_round
  trace_round-eq-ok t st st' stop h =
      let (found, e, h₁) =
        >>=-eq-ok (next_edges_bounded store s t.last.node_key direction st.remaining_budget) _ h in
      let visits =
        trace_edges store s direction max_depth max_paths t found.0
          (pay store s direction max_depth max_paths st found) in
      let (st₂, e', h₂) = >>=-eq-ok visits (λ r. ok (r, found.1)) h₁ in
      (found, e, subst (λ r. visits ≡ ok r) (ap (λ p. p.0) (ok-injective h₂)) e')

  -- An invariant of the rounds holds where the loop ends.
  pub trace_loop_rule {κ} :
      (P : Tracing → Type κ)
      → ((st : Tracing) (t : Trail) (rest : List Trail)
          → st.queue ≡ t ∷ rest
          → P st
          → P (record st { queue = rest }))
      → ((st st' : Tracing) (t : Trail) (rest : List Trail) (stop : Bool)
          → st.queue ≡ t ∷ rest
          → P st
          → length t.earlier ≢ max_depth
          → trace_round store s direction max_depth max_paths t (record st { queue = rest })
            ≡ ok (st', stop)
          → P st')
      → (fuel : ℕ) (st st' : Tracing)
      → trace_loop store s direction max_depth max_paths fuel st ≡ some (ok st')
      → P st
      → P st'
  unfolding trace_loop
  trace_loop_rule P skip round zero st st' h p = elim (List-cases st.queue) [
    | inl empty ↦ subst P (ok-injective (some-injective _ _ (rw (empty, trace_loop) at h))) p
    | inr (q, rest, e) ↦ absurd (none-ne-some _ (rw (e, trace_loop) at h))
  ]
  trace_loop_rule P skip round (suc fuel) st st' h p = elim (List-cases st.queue) [
    | inl empty ↦ subst P (ok-injective (some-injective _ _ (rw (empty, trace_loop) at h))) p
    | inr (t, rest, e) ↦ elim (Bool-cases (length t.earlier == max_depth)) [
      | inl last ↦
          trace_loop_rule P skip round fuel _ st' (rw (e, last, trace_loop) at h)
            (skip st t rest e p)
      | inr more ↦
          let now : Tracing = record st { queue = rest } in
          elim (Result-cases (trace_round store s direction max_depth max_paths t now)) [
            | inr (bad, x) ↦
                absurd (err-ne-ok (some-injective _ _ (rw (e, more, x, trace_loop) at h)))
            | inl ((st₂, stop), x) ↦
                let p₂ = round st st₂ t rest stop e p (λ last. absurd (ground arith)) x in
                elim (Bool-cases stop) [
                  | inl halt ↦
                      subst P
                        (ok-injective (some-injective _ _ (rw (e, more, x, halt, trace_loop) at h)))
                        p₂
                  | inr on ↦
                      trace_loop_rule P skip round fuel st₂ st'
                        (rw (e, more, x, on, trace_loop) at h) p₂
                ]
          ]
    ]
  ]

  -- What a loop that has ended reports.
  abbrev ended : Option (StoreResult Tracing) → Option (StoreResult BoundedRelationshipTraceResult)
  ended none = none
  ended (some (err e)) = some (err e)
  ended (some (ok st)) = some (ok (record { paths = st.paths; truncated = st.truncated }))

  ended-eq-ok :
      (r : Option (StoreResult Tracing)) (result : BoundedRelationshipTraceResult)
      → ended r ≡ some (ok result)
      → (st : Tracing) × (r ≡ some (ok st)) × (st.paths ≡ result.paths)
  ended-eq-ok none result h = absurd (none-ne-some _ h)
  ended-eq-ok (some (err e)) result h = absurd (err-ne-ok (some-injective _ _ h))
  ended-eq-ok (some (ok st)) result h =
      (st, refl, ap (λ r. r.paths) (ok-injective (some-injective _ _ h)))

  -- A trace that returns has no path, or ran its loop from a stored node to an end.
  pub trace_relationships_bounded-eq-ok :
      (fuel : ℕ) (start_key : Str) (result : BoundedRelationshipTraceResult)
      → trace_relationships_bounded store s direction max_depth max_paths fuel start_key
        ≡ some (ok result)
      → (result.paths ≡ [])
        ⊎ ((node : GraphNodeRecord) × (st : Tracing) × (store.get_node s start_key ≡ ok (some node))
            × (trace_loop store s direction max_depth max_paths fuel
                  (trace_start store s direction max_depth max_paths start_key node)
                ≡ some (ok st))
            × (st.paths ≡ result.paths))
  unfolding trace_relationships_bounded
  trace_relationships_bounded-eq-ok fuel start_key result h =
      elim (Result-cases (store.get_node s start_key)) [
        | inr (bad, e) ↦
            absurd (err-ne-ok (some-injective _ _ (rw (e, trace_relationships_bounded) at h)))
        | inl (found, e) ↦ elim (Option-cases found) [
          | inl missing ↦ inl (
              sym (
                ap (λ r. r.paths)
                  (ok-injective
                    (some-injective _ _ (rw (e, missing, trace_relationships_bounded) at h)))))
          | inr (node, there) ↦ elim (Bool-cases (max_depth == 0)) [
            | inl flat ↦ inl (
                sym (
                  ap (λ r. r.paths)
                    (ok-injective (
                      some-injective _ _ (rw (e, there, flat, trace_relationships_bounded) at h)))))
            | inr deep ↦
                let (st, run, same) =
                  ended-eq-ok
                    (trace_loop store s direction max_depth max_paths fuel
                      (trace_start store s direction max_depth max_paths start_key node))
                    result (rw (e, there, deep, trace_relationships_bounded) at h) in
                inr (node, st, e ∙ ap (λ o. ok o) there, run, same)
          ]
        ]
      ]
