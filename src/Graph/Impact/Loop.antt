-- ===== src/Graph/Impact/Loop.antt =====
-- Rules for the loops of the search: what each step keeps, the whole run keeps.
use rdb_memory_mcp.Base.{
  ℕ, zero, suc, ◌≡◌, ◌≢◌, refl, ◌⊎◌, inl, inr, Bool, false, Option, none, some, List, [], ◌∷◌, Str,
  str_eq, member, ok, err, All, Result-cases, Option-cases, Bool-cases, List-cases, >>=-eq-ok,
  ok-injective, err-ne-ok, arith, ap, sym, ◌==◌, subst,
}
use mathlib.Core.Option.{none-ne-some, some-injective}
use rdb_memory_mcp.Graph.Store.{GraphStore, GraphNodeRecord, StoreResult}
use rdb_memory_mcp.Graph.Edges.{Direction, NextEdge, next_edges_bounded}
use rdb_memory_mcp.Graph.Impact.{
  Search, enter, visit_edge, visit_edges, expand, loop, charge, start, search_from,
  ImpactAnalysisNode,
}

module _ (store : GraphStore) (s : Str) where
  pub visit_edge-eq-ok :
      (x : NextEdge) (depth : ℕ) (st st' : Search)
      → visit_edge store s x depth st ≡ ok st'
      → (st ≡ st')
        ⊎ ((found : Option GraphNodeRecord) × (member str_eq x.1 st.visited ≡ false)
            × (store.get_node s x.1 ≡ ok found)
            × (enter x depth st found ≡ st'))
  unfolding visit_edge
  visit_edge-eq-ok x depth st st' h = elim (Bool-cases (member str_eq x.1 st.visited)) [
    | inl old ↦ inl (ok-injective (rw (old, visit_edge) at h))
    | inr new ↦
        let (found, e, h') = >>=-eq-ok _ _ (rw (new, visit_edge) at h) in
        inr (found, new, e, ok-injective h')
  ]

  -- What holds of every edge of the list may be used in each step.
  pub visit_edges_rule {κ μ} :
      (Q : Search → Type κ) (R : NextEdge → Type μ) (depth : ℕ)
      → ((x : NextEdge) (st st' : Search)
          → R x
          → visit_edge store s x depth st ≡ ok st'
          → Q st
          → Q st')
      → (xs : List NextEdge) (st st' : Search) → All R xs
      → visit_edges store s xs depth st ≡ ok st'
      → Q st
      → Q st'
  unfolding visit_edges
  visit_edges_rule Q R depth keep [] st st' r h q = subst Q (ok-injective h) q
  visit_edges_rule Q R depth keep (x ∷ xs) st st' r h q =
      let (st₁, e, h') = >>=-eq-ok _ _ h in
      visit_edges_rule Q R depth keep xs st₁ st' r.1 h' (keep x st st₁ r.0 e q)

  module _ (direction : Direction) (max_depth max_results : ℕ) where
    -- The parts of a round that succeeds.
    pub expand-eq-ok :
        (k : Str) (depth : ℕ) (st st' : Search) (stop : Bool)
        → expand store s direction max_depth max_results k depth st ≡ ok (st', stop)
        → (found : List NextEdge × Bool) × (next_edges_bounded store s k direction
              st.remaining_budget
            ≡ ok found)
          × (visit_edges store s found.0 depth
                (charge store s direction max_depth max_results st found)
              ≡ ok st')
          × (found.1 ≡ stop)
    unfolding expand
    expand-eq-ok k depth st st' stop h =
        let (found, e, h₁) =
          >>=-eq-ok (next_edges_bounded store s k direction st.remaining_budget) _ h in
        let (st₂, e', h₂) =
          >>=-eq-ok
            (visit_edges store s found.0 depth
              (charge store s direction max_depth max_results st found))
            (λ r. ok (r, found.1)) h₁ in
        let same : st₂ ≡ st' = ap (λ p. p.0) (ok-injective h₂) in
        (
          found,
          e,
          subst
              (λ r.
                visit_edges store s found.0 depth
                  (charge store s direction max_depth max_results st found)
                ≡ ok r)
              same e',
          ap (λ p. p.1) (ok-injective h₂),
        )

    -- An invariant of the rounds holds where the search ends.
    pub loop_rule {κ} :
        (P : Search → Type κ)
        → ((st : Search) (k : Str) (d : ℕ) (rest : List (Str × ℕ))
            → st.queue ≡ (k, d) ∷ rest
            → P st
            → P (record st { queue = rest }))
        → ((st st' : Search) (k : Str) (d : ℕ) (rest : List (Str × ℕ)) (stop : Bool)
            → st.queue ≡ (k, d) ∷ rest
            → P st
            → d ≢ max_depth
            → expand store s direction max_depth max_results k d (record st { queue = rest })
              ≡ ok (st', stop)
            → P st')
        → (fuel : ℕ) (st st' : Search)
        → loop store s direction max_depth max_results fuel st ≡ some (ok st')
        → P st
        → P st'
    unfolding loop
    loop_rule P skip round zero st st' h p = elim (List-cases st.queue) [
      | inl empty ↦ subst P (ok-injective (some-injective _ _ (rw (empty, loop) at h))) p
      | inr (q, rest, e) ↦ absurd (none-ne-some _ (rw (e, loop) at h))
    ]
    loop_rule P skip round (suc fuel) st st' h p = elim (List-cases st.queue) [
      | inl empty ↦ subst P (ok-injective (some-injective _ _ (rw (empty, loop) at h))) p
      | inr ((k, d), rest, e) ↦ elim (Bool-cases (d == max_depth)) [
        | inl last ↦
            loop_rule P skip round fuel _ st' (rw (e, last, loop) at h) (skip st k d rest e p)
        | inr more ↦
            let now : Search = record st { queue = rest } in
            elim (Result-cases (expand store s direction max_depth max_results k d now)) [
              | inr (bad, x) ↦ absurd (err-ne-ok (some-injective _ _ (rw (e, more, x, loop) at h)))
              | inl ((st₂, stop), x) ↦
                  let p₂ = round st st₂ k d rest stop e p (λ last. absurd (ground arith)) x in
                  elim (Bool-cases stop) [
                    | inl halt ↦
                        subst P
                          (ok-injective (some-injective _ _ (rw (e, more, x, halt, loop) at h))) p₂
                    | inr on ↦
                        loop_rule P skip round fuel st₂ st' (rw (e, more, x, on, loop) at h) p₂
                  ]
            ]
      ]
    ]

    -- The variables that are read off where the loop has ended.
    abbrev ended :
        Option (StoreResult Search) → Option (StoreResult (List ImpactAnalysisNode × Bool))
    ended none = none
    ended (some (err e)) = some (err e)
    ended (some (ok st)) = some (ok (st.nodes, st.truncated))

    ended-eq-ok :
        (r : Option (StoreResult Search)) (nodes : List ImpactAnalysisNode) (truncated : Bool)
        → ended r ≡ some (ok (nodes, truncated))
        → (st : Search) × (r ≡ some (ok st)) × (st.nodes ≡ nodes) × (st.truncated ≡ truncated)
    ended-eq-ok none nodes truncated h = absurd (none-ne-some _ h)
    ended-eq-ok (some (err e)) nodes truncated h = absurd (err-ne-ok (some-injective _ _ h))
    ended-eq-ok (some (ok st)) nodes truncated h =
        let same = ok-injective (some-injective _ _ h) in
        (st, refl, ap (λ p. p.0) same, ap (λ p. p.1) same)

    -- A search that returns found no object, or ran its loop to an end.
    pub search_from-eq-ok :
        (fuel : ℕ) (object_key : Str) (nodes : List ImpactAnalysisNode) (truncated : Bool)
        → search_from store s direction max_depth max_results fuel object_key
          ≡ some (ok (nodes, truncated))
        → (nodes ≡ [])
          ⊎ ((st : Search) × (loop store s direction max_depth max_results fuel
                  (start store s direction max_depth max_results object_key)
                ≡ some (ok st))
              × (st.nodes ≡ nodes)
              × (st.truncated ≡ truncated))
    unfolding search_from
    search_from-eq-ok fuel object_key nodes truncated h =
        elim (Result-cases (store.get_node s object_key)) [
          | inr (bad, e) ↦ absurd (err-ne-ok (some-injective _ _ (rw (e, search_from) at h)))
          | inl (found, e) ↦ elim (Option-cases found) [
            | inl missing ↦ inl (
                sym (
                  ap (λ p. p.0)
                    (ok-injective (some-injective _ _ (rw (e, missing, search_from) at h)))))
            | inr (node, there) ↦ inr (
                ended-eq-ok
                  (loop store s direction max_depth max_results fuel
                    (start store s direction max_depth max_results object_key))
                  nodes truncated (rw (e, there, search_from) at h))
          ]
        ]
