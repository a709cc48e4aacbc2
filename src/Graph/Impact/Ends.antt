-- ===== src/Graph/Impact/Ends.antt =====
-- The search ends, within one round for each stored node and one more, and a bounded search keeps
-- its budget.
use rdb_memory_mcp.Base.{
  ℕ, zero, suc, ◌+◌, ◌≤◌, ◌<◌, ◌≡◌, inl, inr, Bool, true, false, Option, none, some, List, [], ◌∷◌,
  Str, str_eq, str_eq_iff, member, ok, err, All-of, Memᴰ, arith, subst, ap, sym, ◌∙◌, length,
  length-append, Result-cases, Option-cases, Bool-cases, List-cases, ◌==◌,
}
use mathlib.Core.List.Memᴰ
use rdb_memory_mcp.Graph.Store.{GraphStore, GraphNodeRecord, Tables, IsLawful, StoreResult}
use rdb_memory_mcp.Graph.Edges.{Direction, NextEdge}
use rdb_memory_mcp.Graph.Impact.{
  Search, ImpactAnalysisNode, enter, visit_edge, expand, loop, start, search_from,
}
use rdb_memory_mcp.Graph.Impact.Loop.{visit_edge-eq-ok, visit_edges_rule, expand-eq-ok}

-- The stored nodes whose key has not been visited.
pub unseen : List Str → List GraphNodeRecord → ℕ
unseen visited [] = 0
unseen visited (n ∷ ns) =
    let rest = unseen visited ns in
    elim (member str_eq n.node_key visited) [ true ↦ rest | false ↦ suc rest ]

unseen-le : (visited : List Str) (ns : List GraphNodeRecord) → unseen visited ns ≤ length ns
unfolding unseen
unseen-le visited [] = omega arith
unseen-le visited (n ∷ ns) = ground (arith, unseen-le visited ns)

unseen_mono :
    (k : Str) (visited : List Str) (ns : List GraphNodeRecord)
    → unseen (k ∷ visited) ns ≤ unseen visited ns
unfolding unseen member
unseen_mono k visited [] = omega arith
unseen_mono k visited (n ∷ ns) = ground (arith, unseen_mono k visited ns)

unseen_falls :
    (n : GraphNodeRecord) (visited : List Str) (ns : List GraphNodeRecord)
    → Memᴰ n ns
    → member str_eq n.node_key visited ≡ false
    → suc (unseen (n.node_key ∷ visited) ns) ≤ unseen visited ns
unfolding unseen member
unseen_falls n visited [] m new = absurd (Memᴰ.not-nil m)
unseen_falls n visited (x ∷ ns) m new = elim (Memᴰ.cases_cons m) [
  | inl same ↦ ground (
    arith,
    ap (λ r. r.node_key) same,
    str_eq_iff n.node_key x.node_key,
    unseen_mono n.node_key visited ns,
  )
  | inr later ↦ ground (arith, unseen_falls n visited ns later)
]

module _ (store : GraphStore) (t : Tables) (lawful : IsLawful store t) (s : Str) where
  -- What is left to do: the nodes not yet visited, and those that wait.
  abbrev work : Search → ℕ
  work st = unseen st.visited t.nodes + length st.queue

  visit_edge-work :
      (x : NextEdge) (d bound : ℕ) (st st' : Search)
      → visit_edge store s x d st ≡ ok st'
      → work st ≤ bound
      → work st' ≤ bound
  unfolding enter
  visit_edge-work x d bound st st' h w = elim (visit_edge-eq-ok store s x d st st' h) [
    | inl same ↦ subst (λ r. work r ≤ bound) same w
    | inr (found, new, get, e) ↦ subst (λ r. work r ≤ bound) e (go found new get)
  ]
    where
      go :
          (found : Option GraphNodeRecord)
          → member str_eq x.1 st.visited ≡ false
          → store.get_node s x.1 ≡ ok found
          → work (enter x d st found) ≤ bound
      go none new get = omega (arith, unseen_mono x.1 st.visited t.nodes)
      go (some node) new get =
          let (has, key) = lawful.get_node_sound s x.1 node get in
          let falls =
            unseen_falls node st.visited t.nodes has.0
              (subst (λ k. member str_eq k st.visited ≡ false) (sym key) new) in
          let fell : suc (unseen (x.1 ∷ st.visited) t.nodes) ≤ unseen st.visited t.nodes =
            subst (λ k. suc (unseen (k ∷ st.visited) t.nodes) ≤ unseen st.visited t.nodes) key
              falls in
          omega (arith, length-append st.queue ((x.1, d + 1) ∷ []))

  module _ (direction : Direction) (max_depth max_results : ℕ) where
    expand-work :
        (k : Str) (d : ℕ) (st st' : Search) (stop : Bool)
        → expand store s direction max_depth max_results k d st ≡ ok (st', stop)
        → work st' ≤ work st
    expand-work k d st st' stop h =
        let (found, edges, visits, _) =
          expand-eq-ok store s direction max_depth max_results k d st st' stop h in
        visit_edges_rule store s (λ r. work r ≤ work st) (λ _. Unit {0}) d
          (λ x r r' _. visit_edge-work x d (work st) r r') found.0 _ st'
          (All-of _ (λ _. tt) found.0) visits (omega arith)

    loop-on :
        (fuel : ℕ) (st st₂ : Search) (k : Str) (d : ℕ) (rest : List (Str × ℕ))
        → st.queue ≡ (k, d) ∷ rest
        → (d == max_depth) ≡ false
        → expand store s direction max_depth max_results k d (record st { queue = rest })
          ≡ ok (st₂, false)
        → loop store s direction max_depth max_results (suc fuel) st
          ≡ loop store s direction max_depth max_results fuel st₂
    unfolding loop
    loop-on fuel st st₂ k d rest e more x = rw (e, more, x, loop)

    loop-skip :
        (fuel : ℕ) (st : Search) (k : Str) (d : ℕ) (rest : List (Str × ℕ))
        → st.queue ≡ (k, d) ∷ rest
        → (d == max_depth) ≡ true
        → loop store s direction max_depth max_results (suc fuel) st
          ≡ loop store s direction max_depth max_results fuel (record st { queue = rest })
    unfolding loop
    loop-skip fuel st k d rest e last = rw (e, last, loop)

    loop_ends :
        (fuel : ℕ) (st : Search)
        → work st ≤ fuel
        → (r : StoreResult Search) × (loop store s direction max_depth max_results fuel st ≡ some r)
    unfolding loop
    loop_ends zero st w = elim (List-cases st.queue) [
      | inl empty ↦ (ok st, simp (empty, loop))
      | inr (q, rest, e) ↦ absurd (omega (arith, ap length e))
    ]
    loop_ends (suc fuel) st w = elim (List-cases st.queue) [
      | inl empty ↦ (ok st, simp (empty, loop))
      | inr ((k, d), rest, e) ↦
          let now : Search = record st { queue = rest } in
          let less : work now ≤ fuel = omega (arith, ap length e) in
          elim (Bool-cases (d == max_depth)) [
            | inl last ↦
                let (r, ends) = loop_ends fuel now less in
                (r, loop-skip fuel st k d rest e last ∙ ends)
            | inr more ↦
                elim (Result-cases (expand store s direction max_depth max_results k d now)) [
                  | inr (bad, x) ↦ (err bad, simp (e, more, x, loop))
                  | inl ((st₂, stop), x) ↦
                      let kept = expand-work k d now st₂ stop x in
                      elim (Bool-cases stop) [
                        | inl halt ↦ (ok st₂, simp (e, more, x, halt, loop))
                        | inr on ↦
                            let (r, ends) = loop_ends fuel st₂ (omega arith) in
                            (
                              r,
                              loop-on fuel st st₂ k d rest e more (x ∙ ap (λ b. ok (st₂, b)) on)
                                  ∙ ends,
                            )
                      ]
                ]
          ]
    ]

    -- Over a store whose queries return what their clauses promise: with one round for each stored node and one more, the search returns: it finds its result, or
    -- the error of a query, and the loop has not been cut short.
    pub search_from_ends :
        (fuel : ℕ) (object_key : Str)
        → length t.nodes < fuel
        → (r : StoreResult (List ImpactAnalysisNode × Bool)) × (search_from store s direction
              max_depth max_results fuel object_key
            ≡ some r)
    unfolding search_from
    search_from_ends fuel object_key enough = elim (Result-cases (store.get_node s object_key)) [
      | inr (bad, e) ↦ (err bad, rw (e, search_from))
      | inl (found, e) ↦ elim (Option-cases found) [
        | inl missing ↦ (ok ([], false), rw (e, missing, search_from))
        | inr (node, there) ↦
            let first = start store s direction max_depth max_results object_key in
            let (r, ends) =
              loop_ends fuel first (omega (arith, unseen-le (object_key ∷ []) t.nodes)) in
            elim (Result-cases r) [
              | inr (bad, b) ↦ (err bad, rw (e, there, ends, b, search_from))
              | inl (st, b) ↦ (ok (st.nodes, st.truncated), rw (e, there, ends, b, search_from))
            ]
      ]
    ]
