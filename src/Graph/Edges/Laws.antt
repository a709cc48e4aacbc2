-- ===== src/Graph/Edges/Laws.antt =====
-- The edges that a traversal is given lead from the node in the asked direction, and a bounded
-- call returns no more of them than it was asked for.
use rdb_memory_mcp.Base.{
  ℕ, ◌≤◌, ◌≡◌, ◌≢◌, refl, inl, inr, ◌⊎◌, Bool, true, false, List, [], ◌∷◌, ◌++◌, map, Str, str_eq,
  All, All-append, All-map, All-imp, All-take, length, length-take, ok, arith, Bool-cases, ◌==◌,
  >>=-eq-ok, ok-injective, ap, sym, subst, sort_by, All-sort_by,
}
use rdb_memory_mcp.Graph.Store.{GraphStore, GraphEdgeRecord, StoreResult, Tables, HasEdge, IsLawful}
use rdb_memory_mcp.Graph.Edges.{
  Direction, goes_out, goes_in, NextEdge, out_next, in_next, when_asked, next_edges, comes_after,
  dedup_after, dedup_edges, merge_bounded_edges, merge_sources, next_edges_bounded, usize_max,
}
use rdb_memory_mcp.Graph.Walk.{Leads}

module _ {κ} (P : NextEdge → Type κ) where
  All-dedup_after : (x : NextEdge) (xs : List NextEdge) → All P xs → All P (dedup_after x xs)
  unfolding dedup_after
  All-dedup_after x [] ps = ps
  All-dedup_after x (y ∷ ys) ps = elim (Bool-cases (str_eq y.0.edge_key x.0.edge_key)) [
    | inl same ↦ rw same (All-dedup_after x ys ps.1)
    | inr other ↦ rw other (ps.0, All-dedup_after y ys ps.1)
  ]

  All-dedup_edges : (xs : List NextEdge) → All P xs → All P (dedup_edges xs)
  unfolding dedup_edges
  All-dedup_edges [] ps = ps
  All-dedup_edges (x ∷ xs) ps = (ps.0, All-dedup_after x xs ps.1)

  pub All-merge :
      (xs : List NextEdge) (max_edges : ℕ) (truncated : Bool)
      → All P xs
      → All P (merge_bounded_edges xs max_edges truncated).0
        × (length (merge_bounded_edges xs max_edges truncated).0 ≤ max_edges)
  unfolding merge_bounded_edges
  All-merge xs max_edges truncated ps = (
    All-take P max_edges _
        (All-dedup_edges (sort_by comes_after xs) (All-sort_by comes_after P xs ps)),
    length-take max_edges _,
  )

module _ (store : GraphStore) (t : Tables) (lawful : IsLawful store t) (s k : Str) where
  -- The edge is stored, and the traversal may follow it from the node to the key beside it.
  abbrev pub Follows : Direction → NextEdge → Type 0
  Follows direction x = HasEdge t s x.0 × Leads direction k x.0 x.1

  Follows-out :
      (direction : Direction) (es : List GraphEdgeRecord)
      → goes_out direction ≡ true
      → All (λ e. HasEdge t s e × (e.edge_from ≡ k)) es
      → All (Follows direction) (map out_next es)
  Follows-out direction es out h =
      All-map (Follows direction) out_next es (All-imp (λ e p. (p.0, inl (out, p.1, refl))) es h)

  Follows-in :
      (direction : Direction) (es : List GraphEdgeRecord)
      → goes_in direction ≡ true
      → All (λ e. HasEdge t s e × (e.edge_to ≡ k)) es
      → All (Follows direction) (map in_next es)
  Follows-in direction es in_ h =
      All-map (Follows direction) in_next es (All-imp (λ e p. (p.0, inr (in_, p.1, refl))) es h)

  -- A query that was not made has no row.
  asked :
      (P : GraphEdgeRecord → Type 0) (b : Bool) (query : StoreResult (List GraphEdgeRecord))
      (es : List GraphEdgeRecord)
      → (query ≡ ok es → All P es)
      → when_asked b query ≡ ok es
      → All P es × ((b ≡ true) ⊎ (es ≡ []))
  asked P true query es sound h = (sound h, inl refl)
  asked P false query es sound h = (subst (All P) (ok-injective h) tt, inr (sym (ok-injective h)))

  Follows-sources :
      (direction : Direction) (outgoing incoming : List GraphEdgeRecord)
      → All (λ e. HasEdge t s e × (e.edge_from ≡ k)) outgoing
        × ((goes_out direction ≡ true) ⊎ (outgoing ≡ []))
      → All (λ e. HasEdge t s e × (e.edge_to ≡ k)) incoming
        × ((goes_in direction ≡ true) ⊎ (incoming ≡ []))
      → All (Follows direction) (map out_next outgoing ++ map in_next incoming)
  Follows-sources direction outgoing incoming (o, out) (i, in_) =
      All-append (Follows direction) (map out_next outgoing) (map in_next incoming)
        (elim out [
          | inl b ↦ Follows-out direction outgoing b o
          | inr e ↦ subst (λ es. All (Follows direction) (map out_next es)) (sym e) tt
        ])
        (elim in_ [
          | inl b ↦ Follows-in direction incoming b i
          | inr e ↦ subst (λ es. All (Follows direction) (map in_next es)) (sym e) tt
        ])

  next_edges-Follows :
      (direction : Direction) (edges : List NextEdge)
      → next_edges store s k direction ≡ ok edges
      → All (Follows direction) edges
  unfolding next_edges
  next_edges-Follows direction edges h =
      let (outgoing, e, h₁) = >>=-eq-ok _ _ h in
      let (incoming, e', h₂) = >>=-eq-ok _ _ h₁ in
      subst (All (Follows direction)) (ok-injective h₂) (
        Follows-sources direction outgoing incoming
          (asked _ _ _ outgoing (lawful.edges_from_sound s k outgoing) e)
          (asked _ _ _ incoming (lawful.edges_to_sound s k incoming) e'))

  -- Every edge that is returned may be followed, and a bounded call keeps its bound.
  pub next_edges_bounded-Follows :
      (direction : Direction) (max_edges : ℕ) (edges : List NextEdge) (more : Bool)
      → next_edges_bounded store s k direction max_edges ≡ ok (edges, more)
      → All (Follows direction) edges × (max_edges ≢ usize_max → length edges ≤ max_edges)
  unfolding next_edges_bounded
  next_edges_bounded-Follows direction max_edges edges more h =
      elim (Bool-cases (max_edges == usize_max)) [
        | inl unbounded ↦
            let (found, e, h₁) = >>=-eq-ok _ _ (rw unbounded at h) in
            let same : found ≡ edges = ap (λ p. p.0) (ok-injective h₁) in
            (
              subst (All (Follows direction)) same (next_edges-Follows direction found e),
              λ n. absurd (n (ground arith)),
            )
        | inr bounded ↦
            let (outgoing, e, h₁) = >>=-eq-ok _ _ (rw bounded at h) in
            let (incoming, e', h₂) = >>=-eq-ok _ _ h₁ in
            let same : (merge_sources max_edges outgoing incoming).0 ≡ edges =
              ap (λ p. p.0) (ok-injective h₂) in
            let (follow, few) = All-merge (Follows direction) _ max_edges _ (
              Follows-sources direction outgoing incoming
                (asked _ _ _ outgoing (λ q. (lawful.edges_from_limited_sound s k _ outgoing q).0) e)
                (asked _ _ _ incoming (λ q. (lawful.edges_to_limited_sound s k _ incoming q).0)
                  e')) in
            (
              subst (All (Follows direction)) same follow,
              λ _. subst (λ es. length es ≤ max_edges) same few,
            )
      ]
