-- ===== src/Graph/Impact/Sound.antt =====
-- What the search reports: nodes of the snapshot, each once, each at the end of a walk of the
-- reported length.
use rdb_memory_mcp.Base.{
  member_head, member_tail, ne_of_members, ℕ, ◌+◌, ◌≤◌, ◌<◌, ◌≡◌, ◌≢◌, refl, inl, inr, Bool, true,
  false, Option, none, some, List, [], ◌∷◌, ◌++◌, Str, str_eq, member, ok, All, All-append, All-imp,
  Distinct, arith, sym, subst,
}
use rdb_memory_mcp.Graph.Store.{
  GraphStore, GraphNodeRecord, GraphEdgeRecord, Tables, HasNode, HasEdge, IsLawful,
}
use rdb_memory_mcp.Graph.Edges.{Direction, NextEdge}
use rdb_memory_mcp.Graph.Edges.Laws.{Follows, next_edges_bounded-Follows}
use rdb_memory_mcp.Graph.Walk.{Walk, here, step, Leads}
use rdb_memory_mcp.Graph.Impact.{
  Search, ImpactAnalysisNode, enter, visit_edge, expand, loop, start, search_from,
}
use rdb_memory_mcp.Graph.Impact.Loop.{
  visit_edge-eq-ok, visit_edges_rule, expand-eq-ok, loop_rule, search_from-eq-ok,
}

abbrev pub node_keys : List ImpactAnalysisNode → List Str
node_keys [] = []
node_keys (n ∷ ns) = n.node_key ∷ node_keys ns

Distinct-snoc :
    (ns : List ImpactAnalysisNode) (n : ImpactAnalysisNode)
    → Distinct (node_keys ns)
    → All (λ m. m.node_key ≢ n.node_key) ns
    → Distinct (node_keys (ns ++ n ∷ []))
Distinct-snoc [] n d h = (tt, tt)
Distinct-snoc (m ∷ ns) n d h = (All-snoc ns d.0 h.0, Distinct-snoc ns n d.1 h.1)
  where
    All-snoc :
        (ms : List ImpactAnalysisNode)
        → All (λ k. m.node_key ≢ k) (node_keys ms)
        → m.node_key ≢ n.node_key
        → All (λ k. m.node_key ≢ k) (node_keys (ms ++ n ∷ []))
    All-snoc [] a b = (b, tt)
    All-snoc (x ∷ ms) a b = (a.0, All-snoc ms a.1 b)

module _ (store : GraphStore) (t : Tables) (lawful : IsLawful store t) (s object_key : Str)
    (direction : Direction) (max_depth max_results : ℕ) where
  -- The node is stored under its key with the reported label and name, a stored edge with the
  -- reported ends and type leads to it, and a walk of the reported length ends there.
  pub record Reported (n : ImpactAnalysisNode) : Type 0 where
    pub walk : Walk t s direction object_key n.node_key n.depth
    pub deep : n.depth ≤ max_depth
    pub stored :
        (r : GraphNodeRecord) × HasNode t s r
        × (r.node_key ≡ n.node_key)
        × (r.label ≡ n.label)
        × (r.display_name ≡ n.display_name)
    pub last_edge :
        (e : GraphEdgeRecord) × (k : Str) × HasEdge t s e
        × Leads direction k e n.node_key
        × (e.edge_type ≡ n.edge_type_used)
        × (e.edge_from ≡ n.edge_from)
        × (e.edge_to ≡ n.edge_to)

  abbrev Queued : Str × ℕ → Type 0
  Queued q = Walk t s direction object_key q.0 q.1 × (q.1 ≤ max_depth)

  record Inv (st : Search) : Type 0 where
    began : member str_eq object_key st.visited ≡ true
    known : All (λ n. member str_eq n.node_key st.visited ≡ true) st.nodes
    other : All (λ n. n.node_key ≢ object_key) st.nodes
    distinct : Distinct (node_keys st.nodes)
    queued : All Queued st.queue
    reported : All Reported st.nodes

  -- The search goes on from this node.
  abbrev From : Str → ℕ → NextEdge → Type 0
  From k d x = Follows store t lawful s k direction x × Walk t s direction object_key k d

  visit_edge-Inv :
      (k : Str) (d : ℕ)
      → d < max_depth
      → (x : NextEdge) (st st' : Search) → From k d x
      → visit_edge store s x d st ≡ ok st'
      → Inv st
      → Inv st'
  unfolding enter
  visit_edge-Inv k d below x st st' from h inv = elim (visit_edge-eq-ok store s x d st st' h) [
    | inl same ↦ subst Inv same inv
    | inr (found, new, get, e) ↦ subst Inv e (enter-Inv found new get)
  ]
    where
      known' : All (λ n. member str_eq n.node_key (x.1 ∷ st.visited) ≡ true) st.nodes
      known' = All-imp (λ n m. member_tail n.node_key x.1 st.visited m) st.nodes inv.known

      enter-Inv :
          (found : Option GraphNodeRecord)
          → member str_eq x.1 st.visited ≡ false
          → store.get_node s x.1 ≡ ok found
          → Inv (enter x d st found)
      enter-Inv none new get = record {
        began = member_tail object_key x.1 st.visited inv.began;
        known = known';
        other = inv.other;
        distinct = inv.distinct;
        queued = inv.queued;
        reported = inv.reported;
      }
      enter-Inv (some node) new get =
          let (has, key) = lawful.get_node_sound s x.1 node get in
          let walk : Walk t s direction object_key x.1 (d + 1) =
            subst (Walk t s direction object_key x.1) (omega arith)
              (step x.0 from.1 from.0.0 from.0.1) in
          record {
            began = member_tail object_key x.1 st.visited inv.began;
            known = All-append _ st.nodes _ known' (member_head x.1 st.visited, tt);
            other =
                All-append _ st.nodes _ inv.other
                  (λ e. ne_of_members object_key x.1 st.visited inv.began new (sym e), tt);
            distinct =
                Distinct-snoc st.nodes _ inv.distinct (
                  All-imp (λ n m. ne_of_members n.node_key x.1 st.visited m new) st.nodes
                    inv.known);
            queued = All-append Queued st.queue _ inv.queued ((walk, omega arith), tt);
            reported = All-append Reported st.nodes _ inv.reported (
              record {
                walk = walk;
                deep = omega arith;
                stored = (node, has, key, refl, refl);
                last_edge = (x.0, k, from.0.0, from.0.1, refl, refl, refl);
              },
              tt,
            );
          }

  -- A round keeps the invariant.
  round-Inv :
      (st st' : Search) (k : Str) (d : ℕ) (rest : List (Str × ℕ)) (stop : Bool)
      → st.queue ≡ (k, d) ∷ rest
      → Inv st
      → d ≢ max_depth
      → expand store s direction max_depth max_results k d (record st { queue = rest })
        ≡ ok (st', stop)
      → Inv st'
  round-Inv st st' k d rest stop e inv deep h =
      let now : Search = record st { queue = rest } in
      let (found, edges, visits, _) =
        expand-eq-ok store s direction max_depth max_results k d now st' stop h in
      let (first, others) = subst (All Queued) e inv.queued in
      let follow =
        (next_edges_bounded-Follows store t lawful s k direction st.remaining_budget found.0 found.1
          edges).0 in
      visit_edges_rule store s Inv (From k d) d (visit_edge-Inv k d (omega (arith, first.1)))
        found.0 _ st' (All-imp (λ x f. (f, first.0)) found.0 follow) visits
        (record {
          began = inv.began;
          known = inv.known;
          other = inv.other;
          distinct = inv.distinct;
          queued = others;
          reported = inv.reported;
        })

  pub loop_sound :
      (fuel : ℕ) (st' : Search)
      → loop store s direction max_depth max_results fuel
          (start store s direction max_depth max_results object_key)
        ≡ some (ok st')
      → All Reported st'.nodes
        × All (λ n. n.node_key ≢ object_key) st'.nodes
        × Distinct (node_keys st'.nodes)
  loop_sound fuel st' h =
      let inv =
        loop_rule store s direction max_depth max_results Inv
          (λ st k d rest e inv. record {
            began = inv.began;
            known = inv.known;
            other = inv.other;
            distinct = inv.distinct;
            queued = (subst (All Queued) e inv.queued).1;
            reported = inv.reported;
          })
          round-Inv fuel _ st' h
          (record {
            began = member_head object_key [];
            known = tt;
            other = tt;
            distinct = tt;
            queued = ((here, omega arith), tt);
            reported = tt;
          }) in
      (inv.reported, inv.other, inv.distinct)

  -- Over a store whose queries return what their clauses promise: when the search returns, every node that it reports is stored under its key with the reported
  -- label and name, lies at the end of a walk of stored edges from the object, as long as the
  -- reported depth and no longer than the bound, and the last edge is the reported one; the object
  -- itself is not reported, and no node is reported twice.
  pub search_from_sound :
      (fuel : ℕ) (nodes : List ImpactAnalysisNode) (truncated : Bool)
      → search_from store s direction max_depth max_results fuel object_key
        ≡ some (ok (nodes, truncated))
      → All Reported nodes × All (λ n. n.node_key ≢ object_key) nodes × Distinct (node_keys nodes)
  unfolding search_from
  search_from_sound fuel nodes truncated h =
      elim (search_from-eq-ok store s direction max_depth max_results fuel object_key nodes
        truncated h) [
          | inl none_found ↦ rw none_found (tt, tt, tt)
          | inr (st, run, same, _) ↦
              subst
                (λ ns.
                  All Reported ns × All (λ n. n.node_key ≢ object_key) ns × Distinct (node_keys ns))
                same (loop_sound fuel st run)
        ]
