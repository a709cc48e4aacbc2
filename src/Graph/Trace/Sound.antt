-- ===== src/Graph/Trace/Sound.antt =====
-- What the trace reports: paths along stored edges that visit no node twice.
use rdb_memory_mcp.Base.{
  member_head, member_tail, ne_of_members, ℕ, ◌+◌, ◌≤◌, ◌<◌, ◌≡◌, ◌≢◌, refl, inl, inr, Bool, true,
  false, Option, none, some, List, [], ◌∷◌, ◌++◌, Str, str_eq, member, ok, All, All-append, All-imp,
  Distinct, arith, sym, subst, length, length-append, if◌then◌else◌, ltb,
}
use rdb_memory_mcp.Graph.Store.{
  GraphStore, GraphNodeRecord, GraphEdgeRecord, Tables, HasNode, HasEdge, IsLawful,
}
use rdb_memory_mcp.Graph.Edges.{Direction, NextEdge}
use rdb_memory_mcp.Graph.Edges.Laws.{next_edges_bounded-Follows}
use rdb_memory_mcp.Graph.Walk.{Leads}
use rdb_memory_mcp.Graph.Trace.{
  GraphPathHop, GraphPath, Trail, Tracing, BoundedRelationshipTraceResult, hops_of, next_hop,
  start_hop, extend, follow, trace_edge, trace_round, trace_start, trace_relationships_bounded,
}
use rdb_memory_mcp.Graph.Trace.Loop.{
  trace_edge-eq-ok, trace_edges_rule, trace_round-eq-ok, trace_loop_rule,
  trace_relationships_bounded-eq-ok,
}

abbrev pub hop_keys : List GraphPathHop → List Str
hop_keys [] = []
hop_keys (h ∷ hs) = h.node_key ∷ hop_keys hs

-- The hops before and the last hop: from the start, each hop follows a stored edge to a stored
-- node, and reports the edge and the node's label.
pub data IsTrace (t : Tables) (s : Str) (direction : Direction) (start_key : Str)
    : List GraphPathHop → GraphPathHop → Type 0 where
  start :
      (node : GraphNodeRecord)
      → HasNode t s node
      → node.node_key ≡ start_key
      → IsTrace t s direction start_key [] (start_hop start_key node)
  step :
      {earlier : List GraphPathHop} {last : GraphPathHop} (e : GraphEdgeRecord) (key : Str)
      (node : GraphNodeRecord)
      → IsTrace t s direction start_key earlier last
      → HasEdge t s e
      → Leads direction last.node_key e key
      → HasNode t s node
      → node.node_key ≡ key
      → IsTrace t s direction start_key (earlier ++ last ∷ []) (next_hop (e, key) node)

Distinct-snoc :
    (ks : List Str) (k : Str) → Distinct ks → All (λ j. j ≢ k) ks → Distinct (ks ++ k ∷ [])
Distinct-snoc [] k d h = (tt, tt)
Distinct-snoc (j ∷ ks) k d h =
    (All-append (λ i. j ≢ i) ks (k ∷ []) d.0 (h.0, tt), Distinct-snoc ks k d.1 h.1)

hop_keys-append :
    (hs : List GraphPathHop) (h : GraphPathHop)
    → hop_keys (hs ++ h ∷ []) ≡ hop_keys hs ++ h.node_key ∷ []
hop_keys-append [] h = refl
hop_keys-append (x ∷ hs) h = λ i. x.node_key ∷ hop_keys-append hs h i

module _ (store : GraphStore) (t : Tables) (lawful : IsLawful store t) (s start_key : Str)
    (direction : Direction) (max_depth max_paths : ℕ) where
  -- A trail of the queue.
  record Good (trail : Trail) : Type 0 where
    trace : IsTrace t s direction start_key trail.earlier trail.last
    distinct : Distinct (hop_keys (hops_of trail))
    known : All (λ k. member str_eq k trail.visited ≡ true) (hop_keys (hops_of trail))
    short : length trail.earlier ≤ max_depth

  -- A path that is reported: a trace of at least one edge and at most max_depth, with no node twice.
  pub record IsPath (p : GraphPath) : Type 0 where
    pub earlier : List GraphPathHop
    pub last : GraphPathHop
    pub hops_eq : p.hops ≡ earlier ++ last ∷ []
    pub trace : IsTrace t s direction start_key earlier last
    pub distinct : Distinct (hop_keys p.hops)
    pub long : 0 < length earlier
    pub short : length earlier ≤ max_depth

  abbrev Inv : Tracing → Type 0
  Inv st = All Good st.queue × All IsPath st.paths

  extend-Good :
      (trail : Trail) (x : NextEdge) (node : GraphNodeRecord)
      → Good trail
      → length trail.earlier < max_depth
      → member str_eq x.1 trail.visited ≡ false
      → HasEdge t s x.0
      → Leads direction trail.last.node_key x.0 x.1
      → HasNode t s node
      → node.node_key ≡ x.1
      → Good (extend trail x node)
  extend-Good trail x node good below new edge leads there key = record {
    trace = step x.0 x.1 node good.trace edge leads there key;
    distinct = subst Distinct (sym (hop_keys-append (hops_of trail) (next_hop x node))) (
        Distinct-snoc (hop_keys (hops_of trail)) x.1 good.distinct
          (All-imp (λ k h. ne_of_members k x.1 trail.visited h new) _ good.known));
    known =
        subst (All (λ k. member str_eq k (x.1 ∷ trail.visited) ≡ true))
          (sym (hop_keys-append (hops_of trail) (next_hop x node)))
          (All-append _ (hop_keys (hops_of trail)) (x.1 ∷ [])
            (All-imp (λ k h. member_tail k x.1 trail.visited h) _ good.known)
            (member_head x.1 trail.visited, tt));
    short = omega (arith, length-append trail.earlier (trail.last ∷ []));
  }

  -- The edge leads on from the trail, which the queue held.
  abbrev From : Trail → NextEdge → Type 0
  From trail x = HasEdge t s x.0 × Leads direction trail.last.node_key x.0 x.1

  trace_edge-Inv :
      (trail : Trail)
      → Good trail
      → length trail.earlier < max_depth
      → (x : NextEdge) (st st' : Tracing) → From trail x
      → trace_edge store s direction max_depth max_paths trail x st ≡ ok st'
      → Inv st
      → Inv st'
  unfolding follow
  trace_edge-Inv trail good below x st st' from h inv =
      elim (trace_edge-eq-ok store s direction max_depth max_paths trail x st st' h) [
        | inl same ↦ subst Inv same inv
        | inr (found, new, get, e) ↦ subst Inv e (follow-Inv found new get)
      ]
    where
      queued :
          (node : GraphNodeRecord)
          → Good (extend trail x node)
          → (b : Bool) → All Good (if b then st.queue ++ extend trail x node ∷ [] else st.queue)
      queued node g true = All-append Good st.queue _ inv.0 (g, tt)
      queued node g false = inv.0

      follow-Inv :
          (found : Option GraphNodeRecord)
          → member str_eq x.1 trail.visited ≡ false
          → store.get_node s x.1 ≡ ok found
          → Inv (follow store s direction max_depth max_paths trail x st found)
      follow-Inv none new get = inv
      follow-Inv (some node) new get =
          let (has, key) = lawful.get_node_sound s x.1 node get in
          let g : Good (extend trail x node) =
            extend-Good trail x node good below new from.0 from.1 has key in
          (
            queued node g (ltb (length trail.earlier + 1) max_depth),
            All-append IsPath st.paths _ inv.1 (
              record {
                earlier = hops_of trail;
                last = next_hop x node;
                hops_eq = refl;
                trace = g.trace;
                distinct = g.distinct;
                long = omega (arith, length-append trail.earlier (trail.last ∷ []));
                short = g.short;
              },
              tt,
            ),
          )

  round-Inv :
      (st st' : Tracing) (trail : Trail) (rest : List Trail) (stop : Bool)
      → st.queue ≡ trail ∷ rest
      → Inv st
      → length trail.earlier ≢ max_depth
      → trace_round store s direction max_depth max_paths trail (record st { queue = rest })
        ≡ ok (st', stop)
      → Inv st'
  round-Inv st st' trail rest stop e inv deep h =
      let now : Tracing = record st { queue = rest } in
      let (found, edges, visits) =
        trace_round-eq-ok store s direction max_depth max_paths trail now st' stop h in
      let (good, others) = subst (All Good) e inv.0 in
      let follows =
        (next_edges_bounded-Follows store t lawful s trail.last.node_key direction
          st.remaining_budget found.0 found.1 edges).0 in
      trace_edges_rule store s direction max_depth max_paths Inv (From trail) trail
        (trace_edge-Inv trail good (omega (arith, good.short))) found.0 _ st' follows visits
        (others, inv.1)

  -- Over a store whose queries return what their clauses promise: when the trace returns, every path
  -- that it reports begins at the start, follows stored edges in the direction asked for, with the
  -- reported edges and labels, to stored nodes, has between one and max_depth edges, and visits no
  -- node twice.
  pub trace_relationships_bounded_sound :
      (fuel : ℕ) (result : BoundedRelationshipTraceResult)
      → trace_relationships_bounded store s direction max_depth max_paths fuel start_key
        ≡ some (ok result)
      → All IsPath result.paths
  trace_relationships_bounded_sound fuel result h =
      elim (trace_relationships_bounded-eq-ok store s direction max_depth max_paths fuel start_key
        result h) [
          | inl nothing ↦ subst (All IsPath) (sym nothing) tt
          | inr (node, st, get, run, same) ↦
              let (has, key) = lawful.get_node_sound s start_key node get in
              let first : Good (record {
                earlier = [];
                last = start_hop start_key node;
                visited = start_key ∷ [];
              }) =
                record {
                  trace = start node has key;
                  distinct = (tt, tt);
                  known = (member_head start_key [], tt);
                  short = omega arith;
                } in
              let inv : Inv st =
                trace_loop_rule store s direction max_depth max_paths Inv
                  (λ st trail rest e inv. ((subst (All Good) e inv.0).1, inv.1)) round-Inv fuel
                  (trace_start store s direction max_depth max_paths start_key node) st run
                  ((first, tt), tt) in
              subst (All IsPath) same inv.1
        ]
