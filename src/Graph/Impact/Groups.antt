-- ===== src/Graph/Impact/Groups.antt =====
-- The grouping of the nodes by label and depth (`result` in impact_analysis.rs), and the whole of
-- `impact_analysis` and `impact_analysis_bounded`.
use Prim.Native.Nat.{compare, Ordering}
use Prim.Native.Nat.Ordering.{lt, eq, gt}
use mathlib.Core.List.{Perm, perm_middle, perm_append_singleton, append-nil}
use mathlib.Core.List.Perm
use rdb_memory_mcp.Base.{
  str_cmp_flip, ℕ, ◌≡◌, refl, subst, Bool, true, false, Option, none, some, List, [], ◌∷◌, ◌++◌,
  map, Str, str_cmp, eq_of_str_cmp, str_cmp_refl, ok, err, All, All-append, All-sort_by, sort_by,
  sort_by-perm, arith,
}
use rdb_memory_mcp.Graph.Store.{GraphStore, StoreResult}
use rdb_memory_mcp.Graph.Edges.{Direction, usize_max}
use rdb_memory_mcp.Graph.Impact.{
  ImpactAnalysisNode, ImpactAnalysisGroup, ImpactAnalysisResult, BoundedImpactAnalysisResult,
  search_from,
}

-- The order of the keys `(label, depth)`.
unfoldable pub key_cmp : Str → ℕ → Str → ℕ → Ordering
key_cmp label depth label' depth' = elim (str_cmp label label') [
  | lt ↦ lt
  | eq ↦ compare depth depth'
  | gt ↦ gt
]

abbrev pub new_group : ImpactAnalysisNode → ImpactAnalysisGroup
new_group n = record { label = n.label; depth = n.depth; nodes = n ∷ [] }

-- A node among the groups from g on, by the order of its key and that of g.
abbrev pub place :
    ImpactAnalysisNode
    → ImpactAnalysisGroup
    → List ImpactAnalysisGroup
    → List ImpactAnalysisGroup
    → Ordering
    → List ImpactAnalysisGroup
place n g gs rest lt = new_group n ∷ g ∷ gs
place n g gs rest eq = record g { nodes = g.nodes ++ n ∷ [] } ∷ gs
place n g gs rest gt = g ∷ rest

-- `grouped.entry((node.label.clone(), node.depth)).or_default().push(node)`.
unfoldable pub push_node : ImpactAnalysisNode → List ImpactAnalysisGroup → List ImpactAnalysisGroup
push_node n [] = new_group n ∷ []
push_node n (g ∷ gs) = place n g gs (push_node n gs) (key_cmp n.label n.depth g.label g.depth)

-- The loop over the nodes, from the groups made so far.
unfoldable pub push_nodes :
    List ImpactAnalysisNode → List ImpactAnalysisGroup → List ImpactAnalysisGroup
push_nodes [] gs = gs
push_nodes (n ∷ ns) gs = push_nodes ns (push_node n gs)

-- `nodes.sort_by(|left, right| left.node_key.cmp(&right.node_key))`.
unfoldable pub node_key_after : ImpactAnalysisNode → ImpactAnalysisNode → Bool
node_key_after a b = elim (str_cmp a.node_key b.node_key) [ gt ↦ true | _ ↦ false ]

abbrev pub sort_group : ImpactAnalysisGroup → ImpactAnalysisGroup
sort_group g = record g { nodes = sort_by node_key_after g.nodes }

unfoldable pub groups_of : List ImpactAnalysisNode → List ImpactAnalysisGroup
groups_of nodes = map sort_group (push_nodes nodes [])

abbrev pub result_of : Str → Str → Direction → ℕ → List ImpactAnalysisNode → ImpactAnalysisResult
result_of snapshot object direction depth found = record {
  snapshot_key = snapshot;
  object_key = object;
  direction = direction;
  max_depth = depth;
  groups = groups_of found;
}

-- `impact_analysis_bounded` on fuel, and `impact_analysis` without a bound.
unfoldable pub impact_analysis_bounded :
    ℕ
    → GraphStore
    → Str
    → Str
    → Direction
    → ℕ
    → ℕ
    → Option (StoreResult BoundedImpactAnalysisResult)
impact_analysis_bounded fuel store snapshot object direction depth max_results =
    elim (search_from store snapshot direction depth max_results fuel object) [
      | none ↦ none
      | some (err e) ↦ some (err e)
      | some (ok found) ↦ some (
          ok (record {
            result = result_of snapshot object direction depth found.0;
            truncated = found.1;
          }))
    ]

unfoldable pub impact_analysis :
    ℕ → GraphStore → Str → Str → Direction → ℕ → Option (StoreResult ImpactAnalysisResult)
impact_analysis fuel store snapshot object direction depth =
    elim (impact_analysis_bounded fuel store snapshot object direction depth usize_max) [
      | none ↦ none
      | some (err e) ↦ some (err e)
      | some (ok bounded) ↦ some (ok bounded.result)
    ]

-- All nodes of the groups.
abbrev pub flatten : List ImpactAnalysisGroup → List ImpactAnalysisNode
flatten [] = []
flatten (g ∷ gs) = g.nodes ++ flatten gs

-- Each node has the label and the depth of its group.
abbrev pub Uniform : ImpactAnalysisGroup → Type 0
Uniform g = All (λ n. (n.label ≡ g.label) × (n.depth ≡ g.depth)) g.nodes

-- The keys of the groups increase.
abbrev pub Above : ImpactAnalysisGroup → List ImpactAnalysisGroup → Type 0
Above g [] = Unit
Above g (h ∷ _) = key_cmp g.label g.depth h.label h.depth ≡ lt

abbrev pub Increasing : List ImpactAnalysisGroup → Type 0
Increasing [] = Unit
Increasing (g ∷ gs) = Above g gs × Increasing gs

key_cmp_flip : (l l' : Str) (d d' : ℕ) → key_cmp l d l' d' ≡ gt → key_cmp l' d' l d ≡ lt
unfolding key_cmp
key_cmp_flip l l' d d' h = ground (arith, str_cmp_flip l l', eq_of_str_cmp l l', str_cmp_refl l)

key_cmp-eq : (l l' : Str) (d d' : ℕ) → key_cmp l d l' d' ≡ eq → (l ≡ l') × (d ≡ d')
unfolding key_cmp
key_cmp-eq l l' d d' h = (ground (arith, eq_of_str_cmp l l'), ground (arith))

-- A node under its own group or the next group: what is above a list stays above it.
push_node-Above :
    (n : ImpactAnalysisNode) (g : ImpactAnalysisGroup) (gs : List ImpactAnalysisGroup)
    → key_cmp g.label g.depth n.label n.depth ≡ lt
    → Above g gs
    → Above g (push_node n gs)
unfolding push_node
push_node-Above n g [] below above = below
push_node-Above n g (h ∷ gs) below above = go (key_cmp n.label n.depth h.label h.depth)
  where
    go : (o : Ordering) → Above g (place n h gs (push_node n gs) o)
    go lt = below
    go eq = above
    go gt = above

push_node-Increasing :
    (n : ImpactAnalysisNode) (gs : List ImpactAnalysisGroup)
    → Increasing gs
    → Increasing (push_node n gs)
unfolding push_node
push_node-Increasing n [] inc = (tt, tt)
push_node-Increasing n (g ∷ gs) inc =
    go (push_node-Increasing n gs inc.1) (key_cmp n.label n.depth g.label g.depth) refl
  where
    go :
        Increasing (push_node n gs)
        → (o : Ordering) → key_cmp n.label n.depth g.label g.depth ≡ o
        → Increasing (place n g gs (push_node n gs) o)
    go rest lt e = (e, inc)
    go rest eq e = inc
    go rest gt e =
        (push_node-Above n g gs (key_cmp_flip n.label g.label n.depth g.depth e) inc.0, rest)

push_node-Uniform :
    (n : ImpactAnalysisNode) (gs : List ImpactAnalysisGroup)
    → All Uniform gs
    → All Uniform (push_node n gs)
unfolding push_node
push_node-Uniform n [] u = (((refl, refl), tt), tt)
push_node-Uniform n (g ∷ gs) u =
    go (push_node-Uniform n gs u.1) (key_cmp n.label n.depth g.label g.depth) refl
  where
    go :
        All Uniform (push_node n gs)
        → (o : Ordering) → key_cmp n.label n.depth g.label g.depth ≡ o
        → All Uniform (place n g gs (push_node n gs) o)
    go rest lt e = (((refl, refl), tt), u)
    go rest eq e =
        (All-append _ g.nodes (n ∷ []) u.0 (key_cmp-eq n.label g.label n.depth g.depth e, tt), u.1)
    go rest gt e = (u.0, rest)

push_node-perm :
    (n : ImpactAnalysisNode) (gs : List ImpactAnalysisGroup)
    → Perm (flatten (push_node n gs)) (n ∷ flatten gs)
unfolding push_node
push_node-perm n [] = Perm.refl (n ∷ [])
push_node-perm n (g ∷ gs) = go (push_node-perm n gs) (key_cmp n.label n.depth g.label g.depth)
  where
    go :
        Perm (flatten (push_node n gs)) (n ∷ flatten gs)
        → (o : Ordering) → Perm (flatten (place n g gs (push_node n gs) o)) (n ∷ flatten (g ∷ gs))
    go rest lt = Perm.refl (n ∷ flatten (g ∷ gs))
    go rest eq = Perm.append (perm_append_singleton n g.nodes) (Perm.refl (flatten gs))
    go rest gt =
        Perm.trans (Perm.append (Perm.refl g.nodes) rest) (perm_middle g.nodes (flatten gs))

push_nodes-perm :
    (ns : List ImpactAnalysisNode) (gs : List ImpactAnalysisGroup)
    → Perm (flatten (push_nodes ns gs)) (ns ++ flatten gs)
unfolding push_nodes
push_nodes-perm [] gs = Perm.refl (flatten gs)
push_nodes-perm (n ∷ ns) gs =
    Perm.trans (push_nodes-perm ns (push_node n gs))
      (Perm.trans (Perm.append (Perm.refl ns) (push_node-perm n gs)) (perm_middle ns (flatten gs)))

push_nodes-keeps {κ} :
    (P : List ImpactAnalysisGroup → Type κ)
    → ((n : ImpactAnalysisNode) (gs : List ImpactAnalysisGroup) → P gs → P (push_node n gs))
    → (ns : List ImpactAnalysisNode) (gs : List ImpactAnalysisGroup) → P gs
    → P (push_nodes ns gs)
unfolding push_nodes
push_nodes-keeps P keep [] gs p = p
push_nodes-keeps P keep (n ∷ ns) gs p = push_nodes-keeps P keep ns (push_node n gs) (keep n gs p)

-- Sorting the nodes of the groups changes neither their keys nor what they hold.
sorted-perm : (gs : List ImpactAnalysisGroup) → Perm (flatten (map sort_group gs)) (flatten gs)
sorted-perm [] = Perm.refl []
sorted-perm (g ∷ gs) = Perm.append (sort_by-perm node_key_after g.nodes) (sorted-perm gs)

sorted-Uniform : (gs : List ImpactAnalysisGroup) → All Uniform gs → All Uniform (map sort_group gs)
sorted-Uniform [] u = tt
sorted-Uniform (g ∷ gs) u = (All-sort_by node_key_after _ g.nodes u.0, sorted-Uniform gs u.1)

sorted-Increasing : (gs : List ImpactAnalysisGroup) → Increasing gs → Increasing (map sort_group gs)
sorted-Increasing [] inc = tt
sorted-Increasing (g ∷ []) inc = (tt, tt)
sorted-Increasing (g ∷ h ∷ gs) inc = (inc.0, sorted-Increasing (h ∷ gs) inc.1)

-- Grouping loses no node and adds none, each group holds nodes of its label and depth only, and the
-- groups come in the increasing order of their labels and depths, so that no two share both.
pub groups_of_lem :
    (nodes : List ImpactAnalysisNode)
    → Perm (flatten (groups_of nodes)) nodes
      × All Uniform (groups_of nodes)
      × Increasing (groups_of nodes)
unfolding groups_of
groups_of_lem nodes =
    let gs = push_nodes nodes [] in
    (
      Perm.trans (sorted-perm gs)
          (subst (Perm (flatten gs)) (append-nil nodes) (push_nodes-perm nodes [])),
      sorted-Uniform gs (push_nodes-keeps (All Uniform) push_node-Uniform nodes [] tt),
      sorted-Increasing gs (push_nodes-keeps Increasing push_node-Increasing nodes [] tt),
    )
