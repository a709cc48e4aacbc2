-- ===== src/Graph/Memory.antt =====
-- The queries of graph_store.rs over rows that are held in memory: the WHERE clause keeps rows, the
-- ORDER BY clause sorts them, and the LIMIT clause takes the first of them.
use Prim.Native.Nat.{Ordering}
use rdb_memory_mcp.Base.{
  ℕ, ◌≡◌, ◌≤◌, leb, if◌then◌else◌, Bool, true, false, ◌&&◌, Option, none, some, List, [], ◌∷◌, Str,
  str_eq, str_eq_iff, str_cmp, ok, take, length, length-take, keep, sort_by, All-sort_by, All,
  All-take, All-imp, All-keep, and_true, ok-injective, Memᴰ, subst, arith,
}
use mathlib.Core.Option.{none-ne-some, some-injective}
use rdb_memory_mcp.Graph.Store.{
  GraphStore, GraphNodeRecord, GraphEdgeRecord, Tables, HasNode, HasEdge, IsLawful,
}
use rdb_memory_mcp.Graph.Edges.{comes_after, out_next}

-- ORDER BY node_key and ORDER BY edge_key, and by priority with the edge key.
abbrev pub is_gt : Ordering → Bool
is_gt Ordering.gt = true
is_gt _ = false

unfoldable pub node_after : GraphNodeRecord → GraphNodeRecord → Bool
node_after a b = is_gt (str_cmp a.node_key b.node_key)

unfoldable pub edge_after : GraphEdgeRecord → GraphEdgeRecord → Bool
edge_after a b = is_gt (str_cmp a.edge_key b.edge_key)

unfoldable pub priority_after : GraphEdgeRecord → GraphEdgeRecord → Bool
priority_after a b = comes_after (out_next a) (out_next b)

-- `SELECT … WHERE snapshot_key = ?1 AND … ORDER BY …`.
abbrev pub select_nodes : Tables → Str → (GraphNodeRecord → Bool) → List GraphNodeRecord
select_nodes t s p = sort_by node_after (keep (λ n. str_eq n.snapshot_key s && p n) t.nodes)

abbrev pub select_edges :
    Tables
    → (GraphEdgeRecord → GraphEdgeRecord → Bool)
    → Str
    → (GraphEdgeRecord → Bool)
    → List GraphEdgeRecord
select_edges t after s p = sort_by after (keep (λ e. str_eq e.snapshot_key s && p e) t.edges)

-- `query_row(…).optional()`.
abbrev pub first_row : List GraphNodeRecord → Option GraphNodeRecord
first_row [] = none
first_row (n ∷ ns) = some n

-- `i64::MAX`, and `sqlite_limit`.
abbrev pub i64_max : ℕ
i64_max = 0x7fffffffffffffff

unfoldable pub sqlite_limit : ℕ → ℕ
sqlite_limit limit = if leb limit i64_max then limit else i64_max

abbrev pub memory_store : Tables → GraphStore
memory_store t = record {
  get_node =
      λ s k. ok (first_row (keep (λ n. str_eq n.snapshot_key s && str_eq n.node_key k) t.nodes));
  nodes_by_label = λ s label. ok (select_nodes t s (λ n. str_eq n.label label));
  nodes_for_snapshot = λ s. ok (select_nodes t s (λ n. true));
  edges_for_snapshot = λ s. ok (select_edges t edge_after s (λ e. true));
  edges_from = λ s k. ok (select_edges t edge_after s (λ e. str_eq e.edge_from k));
  edges_to = λ s k. ok (select_edges t edge_after s (λ e. str_eq e.edge_to k));
  edges_from_limited = λ s k limit.
      ok (take (sqlite_limit limit) (select_edges t priority_after s (λ e. str_eq e.edge_from k)));
  edges_to_limited = λ s k limit.
      ok (take (sqlite_limit limit) (select_edges t priority_after s (λ e. str_eq e.edge_to k)));
  edges_from_by_type_limited = λ s k kind limit. ok (
      take (sqlite_limit limit)
        (select_edges t edge_after s (λ e. str_eq e.edge_from k && str_eq e.edge_type kind)));
  edges_to_by_type_limited = λ s k kind limit. ok (
      take (sqlite_limit limit)
        (select_edges t edge_after s (λ e. str_eq e.edge_to k && str_eq e.edge_type kind)));
  edges_by_type_limited = λ s kind limit.
      ok (take (sqlite_limit limit) (select_edges t edge_after s (λ e. str_eq e.edge_type kind)));
}

-- What the WHERE clause says of a row, and that the row is stored.
module _ (t : Tables) (s : Str) where
  select_edges_lem :
      (after : GraphEdgeRecord → GraphEdgeRecord → Bool) (p : GraphEdgeRecord → Bool)
      → All (λ e. HasEdge t s e × (p e ≡ true)) (select_edges t after s p)
  select_edges_lem after p = All-sort_by after _ _ (
      All-imp
        (λ e h.
          let split = and_true (str_eq e.snapshot_key s) (p e) h.1 in
          ((h.0, (str_eq_iff e.snapshot_key s).0 split.0), split.1))
        (keep (λ e. str_eq e.snapshot_key s && p e) t.edges) (All-keep _ t.edges))

  -- A result of a limited query, whose WHERE clause implies a condition.
  limited_lem {κ} :
      (after : GraphEdgeRecord → GraphEdgeRecord → Bool) (p : GraphEdgeRecord → Bool)
      (Q : GraphEdgeRecord → Type κ)
      → ((e : GraphEdgeRecord) → p e ≡ true → Q e)
      → (limit : ℕ) (es : List GraphEdgeRecord)
      → take (sqlite_limit limit) (select_edges t after s p) ≡ es
      → All (λ e. HasEdge t s e × Q e) es × (length es ≤ limit)
  unfolding sqlite_limit
  limited_lem after p Q f limit es h =
      let rows = select_edges t after s p in
      let few : sqlite_limit limit ≤ limit = ground arith in
      subst (λ r. All (λ e. HasEdge t s e × Q e) r × (length r ≤ limit)) h
        (
          All-imp (λ e h. (h.0, f e h.1)) _
              (All-take _ (sqlite_limit limit) rows (select_edges_lem after p)),
          omega (arith, length-take (sqlite_limit limit) rows),
        )

  all_lem {κ} :
      (after : GraphEdgeRecord → GraphEdgeRecord → Bool) (p : GraphEdgeRecord → Bool)
      (Q : GraphEdgeRecord → Type κ)
      → ((e : GraphEdgeRecord) → p e ≡ true → Q e)
      → (es : List GraphEdgeRecord) → select_edges t after s p ≡ es
      → All (λ e. HasEdge t s e × Q e) es
  all_lem after p Q f es h =
      subst (All (λ e. HasEdge t s e × Q e)) h
        (All-imp (λ e h. (h.0, f e h.1)) _ (select_edges_lem after p))

  first_lem :
      (k : Str) (rows : List GraphNodeRecord)
      → All (λ n. Memᴰ n t.nodes × ((str_eq n.snapshot_key s && str_eq n.node_key k) ≡ true)) rows
      → (n : GraphNodeRecord) → first_row rows ≡ some n
      → HasNode t s n × (n.node_key ≡ k)
  first_lem k [] h n e = absurd (none-ne-some _ e)
  first_lem k (m ∷ rows) h n e =
      let split = and_true (str_eq m.snapshot_key s) (str_eq m.node_key k) h.0.1 in
      subst (λ r. HasNode t s r × (r.node_key ≡ k)) (some-injective _ _ e)
        ((h.0.0, (str_eq_iff m.snapshot_key s).0 split.0), (str_eq_iff m.node_key k).0 split.1)

-- The queries keep what their clauses promise.
pub memory_store-IsLawful : (t : Tables) → IsLawful (memory_store t) t
memory_store-IsLawful t = record {
  get_node_sound = λ s k n h. first_lem t s k _ (All-keep _ t.nodes) n (ok-injective h);
  edges_from_sound = λ s k es h.
      all_lem t s edge_after _ _ (λ e. (str_eq_iff e.edge_from k).0) es (ok-injective h);
  edges_to_sound =
      λ s k es h. all_lem t s edge_after _ _ (λ e. (str_eq_iff e.edge_to k).0) es (ok-injective h);
  edges_from_limited_sound = λ s k limit es h.
      limited_lem t s priority_after _ _ (λ e. (str_eq_iff e.edge_from k).0) limit es
        (ok-injective h);
  edges_to_limited_sound = λ s k limit es h.
      limited_lem t s priority_after _ _ (λ e. (str_eq_iff e.edge_to k).0) limit es
        (ok-injective h);
  edges_from_by_type_limited_sound = λ s k kind limit es h.
      limited_lem t s edge_after _ _ (both_eq (λ e. e.edge_from) k kind) limit es (ok-injective h);
  edges_to_by_type_limited_sound = λ s k kind limit es h.
      limited_lem t s edge_after _ _ (both_eq (λ e. e.edge_to) k kind) limit es (ok-injective h);
}
  where
    both_eq :
        (field : GraphEdgeRecord → Str) (k kind : Str) (e : GraphEdgeRecord)
        → (str_eq (field e) k && str_eq e.edge_type kind) ≡ true
        → (field e ≡ k) × (e.edge_type ≡ kind)
    both_eq field k kind e h =
        let split = and_true (str_eq (field e) k) (str_eq e.edge_type kind) h in
        ((str_eq_iff (field e) k).0 split.0, (str_eq_iff e.edge_type kind).0 split.1)
