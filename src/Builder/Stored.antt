-- ===== src/Builder/Stored.antt =====
-- The graph of a canonical snapshot is stored without a violation of a foreign key.
use rdb_memory_mcp.Base.{
  ℕ, ℤ, ◌≡◌, refl, sym, ap, ◌∙◌, subst, Bool, true, false, not, ◌&&◌, ◌||◌, Bool-cases, inl, inr,
  some, List, [], ◌∷◌, Str, str_eq, str_eq_iff, str_eq_refl, any, keep, ok, err, All, All-imp,
  All-map, All-mem, arith,
}
use rdb_memory_mcp.Snapshot.Canonical.{CanonicalSchemaSnapshot}
use rdb_memory_mcp.Metadata.Spec.{IsCanonical}
use rdb_memory_mcp.Graph.Store.{GraphNodeRecord, GraphEdgeRecord, StoreResult}
use rdb_memory_mcp.Builder.Nodes.{Serialization, graph_nodes}
use rdb_memory_mcp.Builder.Edges.{graph_edges}
use rdb_memory_mcp.Builder.Whole.{graph_edges-closed, node_keys}
use rdb_memory_mcp.Builder.Stamped.{graph_nodes-snapshot_key}
use rdb_memory_mcp.Builder.Replaced.{
  IsReplaced, upsert_nodes, upsert_edges, replaced, replaced-IsReplaced,
}
use rdb_memory_mcp.Builder.Rows.{
  Database, Rows, Statement, ◌>>◌, has_snapshot, has_node, upsert_node, upsert_edge,
  insert_snapshot, insert_node, insert_edge, insert_nodes, insert_edges, delete_snapshot,
  snapshot_record, insert_schema_snapshot_graph_inner,
}

any-keep {ℓ} :
    {A : Type ℓ} (p q : A → Bool)
    → ((x : A) → p x ≡ true → q x ≡ true)
    → (xs : List A) → any p xs ≡ true
    → any p (keep q xs) ≡ true
any-keep p q imp [] h = h
any-keep p q imp (x ∷ xs) h = go (p x) (q x) refl (imp x) (any-keep p q imp xs) h
  where
    go :
        (a b : Bool)
        → p x ≡ a
        → (a ≡ true → b ≡ true)
        → (any p xs ≡ true → any p (keep q xs) ≡ true)
        → (a || any p xs) ≡ true
        → any p (elim b [ true ↦ x ∷ keep q xs | false ↦ keep q xs ]) ≡ true
    go true true e f g h = ground (arith, e)
    go true false e f g h = absurd (ground (arith, f refl))
    go false true e f g h = ground (arith, g h)
    go false false e f g h = g h

-- A statement that succeeds hands its rows on.
pub >>-ok :
    (first next : Statement) (rows changed : Rows) {result : StoreResult (Unit {0}) × Rows}
    → first rows ≡ (ok tt, changed)
    → next changed ≡ result
    → (first >> next) rows ≡ result
>>-ok first next rows changed h h' =
    ap (λ x. elim x.0 [ ok _ ↦ next x.1 | err error ↦ (err error, x.1) ]) h ∙ h'

module _ (snapshot : Str) where
  -- An upsert keeps every node that was there, if not its payload.
  has_node-upsert :
      (n : GraphNodeRecord) (nodes : List GraphNodeRecord) (key : Str)
      → has_node snapshot key nodes ≡ true
      → has_node snapshot key (upsert_node n nodes) ≡ true
  has_node-upsert n nodes key h =
      elim (Bool-cases (str_eq n.snapshot_key snapshot && str_eq n.node_key key)) [
        | inl same ↦ ground (arith, same)
        | inr other ↦
            let kept =
              any-keep (λ m. str_eq m.snapshot_key snapshot && str_eq m.node_key key)
                (λ m. not (str_eq m.snapshot_key n.snapshot_key && str_eq m.node_key n.node_key))
                (λ m e. ground (
                  arith,
                  other,
                  e,
                  str_eq_iff m.snapshot_key snapshot,
                  str_eq_iff m.node_key key,
                  str_eq_iff m.snapshot_key n.snapshot_key,
                  str_eq_iff m.node_key n.node_key,
                  str_eq_iff n.snapshot_key snapshot,
                  str_eq_iff n.node_key key,
                ))
                nodes h in
            ground (arith, kept)
      ]

  -- The node itself is there behind its upsert.
  upsert-has_node :
      (n : GraphNodeRecord) (nodes : List GraphNodeRecord)
      → n.snapshot_key ≡ snapshot
      → has_node snapshot n.node_key (upsert_node n nodes) ≡ true
  upsert-has_node n nodes e =
      ground (arith, (str_eq_iff n.snapshot_key snapshot).1 e, str_eq_refl n.node_key)

  module _ (database : Database) where
    -- The nodes are stored, and those before them stay.
    insert_nodes_lem :
        (ns : List GraphNodeRecord) (rows : Rows)
        → All (λ n. n.snapshot_key ≡ snapshot) ns
        → has_snapshot snapshot rows ≡ true
        → (insert_nodes database ns rows
            ≡ (ok tt, record rows { nodes = upsert_nodes ns rows.nodes }))
          × ((key : Str)
              → has_node snapshot key rows.nodes ≡ true
              → has_node snapshot key (upsert_nodes ns rows.nodes) ≡ true)
          × All (λ n. has_node snapshot n.node_key (upsert_nodes ns rows.nodes) ≡ true) ns
    unfolding insert_nodes insert_node
    insert_nodes_lem [] rows h p = (refl, (λ key q. q), tt)
    insert_nodes_lem (n ∷ ns) rows h p =
        let next : Rows = record rows { nodes = upsert_node n rows.nodes } in
        let present : has_snapshot n.snapshot_key rows ≡ true =
          subst (λ k. has_snapshot k rows ≡ true) (sym h.0) p in
        let (done, before, all) = insert_nodes_lem ns next h.1 p in
        (
          >>-ok (insert_node database n) (insert_nodes database ns) rows next
              (rw (present, insert_node) refl) done,
          (λ key q. before key (has_node-upsert n rows.nodes key q)),
          (before n.node_key (upsert-has_node n rows.nodes h.0), all),
        )

    -- Edges between stored nodes are stored, and no node is touched.
    insert_edges_lem :
        (es : List GraphEdgeRecord) (rows : Rows)
        → All (λ e. e.snapshot_key ≡ snapshot) es
        → All
            (λ e.
              (has_node snapshot e.edge_from rows.nodes ≡ true)
              × (has_node snapshot e.edge_to rows.nodes ≡ true))
            es
        → insert_edges database es rows
          ≡ (ok tt, record rows { edges = upsert_edges es rows.edges })
    unfolding insert_edges insert_edge
    insert_edges_lem [] rows h p = refl
    insert_edges_lem (e ∷ es) rows h p =
        let next : Rows = record rows { edges = upsert_edge e rows.edges } in
        let from : has_node e.snapshot_key e.edge_from rows.nodes ≡ true =
          subst (λ k. has_node k e.edge_from rows.nodes ≡ true) (sym h.0) p.0.0 in
        let to : has_node e.snapshot_key e.edge_to rows.nodes ≡ true =
          subst (λ k. has_node k e.edge_to rows.nodes ≡ true) (sym h.0) p.0.1 in
        >>-ok (insert_edge database e) (insert_edges database es) rows next
          (rw (from, to, insert_edge) refl) (insert_edges_lem es next h.1 p.1)

-- The graph of a canonical snapshot is stored, whatever the store held before, if its payload is
-- accepted: no insert violates a foreign key. Afterwards the store holds under the key the record
-- of the snapshot and, under each node key and edge key, the last node and edge of the graph with
-- it, whole, and nothing else; the rows of other snapshots stay.
pub insert_schema_snapshot_graph_inner-stores :
    (database : Database) (serialization : Serialization) (decimal : ℕ → Str) (key : Str)
    (captured : ℤ) (c : CanonicalSchemaSnapshot) (payload : Str) (rows : Rows)
    → IsCanonical c
    → database.validate_persisted_snapshot_payload payload ≡ ok tt
    → (stored : Rows) × (insert_schema_snapshot_graph_inner database serialization decimal key
          captured c.schema payload
          (some c.metadata)
          rows
        ≡ (ok tt, stored))
      × IsReplaced key
          (snapshot_record database serialization decimal key captured c.schema payload)
          (graph_nodes serialization key c.schema (some c.metadata))
          (graph_edges serialization decimal key c.schema (some c.metadata))
          rows
          stored
unfolding insert_schema_snapshot_graph_inner delete_snapshot insert_snapshot
insert_schema_snapshot_graph_inner-stores database serialization decimal key captured c payload rows
      v accepted =
    let r = snapshot_record database serialization decimal key captured c.schema payload in
    let ns = graph_nodes serialization key c.schema (some c.metadata) in
    let es = graph_edges serialization decimal key c.schema (some c.metadata) in
    let deleted : Rows = (delete_snapshot key rows).1 in
    let started : Rows = replaced key r [] [] rows in
    let with_nodes : Rows = replaced key r ns [] rows in
    let of_nodes = graph_nodes-snapshot_key serialization key c in
    let (inserted, _, there) =
      insert_nodes_lem key database ns started of_nodes (ground (arith, str_eq_refl key)) in
    let closed = graph_edges-closed serialization key decimal c v in
    let Stays : Str → Type 0 = λ t. has_node key t with_nodes.nodes ≡ true in
    let held : All (λ t. has_node key t with_nodes.nodes ≡ true) (node_keys serialization key c) =
      All-map Stays (λ n. n.node_key) ns there in
    let ends = All-imp (λ e p. (All-mem Stays held p.0, All-mem Stays held p.1)) es closed in
    let of_edges = All-imp (λ e p. p.2) es closed in
    let done = insert_edges_lem key database es with_nodes of_edges ends in
    (
      replaced key r ns es rows,
      >>-ok (delete_snapshot key >> insert_snapshot database r >> insert_nodes database ns)
          (insert_edges database es) rows with_nodes
          (>>-ok (delete_snapshot key >> insert_snapshot database r) (insert_nodes database ns) rows
            started
            (>>-ok (delete_snapshot key) (insert_snapshot database r) rows deleted refl
              (rw (accepted, insert_snapshot) refl))
            inserted)
          done,
      replaced-IsReplaced key r ns es rows refl of_nodes of_edges,
    )
