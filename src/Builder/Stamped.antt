-- ===== src/Builder/Stamped.antt =====
-- Every node of the graph belongs to the snapshot.
use rdb_memory_mcp.Base.{
  ◌≡◌, refl, some, List, ◌++◌, map, Str, codes, sort_by, All, All-append, All-map, All-map_append,
  All-of,
}
use rdb_memory_mcp.Snapshot.Canonical.{CanonicalSchemaSnapshot}
use rdb_memory_mcp.Snapshot.Normalize.{key_after}
use rdb_memory_mcp.Graph.Store.{GraphNodeRecord}
use rdb_memory_mcp.Builder.Nodes.{
  Serialization, Payload, node, constraint_label, schema_nodes, metadata_nodes, graph_nodes,
  annotations_of, metadata_object_label,
}

module _ (serialization : Serialization) (key : Str) where
  abbrev IsStamped : GraphNodeRecord → Type 0
  IsStamped n = n.snapshot_key ≡ key

  All-every :
      {A : Type 0} (f : A → GraphNodeRecord) (xs : List A)
      → ((x : A) → IsStamped (f x))
      → All IsStamped (map f xs)
  All-every f xs h = All-map IsStamped f xs (All-of (λ x. IsStamped (f x)) h xs)

  stamped :
      {A : Type 0} (f : A → GraphNodeRecord) (xs : List A) (rest : List GraphNodeRecord)
      → ((x : A) → IsStamped (f x))
      → All IsStamped rest
      → All IsStamped (map f xs ++ rest)
  stamped f xs rest h q = All-map_append IsStamped f xs rest (All-of (λ x. IsStamped (f x)) h xs) q

  pub graph_nodes-snapshot_key :
      (c : CanonicalSchemaSnapshot)
      → All (λ n. n.snapshot_key ≡ key) (graph_nodes serialization key c.schema (some c.metadata))
  unfolding graph_nodes schema_nodes
  graph_nodes-snapshot_key c =
      let s = c.schema in
      let notes = annotations_of (some c.metadata) in
      All-append IsStamped (schema_nodes serialization key notes s)
        (metadata_nodes serialization key notes (some c.metadata))
        (
          refl,
          (stamped
              (λ x. node serialization key notes x.key (codes "Schema") x.name (Payload.schema x))
              (sort_by (key_after (λ x. x.key)) s.schemas) _ (λ x. refl)
              (stamped
                (λ x. node serialization key notes x.key (codes "Table") x.name (Payload.table x))
                (sort_by (key_after (λ x. x.key)) s.tables) _ (λ x. refl)
                (stamped
                  (λ x.
                    node serialization key notes x.key (codes "Column") x.name (Payload.column x))
                  (sort_by (key_after (λ x. x.key)) s.columns) _ (λ x. refl)
                  (stamped
                    (λ x.
                      node serialization key notes x.key (constraint_label x.kind) x.name
                        (Payload.constraint x))
                    (sort_by (key_after (λ x. x.key)) s.constraints) _ (λ x. refl)
                    (stamped
                      (λ x.
                        node serialization key notes x.key (codes "Index") x.name (Payload.index x))
                      (sort_by (key_after (λ x. x.key)) s.indexes) _ (λ x. refl)
                      (stamped
                        (λ x.
                          node serialization key notes x.key (codes "View") x.name (Payload.view x))
                        (sort_by (key_after (λ x. x.key)) s.views) _ (λ x. refl)
                        (stamped
                          (λ x.
                            node serialization key notes x.key (codes "Trigger") x.name
                              (Payload.trigger x))
                          (sort_by (key_after (λ x. x.key)) s.triggers) _ (λ x. refl)
                          (All-every
                            (λ x.
                              node serialization key notes x.key (codes "Routine") x.name
                                (Payload.routine x))
                            (sort_by (key_after (λ x. x.key)) s.routines) (λ x. refl))))))))),
        )
        (All-every
          (λ x.
            node serialization key notes x.key (metadata_object_label x.key.object_kind) x.name
              (Payload.metadata_object x))
          (sort_by (key_after (λ x. x.key)) c.metadata.objects) (λ x. refl))
