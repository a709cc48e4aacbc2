-- ===== src/Builder/Whole.antt =====
-- The graph of a canonical snapshot is closed: every edge joins two of its nodes.
use rdb_memory_mcp.Base.{
  ℕ, Bool, ◌≡◌, refl, Option, none, some, List, ◌++◌, map, Str, codes, sort_by, All, All-append,
  All-append_back, All-map_back, All-sort_by_back, All-image, All-both, Memᴰ,
}
use rdb_memory_mcp.Key.{ObjectKey, display_key}
use rdb_memory_mcp.Snapshot.Objects.{SchemaSnapshot}
use rdb_memory_mcp.Snapshot.Canonical.{CanonicalSchemaSnapshot, MetadataObject}
use rdb_memory_mcp.Snapshot.Normalize.{key_after}
use rdb_memory_mcp.Validation.Registry.{registry}
use rdb_memory_mcp.Validation.Spec.{
  IsValid, IsValidSchema, IsValidTable, IsValidColumn, IsValidConstraint, IsValidIndex, IsValidView,
  IsValidTrigger, IsValidRoutine,
}
use rdb_memory_mcp.Metadata.Spec.{IsCanonical, HasParent, IsRelationship, keys_of}
use rdb_memory_mcp.Graph.Store.{GraphNodeRecord}
use rdb_memory_mcp.Builder.Nodes.{
  Serialization, Payload, node, constraint_label, schema_nodes, metadata_nodes, graph_nodes,
  annotations_of, metadata_object_label,
}
use rdb_memory_mcp.Builder.Edges.{
  schema_edges, parent_edge, metadata_edges, edge_order_after, graph_edges,
}
use rdb_memory_mcp.Builder.Known.{Covers, Known, Known-registry, Known-keys_of}
use rdb_memory_mcp.Builder.Closed.{
  Joins, joined_map, joined_gather, joined_constraint, joined_index, joined_view, joined_trigger,
  joined_routine, referred,
}

module _ (serialization : Serialization) (decimal : ℕ → Str) (key : Str) (K : Str → Type 0) where
  joined_schema :
      (s : SchemaSnapshot)
      → IsValid s
      → Covers K s
      → All (Joins key K) (schema_edges serialization decimal key s)
  unfolding schema_edges
  joined_schema s v c =
      let o = registry s in
      let alias = s.connection_alias in
      let known = Known-registry K s c in
      let J = Joins key K in
      let w = v.objects in
      All-append J _ _
        (joined_map serialization decimal key K
          (λ x. K (display_key x.key) × IsValidSchema alias x o) _ (key_after (λ x. x.key))
          (λ x h.
            (referred serialization decimal key K o known x.database_key _ h.1.owner, h.0, refl))
          s.schemas (All-both _ _ s.schemas c.schemas w.schemas))
        (All-append J _ _
          (joined_map serialization decimal key K
            (λ x. K (display_key x.key) × IsValidTable alias x o) _ (key_after (λ x. x.key))
            (λ x h.
              (referred serialization decimal key K o known x.schema_key _ h.1.owner, h.0, refl))
            s.tables (All-both _ _ s.tables c.tables w.tables))
          (All-append J _ _
            (joined_map serialization decimal key K
              (λ x. K (display_key x.key) × IsValidColumn alias x o) _ (key_after (λ x. x.key))
              (λ x h.
                (referred serialization decimal key K o known x.table_key _ h.1.owner, h.0, refl))
              s.columns (All-both _ _ s.columns c.columns w.columns.each_column))
            (All-append J _ _
              (joined_gather serialization decimal key K
                (λ x. K (display_key x.key) × IsValidConstraint alias x o) _
                (key_after (λ x. x.key))
                (joined_constraint serialization decimal key K o known alias) s.constraints
                (All-both _ _ s.constraints c.constraints w.constraints))
              (All-append J _ _
                (joined_gather serialization decimal key K
                  (λ x. K (display_key x.key) × IsValidIndex alias x o) _ (key_after (λ x. x.key))
                  (joined_index serialization decimal key K o known alias) s.indexes
                  (All-both _ _ s.indexes c.indexes w.indexes))
                (All-append J _ _
                  (joined_gather serialization decimal key K
                    (λ x. K (display_key x.key) × IsValidView alias x o) _ (key_after (λ x. x.key))
                    (joined_view serialization decimal key K o known alias) s.views
                    (All-both _ _ s.views c.views w.views))
                  (All-append J _ _
                    (joined_gather serialization decimal key K
                      (λ x. K (display_key x.key) × IsValidTrigger alias x o) _
                      (key_after (λ x. x.key))
                      (joined_trigger serialization decimal key K o known alias) s.triggers
                      (All-both _ _ s.triggers c.triggers w.triggers))
                    (joined_gather serialization decimal key K
                      (λ x. K (display_key x.key) × IsValidRoutine alias x o) _
                      (key_after (λ x. x.key))
                      (joined_routine serialization decimal key K o known alias) s.routines
                      (All-both _ _ s.routines c.routines w.routines))))))))

  joined_metadata :
      (c : CanonicalSchemaSnapshot)
      → IsCanonical c
      → Known K (keys_of c)
      → All (λ x. K (display_key x.key)) c.metadata.objects
      → All (Joins key K) (metadata_edges serialization decimal key (some c.metadata))
  joined_metadata c v known own =
      All-append (Joins key K) _ _
        (joined_gather serialization decimal key K
          (λ x. K (display_key x.key) × HasParent (keys_of c) x x.parent_key) _
          (key_after (λ x. x.key)) (λ x h. parent x x.parent_key h.0 h.1) c.metadata.objects
          (All-both _ _ c.metadata.objects own v.parents))
        (joined_map serialization decimal key K (λ r. IsRelationship (keys_of c) r) _
          edge_order_after
          (λ r h. (
            known (display_key r.from_key) h.has_from.0 h.has_from.1,
            known (display_key r.to_key) h.has_to.0 h.has_to.1,
            refl,
          ))
          c.metadata.relationships v.relationships)
    where
      parent :
          (x : MetadataObject) (p : Option ObjectKey)
          → K (display_key x.key)
          → HasParent (keys_of c) x p
          → All (Joins key K) (parent_edge serialization decimal key x p)
      parent x none k h = absurd h
      parent x (some p) k h = ((known (display_key p) h.present.0 h.present.1, k, refl), tt)

module _ (serialization : Serialization) (key : Str) where
  -- The keys of the nodes that are inserted.
  abbrev pub node_keys : CanonicalSchemaSnapshot → List Str
  node_keys c = map (λ n. n.node_key) (graph_nodes serialization key c.schema (some c.metadata))

  abbrev IsNode : CanonicalSchemaSnapshot → Str → Type 0
  IsNode c t = Memᴰ t (node_keys c)

  -- The predicate on the items of one kind, from that on their nodes and those behind.
  own :
      {A : Type 0} (P : GraphNodeRecord → Type 0) (f : A → GraphNodeRecord) (after : A → A → Bool)
      (xs : List A) (rest : List GraphNodeRecord)
      → All P (map f (sort_by after xs) ++ rest)
      → All (λ x. P (f x)) xs × All P rest
  own P f after xs rest h =
      let (here, there) = All-append_back P (map f (sort_by after xs)) rest h in
      (All-sort_by_back after (λ x. P (f x)) xs (All-map_back P f (sort_by after xs) here), there)

  covers :
      (c : CanonicalSchemaSnapshot)
      → Covers (IsNode c) c.schema × All (λ x. IsNode c (display_key x.key)) c.metadata.objects
  unfolding graph_nodes schema_nodes
  covers c =
      let s = c.schema in
      let notes = annotations_of (some c.metadata) in
      let P : GraphNodeRecord → Type 0 = λ n. IsNode c n.node_key in
      let (front, back) =
        All-append_back P (schema_nodes serialization key notes s)
          (metadata_nodes serialization key notes (some c.metadata))
          (All-image (λ n. n.node_key)
            (graph_nodes serialization key c.schema (some c.metadata))) in
      let (schemas, rest0) =
        own P (λ x. node serialization key notes x.key (codes "Schema") x.name (Payload.schema x))
          (key_after (λ x. x.key)) s.schemas _ front.1 in
      let (tables, rest1) =
        own P (λ x. node serialization key notes x.key (codes "Table") x.name (Payload.table x))
          (key_after (λ x. x.key)) s.tables _ rest0 in
      let (columns, rest2) =
        own P (λ x. node serialization key notes x.key (codes "Column") x.name (Payload.column x))
          (key_after (λ x. x.key)) s.columns _ rest1 in
      let (constraints, rest3) =
        own P
          (λ x.
            node serialization key notes x.key (constraint_label x.kind) x.name
              (Payload.constraint x))
          (key_after (λ x. x.key)) s.constraints _ rest2 in
      let (indexes, rest4) =
        own P (λ x. node serialization key notes x.key (codes "Index") x.name (Payload.index x))
          (key_after (λ x. x.key)) s.indexes _ rest3 in
      let (views, rest5) =
        own P (λ x. node serialization key notes x.key (codes "View") x.name (Payload.view x))
          (key_after (λ x. x.key)) s.views _ rest4 in
      let (triggers, rest6) =
        own P (λ x. node serialization key notes x.key (codes "Trigger") x.name (Payload.trigger x))
          (key_after (λ x. x.key)) s.triggers _ rest5 in
      let routines =
        All-sort_by_back (key_after (λ x. x.key)) (λ x. IsNode c (display_key x.key)) s.routines
          (All-map_back P
            (λ x. node serialization key notes x.key (codes "Routine") x.name (Payload.routine x))
            (sort_by (key_after (λ x. x.key)) s.routines) rest6) in
      let objects =
        All-sort_by_back (key_after (λ x. x.key)) (λ x. IsNode c (display_key x.key))
          c.metadata.objects
          (All-map_back P
            (λ x.
              node serialization key notes x.key (metadata_object_label x.key.object_kind) x.name
                (Payload.metadata_object x))
            (sort_by (key_after (λ x. x.key)) c.metadata.objects) back) in
      (
        record {
          database = front.0;
          schemas = schemas;
          tables = tables;
          columns = columns;
          constraints = constraints;
          indexes = indexes;
          views = views;
          triggers = triggers;
          routines = routines;
        },
        objects,
      )

  -- In the graph of a canonical snapshot both ends of every edge are keys of its nodes, and the edge
  -- belongs to the snapshot.
  pub graph_edges-closed :
      (decimal : ℕ → Str) (c : CanonicalSchemaSnapshot)
      → IsCanonical c
      → All
          (λ e.
            Memᴰ e.edge_from (node_keys c) × Memᴰ e.edge_to (node_keys c) × (e.snapshot_key ≡ key))
          (graph_edges serialization decimal key c.schema (some c.metadata))
  unfolding graph_edges
  graph_edges-closed decimal c v =
      let (schema, objects) = covers c in
      All-append (Joins key (IsNode c)) _ _
        (joined_schema serialization decimal key (IsNode c) c.schema v.schema schema)
        (joined_metadata serialization decimal key (IsNode c) c v
          (Known-keys_of (IsNode c) c schema objects) objects)
