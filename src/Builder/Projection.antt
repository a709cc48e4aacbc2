-- ===== src/Builder/Projection.antt =====
-- `certified_graph_projection_counts`: how many nodes and edges a certificate announces, and how many
-- the builder inserts.
use rdb_memory_mcp.Base.{
  ℕ, ◌+◌, ◌≡◌, refl, sym, ◌∙◌, Bool, true, false, some, List, [], ◌∷◌, map, Str, codes, length,
  keep, All, All-imp, sum_of, length-append, length-map, length-map_sorted, length-gather_sorted,
  length-gather_all, is_some, length-sort_by, sort_by, arith,
}
use rdb_memory_mcp.Graph.Store.{GraphNodeRecord, GraphEdgeRecord}
use rdb_memory_mcp.Snapshot.Objects.{SchemaSnapshot, ConstraintObject, ConstraintKind}
use rdb_memory_mcp.Snapshot.Canonical.{CanonicalSchemaSnapshot}
use rdb_memory_mcp.Snapshot.Normalize.{key_after}
use rdb_memory_mcp.Certification.Data.{CertifiedSchemaSnapshot}
use rdb_memory_mcp.Certification.Counts.{
  emitted_object_counts, emitted_relationship_counts, all_relationships, foreign_key_pairs,
  constraint_columns, foreign_key_share,
}
use rdb_memory_mcp.Certification.Totals.{total, emitted_object_counts-total, length-entries}
use rdb_memory_mcp.Validation.Registry.{registry}
use rdb_memory_mcp.Validation.Spec.{IsValid, FitsKind}
use rdb_memory_mcp.Validation.Checks.{Objects}
use rdb_memory_mcp.Certification.Counts.{all_objects, inserted_counts}
use rdb_memory_mcp.Certification.Listed.{
  sum_of-Reconciles, Memᴰ-all_objects, Memᴰ-all_relationships,
}
use rdb_memory_mcp.Certification.Discovered.{all_objects-Distinct, all_relationships-Distinct}
use rdb_memory_mcp.Certification.Spec.{IsCertified}
use rdb_memory_mcp.Builder.Nodes.{
  Serialization, schema_nodes, metadata_nodes, graph_nodes, annotations_of, node, constraint_label,
  metadata_object_label, Payload,
}
use rdb_memory_mcp.Builder.Edges.{
  edge, constraint_edges, index_edges, view_edges, trigger_edges, routine_edges, parent_edge,
  metadata_edges, schema_edges, graph_edges, relationship_edge, edge_order_after,
}
use rdb_memory_mcp.Builder.Lengths.{
  PairsUp, left_out, length-constraints, length-indexes, length-views, length-routines,
  length-triggers, length-parents,
}

pub record CertifiedGraphProjectionCounts : Type 0 where
  pub objects : ℕ
  pub semantic_relationships : ℕ
  pub graph_edges : ℕ

abbrev pub is_foreign_key : ConstraintKind → Bool
is_foreign_key ConstraintKind.foreign_key = true
is_foreign_key _ = false

abbrev pub foreign_keys : SchemaSnapshot → ℕ
foreign_keys s = sum_of (λ o. length o.columns) (keep (λ o. is_foreign_key o.kind) s.constraints)

unfoldable pub certified_graph_projection_counts :
    CertifiedSchemaSnapshot → CertifiedGraphProjectionCounts
certified_graph_projection_counts certified =
    let semantic_relationships =
      sum_of (λ r. r.emitted) certified.completeness.relationship_counts in
    let trigger_targets = length certified.snapshot.schema.triggers in
    record {
      objects = sum_of (λ r. r.emitted) certified.completeness.object_counts;
      semantic_relationships = semantic_relationships;
      graph_edges =
          semantic_relationships + (foreign_keys certified.snapshot.schema + trigger_targets);
    }

foreign_keys-pairs :
    (os : List ConstraintObject)
    → sum_of (λ o. length o.columns) (keep (λ o. is_foreign_key o.kind) os)
      ≡ sum_of foreign_key_pairs os
foreign_keys-pairs [] = refl
foreign_keys-pairs (o ∷ os) = go o.kind (foreign_keys-pairs os)
  where
    go :
        (kind : ConstraintKind)
        → sum_of (λ o. length o.columns) (keep (λ o. is_foreign_key o.kind) os)
          ≡ sum_of foreign_key_pairs os
        → sum_of
            (λ o. length o.columns)
            (elim (is_foreign_key kind) [
              | true ↦ o ∷ keep (λ o. is_foreign_key o.kind) os
              | false ↦ keep (λ o. is_foreign_key o.kind) os
            ])
          ≡ foreign_key_share kind (length o.columns) + sum_of foreign_key_pairs os
    go ConstraintKind.primary_key h = omega (arith, h)
    go ConstraintKind.unique h = omega (arith, h)
    go ConstraintKind.check h = omega (arith, h)
    go ConstraintKind.foreign_key h = omega (arith, h)

module _ (serialization : Serialization) (decimal : ℕ → Str) (key : Str) where
  length-schema_edges :
      (s : SchemaSnapshot)
      → All (λ o. PairsUp o.kind o) s.constraints
      → length (schema_edges serialization decimal key s) + left_out s
        ≡ length s.schemas
          + (length s.tables
              + (length s.columns
                  + ((length s.constraints
                        + (sum_of constraint_columns s.constraints
                            + (sum_of foreign_key_pairs s.constraints
                                + sum_of foreign_key_pairs s.constraints)))
                      + ((length s.indexes + sum_of (λ o. length o.columns) s.indexes)
                          + ((length s.views + sum_of (λ o. length o.depends_on) s.views)
                              + ((length s.triggers
                                    + (length s.triggers
                                        + length (
                                            keep (λ o. is_some o.executes_routine_key) s.triggers)))
                                  + (length s.routines
                                      + sum_of (λ o. length o.depends_on) s.routines)))))))
  unfolding schema_edges
  length-schema_edges s h = omega (
    arith,
    length-map_sorted {B = GraphEdgeRecord}
        (λ o. edge serialization decimal key (codes "DATABASE_HAS_SCHEMA") o.database_key o.key)
        (key_after (λ o. o.key)) s.schemas _,
    length-map_sorted {B = GraphEdgeRecord}
        (λ o. edge serialization decimal key (codes "SCHEMA_HAS_TABLE") o.schema_key o.key)
        (key_after (λ o. o.key)) s.tables _,
    length-map_sorted {B = GraphEdgeRecord}
        (λ o. edge serialization decimal key (codes "TABLE_HAS_COLUMN") o.table_key o.key)
        (key_after (λ o. o.key)) s.columns _,
    length-gather_sorted (constraint_edges serialization decimal key) (key_after (λ o. o.key))
        s.constraints _,
    length-gather_sorted (index_edges serialization decimal key) (key_after (λ o. o.key)) s.indexes
        _,
    length-gather_sorted (view_edges serialization decimal key) (key_after (λ o. o.key)) s.views _,
    length-gather_sorted (trigger_edges serialization decimal key) (key_after (λ o. o.key))
        s.triggers _,
    length-gather_all (routine_edges serialization decimal key) (key_after (λ o. o.key)) s.routines,
    length-constraints serialization decimal key s.constraints h,
    length-indexes serialization decimal key s.indexes,
    length-views serialization decimal key s.views,
    length-triggers serialization decimal key s.triggers,
    length-routines serialization decimal key s.routines,
  )

  length-graph_edges :
      (c : CanonicalSchemaSnapshot)
      → All (λ o. PairsUp o.kind o) c.schema.constraints
      → length (graph_edges serialization decimal key c.schema (some c.metadata))
          + left_out c.schema
        ≡ sum_of (emitted_relationship_counts c) all_relationships
          + (foreign_keys c.schema + length c.schema.triggers)
  unfolding graph_edges emitted_relationship_counts
  length-graph_edges c h = omega (
    arith,
    length-append (schema_edges serialization decimal key c.schema)
        (metadata_edges serialization decimal key (some c.metadata)),
    length-schema_edges c.schema h,
    length-gather_sorted (λ o. parent_edge serialization decimal key o o.parent_key)
        (key_after (λ o. o.key)) c.metadata.objects
        (map (relationship_edge serialization decimal key)
          (sort_by edge_order_after c.metadata.relationships)),
    length-parents serialization decimal key c.metadata.objects,
    length-map (relationship_edge serialization decimal key)
        (sort_by edge_order_after c.metadata.relationships),
    length-sort_by edge_order_after c.metadata.relationships,
    foreign_keys-pairs c.schema.constraints,
  )

FitsKind-PairsUp :
    (kind : ConstraintKind) (x : ConstraintObject) (o : Objects)
    → FitsKind kind x o
    → PairsUp kind x
FitsKind-PairsUp ConstraintKind.foreign_key x o h = h.2
FitsKind-PairsUp ConstraintKind.primary_key x o h = tt
FitsKind-PairsUp ConstraintKind.unique x o h = tt
FitsKind-PairsUp ConstraintKind.check x o h = tt

pub IsValid-PairsUp : (s : SchemaSnapshot) → IsValid s → All (λ o. PairsUp o.kind o) s.constraints
IsValid-PairsUp s v =
    All-imp (λ x h. FitsKind-PairsUp x.kind x (registry s) h.fits_kind) s.constraints
      v.objects.constraints

module _ (serialization : Serialization) (decimal : ℕ → Str) (key : Str) where
  length-graph_nodes :
      (c : CanonicalSchemaSnapshot)
      → length (graph_nodes serialization key c.schema (some c.metadata))
        ≡ total (emitted_object_counts c)
  unfolding graph_nodes schema_nodes inserted_counts
  length-graph_nodes c =
      let s = c.schema in
      let notes = annotations_of (some c.metadata) in
      omega (
        arith,
        emitted_object_counts-total c,
        length-entries s,
        length-append (schema_nodes serialization key notes s)
            (metadata_nodes serialization key notes (some c.metadata)),
        length-map_sorted {B = GraphNodeRecord}
            (λ o. node serialization key notes o.key (codes "Schema") o.name (Payload.schema o))
            (key_after (λ o. o.key)) s.schemas _,
        length-map_sorted {B = GraphNodeRecord}
            (λ o. node serialization key notes o.key (codes "Table") o.name (Payload.table o))
            (key_after (λ o. o.key)) s.tables _,
        length-map_sorted {B = GraphNodeRecord}
            (λ o. node serialization key notes o.key (codes "Column") o.name (Payload.column o))
            (key_after (λ o. o.key)) s.columns _,
        length-map_sorted {B = GraphNodeRecord}
            (λ o.
              node serialization key notes o.key (constraint_label o.kind) o.name
                (Payload.constraint o))
            (key_after (λ o. o.key)) s.constraints _,
        length-map_sorted {B = GraphNodeRecord}
            (λ o. node serialization key notes o.key (codes "Index") o.name (Payload.index o))
            (key_after (λ o. o.key)) s.indexes _,
        length-map_sorted {B = GraphNodeRecord}
            (λ o. node serialization key notes o.key (codes "View") o.name (Payload.view o))
            (key_after (λ o. o.key)) s.views _,
        length-map_sorted {B = GraphNodeRecord}
            (λ o. node serialization key notes o.key (codes "Trigger") o.name (Payload.trigger o))
            (key_after (λ o. o.key)) s.triggers _,
        length-map {B = GraphNodeRecord}
            (λ o. node serialization key notes o.key (codes "Routine") o.name (Payload.routine o))
            (sort_by (key_after (λ o. o.key)) s.routines),
        length-sort_by (key_after (λ o. o.key)) s.routines,
        length-map {B = GraphNodeRecord}
            (λ o.
              node serialization key notes o.key (metadata_object_label o.key.object_kind) o.name
                (Payload.metadata_object o))
            (sort_by (key_after (λ o. o.key)) c.metadata.objects),
        length-sort_by (key_after (λ o. o.key)) c.metadata.objects,
      )

  -- A valid certificate announces as many nodes as the graph of its snapshot has, and as many edges
  -- as the graph has and the dependencies of views and routines that it leaves out.
  pub certified_graph_projection_counts-exact :
      (c : CertifiedSchemaSnapshot)
      → IsCertified c
      → ((certified_graph_projection_counts c).objects
          ≡ length (graph_nodes serialization key c.snapshot.schema (some c.snapshot.metadata)))
        × ((certified_graph_projection_counts c).graph_edges
            ≡ length
                (graph_edges serialization decimal key c.snapshot.schema (some c.snapshot.metadata))
              + left_out c.snapshot.schema)
  unfolding certified_graph_projection_counts
  certified_graph_projection_counts-exact c h =
      let objects =
        sum_of-Reconciles (emitted_object_counts c.snapshot) all_objects
          c.completeness.object_counts all_objects-Distinct Memᴰ-all_objects h.objects in
      let relationships =
        sum_of-Reconciles (emitted_relationship_counts c.snapshot) all_relationships
          c.completeness.relationship_counts all_relationships-Distinct Memᴰ-all_relationships
          h.relationships in
      (
        objects ∙ sym (length-graph_nodes c.snapshot),
        omega (
          arith,
          relationships,
          length-graph_edges serialization decimal key c.snapshot
              (IsValid-PairsUp c.snapshot.schema h.canonical.schema),
        ),
      )
