-- ===== src/Builder/Edges.antt =====
-- The edges that `insert_schema_snapshot_graph_inner` inserts, in its order. `decimal` prints a
-- number.
use rdb_memory_mcp.Base.{
  ℕ, Bool, Option, none, some, List, [], ◌∷◌, ◌++◌, map, Str, codes, gather, sort_by, str_cmp,
  if◌then◌else◌,
}
use rdb_memory_mcp.Key.{ObjectKey, ObjectKind, display_key}
use rdb_memory_mcp.Snapshot.Objects.{
  SchemaSnapshot, ConstraintObject, ConstraintKind, IndexObject, ViewObject, TriggerObject,
  RoutineObject,
}
use rdb_memory_mcp.Snapshot.Canonical.{
  CanonicalMetadata, MetadataObject, MetadataRelationship, graph_edge_type,
}
use rdb_memory_mcp.Snapshot.Normalize.{sort_by_key, then_cmp, ordinal_cmp, is_gt}
use rdb_memory_mcp.Validation.State.{kind_eq}
use rdb_memory_mcp.Graph.Store.{GraphEdgeRecord}
use rdb_memory_mcp.Builder.Nodes.{Serialization}

-- `sorted_keys`.
abbrev pub sorted_keys : List ObjectKey → List ObjectKey
sorted_keys keys = sort_by_key (λ key. key) keys

abbrev pub column_edge_type : ConstraintKind → Str
column_edge_type ConstraintKind.primary_key = codes "COLUMN_IN_PRIMARY_KEY"
column_edge_type ConstraintKind.foreign_key = codes "FK_FROM_COLUMN"
column_edge_type ConstraintKind.unique = codes "COLUMN_IN_UNIQUE"
column_edge_type ConstraintKind.check = codes "COLUMN_IN_CHECK"

-- The type of the edge for a dependency of a view, by the kind of what it depends on.
unfoldable pub view_dependency_type : ObjectKind → Option Str
view_dependency_type ObjectKind.table = some (codes "VIEW_DEPENDS_ON_TABLE")
view_dependency_type ObjectKind.column = some (codes "VIEW_DEPENDS_ON_COLUMN")
view_dependency_type ObjectKind.view = some (codes "VIEW_DEPENDS_ON_VIEW")
view_dependency_type _ = none

unfoldable pub routine_dependency_type : ObjectKind → Option Str
routine_dependency_type ObjectKind.table = some (codes "ROUTINE_DEPENDS_ON_TABLE")
routine_dependency_type ObjectKind.column = some (codes "ROUTINE_DEPENDS_ON_COLUMN")
routine_dependency_type _ = none

-- The order of the relationships: the text of the edge type, the two keys, the ordinal.
unfoldable pub edge_order_after : MetadataRelationship → MetadataRelationship → Bool
edge_order_after a b = is_gt (
    then_cmp (str_cmp (graph_edge_type a.kind) (graph_edge_type b.kind)) (
      then_cmp (str_cmp (display_key a.from_key) (display_key b.from_key)) (
        then_cmp (str_cmp (display_key a.to_key) (display_key b.to_key))
          (ordinal_cmp a.ordinal b.ordinal))))

module _ (serialization : Serialization) (decimal : ℕ → Str) (snapshot_key : Str) where
  -- `insert_edge`.
  abbrev pub edge : Str → ObjectKey → ObjectKey → GraphEdgeRecord
  edge edge_type from to = record {
    snapshot_key = snapshot_key;
    edge_key = edge_type ++ (codes ":" ++ (display_key from ++ (codes "->" ++ display_key to)));
    edge_from = display_key from;
    edge_to = display_key to;
    edge_type = edge_type;
    payload_json = serialization.edge_payload edge_type;
  }

  -- `FK_TO_COLUMN` edges, which only a foreign key has.
  abbrev pub target_edges : ConstraintObject → ConstraintKind → List GraphEdgeRecord
  target_edges o ConstraintKind.foreign_key =
      map (λ c. edge (codes "FK_TO_COLUMN") o.key c) (sorted_keys o.referenced_columns)
  target_edges o _ = []

  unfoldable pub constraint_edges : ConstraintObject → List GraphEdgeRecord
  constraint_edges o =
      edge (codes "TABLE_HAS_CONSTRAINT") o.table_key o.key
      ∷ (map (λ c. edge (column_edge_type o.kind) c o.key) (sorted_keys o.columns)
          ++ target_edges o o.kind)

  unfoldable pub index_edges : IndexObject → List GraphEdgeRecord
  index_edges o =
      edge (codes "TABLE_HAS_INDEX") o.table_key o.key
      ∷ map (λ c. edge (codes "COLUMN_IN_INDEX") c o.key) (sorted_keys o.columns)

  -- The edge of a dependency; `_ => {}` inserts none.
  abbrev pub dependency_edge : ObjectKey → ObjectKey → Option Str → List GraphEdgeRecord
  dependency_edge owner dependency none = []
  dependency_edge owner dependency (some edge_type) = edge edge_type owner dependency ∷ []

  unfoldable pub view_edges : ViewObject → List GraphEdgeRecord
  view_edges o =
      edge (codes "SCHEMA_HAS_VIEW") o.schema_key o.key
      ∷ gather (λ d. dependency_edge o.key d (view_dependency_type d.object_kind))
          (sorted_keys o.depends_on)

  abbrev pub executes_edge : ObjectKey → Option ObjectKey → List GraphEdgeRecord
  executes_edge key none = []
  executes_edge key (some routine_key) =
      edge (codes "TRIGGER_EXECUTES_ROUTINE") key routine_key ∷ []

  unfoldable pub trigger_edges : TriggerObject → List GraphEdgeRecord
  trigger_edges o =
      let on_view = kind_eq o.table_key.object_kind ObjectKind.view in
      let owner_edge = if on_view then codes "VIEW_HAS_TRIGGER" else codes "TABLE_HAS_TRIGGER" in
      let target_edge = if on_view then codes "TRIGGER_ON_VIEW" else codes "TRIGGER_ON_TABLE" in
      edge owner_edge o.table_key o.key
      ∷ edge target_edge o.key o.table_key
      ∷ executes_edge o.key o.executes_routine_key

  unfoldable pub routine_edges : RoutineObject → List GraphEdgeRecord
  routine_edges o =
      edge (codes "SCHEMA_HAS_ROUTINE") o.schema_key o.key
      ∷ gather (λ d. dependency_edge o.key d (routine_dependency_type d.object_kind))
          (sorted_keys o.depends_on)

  unfoldable pub schema_edges : SchemaSnapshot → List GraphEdgeRecord
  schema_edges s =
      map (λ o. edge (codes "DATABASE_HAS_SCHEMA") o.database_key o.key)
        (sort_by_key (λ o. o.key) s.schemas)
      ++ (map (λ o. edge (codes "SCHEMA_HAS_TABLE") o.schema_key o.key)
            (sort_by_key (λ o. o.key) s.tables)
          ++ (map (λ o. edge (codes "TABLE_HAS_COLUMN") o.table_key o.key)
                (sort_by_key (λ o. o.key) s.columns)
              ++ (gather constraint_edges (sort_by_key (λ o. o.key) s.constraints)
                  ++ (gather index_edges (sort_by_key (λ o. o.key) s.indexes)
                      ++ (gather view_edges (sort_by_key (λ o. o.key) s.views)
                          ++ (gather trigger_edges (sort_by_key (λ o. o.key) s.triggers)
                              ++ gather routine_edges (sort_by_key (λ o. o.key) s.routines)))))))

  abbrev pub parent_edge : MetadataObject → Option ObjectKey → List GraphEdgeRecord
  parent_edge o none = []
  parent_edge o (some parent_key) = edge (codes "METADATA_PARENT") parent_key o.key ∷ []

  abbrev pub ordinal_text : Option ℕ → Str
  ordinal_text none = []
  ordinal_text (some ordinal) = decimal ordinal

  -- `insert_metadata_relationship`.
  abbrev pub relationship_edge : MetadataRelationship → GraphEdgeRecord
  relationship_edge r =
      let edge_type = graph_edge_type r.kind in
      let from = display_key r.from_key in
      let to = display_key r.to_key in
      record {
        snapshot_key = snapshot_key;
        edge_key =
            edge_type
            ++ (codes ":"
                ++ (from ++ (codes "->" ++ (to ++ (codes ":" ++ ordinal_text r.ordinal)))));
        edge_from = from;
        edge_to = to;
        edge_type = edge_type;
        payload_json = serialization.payload_json r;
      }

  abbrev pub metadata_edges : Option CanonicalMetadata → List GraphEdgeRecord
  metadata_edges none = []
  metadata_edges (some metadata) =
      gather (λ o. parent_edge o o.parent_key) (sort_by_key (λ o. o.key) metadata.objects)
      ++ map relationship_edge (sort_by edge_order_after metadata.relationships)

  unfoldable pub graph_edges : SchemaSnapshot → Option CanonicalMetadata → List GraphEdgeRecord
  graph_edges s metadata = schema_edges s ++ metadata_edges metadata
