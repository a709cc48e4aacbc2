-- ===== src/Builder/Nodes.antt =====
-- The nodes that `insert_schema_snapshot_graph_inner` inserts, in its order. serde_json makes the
-- payloads.
use rdb_memory_mcp.Base.{Option, none, some, List, [], ◌∷◌, ◌++◌, map, Str, codes, get, insert}
use rdb_memory_mcp.Key.{ObjectKey, ObjectKind, display_key}
use rdb_memory_mcp.Snapshot.Objects.{
  SchemaSnapshot, DatabaseObject, SchemaObject, TableObject, ColumnObject, ConstraintObject,
  ConstraintKind, IndexObject, ViewObject, TriggerObject, RoutineObject,
}
use rdb_memory_mcp.Snapshot.Canonical.{
  CanonicalMetadata, MetadataObject, MetadataRelationship, ObjectAnnotation,
}
use rdb_memory_mcp.Snapshot.Normalize.{sort_by_key}
use rdb_memory_mcp.Graph.Store.{GraphNodeRecord}

-- The values that become the payload of a node.
pub data Payload : Type 0 where
  database : DatabaseObject → Payload
  schema : SchemaObject → Payload
  table : TableObject → Payload
  column : ColumnObject → Payload
  constraint : ConstraintObject → Payload
  index : IndexObject → Payload
  view : ViewObject → Payload
  trigger : TriggerObject → Payload
  routine : RoutineObject → Payload
  metadata_object : MetadataObject → Payload

-- `node_payload_json`, `edge_payload` and `payload_json`, which serde_json computes.
pub record Serialization : Type 0 where
  pub node_payload_json : Payload → Option ObjectAnnotation → Str
  pub edge_payload : Str → Str
  pub payload_json : MetadataRelationship → Str

abbrev pub constraint_label : ConstraintKind → Str
constraint_label ConstraintKind.primary_key = codes "PrimaryKey"
constraint_label ConstraintKind.foreign_key = codes "ForeignKey"
constraint_label ConstraintKind.unique = codes "UniqueConstraint"
constraint_label ConstraintKind.check = codes "CheckConstraint"

unfoldable pub metadata_object_label : ObjectKind → Str
metadata_object_label ObjectKind.materialized_view = codes "MaterializedView"
metadata_object_label ObjectKind.view_column = codes "ViewColumn"
metadata_object_label ObjectKind.sequence = codes "Sequence"
metadata_object_label ObjectKind.routine_parameter = codes "RoutineParameter"
metadata_object_label ObjectKind.user_defined_type = codes "UserDefinedType"
metadata_object_label ObjectKind.domain = codes "Domain"
metadata_object_label ObjectKind.enum_value = codes "EnumValue"
metadata_object_label ObjectKind.synonym = codes "Synonym"
metadata_object_label ObjectKind.exclusion_constraint = codes "ExclusionConstraint"
metadata_object_label ObjectKind.event = codes "Event"
metadata_object_label ObjectKind.package_kind = codes "Package"
metadata_object_label ObjectKind.principal = codes "Principal"
metadata_object_label ObjectKind.policy = codes "Policy"
metadata_object_label ObjectKind.extension = codes "Extension"
metadata_object_label _ = codes "MetadataObject"

-- The annotations by the text of their key, of which a later one replaces an earlier one.
unfoldable pub collect_annotations :
    List (Str × ObjectAnnotation) → List ObjectAnnotation → List (Str × ObjectAnnotation)
collect_annotations known [] = known
collect_annotations known (a ∷ rest) =
    collect_annotations (insert (display_key a.object_key) a known) rest

abbrev pub annotations_of : Option CanonicalMetadata → List (Str × ObjectAnnotation)
annotations_of none = []
annotations_of (some metadata) = collect_annotations [] metadata.annotations

abbrev pub annotation_for : List (Str × ObjectAnnotation) → ObjectKey → Option ObjectAnnotation
annotation_for annotations key = get (display_key key) annotations

module _ (serialization : Serialization) (snapshot_key : Str) where
  -- `insert_node`.
  abbrev pub node :
      List (Str × ObjectAnnotation) → ObjectKey → Str → Str → Payload → GraphNodeRecord
  node annotations key label display_name payload = record {
    snapshot_key = snapshot_key;
    node_key = display_key key;
    label = label;
    display_name = some display_name;
    payload_json = serialization.node_payload_json payload (annotation_for annotations key);
  }

  unfoldable pub schema_nodes :
      List (Str × ObjectAnnotation) → SchemaSnapshot → List GraphNodeRecord
  schema_nodes notes s =
      node notes s.database.key (codes "Database") s.database.name (Payload.database s.database)
      ∷ (map (λ o. node notes o.key (codes "Schema") o.name (Payload.schema o))
            (sort_by_key (λ o. o.key) s.schemas)
          ++ (map (λ o. node notes o.key (codes "Table") o.name (Payload.table o))
                (sort_by_key (λ o. o.key) s.tables)
              ++ (map (λ o. node notes o.key (codes "Column") o.name (Payload.column o))
                    (sort_by_key (λ o. o.key) s.columns)
                  ++ (map
                        (λ o.
                          node notes o.key (constraint_label o.kind) o.name (Payload.constraint o))
                        (sort_by_key (λ o. o.key) s.constraints)
                      ++ (map (λ o. node notes o.key (codes "Index") o.name (Payload.index o))
                            (sort_by_key (λ o. o.key) s.indexes)
                          ++ (map (λ o. node notes o.key (codes "View") o.name (Payload.view o))
                                (sort_by_key (λ o. o.key) s.views)
                              ++ (map
                                    (λ o.
                                      node notes o.key (codes "Trigger") o.name (Payload.trigger o))
                                    (sort_by_key (λ o. o.key) s.triggers)
                                  ++ map
                                      (λ o.
                                        node notes o.key (codes "Routine") o.name
                                          (Payload.routine o))
                                      (sort_by_key (λ o. o.key) s.routines))))))))

  abbrev pub metadata_nodes :
      List (Str × ObjectAnnotation) → Option CanonicalMetadata → List GraphNodeRecord
  metadata_nodes notes none = []
  metadata_nodes notes (some metadata) =
      map
        (λ o.
          node notes o.key (metadata_object_label o.key.object_kind) o.name
            (Payload.metadata_object o))
        (sort_by_key (λ o. o.key) metadata.objects)

  unfoldable pub graph_nodes : SchemaSnapshot → Option CanonicalMetadata → List GraphNodeRecord
  graph_nodes s metadata =
      let notes = annotations_of metadata in schema_nodes notes s ++ metadata_nodes notes metadata
