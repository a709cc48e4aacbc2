-- ===== src/Certification/Labels.antt =====
-- What tells the reconciliation of the objects from that of the relationships: the categories and
-- the texts of the issues.
use rdb_memory_mcp.Base.{Bool, List, ◌++◌, Str, codes}
use rdb_memory_mcp.Snapshot.Equality.{equal}
use rdb_memory_mcp.Certification.Data.{
  ObjectCategory, RelationshipCategory, ObjectCategory as O, RelationshipCategory as R,
}
use rdb_memory_mcp.Certification.Counts.{
  ObjectCategory-discrete, RelationshipCategory-discrete, all_objects, all_relationships,
}

-- `{category:?}`.
unfoldable pub object_debug : ObjectCategory → Str
object_debug O.database = codes "Database"
object_debug O.schema = codes "Schema"
object_debug O.table = codes "Table"
object_debug O.column = codes "Column"
object_debug O.primary_key = codes "PrimaryKey"
object_debug O.foreign_key = codes "ForeignKey"
object_debug O.unique_constraint = codes "UniqueConstraint"
object_debug O.check_constraint = codes "CheckConstraint"
object_debug O.index = codes "Index"
object_debug O.view = codes "View"
object_debug O.view_column = codes "ViewColumn"
object_debug O.trigger = codes "Trigger"
object_debug O.routine = codes "Routine"
object_debug O.materialized_view = codes "MaterializedView"
object_debug O.sequence = codes "Sequence"
object_debug O.routine_parameter = codes "RoutineParameter"
object_debug O.user_defined_type = codes "UserDefinedType"
object_debug O.domain = codes "Domain"
object_debug O.enum_value = codes "EnumValue"
object_debug O.synonym = codes "Synonym"
object_debug O.exclusion_constraint = codes "ExclusionConstraint"
object_debug O.event = codes "Event"
object_debug O.package_category = codes "Package"
object_debug O.principal = codes "Principal"
object_debug O.policy = codes "Policy"
object_debug O.extension = codes "Extension"

-- `{category:?}`.
unfoldable pub relationship_debug : RelationshipCategory → Str
relationship_debug R.database_has_schema = codes "DatabaseHasSchema"
relationship_debug R.schema_has_table = codes "SchemaHasTable"
relationship_debug R.table_has_column = codes "TableHasColumn"
relationship_debug R.table_has_constraint = codes "TableHasConstraint"
relationship_debug R.constraint_column = codes "ConstraintColumn"
relationship_debug R.foreign_key_column_pair = codes "ForeignKeyColumnPair"
relationship_debug R.table_has_index = codes "TableHasIndex"
relationship_debug R.index_column = codes "IndexColumn"
relationship_debug R.schema_has_view = codes "SchemaHasView"
relationship_debug R.view_dependency = codes "ViewDependency"
relationship_debug R.trigger_target = codes "TriggerTarget"
relationship_debug R.trigger_routine = codes "TriggerRoutine"
relationship_debug R.schema_has_routine = codes "SchemaHasRoutine"
relationship_debug R.routine_dependency = codes "RoutineDependency"
relationship_debug R.metadata_parent = codes "MetadataParent"
relationship_debug R.metadata_relationship = codes "MetadataRelationship"

pub record Labels (C : Type 0) : Type 0 where
  pub categories : List C
  pub category_discrete : Discrete C
  pub subject : C → Str
  pub discovered_missing : Str
  pub discovered_missing_message : Str
  pub mismatch : Str
  pub items : Str
  pub duplicate : Str
  pub duplicate_message : Str
  pub missing : Str
  pub missing_message : Str

-- Whether a category is the other.
abbrev pub same_category : {C : Type 0} → Labels C → C → C → Bool
same_category labels c d = equal labels.category_discrete c d

abbrev pub object_labels : Labels ObjectCategory
object_labels = record {
  categories = all_objects;
  category_discrete = ObjectCategory-discrete;
  subject = λ c. codes "object_counts." ++ object_debug c;
  discovered_missing = codes "discovered_count_missing";
  discovered_missing_message = codes "adapter did not report a discovered count for this category";
  mismatch = codes "object_count_mismatch";
  items = codes " object(s), emitted ";
  duplicate = codes "duplicate_object_count";
  duplicate_message = codes "each object category must have exactly one reconciliation";
  missing = codes "object_count_missing";
  missing_message = codes "every object category requires a reconciliation";
}

abbrev pub relationship_labels : Labels RelationshipCategory
relationship_labels = record {
  categories = all_relationships;
  category_discrete = RelationshipCategory-discrete;
  subject = λ c. codes "relationship_counts." ++ relationship_debug c;
  discovered_missing = codes "discovered_relationship_count_missing";
  discovered_missing_message =
      codes "adapter did not report a discovered count for this relationship category";
  mismatch = codes "relationship_count_mismatch";
  items = codes " relation(s), emitted ";
  duplicate = codes "duplicate_relationship_count";
  duplicate_message = codes "each relationship category must have exactly one reconciliation";
  missing = codes "relationship_count_missing";
  missing_message = codes "every relationship category requires a reconciliation";
}
