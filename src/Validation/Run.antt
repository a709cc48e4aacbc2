-- ===== src/Validation/Run.antt =====
-- `validate_schema_snapshot`: every check, in the order of the source, over one validator.
use rdb_memory_mcp.Base.{
  is_some, ℕ, Bool, true, false, not, ◌&&◌, ◌||◌, Option, none, some, List, [], ◌∷◌, map, Str,
  codes, str_eq, is_blank, is_empty, length, has_duplicate, member, if◌then◌else◌, Result, ok, err,
  ◌==◌,
}
use rdb_memory_mcp.Key.{ObjectKey, ObjectKind, display_key}
use rdb_memory_mcp.Snapshot.Objects.{
  SchemaSnapshot, SchemaObject, TableObject, TableKind, ColumnObject, ConstraintObject,
  ConstraintKind, IndexObject, ViewObject, TriggerObject, RoutineObject,
}
use rdb_memory_mcp.Validation.State.{
  SnapshotValidator, SnapshotValidationIssue, Check, ◌⨾◌, each, issue, issue_if, register,
  validate_identity, validate_registered_scope, require_any, require_one_of, require_kind,
  require_child_of, require_column_of, validate_bounded_text,
}

unfoldable pub has_duplicate_keys : List ObjectKey → Bool
has_duplicate_keys keys = has_duplicate str_eq [] (map display_key keys)

unfoldable pub has_duplicate_strings : List Str → Bool
has_duplicate_strings texts = has_duplicate str_eq [] texts

abbrev pub constraint_object_kind : ConstraintKind → ObjectKind
constraint_object_kind ConstraintKind.primary_key = ObjectKind.primary_key
constraint_object_kind ConstraintKind.foreign_key = ObjectKind.foreign_key
constraint_object_kind ConstraintKind.unique = ObjectKind.unique_constraint
constraint_object_kind ConstraintKind.check = ObjectKind.check_constraint

-- `expression.as_deref().map(str::trim).unwrap_or_default().is_empty()`.
abbrev pub lacks_text : Option Str → Bool
lacks_text none = true
lacks_text (some text) = is_blank text

-- `table.kind == TableKind::Temporary`.
abbrev pub is_temporary : TableKind → Bool
is_temporary TableKind.temporary = true
is_temporary _ = false

-- The three checks that precede the registration.
unfoldable pub check_header : SchemaSnapshot → Check
check_header s =
    issue_if (is_blank s.source_kind) (codes "snapshot_source_missing") s.database.key
      (codes "snapshot source kind must not be empty")
    ⨾ issue_if (is_blank s.connection_alias) (codes "connection_alias_missing") s.database.key
        (codes "snapshot connection alias must not be empty")
    ⨾ issue_if (not (str_eq s.capabilities.source_kind s.source_kind))
        (codes "capability_source_mismatch") s.database.key
        (codes "capability source kind must match the snapshot source kind")

-- The registration of every object under its stable key.
unfoldable pub register_objects : SchemaSnapshot → Check
register_objects s =
    register ObjectKind.database s.database.key
    ⨾ each (λ o. register ObjectKind.schema o.key) s.schemas
    ⨾ each (λ o. register ObjectKind.table o.key) s.tables
    ⨾ each (λ o. register ObjectKind.column o.key) s.columns
    ⨾ each (λ o. register (constraint_object_kind o.kind) o.key) s.constraints
    ⨾ each (λ o. register ObjectKind.index o.key) s.indexes
    ⨾ each (λ o. register ObjectKind.view o.key) s.views
    ⨾ each (λ o. register ObjectKind.trigger o.key) s.triggers
    ⨾ each (λ o. register ObjectKind.routine o.key) s.routines

unfoldable pub check_database : SchemaSnapshot → Check
check_database s =
    validate_identity s.database.key s.connection_alias s.database.name none
    ⨾ issue_if (not (str_eq s.database.key.database s.database.name))
        (codes "database_identity_mismatch") s.database.key
        (codes "database key scope must match the database name")

-- In the loops below `alias` is the connection alias of the snapshot.
unfoldable pub check_schema : Str → SchemaObject → Check
check_schema alias o =
    require_kind o.database_key ObjectKind.database o.key
    ⨾ validate_identity o.key alias o.name none
    ⨾ issue_if (not (str_eq o.key.schema o.name)) (codes "schema_identity_mismatch") o.key
        (codes "schema key scope must match the schema name")

unfoldable pub check_table : Str → TableObject → Check
check_table alias o =
    require_kind o.schema_key ObjectKind.schema o.key
    ⨾ validate_identity o.key alias o.name none
    ⨾ issue_if (is_temporary o.kind && is_empty o.key.schema) (codes "invalid_table_scope") o.key
        (codes "temporary table is missing a schema identity")

abbrev pub ordinal_eq : Str × ℕ → Str × ℕ → Bool
ordinal_eq a b = str_eq a.0 b.0 && a.1 == b.1

abbrev pub column_ordinal : ColumnObject → Str × ℕ
column_ordinal o = (display_key o.table_key, o.ordinal_position)

-- `taken` says that the column's ordinal was met before.
unfoldable pub check_column : Str → Bool → ColumnObject → Check
check_column alias taken o =
    require_kind o.table_key ObjectKind.table o.key
    ⨾ require_child_of o.key o.table_key o.key
    ⨾ validate_identity o.key alias o.table_key.object_name (some o.name)
    ⨾ issue_if (o.ordinal_position == 0) (codes "invalid_column_ordinal") o.key
        (codes "column ordinal position must be at least 1")
    ⨾ issue_if taken (codes "duplicate_column_ordinal") o.key
        (codes "two columns in the same table share an ordinal position")
    ⨾ validate_bounded_text o.key o.default_value (codes "column_default_too_large")

-- The loop over the columns, with the set `column_ordinals`.
unfoldable pub check_columns : Str → List (Str × ℕ) → List ColumnObject → Check
check_columns alias column_ordinals [] v = v
check_columns alias column_ordinals (o ∷ os) v =
    check_columns alias (column_ordinal o ∷ column_ordinals) os
      (check_column alias (member ordinal_eq (column_ordinal o) column_ordinals) o v)

-- The target of a foreign key.
unfoldable pub check_target : ConstraintObject → Check
check_target o = elim o.referenced_table_key [
  | some table_key ↦
      require_kind table_key ObjectKind.table o.key
      ⨾ each (require_column_of table_key o.key) o.referenced_columns
  | none ↦
      issue (codes "foreign_key_target_missing") o.key
        (codes "foreign key has no resolved target table")
]

-- The match on the kind of a constraint.
unfoldable pub check_constraint_kind : ConstraintKind → ConstraintObject → Check
check_constraint_kind ConstraintKind.foreign_key o =
    issue_if (is_empty o.columns) (codes "foreign_key_columns_missing") o.key
      (codes "foreign key has no resolved source columns")
    ⨾ check_target o
    ⨾ issue_if (not (length o.columns == length o.referenced_columns))
        (codes "foreign_key_cardinality_mismatch") o.key
        (codes "foreign key source and target column counts differ")
check_constraint_kind ConstraintKind.check o =
    issue_if (lacks_text o.expression) (codes "check_expression_missing") o.key
      (codes "check constraint has no expression")
check_constraint_kind _ o =
    issue_if (is_empty o.columns) (codes "constraint_columns_missing") o.key
      (codes "key constraint has no resolved columns")
    ⨾ issue_if (is_some o.referenced_table_key || not (is_empty o.referenced_columns))
        (codes "unexpected_constraint_reference") o.key
        (codes "non-foreign-key constraint contains a referenced target")

unfoldable pub check_constraint : Str → ConstraintObject → Check
check_constraint alias o =
    require_kind o.table_key ObjectKind.table o.key
    ⨾ require_child_of o.key o.table_key o.key
    ⨾ validate_identity o.key alias o.table_key.object_name (some o.name)
    ⨾ each (require_column_of o.table_key o.key) o.columns
    ⨾ issue_if (has_duplicate_keys o.columns) (codes "duplicate_constraint_column") o.key
        (codes "constraint contains the same source column more than once")
    ⨾ issue_if (has_duplicate_keys o.referenced_columns)
        (codes "duplicate_constraint_reference_column") o.key
        (codes "constraint contains the same referenced column more than once")
    ⨾ validate_bounded_text o.key o.expression (codes "constraint_expression_too_large")
    ⨾ check_constraint_kind o.kind o

unfoldable pub check_index : Str → IndexObject → Check
check_index alias o =
    require_kind o.table_key ObjectKind.table o.key
    ⨾ require_child_of o.key o.table_key o.key
    ⨾ validate_identity o.key alias o.table_key.object_name (some o.name)
    ⨾ each (require_column_of o.table_key o.key) o.columns
    ⨾ issue_if (has_duplicate_keys o.columns) (codes "duplicate_index_column") o.key
        (codes "index contains the same resolved column more than once")
    ⨾ issue_if (is_empty o.columns && lacks_text o.expression) (codes "index_definition_missing")
        o.key (codes "index has neither resolved columns nor an expression")
    ⨾ validate_bounded_text o.key o.predicate (codes "index_predicate_too_large")
    ⨾ validate_bounded_text o.key o.expression (codes "index_expression_too_large")

unfoldable pub check_view : Str → ViewObject → Check
check_view alias o =
    require_kind o.schema_key ObjectKind.schema o.key
    ⨾ validate_identity o.key alias o.name none
    ⨾ each (require_any o.key) o.depends_on
    ⨾ issue_if (has_duplicate_keys o.depends_on) (codes "duplicate_view_dependency") o.key
        (codes "view dependency is duplicated")
    ⨾ validate_bounded_text o.key o.definition (codes "view_definition_too_large")

-- The routine that a trigger executes, where it names one.
unfoldable pub check_executes : TriggerObject → Check
check_executes o v = elim o.executes_routine_key [
  | some routine_key ↦ require_kind routine_key ObjectKind.routine o.key v
  | none ↦ v
]

unfoldable pub check_trigger : Str → TriggerObject → Check
check_trigger alias o =
    require_one_of o.table_key (ObjectKind.table ∷ ObjectKind.view ∷ []) o.key
    ⨾ require_child_of o.key o.table_key o.key
    ⨾ validate_identity o.key alias o.table_key.object_name (some o.name)
    ⨾ issue_if (is_empty o.events) (codes "trigger_events_missing") o.key
        (codes "trigger must declare at least one event")
    ⨾ issue_if (has_duplicate_strings o.events) (codes "duplicate_trigger_event") o.key
        (codes "trigger event is duplicated")
    ⨾ validate_bounded_text o.key o.definition (codes "trigger_definition_too_large")
    ⨾ check_executes o

unfoldable pub check_routine : Str → RoutineObject → Check
check_routine alias o =
    require_kind o.schema_key ObjectKind.schema o.key
    ⨾ validate_identity o.key alias o.name o.key.sub_object
    ⨾ each (require_any o.key) o.depends_on
    ⨾ issue_if (has_duplicate_keys o.depends_on) (codes "duplicate_routine_dependency") o.key
        (codes "routine dependency is duplicated")
    ⨾ validate_bounded_text o.key o.definition (codes "routine_definition_too_large")

-- The checks behind the registration.
unfoldable pub check_objects : SchemaSnapshot → Check
check_objects s =
    validate_registered_scope s.connection_alias s.database.key
    ⨾ check_database s
    ⨾ each (check_schema s.connection_alias) s.schemas
    ⨾ each (check_table s.connection_alias) s.tables
    ⨾ check_columns s.connection_alias [] s.columns
    ⨾ each (check_constraint s.connection_alias) s.constraints
    ⨾ each (check_index s.connection_alias) s.indexes
    ⨾ each (check_view s.connection_alias) s.views
    ⨾ each (check_trigger s.connection_alias) s.triggers
    ⨾ each (check_routine s.connection_alias) s.routines

abbrev pub empty_validator : SnapshotValidator
empty_validator = record { objects = []; issues = [] }

-- The validator at the end of all checks.
unfoldable pub validator_of : SchemaSnapshot → SnapshotValidator
validator_of s = check_objects s (register_objects s (check_header s empty_validator))

-- `validate_schema_snapshot`; the error is the list of issues.
unfoldable pub validate_schema_snapshot :
    SchemaSnapshot → Result (List SnapshotValidationIssue) (Unit {0})
validate_schema_snapshot s =
    let v = validator_of s in if is_empty v.issues then ok tt else err v.issues
