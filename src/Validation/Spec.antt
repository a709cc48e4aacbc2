-- ===== src/Validation/Spec.antt =====
-- What a valid snapshot is, object by object, with no validator in sight. `o` is the map of the
-- registered keys, and `alias` the connection alias of the snapshot.
use rdb_memory_mcp.Base.{
  ◌≡◌, ◌<◌, ◌≢◌, false, Option, none, some, List, [], ◌∷◌, map, Str, is_blank, length, All,
  Distinct,
}
use rdb_memory_mcp.Key.{ObjectKey, ObjectKind}
use rdb_memory_mcp.Snapshot.Objects.{
  SchemaSnapshot, SchemaObject, TableObject, TableKind, ColumnObject, ConstraintObject,
  ConstraintKind, IndexObject, ViewObject, TriggerObject, RoutineObject,
}
use rdb_memory_mcp.Validation.Checks.{Objects}
use rdb_memory_mcp.Validation.Primitive.{
  HasIdentity, RefersTo, Refers, IsColumnOf, FitsLimit, DistinctKeys, IsInScope,
}
use rdb_memory_mcp.Validation.Registry.{entries, registry, stable_keys, IsExpected}
use rdb_memory_mcp.Validation.Run.{column_ordinal}

pub record HasHeader (s : SchemaSnapshot) : Type 0 where
  pub has_source : is_blank s.source_kind ≡ false
  pub has_alias : is_blank s.connection_alias ≡ false
  pub same_source : s.capabilities.source_kind ≡ s.source_kind

-- The child and its parent lie in one database and one schema.
abbrev pub SameScope : ObjectKey → ObjectKey → Type 0
SameScope child parent = (child.database ≡ parent.database) × (child.schema ≡ parent.schema)

pub record IsValidDatabase (s : SchemaSnapshot) : Type 0 where
  pub identity : HasIdentity s.database.key s.connection_alias s.database.name none
  pub same_name : s.database.key.database ≡ s.database.name

pub record IsValidSchema (alias : Str) (x : SchemaObject) (o : Objects) : Type 0 where
  pub owner : RefersTo o x.database_key (ObjectKind.database ∷ [])
  pub identity : HasIdentity x.key alias x.name none
  pub same_name : x.key.schema ≡ x.name

pub record IsValidTable (alias : Str) (x : TableObject) (o : Objects) : Type 0 where
  pub owner : RefersTo o x.schema_key (ObjectKind.schema ∷ [])
  pub identity : HasIdentity x.key alias x.name none
  pub has_schema : x.kind ≡ TableKind.temporary → x.key.schema ≢ []

pub record IsValidColumn (alias : Str) (x : ColumnObject) (o : Objects) : Type 0 where
  pub owner : RefersTo o x.table_key (ObjectKind.table ∷ [])
  pub scope : SameScope x.key x.table_key
  pub identity : HasIdentity x.key alias x.table_key.object_name (some x.name)
  pub from_one : 0 < x.ordinal_position
  pub bounded : FitsLimit x.default_value

-- The columns of a foreign key's target belong to the table that it references.
abbrev pub HasTarget : Option ObjectKey → List ObjectKey → Objects → Type 0
HasTarget none cols o = ⊥
HasTarget (some tbl) cols o =
    RefersTo o tbl (ObjectKind.table ∷ []) × All (λ c. IsColumnOf o tbl c) cols

abbrev pub HasText : Option Str → Type 0
HasText none = ⊥
HasText (some text) = is_blank text ≡ false

-- What each kind of constraint asks for.
abbrev pub FitsKind : ConstraintKind → ConstraintObject → Objects → Type 0
FitsKind ConstraintKind.foreign_key x o =
    (x.columns ≢ [])
    × HasTarget x.referenced_table_key x.referenced_columns o
    × (length x.columns ≡ length x.referenced_columns)
FitsKind ConstraintKind.check x o = HasText x.expression
FitsKind _ x o = (x.columns ≢ []) × (x.referenced_table_key ≡ none) × (x.referenced_columns ≡ [])

pub record IsValidConstraint (alias : Str) (x : ConstraintObject) (o : Objects) : Type 0 where
  pub owner : RefersTo o x.table_key (ObjectKind.table ∷ [])
  pub scope : SameScope x.key x.table_key
  pub identity : HasIdentity x.key alias x.table_key.object_name (some x.name)
  pub own_columns : All (λ c. IsColumnOf o x.table_key c) x.columns
  pub distinct : DistinctKeys x.columns
  pub distinct_targets : DistinctKeys x.referenced_columns
  pub bounded : FitsLimit x.expression
  pub fits_kind : FitsKind x.kind x o

pub record IsValidIndex (alias : Str) (x : IndexObject) (o : Objects) : Type 0 where
  pub owner : RefersTo o x.table_key (ObjectKind.table ∷ [])
  pub scope : SameScope x.key x.table_key
  pub identity : HasIdentity x.key alias x.table_key.object_name (some x.name)
  pub own_columns : All (λ c. IsColumnOf o x.table_key c) x.columns
  pub distinct : DistinctKeys x.columns
  pub defined : x.columns ≡ [] → HasText x.expression
  pub bounded_predicate : FitsLimit x.predicate
  pub bounded_expression : FitsLimit x.expression

pub record IsValidView (alias : Str) (x : ViewObject) (o : Objects) : Type 0 where
  pub owner : RefersTo o x.schema_key (ObjectKind.schema ∷ [])
  pub identity : HasIdentity x.key alias x.name none
  pub resolved : All (λ d. Refers o d) x.depends_on
  pub distinct : DistinctKeys x.depends_on
  pub bounded : FitsLimit x.definition

abbrev pub Executes : Option ObjectKey → Objects → Type 0
Executes none o = Unit
Executes (some key) o = RefersTo o key (ObjectKind.routine ∷ [])

pub record IsValidTrigger (alias : Str) (x : TriggerObject) (o : Objects) : Type 0 where
  pub owner : RefersTo o x.table_key (ObjectKind.table ∷ ObjectKind.view ∷ [])
  pub scope : SameScope x.key x.table_key
  pub identity : HasIdentity x.key alias x.table_key.object_name (some x.name)
  pub has_event : x.events ≢ []
  pub distinct : Distinct x.events
  pub bounded : FitsLimit x.definition
  pub executes : Executes x.executes_routine_key o

pub record IsValidRoutine (alias : Str) (x : RoutineObject) (o : Objects) : Type 0 where
  pub owner : RefersTo o x.schema_key (ObjectKind.schema ∷ [])
  pub identity : HasIdentity x.key alias x.name x.key.sub_object
  pub resolved : All (λ d. Refers o d) x.depends_on
  pub distinct : DistinctKeys x.depends_on
  pub bounded : FitsLimit x.definition

pub record IsValidColumns (alias : Str) (xs : List ColumnObject) (o : Objects) : Type 0 where
  pub each_column : All (λ x. IsValidColumn alias x o) xs
  pub distinct_ordinals : Distinct (map column_ordinal xs)

-- The objects, given the map of the registered keys.
pub record HasValidObjects (s : SchemaSnapshot) (o : Objects) : Type 0 where
  pub database : IsValidDatabase s
  pub schemas : All (λ x. IsValidSchema s.connection_alias x o) s.schemas
  pub tables : All (λ x. IsValidTable s.connection_alias x o) s.tables
  pub columns : IsValidColumns s.connection_alias s.columns o
  pub constraints : All (λ x. IsValidConstraint s.connection_alias x o) s.constraints
  pub indexes : All (λ x. IsValidIndex s.connection_alias x o) s.indexes
  pub views : All (λ x. IsValidView s.connection_alias x o) s.views
  pub triggers : All (λ x. IsValidTrigger s.connection_alias x o) s.triggers
  pub routines : All (λ x. IsValidRoutine s.connection_alias x o) s.routines

pub record IsValid (s : SchemaSnapshot) : Type 0 where
  pub header : HasHeader s
  pub kinds : All IsExpected (entries s)
  pub unique : Distinct (stable_keys (entries s))
  pub scope : All (λ e. IsInScope s.connection_alias s.database.key e.1) (entries s)
  pub objects : HasValidObjects s (registry s)
