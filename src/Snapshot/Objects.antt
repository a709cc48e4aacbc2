-- ===== src/Snapshot/Objects.antt =====
-- `SchemaSnapshot` and the objects in it. A `u32` is a number.
use rdb_memory_mcp.Base.{ℕ, Bool, List, Option, Str}
use rdb_memory_mcp.Key.{ObjectKey}

pub data TableKind : Type 0 where
  base_table temporary foreign_table partitioned partition virtual_table shadow : TableKind

pub data ConstraintKind : Type 0 where
  primary_key foreign_key unique check : ConstraintKind

pub data RoutineKind : Type 0 where
  function procedure : RoutineKind

pub data CapabilitySupport : Type 0 where
  supported partial_support unsupported unknown : CapabilitySupport

pub record DatabaseObject : Type 0 where
  pub key : ObjectKey
  pub name : Str

pub record SchemaObject : Type 0 where
  pub key : ObjectKey
  pub database_key : ObjectKey
  pub name : Str

pub record TableObject : Type 0 where
  pub key : ObjectKey
  pub schema_key : ObjectKey
  pub name : Str
  pub kind : TableKind

pub record ColumnObject : Type 0 where
  pub key : ObjectKey
  pub table_key : ObjectKey
  pub name : Str
  pub ordinal_position : ℕ
  pub data_type : Str
  pub is_nullable : Bool
  pub default_value : Option Str
  pub is_generated : Bool

pub record ConstraintObject : Type 0 where
  pub key : ObjectKey
  pub table_key : ObjectKey
  pub name : Str
  pub kind : ConstraintKind
  pub columns : List ObjectKey
  pub referenced_table_key : Option ObjectKey
  pub referenced_columns : List ObjectKey
  pub expression : Option Str

pub record IndexObject : Type 0 where
  pub key : ObjectKey
  pub table_key : ObjectKey
  pub name : Str
  pub columns : List ObjectKey
  pub is_unique : Bool
  pub is_primary : Bool
  pub predicate : Option Str
  pub expression : Option Str

pub record ViewObject : Type 0 where
  pub key : ObjectKey
  pub schema_key : ObjectKey
  pub name : Str
  pub definition : Option Str
  pub depends_on : List ObjectKey

pub record TriggerObject : Type 0 where
  pub key : ObjectKey
  pub table_key : ObjectKey
  pub name : Str
  pub timing : Option Str
  pub events : List Str
  pub definition : Option Str
  pub executes_routine_key : Option ObjectKey

pub record RoutineObject : Type 0 where
  pub key : ObjectKey
  pub schema_key : ObjectKey
  pub name : Str
  pub kind : RoutineKind
  pub definition : Option Str
  pub depends_on : List ObjectKey

pub record AdapterCapabilities : Type 0 where
  pub source_kind : Str
  pub metadata_only : Bool
  pub schemas : Bool
  pub tables : Bool
  pub columns : Bool
  pub constraints : Bool
  pub indexes : Bool
  pub views : CapabilitySupport
  pub triggers : CapabilitySupport
  pub routines : CapabilitySupport
  pub dependencies : CapabilitySupport
  pub limitations : List Str
  pub notes : List Str

pub record SchemaSnapshot : Type 0 where
  pub source_kind : Str
  pub connection_alias : Str
  pub database : DatabaseObject
  pub schemas : List SchemaObject
  pub tables : List TableObject
  pub columns : List ColumnObject
  pub constraints : List ConstraintObject
  pub indexes : List IndexObject
  pub views : List ViewObject
  pub triggers : List TriggerObject
  pub routines : List RoutineObject
  pub capabilities : AdapterCapabilities
