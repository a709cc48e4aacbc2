-- ===== src/Validation/Example.antt =====
-- A small shop schema, for the tests.
use rdb_memory_mcp.Base.{ℕ, true, false, none, some, Option, [], ◌∷◌, Str, codes}
use rdb_memory_mcp.Key.{ObjectKey, ObjectKind}
use rdb_memory_mcp.Snapshot.Objects.{
  SchemaSnapshot, ConstraintKind, TableKind, CapabilitySupport, ColumnObject, ConstraintObject,
  AdapterCapabilities,
}

abbrev pub key : ObjectKind → Str → Option Str → ObjectKey
key kind name sub = record {
  source_kind = codes "s";
  connection_alias = codes "a";
  database = codes "m";
  schema = codes "m";
  object_kind = kind;
  object_name = name;
  sub_object = sub;
}

abbrev pub users : ObjectKey
users = key ObjectKind.table (codes "u") none

abbrev pub orders : ObjectKey
orders = key ObjectKind.table (codes "o") none

abbrev pub capabilities : AdapterCapabilities
capabilities = record {
  source_kind = codes "s";
  metadata_only = true;
  schemas = true;
  tables = true;
  columns = true;
  constraints = true;
  indexes = true;
  views = CapabilitySupport.supported;
  triggers = CapabilitySupport.supported;
  routines = CapabilitySupport.supported;
  dependencies = CapabilitySupport.supported;
  limitations = [];
  notes = [];
}

abbrev pub column_of : ObjectKey → Str → ℕ → ColumnObject
column_of tbl name ordinal = record {
  key = key ObjectKind.column tbl.object_name (some name);
  table_key = tbl;
  name = name;
  ordinal_position = ordinal;
  data_type = codes "int";
  is_nullable = false;
  default_value = none;
  is_generated = false;
}

abbrev pub fk : ConstraintObject
fk = record {
  key = key ObjectKind.foreign_key (codes "o") (some (codes "f"));
  table_key = orders;
  name = codes "f";
  kind = ConstraintKind.foreign_key;
  columns = key ObjectKind.column (codes "o") (some (codes "u")) ∷ [];
  referenced_table_key = some users;
  referenced_columns = key ObjectKind.column (codes "u") (some (codes "i")) ∷ [];
  expression = none;
}

abbrev pub shop : SchemaSnapshot
shop = record {
  source_kind = codes "s";
  connection_alias = codes "a";
  database = record { key = key ObjectKind.database (codes "m") none; name = codes "m" };
  schemas =
      record {
        key = key ObjectKind.schema (codes "m") none;
        database_key = key ObjectKind.database (codes "m") none;
        name = codes "m";
      }
      ∷ [];
  tables =
      record {
        key = orders;
        schema_key = key ObjectKind.schema (codes "m") none;
        name = codes "o";
        kind = TableKind.base_table;
      }
      ∷ record {
        key = users;
        schema_key = key ObjectKind.schema (codes "m") none;
        name = codes "u";
        kind = TableKind.base_table;
      }
      ∷ [];
  columns = column_of orders (codes "u") 1 ∷ column_of users (codes "i") 1 ∷ [];
  constraints = fk ∷ [];
  indexes = [];
  views = [];
  triggers = [];
  routines = [];
  capabilities = capabilities;
}
