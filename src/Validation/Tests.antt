-- ===== src/Validation/Tests.antt =====
-- The small shop schema: it is accepted, and faults in it are reported.
use rdb_memory_mcp.Base.{
  ◌≡◌, refl, ◌↔◌, str_eq, get, insert, values, str_cmp, member, has_duplicate, is_blank, ok, All,
}
use rdb_memory_mcp.Key.{display_key, versioned, join}
use rdb_memory_mcp.Validation.State.{
  each, issue_if, kind_eq, insert_object, register, validate_identity, validate_scope_of,
  validate_registered_scope, require_one_of, require_child_of, require_column_of,
  validate_bounded_text,
}
use rdb_memory_mcp.Validation.Run.{
  has_duplicate_keys, check_header, register_objects, check_database, check_schema, check_table,
  check_column, check_columns, check_target, check_constraint_kind, check_constraint, check_objects,
  validator_of, validate_schema_snapshot,
}
use rdb_memory_mcp.Validation.Spec.{IsValid}
use rdb_memory_mcp.Validation.Whole.{validate_schema_snapshot_iff}
use rdb_memory_mcp.Validation.Integrity.{
  validate_schema_snapshot_references, IsTableOf, TargetIsTable,
}
use rdb_memory_mcp.Validation.Example.{shop}

shop_accepted : validate_schema_snapshot shop ≡ ok tt
unfolding validate_schema_snapshot validator_of check_header register_objects check_objects
    check_database check_schema check_table check_columns check_column check_constraint
    check_constraint_kind check_target each issue_if register insert_object validate_identity
    validate_registered_scope validate_scope_of require_one_of require_child_of require_column_of
    validate_bounded_text has_duplicate_keys has_duplicate member kind_eq get insert values str_cmp
    str_eq is_blank display_key versioned join
shop_accepted = refl

validate_schema_snapshot_iff_example : (validate_schema_snapshot shop ≡ ok tt) ↔ IsValid shop
validate_schema_snapshot_iff_example = validate_schema_snapshot_iff shop

validate_schema_snapshot_references_example :
    All (λ c. IsTableOf shop.tables c.table_key) shop.columns
    × All (λ c. IsTableOf shop.tables c.table_key × TargetIsTable shop.tables c) shop.constraints
    × All (λ i. IsTableOf shop.tables i.table_key) shop.indexes
validate_schema_snapshot_references_example = validate_schema_snapshot_references shop shop_accepted
