-- ===== src/Metadata/Accepted.antt =====
-- The shop with its metadata is accepted.
use rdb_memory_mcp.Base.{
  ◌≡◌, refl, [], ◌∷◌, ok, is_blank, get, insert, str_cmp, str_eq, byte_length, member,
  has_duplicate, values,
}
use rdb_memory_mcp.Key.{display_key, versioned, join}
use rdb_memory_mcp.Snapshot.Equality.{MetadataRelationshipKind-discrete}
use rdb_memory_mcp.Validation.State.{
  each, issue_if, kind_eq, insert_object, register, validate_identity, validate_scope_of,
  validate_registered_scope, require_one_of, require_child_of, require_column_of,
  validate_bounded_text,
}
use rdb_memory_mcp.Validation.Run.{
  has_duplicate_keys, check_header, register_objects, check_database, check_schema, check_table,
  check_column, check_columns, check_target, check_constraint_kind, check_constraint, check_objects,
  validator_of, validate_schema_snapshot,
}
use rdb_memory_mcp.Metadata.Example.{draws, shop_with}
use rdb_memory_mcp.Metadata.Kinds.{is_canonical_metadata_kind, expected_parents, endpoints_fit}
use rdb_memory_mcp.Metadata.Run.{
  register_key, register_keys, base_object_keys, valid_extension_name, extension_issues,
  validate_extension_identity, validate_definition, validate_property, validate_properties,
  all_keys, object_issues, require_key, require_same_scope, require_metadata_parent_kind,
  parent_issues_of, validate_annotations, validate_relationship_endpoint_kinds,
  validate_relationships, canonical_issues, validate_canonical_schema_snapshot,
}

pub canonical_accepted : validate_canonical_schema_snapshot (shop_with (draws ∷ [])) ≡ ok tt
unfolding validate_canonical_schema_snapshot canonical_issues register_key register_keys
    base_object_keys valid_extension_name extension_issues validate_extension_identity
    validate_definition validate_property validate_properties all_keys object_issues require_key
    require_same_scope require_metadata_parent_kind parent_issues_of validate_annotations
    validate_relationship_endpoint_kinds validate_relationships is_canonical_metadata_kind
    expected_parents endpoints_fit byte_length MetadataRelationshipKind-discrete
    validate_schema_snapshot validator_of check_header register_objects check_objects check_database
    check_schema check_table check_columns check_column check_constraint check_constraint_kind
    check_target each issue_if register insert_object validate_identity validate_registered_scope
    validate_scope_of require_one_of require_child_of require_column_of validate_bounded_text
    has_duplicate_keys has_duplicate member kind_eq get insert values str_cmp str_eq is_blank
    display_key versioned join
canonical_accepted = refl
