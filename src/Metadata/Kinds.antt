-- ===== src/Metadata/Kinds.antt =====
-- Which kinds of objects may stand where.
use rdb_memory_mcp.Base.{Bool, true, ◌&&◌, ◌||◌, Option, none, some, List, [], ◌∷◌, member}
use rdb_memory_mcp.Key.{ObjectKind}
use rdb_memory_mcp.Key.ObjectKind.{
  database, schema, table, column, primary_key, unique_constraint, check_constraint, index, view,
  view_column, trigger, routine, materialized_view, sequence, routine_parameter, user_defined_type,
  domain, enum_value, synonym, exclusion_constraint, event, package_kind, principal, policy,
  extension,
}
use rdb_memory_mcp.Snapshot.Canonical.{
  MetadataRelationshipKind, MetadataRelationshipKind as Relation,
}
use rdb_memory_mcp.Validation.State.{kind_eq}

-- `matches!(kind, …)`.
abbrev pub one_of : List ObjectKind → ObjectKind → Bool
one_of kinds kind = member kind_eq kind kinds

abbrev pub canonical_metadata_kinds : List ObjectKind
canonical_metadata_kinds =
    primary_key ∷ unique_constraint ∷ check_constraint ∷ index ∷ routine ∷ materialized_view
    ∷ view_column ∷ sequence ∷ routine_parameter ∷ user_defined_type ∷ domain ∷ enum_value ∷ synonym
    ∷ exclusion_constraint ∷ event ∷ package_kind ∷ principal ∷ policy ∷ trigger ∷ extension ∷ []

unfoldable pub is_canonical_metadata_kind : ObjectKind → Bool
is_canonical_metadata_kind kind = one_of canonical_metadata_kinds kind

-- The kinds of parent that `require_metadata_parent_kind` expects; without an entry it checks
-- nothing.
unfoldable pub expected_parents : ObjectKind → Option (List ObjectKind)
expected_parents view_column = some (view ∷ materialized_view ∷ [])
expected_parents materialized_view = some (schema ∷ [])
expected_parents sequence = some (schema ∷ [])
expected_parents user_defined_type = some (schema ∷ [])
expected_parents domain = some (schema ∷ [])
expected_parents synonym = some (schema ∷ [])
expected_parents package_kind = some (schema ∷ [])
expected_parents primary_key = some (materialized_view ∷ [])
expected_parents unique_constraint = some (materialized_view ∷ [])
expected_parents routine = some (package_kind ∷ user_defined_type ∷ [])
expected_parents check_constraint = some (domain ∷ materialized_view ∷ [])
expected_parents index = some (materialized_view ∷ [])
expected_parents event = some (database ∷ schema ∷ [])
expected_parents routine_parameter = some (routine ∷ [])
expected_parents enum_value = some (user_defined_type ∷ [])
expected_parents exclusion_constraint = some (table ∷ [])
expected_parents principal = some (database ∷ schema ∷ [])
expected_parents policy = some (schema ∷ table ∷ view ∷ [])
expected_parents trigger = some (database ∷ schema ∷ table ∷ view ∷ materialized_view ∷ [])
expected_parents _ = none

-- The match of `validate_relationship_endpoint_kinds`.
unfoldable pub endpoints_fit : MetadataRelationshipKind → ObjectKind → ObjectKind → Bool
endpoints_fit Relation.depends_on from to = true
endpoints_fit (Relation.extension _) from to = true
endpoints_fit Relation.uses_type from to =
    one_of
      (column ∷ view_column ∷ routine ∷ routine_parameter ∷ sequence ∷ user_defined_type ∷ extension
        ∷ [])
      from
    && one_of (user_defined_type ∷ domain ∷ []) to
endpoints_fit Relation.uses_sequence from to = kind_eq from column && kind_eq to sequence
endpoints_fit Relation.partition_of from to = kind_eq from table && kind_eq to table
endpoints_fit Relation.inherits_from from to =
    kind_eq from table && kind_eq to table
    || kind_eq from user_defined_type && kind_eq to user_defined_type
endpoints_fit Relation.synonym_for from to = kind_eq from synonym
endpoints_fit Relation.has_parameter from to =
    one_of (routine ∷ package_kind ∷ []) from && kind_eq to routine_parameter
endpoints_fit Relation.returns_type from to =
    kind_eq from routine && one_of (user_defined_type ∷ domain ∷ []) to
endpoints_fit Relation.owned_by from to = kind_eq to principal
endpoints_fit Relation.materializes from to =
    kind_eq from materialized_view && one_of (table ∷ view ∷ []) to
endpoints_fit Relation.invokes from to =
    one_of (routine ∷ trigger ∷ event ∷ []) from && kind_eq to routine
endpoints_fit Relation.includes_column from to =
    kind_eq from index && one_of (column ∷ view_column ∷ []) to
endpoints_fit Relation.excludes_with from to =
    kind_eq from exclusion_constraint && kind_eq to column
