-- ===== src/Certification/Counts.antt =====
-- The categories in their order, and what a snapshot emits for each. A map from every category to
-- a u64 is a function; the counts are lengths of lists in memory, which do not overflow.
use rdb_memory_mcp.Base.{sum_of, ℕ, ◌+◌, true, false, List, [], ◌∷◌, length, keep, is_some}
use rdb_memory_mcp.Key.{ObjectKind}
use rdb_memory_mcp.Snapshot.Objects.{SchemaSnapshot, ConstraintKind, ConstraintObject}
use rdb_memory_mcp.Snapshot.Canonical.{CanonicalSchemaSnapshot}
use rdb_memory_mcp.Snapshot.Equality.{equal}
use rdb_memory_mcp.Certification.Data.{
  ObjectCategory, RelationshipCategory, ObjectCategory as O, RelationshipCategory as R,
}

unfoldable pub ObjectCategory-discrete : Discrete ObjectCategory
ObjectCategory-discrete = hlevel

unfoldable pub RelationshipCategory-discrete : Discrete RelationshipCategory
RelationshipCategory-discrete = hlevel

-- `ObjectCategory::ALL`.
abbrev pub all_objects : List ObjectCategory
all_objects =
    O.database ∷ O.schema ∷ O.table ∷ O.column ∷ O.primary_key ∷ O.foreign_key ∷ O.unique_constraint
    ∷ O.check_constraint ∷ O.index ∷ O.view ∷ O.view_column ∷ O.trigger ∷ O.routine
    ∷ O.materialized_view ∷ O.sequence ∷ O.routine_parameter ∷ O.user_defined_type ∷ O.domain
    ∷ O.enum_value ∷ O.synonym ∷ O.exclusion_constraint ∷ O.event ∷ O.package_category ∷ O.principal
    ∷ O.policy ∷ O.extension ∷ []

-- `RelationshipCategory::ALL`.
abbrev pub all_relationships : List RelationshipCategory
all_relationships =
    R.database_has_schema ∷ R.schema_has_table ∷ R.table_has_column ∷ R.table_has_constraint
    ∷ R.constraint_column ∷ R.foreign_key_column_pair ∷ R.table_has_index ∷ R.index_column
    ∷ R.schema_has_view ∷ R.view_dependency ∷ R.trigger_target ∷ R.trigger_routine
    ∷ R.schema_has_routine ∷ R.routine_dependency ∷ R.metadata_parent ∷ R.metadata_relationship ∷ []

unfoldable pub object_category_from_kind : ObjectKind → ObjectCategory
object_category_from_kind ObjectKind.database = O.database
object_category_from_kind ObjectKind.schema = O.schema
object_category_from_kind ObjectKind.table = O.table
object_category_from_kind ObjectKind.column = O.column
object_category_from_kind ObjectKind.primary_key = O.primary_key
object_category_from_kind ObjectKind.foreign_key = O.foreign_key
object_category_from_kind ObjectKind.unique_constraint = O.unique_constraint
object_category_from_kind ObjectKind.check_constraint = O.check_constraint
object_category_from_kind ObjectKind.index = O.index
object_category_from_kind ObjectKind.view = O.view
object_category_from_kind ObjectKind.view_column = O.view_column
object_category_from_kind ObjectKind.trigger = O.trigger
object_category_from_kind ObjectKind.routine = O.routine
object_category_from_kind ObjectKind.materialized_view = O.materialized_view
object_category_from_kind ObjectKind.sequence = O.sequence
object_category_from_kind ObjectKind.routine_parameter = O.routine_parameter
object_category_from_kind ObjectKind.user_defined_type = O.user_defined_type
object_category_from_kind ObjectKind.domain = O.domain
object_category_from_kind ObjectKind.enum_value = O.enum_value
object_category_from_kind ObjectKind.synonym = O.synonym
object_category_from_kind ObjectKind.exclusion_constraint = O.exclusion_constraint
object_category_from_kind ObjectKind.event = O.event
object_category_from_kind ObjectKind.package_kind = O.package_category
object_category_from_kind ObjectKind.principal = O.principal
object_category_from_kind ObjectKind.policy = O.policy
object_category_from_kind ObjectKind.extension = O.extension

abbrev pub constraint_category : ConstraintKind → ObjectCategory
constraint_category ConstraintKind.primary_key = O.primary_key
constraint_category ConstraintKind.foreign_key = O.foreign_key
constraint_category ConstraintKind.unique = O.unique_constraint
constraint_category ConstraintKind.check = O.check_constraint

-- `*counts.entry(category).or_default() += 1`.
unfoldable pub increment : ObjectCategory → (ObjectCategory → ℕ) → ObjectCategory → ℕ
increment category counts c =
    let count = counts c in
    elim (equal ObjectCategory-discrete c category) [ true ↦ count + 1 | false ↦ count ]

-- The loop that increments the count of each item's category.
unfoldable pub tally {ℓ} :
    {A : Type ℓ} → (A → ObjectCategory) → List A → (ObjectCategory → ℕ) → ObjectCategory → ℕ
tally category_of [] counts = counts
tally category_of (x ∷ xs) counts = tally category_of xs (increment (category_of x) counts)

-- The counts that are inserted before the loops.
unfoldable pub inserted_counts : SchemaSnapshot → ObjectCategory → ℕ
inserted_counts s O.database = 1
inserted_counts s O.schema = length s.schemas
inserted_counts s O.table = length s.tables
inserted_counts s O.column = length s.columns
inserted_counts s O.index = length s.indexes
inserted_counts s O.view = length s.views
inserted_counts s O.trigger = length s.triggers
inserted_counts s O.routine = length s.routines
inserted_counts s _ = 0

unfoldable pub emitted_object_counts : CanonicalSchemaSnapshot → ObjectCategory → ℕ
emitted_object_counts c =
    tally (λ o. object_category_from_kind o.key.object_kind) c.metadata.objects
      (tally (λ o. constraint_category o.kind) c.schema.constraints (inserted_counts c.schema))

-- The columns of a constraint, counted in one of two sums by its kind.
abbrev pub foreign_key_share : ConstraintKind → ℕ → ℕ
foreign_key_share ConstraintKind.foreign_key columns = columns
foreign_key_share _ columns = 0

abbrev pub constraint_share : ConstraintKind → ℕ → ℕ
constraint_share ConstraintKind.foreign_key columns = 0
constraint_share _ columns = columns

abbrev pub foreign_key_pairs : ConstraintObject → ℕ
foreign_key_pairs o = foreign_key_share o.kind (length o.columns)

abbrev pub constraint_columns : ConstraintObject → ℕ
constraint_columns o = constraint_share o.kind (length o.columns)

unfoldable pub emitted_relationship_counts : CanonicalSchemaSnapshot → RelationshipCategory → ℕ
emitted_relationship_counts c R.database_has_schema = length c.schema.schemas
emitted_relationship_counts c R.schema_has_table = length c.schema.tables
emitted_relationship_counts c R.table_has_column = length c.schema.columns
emitted_relationship_counts c R.table_has_constraint = length c.schema.constraints
emitted_relationship_counts c R.constraint_column = sum_of constraint_columns c.schema.constraints
emitted_relationship_counts c R.foreign_key_column_pair =
    sum_of foreign_key_pairs c.schema.constraints
emitted_relationship_counts c R.table_has_index = length c.schema.indexes
emitted_relationship_counts c R.index_column = sum_of (λ o. length o.columns) c.schema.indexes
emitted_relationship_counts c R.schema_has_view = length c.schema.views
emitted_relationship_counts c R.view_dependency = sum_of (λ o. length o.depends_on) c.schema.views
emitted_relationship_counts c R.trigger_target = length c.schema.triggers
emitted_relationship_counts c R.trigger_routine =
    length (keep (λ o. is_some o.executes_routine_key) c.schema.triggers)
emitted_relationship_counts c R.schema_has_routine = length c.schema.routines
emitted_relationship_counts c R.routine_dependency =
    sum_of (λ o. length o.depends_on) c.schema.routines
emitted_relationship_counts c R.metadata_parent =
    length (keep (λ o. is_some o.parent_key) c.metadata.objects)
emitted_relationship_counts c R.metadata_relationship = length c.metadata.relationships
