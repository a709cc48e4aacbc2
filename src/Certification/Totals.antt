-- ===== src/Certification/Totals.antt =====
-- Every object of a snapshot is counted once: the counts over all categories add up to the number of
-- the objects.
use rdb_memory_mcp.Base.{
  ℕ, ◌+◌, ◌≡◌, List, [], ◌∷◌, length, length-map, length-map_append, sum_of, arith,
}
use rdb_memory_mcp.Snapshot.Objects.{SchemaSnapshot, ConstraintObject}
use rdb_memory_mcp.Snapshot.Canonical.{CanonicalSchemaSnapshot}
use rdb_memory_mcp.Key.{ObjectKind}
use rdb_memory_mcp.Validation.Run.{constraint_object_kind}
use rdb_memory_mcp.Validation.Registry.{entries, Entry}
use rdb_memory_mcp.Certification.Data.{ObjectCategory, ObjectCategory as O}
use rdb_memory_mcp.Certification.Counts.{
  ObjectCategory-discrete, all_objects, increment, tally, inserted_counts, emitted_object_counts,
  constraint_category, object_category_from_kind,
}

-- The sum of the counts over all categories.
abbrev pub total : (ObjectCategory → ℕ) → ℕ
total counts = sum_of counts all_objects

total-increment :
    (category : ObjectCategory) (counts : ObjectCategory → ℕ)
    → total (increment category counts) ≡ total counts + 1
unfolding increment ObjectCategory-discrete
total-increment O.database counts = omega arith
total-increment O.schema counts = omega arith
total-increment O.table counts = omega arith
total-increment O.column counts = omega arith
total-increment O.primary_key counts = omega arith
total-increment O.foreign_key counts = omega arith
total-increment O.unique_constraint counts = omega arith
total-increment O.check_constraint counts = omega arith
total-increment O.index counts = omega arith
total-increment O.view counts = omega arith
total-increment O.view_column counts = omega arith
total-increment O.trigger counts = omega arith
total-increment O.routine counts = omega arith
total-increment O.materialized_view counts = omega arith
total-increment O.sequence counts = omega arith
total-increment O.routine_parameter counts = omega arith
total-increment O.user_defined_type counts = omega arith
total-increment O.domain counts = omega arith
total-increment O.enum_value counts = omega arith
total-increment O.synonym counts = omega arith
total-increment O.exclusion_constraint counts = omega arith
total-increment O.event counts = omega arith
total-increment O.package_category counts = omega arith
total-increment O.principal counts = omega arith
total-increment O.policy counts = omega arith
total-increment O.extension counts = omega arith

total-tally {ℓ} :
    {A : Type ℓ} (category_of : A → ObjectCategory) (xs : List A) (counts : ObjectCategory → ℕ)
    → total (tally category_of xs counts) ≡ total counts + length xs
unfolding tally
total-tally category_of [] counts = omega arith
total-tally category_of (x ∷ xs) counts = omega (
  arith,
  total-tally category_of xs (increment (category_of x) counts),
  total-increment (category_of x) counts,
)

pub length-entries :
    (s : SchemaSnapshot) → length (entries s) ≡ total (inserted_counts s) + length s.constraints
unfolding inserted_counts
length-entries s = omega (
  arith,
  length-map_append {B = Entry} (λ o. (ObjectKind.schema, o.key)) s.schemas _,
  length-map_append {B = Entry} (λ o. (ObjectKind.table, o.key)) s.tables _,
  length-map_append {B = Entry} (λ o. (ObjectKind.column, o.key)) s.columns _,
  length-map_append {B = Entry} (λ o. (constraint_object_kind o.kind, o.key)) s.constraints _,
  length-map_append {B = Entry} (λ o. (ObjectKind.index, o.key)) s.indexes _,
  length-map_append {B = Entry} (λ o. (ObjectKind.view, o.key)) s.views _,
  length-map_append {B = Entry} (λ o. (ObjectKind.trigger, o.key)) s.triggers _,
  length-map {B = Entry} (λ o. (ObjectKind.routine, o.key)) s.routines,
)

-- The emitted counts of a snapshot, summed over all the categories, are the number of its objects:
-- those of the schema that the validation registers, and those of the metadata.
pub emitted_object_counts-total :
    (c : CanonicalSchemaSnapshot)
    → total (emitted_object_counts c) ≡ length (entries c.schema) + length c.metadata.objects
unfolding emitted_object_counts
emitted_object_counts-total c =
    let constraint_of : ConstraintObject → ObjectCategory = λ o. constraint_category o.kind in
    let stored = tally constraint_of c.schema.constraints (inserted_counts c.schema) in
    omega (
      arith,
      total-tally (λ o. object_category_from_kind o.key.object_kind) c.metadata.objects stored,
      total-tally constraint_of c.schema.constraints (inserted_counts c.schema),
      length-entries c.schema,
    )
