-- ===== src/Certification/Listed.antt =====
-- The lists of the categories are complete, so the rows of a valid certificate sum up to what its
-- snapshot emits.
use rdb_memory_mcp.Base.{
  ℕ, ◌≡◌, refl, sym, ◌∙◌, true, List, [], ◌∷◌, All, All-of, Memᴰ, member, member-true, sum_of,
  sum_of-same, Distinct, arith,
}
use rdb_memory_mcp.Snapshot.Equality.{equal, equal_iff}
use rdb_memory_mcp.Certification.Data.{
  ObjectCategory, RelationshipCategory, ObjectCategory as O, RelationshipCategory as R,
  Reconciliation,
}
use rdb_memory_mcp.Certification.Counts.{
  ObjectCategory-discrete, RelationshipCategory-discrete, all_objects, all_relationships,
}
use rdb_memory_mcp.Certification.Reconcile.{categories_of}
use rdb_memory_mcp.Certification.Spec.{IsExact, Reconciles}

object_listed : (c : ObjectCategory) → member (equal ObjectCategory-discrete) c all_objects ≡ true
unfolding member ObjectCategory-discrete
object_listed O.database = refl
object_listed O.schema = refl
object_listed O.table = refl
object_listed O.column = refl
object_listed O.primary_key = refl
object_listed O.foreign_key = refl
object_listed O.unique_constraint = refl
object_listed O.check_constraint = refl
object_listed O.index = refl
object_listed O.view = refl
object_listed O.view_column = refl
object_listed O.trigger = refl
object_listed O.routine = refl
object_listed O.materialized_view = refl
object_listed O.sequence = refl
object_listed O.routine_parameter = refl
object_listed O.user_defined_type = refl
object_listed O.domain = refl
object_listed O.enum_value = refl
object_listed O.synonym = refl
object_listed O.exclusion_constraint = refl
object_listed O.event = refl
object_listed O.package_category = refl
object_listed O.principal = refl
object_listed O.policy = refl
object_listed O.extension = refl

relationship_listed :
    (c : RelationshipCategory)
    → member (equal RelationshipCategory-discrete) c all_relationships ≡ true
unfolding member RelationshipCategory-discrete
relationship_listed R.database_has_schema = refl
relationship_listed R.schema_has_table = refl
relationship_listed R.table_has_column = refl
relationship_listed R.table_has_constraint = refl
relationship_listed R.constraint_column = refl
relationship_listed R.foreign_key_column_pair = refl
relationship_listed R.table_has_index = refl
relationship_listed R.index_column = refl
relationship_listed R.schema_has_view = refl
relationship_listed R.view_dependency = refl
relationship_listed R.trigger_target = refl
relationship_listed R.trigger_routine = refl
relationship_listed R.schema_has_routine = refl
relationship_listed R.routine_dependency = refl
relationship_listed R.metadata_parent = refl
relationship_listed R.metadata_relationship = refl

pub Memᴰ-all_objects : (c : ObjectCategory) → Memᴰ c all_objects
Memᴰ-all_objects c =
    (member-true (equal ObjectCategory-discrete) (equal_iff ObjectCategory-discrete) c
        all_objects).0
      (object_listed c)

pub Memᴰ-all_relationships : (c : RelationshipCategory) → Memᴰ c all_relationships
Memᴰ-all_relationships c =
    (member-true (equal RelationshipCategory-discrete) (equal_iff RelationshipCategory-discrete) c
        all_relationships).0
      (relationship_listed c)

module _ {C : Type 0} (emitted : C → ℕ) where
  sum_of-exact :
      (rows : List (Reconciliation C))
      → All (λ r. IsExact emitted r) rows
      → sum_of (λ r. r.emitted) rows ≡ sum_of emitted (categories_of rows)
  sum_of-exact [] h = refl
  sum_of-exact (r ∷ rows) h = omega (arith, h.0.2, sum_of-exact rows h.1)

  -- Rows that reconcile sum up to the emitted counts.
  pub sum_of-Reconciles :
      (categories : List C) (rows : List (Reconciliation C))
      → Distinct categories
      → ((c : C) → Memᴰ c categories)
      → Reconciles categories emitted rows
      → sum_of (λ r. r.emitted) rows ≡ sum_of emitted categories
  sum_of-Reconciles categories rows distinct every h =
      sum_of-exact rows h.exact
      ∙ sym (
          sum_of-same emitted categories (categories_of rows) distinct h.once h.complete
            (All-of (λ c. Memᴰ c categories) every (categories_of rows)))
