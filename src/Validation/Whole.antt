-- ===== src/Validation/Whole.antt =====
-- The validation accepts exactly the valid snapshots.
use rdb_memory_mcp.Base.{if_empty, ◌≡◌, refl, ◌↔◌, sym, subst, [], All, ok}
use rdb_memory_mcp.Snapshot.Objects.{SchemaSnapshot}
use rdb_memory_mcp.Validation.Run.{
  check_header, register_objects, check_objects, validator_of, validate_schema_snapshot,
  empty_validator,
}
use rdb_memory_mcp.Validation.Checks.{Checks, Checks-then, Checks-iff, Checks-each}
use rdb_memory_mcp.Validation.Primitive.{Checks-validate_registered_scope, IsInScope}
use rdb_memory_mcp.Validation.Registry.{register_objects_lem, values-registry}
use rdb_memory_mcp.Validation.Spec.{
  HasValidObjects, IsValid, IsValidSchema, IsValidTable, IsValidConstraint, IsValidIndex,
  IsValidView, IsValidTrigger, IsValidRoutine,
}
use rdb_memory_mcp.Validation.Correct.{
  Checks-check_header, Checks-check_database, Checks-check_schema, Checks-check_table,
  Checks-check_columns,
}
use rdb_memory_mcp.Validation.Constraints.{Checks-check_constraint, Checks-check_index}
use rdb_memory_mcp.Validation.Sources.{
  Checks-check_view, Checks-check_trigger, Checks-check_routine,
}
use rdb_memory_mcp.Base.{values}

Checks-check_objects :
    (s : SchemaSnapshot)
    → Checks
        (check_objects s)
        (λ o. All (IsInScope s.connection_alias s.database.key) (values o) × HasValidObjects s o)
unfolding check_objects
Checks-check_objects s =
    let alias = s.connection_alias in
    Checks-then (Checks-validate_registered_scope alias s.database.key) (
      Checks-iff
        (Checks-then (Checks-check_database s) (
          Checks-then (Checks-each _ (IsValidSchema alias) (Checks-check_schema alias) s.schemas) (
            Checks-then (Checks-each _ (IsValidTable alias) (Checks-check_table alias) s.tables) (
              Checks-then (Checks-check_columns alias s.columns) (
                Checks-then
                  (Checks-each _ (IsValidConstraint alias) (Checks-check_constraint alias)
                    s.constraints)
                  (Checks-then
                    (Checks-each _ (IsValidIndex alias) (Checks-check_index alias) s.indexes)
                    (Checks-then
                      (Checks-each _ (IsValidView alias) (Checks-check_view alias) s.views)
                      (Checks-then
                        (Checks-each _ (IsValidTrigger alias) (Checks-check_trigger alias)
                          s.triggers)
                        (Checks-each _ (IsValidRoutine alias) (Checks-check_routine alias)
                          s.routines)))))))))
        λ o. (
          λ (a, (b, (c, (d, (e, (f, (g, (h, i)))))))). record {
            database = a;
            schemas = b;
            tables = c;
            columns = d;
            constraints = e;
            indexes = f;
            views = g;
            triggers = h;
            routines = i;
          },
          λ v. (
            v.database,
            (
              v.schemas,
              (
                v.tables,
                (v.columns, (v.constraints, (v.indexes, (v.views, (v.triggers, v.routines))))),
              ),
            ),
          ),
        ))

-- The validator ends without an issue exactly for a valid snapshot.
pub issues-validator_of : (s : SchemaSnapshot) → ((validator_of s).issues ≡ []) ↔ IsValid s
unfolding validator_of
issues-validator_of s =
    let header = Checks-check_header s in
    let start = check_header s empty_validator in
    let (objects, faults) = register_objects_lem s start (header.same empty_validator) in
    let rest = (Checks-check_objects s).exact (register_objects s start) in
    (
      λ h.
          let (before, (scope, valid)) = rest.0 h in
          let (clean, kinds, unique) = faults.0 before in
          record {
            header = ((header.exact empty_validator).0 clean).1;
            kinds = kinds;
            unique = unique;
            scope = (values-registry _ s unique).0 (
                subst (λ o. All (IsInScope s.connection_alias s.database.key) (values o)) objects
                  scope);
            objects = subst (HasValidObjects s) objects valid;
          },
      λ v. rest.1 (
        faults.1 ((header.exact empty_validator).1 (refl, v.header), v.kinds, v.unique),
        (
          subst (λ o. All (IsInScope s.connection_alias s.database.key) (values o)) (sym objects)
              ((values-registry _ s v.unique).1 v.scope),
          subst (HasValidObjects s) (sym objects) v.objects,
        ),
      ),
    )

-- The validation succeeds exactly if the snapshot has a header with a source, an alias and
-- matching capabilities, every object key has the kind of its place and the scope of the snapshot,
-- no two keys print alike, and each object meets the conditions of its kind, its references read
-- in the map of all the keys.
pub validate_schema_snapshot_iff :
    (s : SchemaSnapshot) → (validate_schema_snapshot s ≡ ok tt) ↔ IsValid s
unfolding validate_schema_snapshot
validate_schema_snapshot_iff s =
    let (there, back) = if_empty (validator_of s).issues in
    let (valid, clean) = issues-validator_of s in (λ h. valid (there h), λ v. back (clean v))
