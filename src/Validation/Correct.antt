-- ===== src/Validation/Correct.antt =====
-- The checks of each object are exact for its predicate.
use rdb_memory_mcp.Base.{
  ℕ, ◌≡◌, ◌≢◌, refl, ◌↔◌, true, false, Bool, ◌&&◌, List, [], ◌∷◌, map, Str, str_eq_iff, is_empty,
  All, arith, has_duplicate, has_duplicate-false,
}
use rdb_memory_mcp.Snapshot.Objects.{
  SchemaSnapshot, SchemaObject, TableObject, TableKind, ColumnObject,
}
use rdb_memory_mcp.Validation.Run.{
  check_database, check_schema, check_table, check_column, check_columns, check_header,
  is_temporary, ordinal_eq, column_ordinal,
}
use rdb_memory_mcp.Validation.Checks.{Checks, Checks-issue_if, Checks-skip, Checks-then, Checks-iff}
use rdb_memory_mcp.Validation.Primitive.{
  Checks-validate_identity, Checks-require_one_of, Checks-require_child_of,
  Checks-validate_bounded_text,
}
use rdb_memory_mcp.Validation.Spec.{
  HasHeader, IsValidDatabase, IsValidSchema, IsValidTable, IsValidColumn, IsValidColumns,
}

pub Checks-check_header : (s : SchemaSnapshot) → Checks (check_header s) (λ _. HasHeader s)
unfolding check_header
Checks-check_header s =
    let same = str_eq_iff s.capabilities.source_kind s.source_kind in
    Checks-iff
      (Checks-then (Checks-issue_if _ _ _ _)
        (Checks-then (Checks-issue_if _ _ _ _) (Checks-issue_if _ _ _ _)))
      λ _. ground (arith, same)

pub Checks-check_database :
    (s : SchemaSnapshot) → Checks (check_database s) (λ _. IsValidDatabase s)
unfolding check_database
Checks-check_database s =
    let same = str_eq_iff s.database.key.database s.database.name in
    Checks-iff (Checks-then (Checks-validate_identity _ _ _ _) (Checks-issue_if _ _ _ _)) λ _. (
      λ p. record { identity = p.0; same_name = same.0 (ground arith) },
      λ h. (h.identity, ground (arith, same.1 h.same_name)),
    )

pub Checks-check_schema :
    (alias : Str) (x : SchemaObject) → Checks (check_schema alias x) (IsValidSchema alias x)
unfolding check_schema
Checks-check_schema alias x =
    let same = str_eq_iff x.key.schema x.name in
    Checks-iff
      (Checks-then (Checks-require_one_of _ _ _)
        (Checks-then (Checks-validate_identity _ _ _ _) (Checks-issue_if _ _ _ _)))
      λ _. (
        λ p. record { owner = p.0; identity = p.1.0; same_name = same.0 (ground arith) },
        λ h. (h.owner, (h.identity, ground (arith, same.1 h.same_name))),
      )

temporary_lem :
    (kind : TableKind) (text : Str)
    → (is_temporary kind && is_empty text ≡ false) ↔ (kind ≡ TableKind.temporary → text ≢ [])
temporary_lem kind text = ground arith

pub Checks-check_table :
    (alias : Str) (x : TableObject) → Checks (check_table alias x) (IsValidTable alias x)
unfolding check_table
Checks-check_table alias x =
    let temp = temporary_lem x.kind x.key.schema in
    Checks-iff
      (Checks-then (Checks-require_one_of _ _ _)
        (Checks-then (Checks-validate_identity _ _ _ _) (Checks-issue_if _ _ _ _)))
      λ _. (
        λ p. record { owner = p.0; identity = p.1.0; has_schema = temp.0 p.1.1 },
        λ h. (h.owner, (h.identity, temp.1 h.has_schema)),
      )

pub Checks-check_column :
    (alias : Str) (taken : Bool) (x : ColumnObject)
    → Checks (check_column alias taken x) (λ o. IsValidColumn alias x o × (taken ≡ false))
unfolding check_column
Checks-check_column alias taken x =
    Checks-iff
      (Checks-then (Checks-require_one_of _ _ _) (
        Checks-then (Checks-require_child_of _ _ _) (
          Checks-then (Checks-validate_identity _ _ _ _) (
            Checks-then (Checks-issue_if _ _ _ _)
              (Checks-then (Checks-issue_if _ _ _ _) (Checks-validate_bounded_text _ _ _))))))
      λ _. (
        λ p. (
          record {
            owner = p.0;
            scope = p.1.0;
            identity = p.1.1.0;
            from_one = ground (arith, p.1.1.1.0);
            bounded = p.1.1.1.1.1;
          },
          p.1.1.1.1.0,
        ),
        λ h. (
          h.0.owner,
          (h.0.scope, (h.0.identity, (ground (arith, h.0.from_one), (h.1, h.0.bounded)))),
        ),
      )

ordinal_eq_iff : (a b : Str × ℕ) → (ordinal_eq a b ≡ true) ↔ (a ≡ b)
ordinal_eq_iff (a, m) (b, n) = ground (arith, str_eq_iff a b)

-- The loop over the columns refuses an ordinal that it has met in the same table.
Checks-check_columns_seen :
    (alias : Str) (seen : List (Str × ℕ)) (xs : List ColumnObject)
    → Checks (check_columns alias seen xs) (λ o.
      All (λ x. IsValidColumn alias x o) xs
      × (has_duplicate ordinal_eq seen (map column_ordinal xs) ≡ false))
unfolding check_columns has_duplicate
Checks-check_columns_seen alias seen [] = Checks-iff Checks-skip λ _. (λ _. (tt, refl), λ _. tt)
Checks-check_columns_seen alias seen (x ∷ xs) =
    Checks-iff
      (Checks-then (Checks-check_column alias _ x)
        (Checks-check_columns_seen alias (column_ordinal x ∷ seen) xs))
      λ _. (
        λ p. ((p.0.0, p.1.0), ground (arith, p.0.1, p.1.1)),
        λ h. ((h.0.0, ground (arith, h.1)), (h.0.1, ground (arith, h.1))),
      )

pub Checks-check_columns :
    (alias : Str) (xs : List ColumnObject)
    → Checks (check_columns alias [] xs) (IsValidColumns alias xs)
Checks-check_columns alias xs =
    let (there, back) = has_duplicate-false ordinal_eq ordinal_eq_iff (map column_ordinal xs) in
    Checks-iff (Checks-check_columns_seen alias [] xs) λ _. (
      λ p. record { each_column = p.0; distinct_ordinals = there p.1 },
      λ h. (h.each_column, back h.distinct_ordinals),
    )
