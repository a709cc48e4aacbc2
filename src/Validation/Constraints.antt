-- ===== src/Validation/Constraints.antt =====
-- The checks of constraints and indexes are exact for their predicates.
use rdb_memory_mcp.Base.{
  is_some, ◌≡◌, ◌≢◌, refl, ◌↔◌, false, not, ◌&&◌, ◌||◌, Option, none, some, List, [], ◌∷◌, Str,
  is_empty, All, arith,
}
use rdb_memory_mcp.Key.{ObjectKey}
use rdb_memory_mcp.Snapshot.Objects.{ConstraintObject, ConstraintKind, IndexObject}
use rdb_memory_mcp.Validation.State.{each, require_column_of}
use rdb_memory_mcp.Validation.Run.{
  check_target, check_constraint_kind, check_constraint, check_index, lacks_text,
}
use rdb_memory_mcp.Validation.Checks.{
  Checks, Checks-issue_if, Checks-issue, Checks-then, Checks-iff, Checks-each,
}
use rdb_memory_mcp.Validation.Primitive.{
  Checks-validate_identity, Checks-require_one_of, Checks-require_child_of,
  Checks-require_column_of, Checks-validate_bounded_text, has_duplicate_keys-false, IsColumnOf,
}
use rdb_memory_mcp.Validation.Spec.{HasTarget, HasText, FitsKind, IsValidConstraint, IsValidIndex}

HasText-iff : (text : Option Str) → (lacks_text text ≡ false) ↔ HasText text
HasText-iff none = (λ h. cc, λ h. absurd h)
HasText-iff (some text) = (λ h. h, λ h. h)

-- A loop over columns that must belong to a table.
Checks-own_columns :
    (tbl owner : ObjectKey) (cols : List ObjectKey)
    → Checks (each (require_column_of tbl owner) cols) (λ o. All (λ c. IsColumnOf o tbl c) cols)
Checks-own_columns tbl owner cols =
    Checks-each (require_column_of tbl owner) (λ c o. IsColumnOf o tbl c)
      (Checks-require_column_of tbl owner) cols

target_step :
    (tbl : Option ObjectKey) (x : ConstraintObject)
    → x.referenced_table_key ≡ tbl
    → Checks (check_target x) (HasTarget tbl x.referenced_columns)
unfolding check_target
target_step none x e = rw (e, check_target) (Checks-issue _ _ _)
target_step (some tbl) x e =
    rw (e, check_target)
      (Checks-then (Checks-require_one_of _ _ _)
        (Checks-own_columns tbl x.key x.referenced_columns))

is_empty-false {ℓ} : {A : Type ℓ} (xs : List A) → (is_empty xs ≡ false) ↔ (xs ≢ [])
is_empty-false xs = ground arith

key_lem :
    (x : ConstraintObject)
    → ((is_empty x.columns ≡ false)
        × (is_some x.referenced_table_key || not (is_empty x.referenced_columns) ≡ false))
      ↔ ((x.columns ≢ []) × (x.referenced_table_key ≡ none) × (x.referenced_columns ≡ []))
key_lem x = ground arith

Checks-check_constraint_kind :
    (kind : ConstraintKind) (x : ConstraintObject)
    → Checks (check_constraint_kind kind x) (FitsKind kind x)
unfolding check_constraint_kind
Checks-check_constraint_kind ConstraintKind.foreign_key x =
    let filled = is_empty-false x.columns in
    Checks-iff
      (Checks-then (Checks-issue_if _ _ _ _)
        (Checks-then (target_step x.referenced_table_key x refl) (Checks-issue_if _ _ _ _)))
      λ _. (
        λ p. (filled.0 p.0, p.1.0, ground (arith, p.1.1)),
        λ h. (filled.1 h.0, (h.1, ground (arith, h.2))),
      )
Checks-check_constraint_kind ConstraintKind.check x =
    Checks-iff (Checks-issue_if _ _ _ _) λ _. HasText-iff x.expression
Checks-check_constraint_kind ConstraintKind.primary_key x =
    Checks-iff (Checks-then (Checks-issue_if _ _ _ _) (Checks-issue_if _ _ _ _)) λ _. key_lem x
Checks-check_constraint_kind ConstraintKind.unique x =
    Checks-iff (Checks-then (Checks-issue_if _ _ _ _) (Checks-issue_if _ _ _ _)) λ _. key_lem x

pub Checks-check_constraint :
    (alias : Str) (x : ConstraintObject)
    → Checks (check_constraint alias x) (IsValidConstraint alias x)
unfolding check_constraint
Checks-check_constraint alias x =
    let own = has_duplicate_keys-false x.columns in
    let target = has_duplicate_keys-false x.referenced_columns in
    Checks-iff
      (Checks-then (Checks-require_one_of _ _ _) (
        Checks-then (Checks-require_child_of _ _ _) (
          Checks-then (Checks-validate_identity _ _ _ _) (
            Checks-then (Checks-own_columns x.table_key x.key x.columns) (
              Checks-then (Checks-issue_if _ _ _ _) (
                Checks-then (Checks-issue_if _ _ _ _) (
                  Checks-then (Checks-validate_bounded_text _ _ _)
                    (Checks-check_constraint_kind x.kind x))))))))
      λ _. (
        λ (a, (b, (c, (d, (e, (f, (g, h))))))). record {
          owner = a;
          scope = b;
          identity = c;
          own_columns = d;
          distinct = own.0 e;
          distinct_targets = target.0 f;
          bounded = g;
          fits_kind = h;
        },
        λ h. (
          h.owner,
          (
            h.scope,
            (
              h.identity,
              (
                h.own_columns,
                (own.1 h.distinct, (target.1 h.distinct_targets, (h.bounded, h.fits_kind))),
              ),
            ),
          ),
        ),
      )

defined_lem :
    (cols : List ObjectKey) (text : Option Str)
    → (is_empty cols && lacks_text text ≡ false) ↔ (cols ≡ [] → HasText text)
defined_lem [] text = let (there, back) = HasText-iff text in (λ h _. there h, λ h. back (h refl))
defined_lem (c ∷ cols) text = (λ _ e. absurd (ground arith), λ _. refl)

pub Checks-check_index :
    (alias : Str) (x : IndexObject) → Checks (check_index alias x) (IsValidIndex alias x)
unfolding check_index
Checks-check_index alias x =
    let own = has_duplicate_keys-false x.columns in
    let defined = defined_lem x.columns x.expression in
    Checks-iff
      (Checks-then (Checks-require_one_of _ _ _) (
        Checks-then (Checks-require_child_of _ _ _) (
          Checks-then (Checks-validate_identity _ _ _ _) (
            Checks-then (Checks-own_columns x.table_key x.key x.columns) (
              Checks-then (Checks-issue_if _ _ _ _) (
                Checks-then (Checks-issue_if _ _ _ _) (
                  Checks-then (Checks-validate_bounded_text _ _ _)
                    (Checks-validate_bounded_text _ _ _))))))))
      λ _. (
        λ (a, (b, (c, (d, (e, (f, (g, h))))))). record {
          owner = a;
          scope = b;
          identity = c;
          own_columns = d;
          distinct = own.0 e;
          defined = defined.0 f;
          bounded_predicate = g;
          bounded_expression = h;
        },
        λ h. (
          h.owner,
          (
            h.scope,
            (
              h.identity,
              (
                h.own_columns,
                (
                  own.1 h.distinct,
                  (defined.1 h.defined, (h.bounded_predicate, h.bounded_expression)),
                ),
              ),
            ),
          ),
        ),
      )
