-- ===== src/Metadata/Whole.antt =====
-- The validation of a canonical snapshot accepts exactly the canonical snapshots.
use rdb_memory_mcp.Base.{
  ◌≡◌, ◌↔◌, sym, [], ok, both_nil, gather-nil, iff_trans, ◌∙◌, if_empty, errors_of,
  errors_of-ok_if_empty,
}
use rdb_memory_mcp.Snapshot.Canonical.{CanonicalSchemaSnapshot}
use rdb_memory_mcp.Snapshot.Objects.{SchemaSnapshot}
use rdb_memory_mcp.Validation.Run.{validator_of, validate_schema_snapshot}
use rdb_memory_mcp.Validation.Spec.{IsValid}
use rdb_memory_mcp.Validation.Whole.{issues-validator_of}
use rdb_memory_mcp.Metadata.Run.{
  parent_issues, canonical_issues, base_object_keys, validate_canonical_schema_snapshot,
}
use rdb_memory_mcp.Metadata.Spec.{IsCanonical, keys_of}
use rdb_memory_mcp.Metadata.Correct.{parent_issues_iff}
use rdb_memory_mcp.Metadata.Loops.{
  object_issues_iff, validate_annotations_iff, validate_relationships_iff,
}

schema_issues_iff : (s : SchemaSnapshot) → (errors_of (validate_schema_snapshot s) ≡ []) ↔ IsValid s
unfolding validate_schema_snapshot
schema_issues_iff s =
    let same = errors_of-ok_if_empty (validator_of s).issues in
    let (there, back) = issues-validator_of s in (λ h. there (sym same ∙ h), λ v. same ∙ back v)

pub canonical_issues_iff : (c : CanonicalSchemaSnapshot) → (canonical_issues c ≡ []) ↔ IsCanonical c
unfolding canonical_issues
canonical_issues_iff c =
    iff_trans
      (both_nil (schema_issues_iff c.schema) (
        both_nil (object_issues_iff c.schema (base_object_keys c) c.metadata.objects) (
          both_nil
            (gather-nil (parent_issues (keys_of c))
              (λ o. parent_issues_iff (keys_of c) o o.parent_key) c.metadata.objects)
            (both_nil (validate_annotations_iff (keys_of c) c.metadata.annotations)
              (validate_relationships_iff (keys_of c) c.metadata.relationships)))))
      (
        λ (a, ((b, (d, e)), (f, ((g, h), (i, j))))). record {
          schema = a;
          new = b;
          distinct = d;
          objects = e;
          parents = f;
          annotations = g;
          annotated_once = h;
          relationships = i;
          related_once = j;
        },
        λ v. (
          v.schema,
          (
            (v.new, (v.distinct, v.objects)),
            (v.parents, ((v.annotations, v.annotated_once), (v.relationships, v.related_once))),
          ),
        ),
      )

-- The validation succeeds exactly for a canonical snapshot: its schema is valid, the metadata
-- objects have new and different keys, each has a kind of its own, the scope of the snapshot, a
-- name and bounded contents, and a parent in its scope of a kind that may hold it, each annotation
-- is of a known object that has no other, and each relationship joins known objects of kinds that
-- fit, counts from one, and occurs once.
pub validate_canonical_schema_snapshot_iff :
    (c : CanonicalSchemaSnapshot) → (validate_canonical_schema_snapshot c ≡ ok tt) ↔ IsCanonical c
unfolding validate_canonical_schema_snapshot
validate_canonical_schema_snapshot_iff c =
    iff_trans (if_empty (canonical_issues c)) (canonical_issues_iff c)
