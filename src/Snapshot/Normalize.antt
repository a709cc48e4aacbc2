-- ===== src/Snapshot/Normalize.antt =====
-- `normalize_canonical_snapshot` of canonical.rs: every collection in the order of its keys.
pub mod Laws
use Prim.Native.Nat.{compare, Ordering}
use Prim.Native.Nat.Ordering.{lt, eq, gt}
use rdb_memory_mcp.Base.{
  ℕ, ◌≡◌, refl, ap, ◌∙◌, sym, Bool, true, false, Option, none, some, List, [], ◌∷◌, map, Str,
  str_cmp, eq_of_str_cmp, str_cmp_refl, str_eq, str_eq_iff, sort_by, sort_by_idempotent, dedup,
  dedup-sort_by_idempotent, arith,
}
use rdb_memory_mcp.Key.{ObjectKey, display_key}
use rdb_memory_mcp.Snapshot.Objects.{
  SchemaSnapshot, ViewObject, TriggerObject, RoutineObject, AdapterCapabilities,
}
use rdb_memory_mcp.Snapshot.Canonical.{
  CanonicalSchemaSnapshot, CanonicalMetadata, MetadataRelationship, MetadataRelationshipKind,
}
use rdb_memory_mcp.Snapshot.Equality.{equal, equal_iff, ObjectKey-discrete}

abbrev pub is_gt : Ordering → Bool
is_gt gt = true
is_gt _ = false

-- Whether the first text comes after the second.
unfoldable pub str_after : Str → Str → Bool
str_after a b = is_gt (str_cmp a b)

-- The order of `sort_by_key(|item| item.key.to_string())`.
unfoldable pub key_after {ℓ} : {A : Type ℓ} → (A → ObjectKey) → A → A → Bool
key_after key a b = str_after (display_key (key a)) (display_key (key b))

abbrev pub sort_by_key {ℓ} : {A : Type ℓ} → (A → ObjectKey) → List A → List A
sort_by_key key = sort_by (key_after key)

abbrev pub key_eq : ObjectKey → ObjectKey → Bool
key_eq = equal ObjectKey-discrete

-- Sorted keys without repetitions, and sorted texts.
abbrev pub canonical_keys : List ObjectKey → List ObjectKey
canonical_keys keys = dedup key_eq (sort_by_key (λ key. key) keys)

abbrev pub canonical_texts : List Str → List Str
canonical_texts texts = dedup str_eq (sort_by str_after texts)

-- The derived order of `MetadataRelationshipKind`: by the place of the variant, then by the name.
abbrev pub variant_index : MetadataRelationshipKind → ℕ
variant_index MetadataRelationshipKind.depends_on = 0
variant_index MetadataRelationshipKind.uses_type = 1
variant_index MetadataRelationshipKind.uses_sequence = 2
variant_index MetadataRelationshipKind.partition_of = 3
variant_index MetadataRelationshipKind.inherits_from = 4
variant_index MetadataRelationshipKind.synonym_for = 5
variant_index MetadataRelationshipKind.has_parameter = 6
variant_index MetadataRelationshipKind.returns_type = 7
variant_index MetadataRelationshipKind.owned_by = 8
variant_index MetadataRelationshipKind.materializes = 9
variant_index MetadataRelationshipKind.invokes = 10
variant_index MetadataRelationshipKind.includes_column = 11
variant_index MetadataRelationshipKind.excludes_with = 12
variant_index (MetadataRelationshipKind.extension _) = 13

abbrev pub variant_name : MetadataRelationshipKind → Str
variant_name (MetadataRelationshipKind.extension name) = name
variant_name _ = []

-- `a.cmp(b).then(next)`.
abbrev pub then_cmp : Ordering → Ordering → Ordering
then_cmp lt next = lt
then_cmp eq next = next
then_cmp gt next = gt

abbrev pub ordinal_cmp : Option ℕ → Option ℕ → Ordering
ordinal_cmp none none = eq
ordinal_cmp none (some _) = lt
ordinal_cmp (some _) none = gt
ordinal_cmp (some a) (some b) = compare a b

unfoldable pub relationship_cmp : MetadataRelationship → MetadataRelationship → Ordering
relationship_cmp a b = then_cmp (compare (variant_index a.kind) (variant_index b.kind)) (
    then_cmp (str_cmp (variant_name a.kind) (variant_name b.kind)) (
      then_cmp (str_cmp (display_key a.from_key) (display_key b.from_key)) (
        then_cmp (str_cmp (display_key a.to_key) (display_key b.to_key))
          (ordinal_cmp a.ordinal b.ordinal))))

unfoldable pub relationship_after : MetadataRelationship → MetadataRelationship → Bool
relationship_after a b = is_gt (relationship_cmp a b)

abbrev pub normalize_view : ViewObject → ViewObject
normalize_view x = record x { depends_on = canonical_keys x.depends_on }

abbrev pub normalize_trigger : TriggerObject → TriggerObject
normalize_trigger x = record x { events = canonical_texts x.events }

abbrev pub normalize_routine : RoutineObject → RoutineObject
normalize_routine x = record x { depends_on = canonical_keys x.depends_on }

abbrev pub normalize_capabilities : AdapterCapabilities → AdapterCapabilities
normalize_capabilities c = record c {
  notes = canonical_texts c.notes;
  limitations = canonical_texts c.limitations;
}

abbrev pub normalize_schema : SchemaSnapshot → SchemaSnapshot
normalize_schema s = record s {
  schemas = sort_by_key (λ x. x.key) s.schemas;
  tables = sort_by_key (λ x. x.key) s.tables;
  columns = sort_by_key (λ x. x.key) s.columns;
  constraints = sort_by_key (λ x. x.key) s.constraints;
  indexes = sort_by_key (λ x. x.key) s.indexes;
  views = map normalize_view (sort_by_key (λ x. x.key) s.views);
  triggers = map normalize_trigger (sort_by_key (λ x. x.key) s.triggers);
  routines = map normalize_routine (sort_by_key (λ x. x.key) s.routines);
  capabilities = normalize_capabilities s.capabilities;
}

abbrev pub normalize_metadata : CanonicalMetadata → CanonicalMetadata
normalize_metadata m = record {
  objects = sort_by_key (λ x. x.key) m.objects;
  annotations = sort_by_key (λ x. x.object_key) m.annotations;
  relationships = sort_by relationship_after m.relationships;
}

unfoldable pub normalize_canonical_snapshot : CanonicalSchemaSnapshot → CanonicalSchemaSnapshot
normalize_canonical_snapshot snapshot = record {
  schema = normalize_schema snapshot.schema;
  metadata = normalize_metadata snapshot.metadata;
}
