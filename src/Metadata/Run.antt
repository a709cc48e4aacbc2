-- ===== src/Metadata/Run.antt =====
-- `validate_canonical_schema_snapshot` and its checks, in the order of the source.
use rdb_memory_mcp.Base.{
  is_some, ℕ, Bool, true, false, not, ◌&&◌, ◌||◌, Option, none, some, List, [], ◌∷◌, ◌++◌, map, Str,
  codes, str_eq, is_blank, byte_length, has_control, get, insert, member, any, is_empty, length,
  leb, ltb, ◌==◌, report, gather, Result, ok_if_empty, errors_of, if◌then◌else◌,
}
use rdb_memory_mcp.Key.{ObjectKey, ObjectKind, display_kind, display_key}
use rdb_memory_mcp.Snapshot.Objects.{SchemaSnapshot}
use rdb_memory_mcp.Snapshot.Canonical.{
  CanonicalSchemaSnapshot, MetadataObject, MetadataValue, MetadataRelationship,
  MetadataRelationshipKind, ObjectAnnotation, graph_edge_type,
}
use rdb_memory_mcp.Snapshot.Equality.{equal, MetadataRelationshipKind-discrete}
use rdb_memory_mcp.Validation.State.{SnapshotValidationIssue, kind_eq}
use rdb_memory_mcp.Validation.Run.{validate_schema_snapshot}
use rdb_memory_mcp.Metadata.Kinds.{
  is_canonical_metadata_kind, expected_parents, endpoints_fit, one_of,
}

abbrev pub Issues : Type 0
Issues = List SnapshotValidationIssue

-- The map of the stable keys.
abbrev pub Keys : Type 0
Keys = List (Str × ObjectKey)

-- `push_issue`.
abbrev pub push_issue : Str → Str → Str → SnapshotValidationIssue
push_issue code subject message = record { code = code; object_key = subject; message = message }

abbrev pub max_definition_bytes : ℕ
max_definition_bytes = 1048576

abbrev pub max_properties_per_item : ℕ
max_properties_per_item = 256

abbrev pub max_property_key_bytes : ℕ
max_property_key_bytes = 256

abbrev pub max_property_string_bytes : ℕ
max_property_string_bytes = 65536

abbrev pub max_property_list_items : ℕ
max_property_list_items = 4096

-- `register`: an older entry stays.
unfoldable pub register_key : Keys → ObjectKey → Keys
register_key keys key =
    if is_some (get (display_key key) keys) then keys else insert (display_key key) key keys

unfoldable pub register_keys : Keys → List ObjectKey → Keys
register_keys keys [] = keys
register_keys keys (k ∷ ks) = register_keys (register_key keys k) ks

abbrev pub base_keys : SchemaSnapshot → List ObjectKey
base_keys s =
    s.database.key
    ∷ (map (λ o. o.key) s.schemas
        ++ (map (λ o. o.key) s.tables
            ++ (map (λ o. o.key) s.columns
                ++ (map (λ o. o.key) s.constraints
                    ++ (map (λ o. o.key) s.indexes
                        ++ (map (λ o. o.key) s.views
                            ++ (map (λ o. o.key) s.triggers ++ map (λ o. o.key) s.routines)))))))

unfoldable pub base_object_keys : CanonicalSchemaSnapshot → Keys
base_object_keys snapshot = register_keys [] (base_keys snapshot.schema)

unfoldable pub valid_extension_name : Str → Bool
valid_extension_name value =
    not (is_blank value)
    && (leb (byte_length value) max_property_key_bytes && not (has_control value))

-- The match on the kind of the object and the name of its extension.
unfoldable pub extension_issues : Bool → Option Str → Str → Issues
extension_issues true (some name) subject = report (not (valid_extension_name name)) (
    push_issue (codes "extension_kind_invalid") subject
      (codes "vendor extension objects require a bounded non-control extension kind"))
extension_issues true none subject =
    push_issue (codes "extension_kind_invalid") subject
      (codes "vendor extension objects require a bounded non-control extension kind")
    ∷ []
extension_issues false name subject = report (is_some name) (
    push_issue (codes "extension_kind_unexpected") subject
      (codes "standard metadata objects must not declare an extension kind"))

unfoldable pub validate_extension_identity : SchemaSnapshot → MetadataObject → Issues
validate_extension_identity s o =
    let subject = display_key o.key in
    report (not (is_canonical_metadata_kind o.key.object_kind)) (
      push_issue (codes "metadata_object_kind_invalid") subject
        (codes "typed legacy objects must stay in the canonical schema collections"))
    ++ (report
          (not (str_eq o.key.source_kind s.database.key.source_kind)
            || not (str_eq o.key.connection_alias s.connection_alias))
          (push_issue (codes "metadata_source_mismatch") subject
            (codes "metadata object source and alias must match the snapshot"))
        ++ (report (not (str_eq o.key.database s.database.key.database)) (
              push_issue (codes "metadata_database_mismatch") subject
                (codes "metadata object database must match the snapshot database"))
            ++ (report (is_blank o.name) (
                  push_issue (codes "metadata_name_missing") subject
                    (codes "metadata object name must not be empty"))
                ++ extension_issues (kind_eq o.key.object_kind ObjectKind.extension)
                    o.extension_kind subject)))

abbrev pub too_large : Option Str → Bool
too_large none = false
too_large (some definition) = ltb max_definition_bytes (byte_length definition)

unfoldable pub validate_definition : Str → Option Str → Issues
validate_definition subject definition = report (too_large definition) (
    push_issue (codes "definition_too_large") subject
      (codes "metadata definition exceeds the canonical size limit"))

abbrev pub value_too_large : MetadataValue → Bool
value_too_large (MetadataValue.string value) = ltb max_property_string_bytes (byte_length value)
value_too_large (MetadataValue.string_list values) =
    ltb max_property_list_items (length values)
    || any (λ value. ltb max_property_string_bytes (byte_length value)) values
value_too_large _ = false

abbrev pub value_message : MetadataValue → Str
value_message (MetadataValue.string_list values) =
    codes "metadata list property exceeds the canonical size limit"
value_message _ = codes "metadata string property exceeds the canonical size limit"

unfoldable pub validate_property : Str → Str × MetadataValue → Issues
validate_property subject (name, value) =
    report (is_blank name || (ltb max_property_key_bytes (byte_length name) || has_control name)) (
      push_issue (codes "property_name_invalid") subject
        (codes "metadata property names must be bounded and contain no controls"))
    ++ report (value_too_large value)
        (push_issue (codes "property_value_too_large") subject (value_message value))

unfoldable pub validate_properties : Str → List (Str × MetadataValue) → Issues
validate_properties subject properties =
    report (ltb max_properties_per_item (length properties)) (
      push_issue (codes "too_many_properties") subject
        (codes "metadata item exceeds the canonical property count limit"))
    ++ gather (validate_property subject) properties

-- The loop that registers the metadata objects: the keys behind it, and its issues.
unfoldable pub all_keys : Keys → List MetadataObject → Keys
all_keys keys [] = keys
all_keys keys (o ∷ os) = all_keys (insert (display_key o.key) o.key keys) os

unfoldable pub object_issues : SchemaSnapshot → Keys → List MetadataObject → Issues
object_issues s keys [] = []
object_issues s keys (o ∷ os) =
    let subject = display_key o.key in
    report (is_some (get subject keys))
      (push_issue (codes "duplicate_object_key") subject (codes "stable object key is duplicated"))
    ++ (validate_extension_identity s o
        ++ (validate_definition subject o.definition
            ++ (validate_properties subject o.properties
                ++ object_issues s (insert subject o.key keys) os)))

unfoldable pub require_key : Keys → ObjectKey → Str → Issues
require_key keys target subject = report (not (is_some (get (display_key target) keys))) (
    push_issue (codes "relationship_target_missing") subject (
      codes "relationship target "
      ++ (display_key target ++ codes " is not present in the snapshot")))

unfoldable pub require_same_scope : ObjectKey → ObjectKey → Str → Issues
require_same_scope child parent subject =
    report
      (not (str_eq child.source_kind parent.source_kind)
        || (not (str_eq child.connection_alias parent.connection_alias)
            || not (str_eq child.database parent.database)))
      (push_issue (codes "metadata_parent_scope_mismatch") subject
        (codes "metadata object and parent must belong to the same source and database"))

abbrev or_list : List ObjectKind → Str
or_list [] = []
or_list (k ∷ []) = display_kind k
or_list (k ∷ j ∷ ks) = display_kind k ++ (codes " or " ++ or_list (j ∷ ks))

-- Whether the parent that is found has a kind that is not expected.
abbrev pub wrong_parent : Option (List ObjectKind) → Option ObjectKey → Bool
wrong_parent (some kinds) (some actual) = not (one_of kinds actual.object_kind)
wrong_parent _ _ = false

abbrev wrong_parent_message : Option (List ObjectKind) → Option ObjectKey → Str
wrong_parent_message (some kinds) (some actual) =
    codes "metadata parent has kind "
    ++ (display_kind actual.object_kind ++ (codes ", expected " ++ or_list kinds))
wrong_parent_message _ _ = []

unfoldable pub require_metadata_parent_kind : Keys → ObjectKind → ObjectKey → Str → Issues
require_metadata_parent_kind keys child_kind parent subject =
    let expected = expected_parents child_kind in
    let actual = get (display_key parent) keys in
    report (wrong_parent expected actual) (
      push_issue (codes "metadata_parent_kind_mismatch") subject
        (wrong_parent_message expected actual))

-- `match &object.parent_key`.
unfoldable pub parent_issues_of : Keys → MetadataObject → Option ObjectKey → Issues
parent_issues_of keys o (some parent) =
    require_key keys parent (display_key o.key)
    ++ (require_same_scope o.key parent (display_key o.key)
        ++ require_metadata_parent_kind keys o.key.object_kind parent (display_key o.key))
parent_issues_of keys o none =
    push_issue (codes "metadata_parent_missing") (display_key o.key)
      (codes "canonical metadata objects require an explicit parent")
    ∷ []

abbrev pub parent_issues : Keys → MetadataObject → Issues
parent_issues keys o = parent_issues_of keys o o.parent_key

-- The loop over the annotations, with the set of those met.
unfoldable pub validate_annotations : Keys → List Str → List ObjectAnnotation → Issues
validate_annotations keys annotated [] = []
validate_annotations keys annotated (a ∷ rest) =
    let subject = display_key a.object_key in
    require_key keys a.object_key subject
    ++ (report (member str_eq subject annotated) (
          push_issue (codes "duplicate_object_annotation") subject
            (codes "an object may have only one canonical annotation"))
        ++ (report (not (is_some a.definition) && is_empty a.properties) (
              push_issue (codes "empty_object_annotation") subject
                (codes "annotation must contain a definition or properties"))
            ++ (validate_definition subject a.definition
                ++ (validate_properties subject a.properties
                    ++ validate_annotations keys (subject ∷ annotated) rest))))

abbrev pub misfit : MetadataRelationshipKind → Option ObjectKey → Option ObjectKey → Bool
misfit kind (some from) (some to) = not (endpoints_fit kind from.object_kind to.object_kind)
misfit kind _ _ = false

unfoldable pub validate_relationship_endpoint_kinds : Keys → MetadataRelationship → Str → Issues
validate_relationship_endpoint_kinds keys r subject =
    report (misfit r.kind (get (display_key r.from_key) keys) (get (display_key r.to_key) keys)) (
      push_issue (codes "metadata_relationship_kind_mismatch") subject
        (codes "relationship endpoint object kinds do not match the canonical relation"))

abbrev pub is_zero : Option ℕ → Bool
is_zero none = false
is_zero (some n) = n == 0

abbrev pub bad_extension : MetadataRelationshipKind → Bool
bad_extension (MetadataRelationshipKind.extension name) = not (valid_extension_name name)
bad_extension _ = false

-- What tells relationships apart.
abbrev pub Identity : Type 0
Identity = MetadataRelationshipKind × Str × Str × Option ℕ

abbrev pub identity_of : MetadataRelationship → Identity
identity_of r = (r.kind, display_key r.from_key, display_key r.to_key, r.ordinal)

abbrev pub ordinal_eq : Option ℕ → Option ℕ → Bool
ordinal_eq none none = true
ordinal_eq (some a) (some b) = a == b
ordinal_eq _ _ = false

abbrev pub identity_eq : Identity → Identity → Bool
identity_eq a b =
    equal MetadataRelationshipKind-discrete a.0 b.0
    && (str_eq a.1 b.1 && (str_eq a.2 b.2 && ordinal_eq a.3 b.3))

abbrev pub relationship_subject : MetadataRelationship → Str
relationship_subject r =
    graph_edge_type r.kind
    ++ (codes ":" ++ (display_key r.from_key ++ (codes "->" ++ display_key r.to_key)))

-- The loop over the relationships, with the set of those met.
unfoldable pub validate_relationships : Keys → List Identity → List MetadataRelationship → Issues
validate_relationships keys met [] = []
validate_relationships keys met (r ∷ rest) =
    let subject = relationship_subject r in
    require_key keys r.from_key subject
    ++ (require_key keys r.to_key subject
        ++ (validate_relationship_endpoint_kinds keys r subject
            ++ (report (is_zero r.ordinal) (
                  push_issue (codes "relationship_ordinal_invalid") subject
                    (codes "relationship ordinal must be at least 1"))
                ++ (report (bad_extension r.kind) (
                      push_issue (codes "extension_relationship_invalid") subject
                        (codes "vendor relationship names must be bounded and contain no controls"))
                    ++ (report (member identity_eq (identity_of r) met) (
                          push_issue (codes "duplicate_metadata_relationship") subject
                            (codes "canonical metadata relationship is duplicated"))
                        ++ (validate_properties subject r.properties
                            ++ validate_relationships keys (identity_of r ∷ met) rest))))))

unfoldable pub canonical_issues : CanonicalSchemaSnapshot → Issues
canonical_issues snapshot =
    let base = base_object_keys snapshot in
    let keys = all_keys base snapshot.metadata.objects in
    errors_of (validate_schema_snapshot snapshot.schema)
    ++ (object_issues snapshot.schema base snapshot.metadata.objects
        ++ (gather (parent_issues keys) snapshot.metadata.objects
            ++ (validate_annotations keys [] snapshot.metadata.annotations
                ++ validate_relationships keys [] snapshot.metadata.relationships)))

unfoldable pub validate_canonical_schema_snapshot :
    CanonicalSchemaSnapshot → Result Issues (Unit {0})
validate_canonical_schema_snapshot snapshot = ok_if_empty (canonical_issues snapshot)
