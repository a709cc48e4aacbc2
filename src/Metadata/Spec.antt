-- ===== src/Metadata/Spec.antt =====
-- What valid metadata is. `keys` is the map of all stable keys, of the schema and the metadata.
use rdb_memory_mcp.Base.{
  IsBoundedText, ◌≡◌, ◌≤◌, ◌≢◌, Bool, true, false, ◌⊎◌, Option, none, some, List, [], map, Str,
  is_blank, byte_length, get, length, All, Distinct,
}
use rdb_memory_mcp.Key.{ObjectKey, ObjectKind, display_key}
use rdb_memory_mcp.Snapshot.Objects.{SchemaSnapshot}
use rdb_memory_mcp.Snapshot.Canonical.{
  CanonicalSchemaSnapshot, MetadataObject, MetadataValue, MetadataRelationship,
  MetadataRelationshipKind, ObjectAnnotation,
}
use rdb_memory_mcp.Validation.Primitive.{Refers}
use rdb_memory_mcp.Validation.Spec.{IsValid}
use rdb_memory_mcp.Metadata.Kinds.{
  is_canonical_metadata_kind, expected_parents, endpoints_fit, one_of,
}
use rdb_memory_mcp.Validation.State.{kind_eq}
use rdb_memory_mcp.Metadata.Run.{Keys, identity_of, base_object_keys, all_keys}

-- A name of at most 256 bytes, not blank and without control characters.
abbrev pub IsName : Str → Type 0
IsName s = IsBoundedText 256 s

abbrev pub FitsDefinition : Option Str → Type 0
FitsDefinition none = Unit
FitsDefinition (some text) = byte_length text ≤ 1048576

abbrev pub FitsValue : MetadataValue → Type 0
FitsValue (MetadataValue.string value) = byte_length value ≤ 65536
FitsValue (MetadataValue.string_list values) =
    (length values ≤ 4096) × All (λ value. byte_length value ≤ 65536) values
FitsValue _ = Unit

abbrev pub FitsProperties : List (Str × MetadataValue) → Type 0
FitsProperties properties =
    (length properties ≤ 256) × All (λ p. IsName p.0 × FitsValue p.1) properties

-- An extension has a name for its kind, and nothing else has one.
abbrev pub NamesExtension : Bool → Option Str → Type 0
NamesExtension true none = ⊥
NamesExtension true (some name) = IsName name
NamesExtension false none = Unit
NamesExtension false (some name) = ⊥

pub record IsMetadataObject (s : SchemaSnapshot) (o : MetadataObject) : Type 0 where
  pub kind : is_canonical_metadata_kind o.key.object_kind ≡ true
  pub same_source : o.key.source_kind ≡ s.database.key.source_kind
  pub same_alias : o.key.connection_alias ≡ s.connection_alias
  pub same_database : o.key.database ≡ s.database.key.database
  pub named : is_blank o.name ≡ false
  pub extension : NamesExtension (kind_eq o.key.object_kind ObjectKind.extension) o.extension_kind
  pub definition : FitsDefinition o.definition
  pub properties : FitsProperties o.properties

-- The kind of a parent that is found is one of those expected, where some are.
abbrev pub FitsParent : Option (List ObjectKind) → Option ObjectKey → Type 0
FitsParent (some kinds) (some actual) = one_of kinds actual.object_kind ≡ true
FitsParent _ _ = Unit

pub record IsParent (keys : Keys) (o : MetadataObject) (parent : ObjectKey) : Type 0 where
  pub present : Refers keys parent
  pub same_source : o.key.source_kind ≡ parent.source_kind
  pub same_alias : o.key.connection_alias ≡ parent.connection_alias
  pub same_database : o.key.database ≡ parent.database
  pub fits : FitsParent (expected_parents o.key.object_kind) (get (display_key parent) keys)

abbrev pub HasParent : Keys → MetadataObject → Option ObjectKey → Type 0
HasParent keys o none = ⊥
HasParent keys o (some parent) = IsParent keys o parent

pub record IsAnnotation (keys : Keys) (a : ObjectAnnotation) : Type 0 where
  pub present : Refers keys a.object_key
  pub says : (a.definition ≢ none) ⊎ (a.properties ≢ [])
  pub definition : FitsDefinition a.definition
  pub properties : FitsProperties a.properties

-- The kinds of the two ends that are found fit the kind of the relationship.
abbrev pub FitsEnds : MetadataRelationshipKind → Option ObjectKey → Option ObjectKey → Type 0
FitsEnds kind (some from) (some to) = endpoints_fit kind from.object_kind to.object_kind ≡ true
FitsEnds kind _ _ = Unit

abbrev pub NamesRelation : MetadataRelationshipKind → Type 0
NamesRelation (MetadataRelationshipKind.extension name) = IsName name
NamesRelation _ = Unit

pub record IsRelationship (keys : Keys) (r : MetadataRelationship) : Type 0 where
  pub has_from : Refers keys r.from_key
  pub has_to : Refers keys r.to_key
  pub fits : FitsEnds r.kind (get (display_key r.from_key) keys) (get (display_key r.to_key) keys)
  pub from_one : r.ordinal ≢ some 0
  pub named : NamesRelation r.kind
  pub properties : FitsProperties r.properties

abbrev pub object_keys : List MetadataObject → List Str
object_keys objects = map (λ o. display_key o.key) objects

abbrev pub annotation_keys : List ObjectAnnotation → List Str
annotation_keys annotations = map (λ a. display_key a.object_key) annotations

-- The map of all keys.
abbrev pub keys_of : CanonicalSchemaSnapshot → Keys
keys_of c = all_keys (base_object_keys c) c.metadata.objects

pub record IsCanonical (c : CanonicalSchemaSnapshot) : Type 0 where
  pub schema : IsValid c.schema
  pub new : All (λ k. get k (base_object_keys c) ≡ none) (object_keys c.metadata.objects)
  pub distinct : Distinct (object_keys c.metadata.objects)
  pub objects : All (λ o. IsMetadataObject c.schema o) c.metadata.objects
  pub parents : All (λ o. HasParent (keys_of c) o o.parent_key) c.metadata.objects
  pub annotations : All (λ a. IsAnnotation (keys_of c) a) c.metadata.annotations
  pub annotated_once : Distinct (annotation_keys c.metadata.annotations)
  pub relationships : All (λ r. IsRelationship (keys_of c) r) c.metadata.relationships
  pub related_once : Distinct (map identity_of c.metadata.relationships)
