-- ===== src/Snapshot/Canonical.antt =====
-- The records of crates/database-memory-core/src/canonical.rs. An i64 is an integer
-- and a u64 a number, which are only carried.
use rdb_memory_mcp.Base.{
  ℤ, ℕ, ◌≡◌, refl, sym, ap, ◌∙◌, Bool, Option, List, [], ◌∷◌, ◌++◌, Str, codes, str_eq, none, some,
  ◌==◌, if◌then◌else◌,
}
use mathlib.Core.Option
use mathlib.Core.Option.{some-injective}
use rdb_memory_mcp.Key.{ObjectKey}
use rdb_memory_mcp.Snapshot.Objects.{SchemaSnapshot}

pub data MetadataRelationshipKind : Type 0 where
  depends_on uses_type uses_sequence partition_of inherits_from : MetadataRelationshipKind
  synonym_for has_parameter returns_type owned_by materializes : MetadataRelationshipKind
  invokes includes_column excludes_with : MetadataRelationshipKind
  extension : Str → MetadataRelationshipKind

-- `graph_edge_type`.
unfoldable pub graph_edge_type : MetadataRelationshipKind → Str
graph_edge_type depends_on = codes "DEPENDS_ON"
graph_edge_type uses_type = codes "USES_TYPE"
graph_edge_type uses_sequence = codes "USES_SEQUENCE"
graph_edge_type partition_of = codes "PARTITION_OF"
graph_edge_type inherits_from = codes "INHERITS_FROM"
graph_edge_type synonym_for = codes "SYNONYM_FOR"
graph_edge_type has_parameter = codes "HAS_PARAMETER"
graph_edge_type returns_type = codes "RETURNS_TYPE"
graph_edge_type owned_by = codes "OWNED_BY"
graph_edge_type materializes = codes "MATERIALIZES"
graph_edge_type invokes = codes "INVOKES"
graph_edge_type includes_column = codes "INCLUDES_COLUMN"
graph_edge_type excludes_with = codes "EXCLUDES_WITH"
graph_edge_type (extension name) = codes "EXTENSION:" ++ name

pub data MetadataValue : Type 0 where
  boolean : Bool → MetadataValue
  integer : ℤ → MetadataValue
  unsigned : ℕ → MetadataValue
  string : Str → MetadataValue
  string_list : List Str → MetadataValue

pub record MetadataObject : Type 0 where
  pub key : ObjectKey
  pub parent_key : Option ObjectKey
  pub name : Str
  pub extension_kind : Option Str
  pub definition : Option Str
  pub properties : List (Str × MetadataValue)

pub record ObjectAnnotation : Type 0 where
  pub object_key : ObjectKey
  pub definition : Option Str
  pub properties : List (Str × MetadataValue)

pub record MetadataRelationship : Type 0 where
  pub kind : MetadataRelationshipKind
  pub from_key : ObjectKey
  pub to_key : ObjectKey
  pub ordinal : Option ℕ
  pub properties : List (Str × MetadataValue)

pub record CanonicalMetadata : Type 0 where
  pub objects : List MetadataObject
  pub annotations : List ObjectAnnotation
  pub relationships : List MetadataRelationship

pub record CanonicalSchemaSnapshot : Type 0 where
  pub schema : SchemaSnapshot
  pub metadata : CanonicalMetadata

abbrev type_arms : List (Str × MetadataRelationshipKind)
type_arms =
    (codes "DEPENDS_ON", depends_on)
    ∷ (codes "USES_TYPE", uses_type)
    ∷ (codes "USES_SEQUENCE", uses_sequence)
    ∷ (codes "PARTITION_OF", partition_of)
    ∷ (codes "INHERITS_FROM", inherits_from)
    ∷ (codes "SYNONYM_FOR", synonym_for)
    ∷ (codes "HAS_PARAMETER", has_parameter)
    ∷ (codes "RETURNS_TYPE", returns_type)
    ∷ (codes "OWNED_BY", owned_by)
    ∷ (codes "MATERIALIZES", materializes)
    ∷ (codes "INVOKES", invokes)
    ∷ (codes "INCLUDES_COLUMN", includes_column)
    ∷ (codes "EXCLUDES_WITH", excludes_with)
    ∷ []

unfoldable strip_prefix : Str → Str → Option Str
strip_prefix [] s = some s
strip_prefix (x ∷ p) [] = none
strip_prefix (x ∷ p) (y ∷ s) = let rest = strip_prefix p s in if x == y then rest else none

-- A reader of edge types.
unfoldable read_edge_type :
    List (Str × MetadataRelationshipKind) → Str → Option MetadataRelationshipKind
unfolding strip_prefix
read_edge_type [] s = Option.map extension (strip_prefix (codes "EXTENSION:") s)
read_edge_type ((literal, kind) ∷ arms) s =
    let rest = read_edge_type arms s in if str_eq s literal then some kind else rest

read_edge_type-graph_edge_type :
    (k : MetadataRelationshipKind) → read_edge_type type_arms (graph_edge_type k) ≡ some k
unfolding graph_edge_type read_edge_type strip_prefix str_eq
read_edge_type-graph_edge_type depends_on = refl
read_edge_type-graph_edge_type (extension name) = refl
read_edge_type-graph_edge_type _ = refl

-- No two kinds of relationship share an edge type, extensions included.
pub graph_edge_type-injective :
    (k k' : MetadataRelationshipKind) → graph_edge_type k ≡ graph_edge_type k' → k ≡ k'
graph_edge_type-injective k k' h = some-injective _ _ (
    sym (read_edge_type-graph_edge_type k)
    ∙ ap (read_edge_type type_arms) h
    ∙ read_edge_type-graph_edge_type k')
