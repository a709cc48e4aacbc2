-- ===== src/Metadata/Example.antt =====
-- The shop with a sequence that a column draws from and an annotated table, for the tests.
use rdb_memory_mcp.Base.{none, some, List, [], ◌∷◌, codes}
use rdb_memory_mcp.Key.{ObjectKind}
use rdb_memory_mcp.Snapshot.Canonical.{
  CanonicalSchemaSnapshot, MetadataObject, MetadataRelationship, MetadataRelationshipKind,
  MetadataValue,
}
use rdb_memory_mcp.Validation.Example.{key, users, shop}

abbrev pub numbers : MetadataObject
numbers = record {
  key = key ObjectKind.sequence (codes "q") none;
  parent_key = some (key ObjectKind.schema (codes "m") none);
  name = codes "q";
  extension_kind = none;
  definition = none;
  properties = (codes "step", MetadataValue.unsigned 1) ∷ [];
}

abbrev pub draws : MetadataRelationship
draws = record {
  kind = MetadataRelationshipKind.uses_sequence;
  from_key = key ObjectKind.column (codes "u") (some (codes "i"));
  to_key = numbers.key;
  ordinal = none;
  properties = [];
}

abbrev pub shop_with : List MetadataRelationship → CanonicalSchemaSnapshot
shop_with relationships = record {
  schema = shop;
  metadata = record {
    objects = numbers ∷ [];
    annotations =
        record { object_key = users; definition = some (codes "people"); properties = [] } ∷ [];
    relationships = relationships;
  };
}
