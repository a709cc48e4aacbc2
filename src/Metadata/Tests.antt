-- ===== src/Metadata/Tests.antt =====
-- The description of the shop with its metadata.
use rdb_memory_mcp.Base.{◌≡◌, ◌↔◌, [], ◌∷◌, ok}
use rdb_memory_mcp.Metadata.Run.{validate_canonical_schema_snapshot}
use rdb_memory_mcp.Metadata.Spec.{IsCanonical}
use rdb_memory_mcp.Metadata.Whole.{validate_canonical_schema_snapshot_iff}
use rdb_memory_mcp.Metadata.Example.{draws, shop_with}

validate_canonical_schema_snapshot_iff_example :
    (validate_canonical_schema_snapshot (shop_with (draws ∷ [])) ≡ ok tt)
    ↔ IsCanonical (shop_with (draws ∷ []))
validate_canonical_schema_snapshot_iff_example =
    validate_canonical_schema_snapshot_iff (shop_with (draws ∷ []))
