-- ===== src/Certification/Tests.antt =====
-- The certificate of the shop.
use rdb_memory_mcp.Base.{◌+◌, ◌≡◌, ◌↔◌, false, ok, length}
use rdb_memory_mcp.Snapshot.Normalize.{normalize_canonical_snapshot}
use rdb_memory_mcp.Snapshot.Normalize.Laws.{normalize_canonical_snapshot_idempotent}
use rdb_memory_mcp.Validation.Registry.{entries}
use rdb_memory_mcp.Certification.Counts.{emitted_object_counts}
use rdb_memory_mcp.Certification.Certify.{certify_schema_snapshot, verify_certified_schema_snapshot}
use rdb_memory_mcp.Certification.Spec.{IsCertified}
use rdb_memory_mcp.Certification.Whole.{verify_certified_schema_snapshot_iff}
use rdb_memory_mcp.Certification.Issued.{Certifiable, certificate, certify_schema_snapshot_iff}
use rdb_memory_mcp.Certification.Totals.{total, emitted_object_counts-total}
use rdb_memory_mcp.Certification.Analysis.{
  certification, IssuesCertificate, analyze_with_cancellation-certifies,
}
use rdb_memory_mcp.Service.Lifecycle.{
  CatalogDiscovery, complete, Checkpoint, analyze_with_cancellation,
}
use rdb_memory_mcp.Service.Stages.{IsValidRequest}
use rdb_memory_mcp.Certification.Sample.{plain, finder, asked, quiet}
use rdb_memory_mcp.Certification.Accepted.{
  store, adapter, server, scope, checks, discovered, unary, shop_certificate,
}

normalize_canonical_snapshot_idempotent_example :
    normalize_canonical_snapshot (normalize_canonical_snapshot store)
    ≡ normalize_canonical_snapshot store
normalize_canonical_snapshot_idempotent_example = normalize_canonical_snapshot_idempotent store

verify_certified_schema_snapshot_iff_example :
    (verify_certified_schema_snapshot unary shop_certificate ≡ ok tt) ↔ IsCertified shop_certificate
verify_certified_schema_snapshot_iff_example =
    verify_certified_schema_snapshot_iff unary shop_certificate

certify_schema_snapshot_iff_example :
    (certify_schema_snapshot unary adapter server discovered store scope checks
      ≡ ok shop_certificate)
    ↔ (Certifiable unary adapter server discovered store scope checks
        × (certificate unary adapter server discovered store scope checks ≡ shop_certificate))
certify_schema_snapshot_iff_example =
    certify_schema_snapshot_iff unary adapter server discovered store scope checks shop_certificate

emitted_object_counts-total_example :
    total (emitted_object_counts store)
    ≡ length (entries store.schema) + length store.metadata.objects
emitted_object_counts-total_example = emitted_object_counts-total store

analyze_with_cancellation-certifies_example :
    ((analyze_with_cancellation plain (certification unary) unary finder quiet asked 0).0
      ≡ complete shop_certificate)
    ↔ (IsValidRequest asked
        × (quiet Checkpoint.before_adapter ≡ false)
        × (quiet Checkpoint.after_adapter ≡ false)
        × (quiet Checkpoint.after_certification ≡ false)
        × ((d : CatalogDiscovery) × ((finder.discover_with_cancellation quiet asked 0).0 ≡ ok d)
            × IssuesCertificate unary d shop_certificate))
analyze_with_cancellation-certifies_example =
    analyze_with_cancellation-certifies plain unary finder quiet asked 0 shop_certificate
