-- ===== src/Certification/Analysis.antt =====
-- The service over the certification: `certify_schema_snapshot` and
-- `verify_certified_schema_snapshot` as the interface that `analyze_with_cancellation` calls.
use rdb_memory_mcp.Base.{ℕ, ◌≡◌, ◌↔◌, Bool, false, Str, ok}
use rdb_memory_mcp.Certification.Data.{CertifiedSchemaSnapshot}
use rdb_memory_mcp.Certification.Certify.{certify_schema_snapshot, verify_certified_schema_snapshot}
use rdb_memory_mcp.Certification.Spec.{IsCertified}
use rdb_memory_mcp.Certification.Whole.{verify_certified_schema_snapshot_iff}
use rdb_memory_mcp.Certification.Issued.{
  Certifiable, certificate, certify_schema_snapshot_iff, certify_schema_snapshot-IsCertified,
}
use rdb_memory_mcp.Service.Outcome.{Redaction}
use rdb_memory_mcp.Service.Lifecycle.{
  IntrospectionRequest, CatalogDiscovery, complete, Checkpoint, Certification, CatalogIntrospector,
  analyze_with_cancellation,
}
use rdb_memory_mcp.Service.Stages.{IsValidRequest, analyze_with_cancellation_iff}

-- The two functions, over what the adapter discovered.
unfoldable pub certification : (ℕ → Str) → Certification
certification decimal = record {
  certify = λ d.
      certify_schema_snapshot decimal d.adapter d.server d.discovered_counts d.snapshot d.scope
        d.capability_checks;
  verify = verify_certified_schema_snapshot decimal;
}

-- The discovery can be certified, with this certificate.
abbrev pub IssuesCertificate : (ℕ → Str) → CatalogDiscovery → CertifiedSchemaSnapshot → Type 0
IssuesCertificate decimal d s =
    Certifiable decimal d.adapter d.server d.discovered_counts d.snapshot d.scope
      d.capability_checks
    × (certificate decimal d.adapter d.server d.discovered_counts d.snapshot d.scope
          d.capability_checks
        ≡ s)

pub issued_iff :
    (decimal : ℕ → Str) (d : CatalogDiscovery) (s : CertifiedSchemaSnapshot)
    → ((certification decimal).certify d ≡ ok s) ↔ IssuesCertificate decimal d s
unfolding certification
issued_iff decimal d s =
    certify_schema_snapshot_iff decimal d.adapter d.server d.discovered_counts d.snapshot d.scope
      d.capability_checks s

pub issued-IsCertified :
    (decimal : ℕ → Str) (d : CatalogDiscovery) (s : CertifiedSchemaSnapshot)
    → (certification decimal).certify d ≡ ok s
    → IsCertified s
unfolding certification
issued-IsCertified decimal d s h =
    (certify_schema_snapshot-IsCertified decimal d.adapter d.server d.discovered_counts d.snapshot
      d.scope d.capability_checks s h).0

module _ (redaction : Redaction) (decimal : ℕ → Str) {A : Type 0}
    (adapter : CatalogIntrospector A) where
  -- With the certification of the program, an analysis completes with a certificate exactly if the
  -- request is valid, none of the service's three checkpoints saw a cancellation, and the adapter
  -- discovered what can be certified with this certificate.
  pub analyze_with_cancellation-certifies :
      (observed : Checkpoint → Bool) (request : IntrospectionRequest) (a : A)
      (s : CertifiedSchemaSnapshot)
      → ((analyze_with_cancellation redaction
            (certification decimal)
            decimal
            adapter
            observed
            request
            a).0
          ≡ complete s)
        ↔ (IsValidRequest request
            × (observed Checkpoint.before_adapter ≡ false)
            × (observed Checkpoint.after_adapter ≡ false)
            × (observed Checkpoint.after_certification ≡ false)
            × ((d : CatalogDiscovery) × ((adapter.discover_with_cancellation observed request a).0
                  ≡ ok d)
                × IssuesCertificate decimal d s))
  unfolding certification
  analyze_with_cancellation-certifies observed request a s = (
    λ h.
        let (valid, on, on', on'', (d, found, certified, _)) =
          (analyze_with_cancellation_iff redaction (certification decimal) decimal adapter observed
              request a s).0
            h in
        (valid, on, on', on'', (d, found, (issued_iff decimal d s).0 certified)),
    λ (valid, on, on', on'', (d, found, certifiable)).
        let certified = (issued_iff decimal d s).1 certifiable in
        let accepted =
          (verify_certified_schema_snapshot_iff decimal s).1
            (issued-IsCertified decimal d s certified) in
        (analyze_with_cancellation_iff redaction (certification decimal) decimal adapter observed
            request a s).1
          (valid, on, on', on'', (d, found, certified, accepted)),
  )
