-- ===== src/Certification/Certify.antt =====
-- `certify_schema_snapshot` and `verify_certified_schema_snapshot`. `decimal` prints a number.
use rdb_memory_mcp.Base.{
  ℕ, not, List, ◌++◌, map, Str, codes, is_empty, ◌==◌, report, gather, Result, ok, err, ◌>>=◌,
  errors_of, if◌then◌else◌, sort_by,
}
use rdb_memory_mcp.Snapshot.Canonical.{CanonicalSchemaSnapshot}
use rdb_memory_mcp.Snapshot.Equality.{equal, CanonicalSchemaSnapshot-discrete}
use rdb_memory_mcp.Snapshot.Normalize.{normalize_canonical_snapshot}
use rdb_memory_mcp.Metadata.Run.{validate_canonical_schema_snapshot}
use rdb_memory_mcp.Certification.Data.{
  AdapterIdentity, ServerIdentity, IntrospectionScope, DiscoveryCounts, CapabilityCheck,
  CompletionStatus, CertifiedSchemaSnapshot, CertificationError,
}
use rdb_memory_mcp.Certification.Counts.{emitted_object_counts, emitted_relationship_counts}
use rdb_memory_mcp.Certification.Labels.{object_labels, relationship_labels}
use rdb_memory_mcp.Certification.Run.{
  Issues, issue, certification_issue_from_validation, complete_contract_version, require_non_empty,
  normalize_scope, scope_issues, validate_scope, validate_capabilities, no_checks,
  validate_capability_checks, check_after, checks_discrete,
}
use rdb_memory_mcp.Certification.Reconcile.{
  all_discovery_issues, reconciliations, reconciliation_issues,
}

abbrev pub snapshot_issues : CanonicalSchemaSnapshot → Issues
snapshot_issues snapshot =
    map certification_issue_from_validation
      (errors_of (validate_canonical_schema_snapshot snapshot))

abbrev pub identity_issues : AdapterIdentity → ServerIdentity → Issues
identity_issues adapter server =
    require_non_empty (codes "adapter.name") adapter.name
    ++ (require_non_empty (codes "adapter.version") adapter.version
        ++ (require_non_empty (codes "server.product") server.product
            ++ require_non_empty (codes "server.version") server.version))

module _ (decimal : ℕ → Str) where
  unfoldable pub validate_count_reconciliation : CertifiedSchemaSnapshot → Issues
  validate_count_reconciliation c =
      reconciliation_issues object_labels decimal (emitted_object_counts c.snapshot)
        c.completeness.object_counts
      ++ reconciliation_issues relationship_labels decimal (emitted_relationship_counts c.snapshot)
          c.completeness.relationship_counts

  unfoldable pub verification_issues : CertifiedSchemaSnapshot → Issues
  verification_issues c =
      let proof = c.completeness in
      snapshot_issues c.snapshot
      ++ (report (not (c.contract_version == complete_contract_version)) (
            issue (codes "unsupported_contract_version") (codes "contract_version") (
              codes "expected contract version "
              ++ (decimal complete_contract_version
                  ++ (codes ", got " ++ decimal c.contract_version))))
          ++ (report
                (not (
                  equal CanonicalSchemaSnapshot-discrete (normalize_canonical_snapshot c.snapshot)
                    c.snapshot))
                (issue (codes "snapshot_not_canonical") (codes "snapshot") (
                  codes "certified snapshot collections must use deterministic canonical ordering"))
              ++ (identity_issues proof.adapter proof.server
                  ++ (validate_scope proof.scope
                      ++ (validate_capabilities c.snapshot.schema.source_kind
                            c.snapshot.schema.capabilities
                          ++ (validate_capability_checks proof.capability_checks
                              ++ (report
                                    (not (
                                      equal checks_discrete
                                        (sort_by check_after proof.capability_checks)
                                        proof.capability_checks))
                                    (issue (codes "capability_checks_not_canonical")
                                      (codes "capability_checks")
                                      (codes "capability checks must use deterministic ordering"))
                                  ++ validate_count_reconciliation c)))))))

  unfoldable pub verify_certified_schema_snapshot :
      CertifiedSchemaSnapshot → Result CertificationError (Unit {0})
  verify_certified_schema_snapshot c =
      let issues = verification_issues c in
      if is_empty issues then ok tt else err (record { issues = issues })

  module _ (adapter : AdapterIdentity) (server : ServerIdentity)
      (discovered : DiscoveryCounts) where
    -- The issues of certify_schema_snapshot, over the normalized snapshot and scope and the sorted
    -- checks.
    unfoldable pub certification_issues :
        CanonicalSchemaSnapshot → IntrospectionScope → List CapabilityCheck → Issues
    certification_issues snapshot scope checks =
        snapshot_issues snapshot
        ++ (identity_issues adapter server
            ++ (scope_issues scope
                ++ (no_checks checks
                    ++ (gather
                          (λ check.
                            require_non_empty (codes "capability.name") check.name
                            ++ require_non_empty (codes "capability.evidence") check.evidence)
                          checks
                        ++ (all_discovery_issues object_labels decimal
                              (emitted_object_counts snapshot) discovered.objects
                            ++ all_discovery_issues relationship_labels decimal
                                (emitted_relationship_counts snapshot) discovered.relationships)))))

    abbrev pub certified_of :
        CanonicalSchemaSnapshot
        → IntrospectionScope
        → List CapabilityCheck
        → CertifiedSchemaSnapshot
    certified_of snapshot scope checks = record {
      contract_version = complete_contract_version;
      snapshot = snapshot;
      completeness = record {
        status = CompletionStatus.complete;
        adapter = adapter;
        server = server;
        scope = scope;
        object_counts =
            reconciliations object_labels decimal (emitted_object_counts snapshot)
              discovered.objects object_labels.categories;
        relationship_counts =
            reconciliations relationship_labels decimal (emitted_relationship_counts snapshot)
              discovered.relationships relationship_labels.categories;
        capability_checks = checks;
      };
    }

    unfoldable pub certify_schema_snapshot :
        CanonicalSchemaSnapshot
        → IntrospectionScope
        → List CapabilityCheck
        → Result CertificationError CertifiedSchemaSnapshot
    certify_schema_snapshot snapshot scope checks =
        let normal = normalize_canonical_snapshot snapshot in
        let sorted = sort_by check_after checks in
        let declared = normalize_scope scope in
        let issues = certification_issues normal declared sorted in
        let certified = certified_of normal declared sorted in
        if is_empty issues
        then verify_certified_schema_snapshot certified >>= (λ _. ok certified)
        else err (record { issues = issues })
