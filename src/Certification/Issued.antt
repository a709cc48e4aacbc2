-- ===== src/Certification/Issued.antt =====
-- `certify_schema_snapshot` issues a certificate exactly if the normalized inputs can be certified,
-- and its own verification of the result never fails then.
use rdb_memory_mcp.Base.{
  ℕ, ◌≡◌, ◌≢◌, refl, ◌↔◌, sym, ap, subst, List, [], ◌∷◌, map, Str, is_empty, All, Distinct, Result,
  ok, err, ◌>>=◌, if◌then◌else◌, report_iff, both_nil, gather-nil, sort_by, sort_by_idempotent,
  ok-injective, err-ne-ok,
}
use rdb_memory_mcp.Snapshot.Canonical.{CanonicalSchemaSnapshot}
use rdb_memory_mcp.Snapshot.Normalize.{normalize_canonical_snapshot}
use rdb_memory_mcp.Snapshot.Normalize.Laws.{normalize_canonical_snapshot_idempotent}
use rdb_memory_mcp.Metadata.Spec.{IsCanonical}
use rdb_memory_mcp.Certification.Data.{
  AdapterIdentity, ServerIdentity, IntrospectionScope, DiscoveryCounts, CapabilityCheck,
  CertifiedSchemaSnapshot, CertificationError,
}
use rdb_memory_mcp.Certification.Counts.{emitted_object_counts, emitted_relationship_counts}
use rdb_memory_mcp.Certification.Labels.{object_labels, relationship_labels}
use rdb_memory_mcp.Certification.Run.{Issues, normalize_scope, check_after}
use rdb_memory_mcp.Certification.Certify.{
  certification_issues, certified_of, certify_schema_snapshot, verify_certified_schema_snapshot,
}
use rdb_memory_mcp.Certification.Spec.{IsIdentified, IsScope, IsFull, IsCertified}
use rdb_memory_mcp.Certification.Correct.{require_non_empty_iff, identity_issues_iff, is_empty_iff}
use rdb_memory_mcp.Certification.Checks.{AreProofTexts}
use rdb_memory_mcp.Certification.Whole.{snapshot_issues_iff, verify_certified_schema_snapshot_iff}
use rdb_memory_mcp.Certification.Discovered.{
  Discovers, all_discovery_issues_iff, reconciliations-Reconciles, all_objects-Distinct,
  all_relationships-Distinct, check_after_asym,
}

-- What is asked of the inputs, normalized: what `verify_certified_schema_snapshot` asks of the
-- certificate, except that the discovered counts take the place of the rows.
pub record IsCertifiable (adapter : AdapterIdentity) (server : ServerIdentity)
    (discovered : DiscoveryCounts) (snapshot : CanonicalSchemaSnapshot) (scope : IntrospectionScope)
    (checks : List CapabilityCheck) : Type 0 where
  pub canonical : IsCanonical snapshot
  pub identified : IsIdentified adapter server
  pub scope_valid : IsScope scope
  pub full : IsFull snapshot.schema.source_kind snapshot.schema.capabilities
  pub any_check : checks ≢ []
  pub texts : All AreProofTexts checks
  pub distinct : Distinct (map (λ c. c.name) checks)
  pub objects : Discovers object_labels (emitted_object_counts snapshot) discovered.objects
  pub relationships :
      Discovers relationship_labels (emitted_relationship_counts snapshot) discovered.relationships

-- The last lines of `certify_schema_snapshot`.
finish :
    {A : Type 0} (issues : Issues) (verified : Result CertificationError (Unit {0})) (a c : A)
    → (◌≡◌ {A = Result CertificationError A}
        (if is_empty issues then verified >>= (λ _. ok a) else err (record { issues = issues }))
        (ok c))
      ↔ ((issues ≡ []) × ((verified ≡ ok tt) × (a ≡ c)))
finish [] (ok _) a c = (λ h. (refl, (refl, ok-injective h)), λ h. ap ok h.1.1)
finish [] (err e) a c = (λ h. absurd (err-ne-ok h), λ h. absurd (err-ne-ok h.1.0))
finish (i ∷ issues) verified a c = (λ h. absurd (err-ne-ok h), λ h. absurd (not-nil h.0))
  where
    not-nil : ¬ (i ∷ issues ≡ [])
    not-nil h = cc

module _ (decimal : ℕ → Str) (adapter : AdapterIdentity) (server : ServerIdentity)
    (discovered : DiscoveryCounts) where
  abbrev IssuesPass : CanonicalSchemaSnapshot → IntrospectionScope → List CapabilityCheck → Type 0
  IssuesPass snapshot scope checks =
      IsCanonical snapshot
      × (IsIdentified adapter server
          × (((scope.catalogs ≢ []) × (scope.schemas ≢ []))
              × ((checks ≢ [])
                  × (All AreProofTexts checks
                      × (Discovers object_labels (emitted_object_counts snapshot) discovered.objects
                          × Discovers relationship_labels (emitted_relationship_counts snapshot)
                              discovered.relationships)))))

  certification_issues_iff :
      (snapshot : CanonicalSchemaSnapshot) (scope : IntrospectionScope)
      (checks : List CapabilityCheck)
      → (certification_issues decimal adapter server discovered snapshot scope checks ≡ [])
        ↔ IssuesPass snapshot scope checks
  unfolding certification_issues
  certification_issues_iff snapshot scope checks = both_nil (snapshot_issues_iff snapshot) (
      both_nil (identity_issues_iff adapter server) (
        both_nil
          (both_nil (report_iff _ _ (is_empty_iff scope.catalogs))
            (report_iff _ _ (is_empty_iff scope.schemas)))
          (both_nil (report_iff _ _ (is_empty_iff checks)) (
            both_nil
              (gather-nil {P = AreProofTexts} _
                (λ c.
                  both_nil (require_non_empty_iff _ c.name) (require_non_empty_iff _ c.evidence))
                checks)
              (both_nil
                (all_discovery_issues_iff object_labels decimal (emitted_object_counts snapshot)
                  discovered.objects)
                (all_discovery_issues_iff relationship_labels decimal
                  (emitted_relationship_counts snapshot) discovered.relationships))))))

  -- Over normal inputs, the certificate is valid if its discovered counts are those emitted.
  certified_of-IsCertified :
      (snapshot : CanonicalSchemaSnapshot) (scope : IntrospectionScope)
      (checks : List CapabilityCheck)
      → normalize_canonical_snapshot snapshot ≡ snapshot
      → sort_by check_after checks ≡ checks
      → IsCertifiable adapter server discovered snapshot scope checks
      → IsCertified (certified_of decimal adapter server discovered snapshot scope checks)
  certified_of-IsCertified snapshot scope checks normal sorted h = record {
    version = refl;
    canonical = h.canonical;
    normal = normal;
    identified = h.identified;
    scope = h.scope_valid;
    full = h.full;
    checks = record {
      any_check = h.any_check;
      texts = h.texts;
      distinct = h.distinct;
      sorted = sorted;
    };
    objects =
        reconciliations-Reconciles object_labels decimal (emitted_object_counts snapshot)
          discovered.objects all_objects-Distinct h.objects;
    relationships =
        reconciliations-Reconciles relationship_labels decimal
          (emitted_relationship_counts snapshot) discovered.relationships all_relationships-Distinct
          h.relationships;
  }

  module _ (snapshot : CanonicalSchemaSnapshot) (scope : IntrospectionScope)
      (checks : List CapabilityCheck) where
    abbrev pub Certifiable : Type 0
    Certifiable =
        IsCertifiable adapter server discovered (normalize_canonical_snapshot snapshot)
          (normalize_scope scope) (sort_by check_after checks)

    abbrev pub certificate : CertifiedSchemaSnapshot
    certificate =
        certified_of decimal adapter server discovered (normalize_canonical_snapshot snapshot)
          (normalize_scope scope) (sort_by check_after checks)

    certificate-IsCertified : Certifiable → IsCertified certificate
    certificate-IsCertified =
        certified_of-IsCertified _ _ _ (normalize_canonical_snapshot_idempotent snapshot)
          (sort_by_idempotent check_after check_after_asym checks)

    -- A certificate is issued exactly if the inputs can be certified: the snapshot, normalized, is
    -- canonical, the adapter and the server are named, the scope and the capability checks, sorted,
    -- are valid, the capabilities are full, and for every category the adapter discovered, with
    -- evidence, as many as the snapshot emits. The certificate holds the normalized inputs and the
    -- discovered counts.
    pub certify_schema_snapshot_iff :
        (c : CertifiedSchemaSnapshot)
        → (certify_schema_snapshot decimal adapter server discovered snapshot scope checks ≡ ok c)
          ↔ (Certifiable × (certificate ≡ c))
    unfolding certify_schema_snapshot
    certify_schema_snapshot_iff c = (there, back)
      where
        split :
            (certify_schema_snapshot decimal adapter server discovered snapshot scope checks ≡ ok c)
            ↔ ((certification_issues decimal adapter server discovered
                    (normalize_canonical_snapshot snapshot)
                    (normalize_scope scope)
                    (sort_by check_after checks)
                  ≡ [])
                × ((verify_certified_schema_snapshot decimal certificate ≡ ok tt)
                    × (certificate ≡ c)))
        split = finish _ _ _ c

        there :
            certify_schema_snapshot decimal adapter server discovered snapshot scope checks ≡ ok c
            → Certifiable × (certificate ≡ c)
        there h =
            let (clean, (verified, same)) = split.0 h in
            let (canonical, (identified, (_, (some_check, (texts, (objects, relationships)))))) =
              (certification_issues_iff _ _ _).0 clean in
            let valid = (verify_certified_schema_snapshot_iff decimal certificate).0 verified in
            (
              record {
                canonical = canonical;
                identified = identified;
                scope_valid = valid.scope;
                full = valid.full;
                any_check = some_check;
                texts = texts;
                distinct = valid.checks.distinct;
                objects = objects;
                relationships = relationships;
              },
              same,
            )

        back :
            Certifiable × (certificate ≡ c)
            → certify_schema_snapshot decimal adapter server discovered snapshot scope checks ≡ ok c
        back (h, same) = split.1 (
          (certification_issues_iff _ _ _).1 (
            h.canonical,
            (
              h.identified,
              (
                (h.scope_valid.has_catalog, h.scope_valid.has_schema),
                (h.any_check, (h.texts, (h.objects, h.relationships))),
              ),
            ),
          ),
          (
            (verify_certified_schema_snapshot_iff decimal certificate).1
                (certificate-IsCertified h),
            same,
          ),
        )

    -- A certificate that is issued is valid, and its snapshot is the normalized input.
    pub certify_schema_snapshot-IsCertified :
        (c : CertifiedSchemaSnapshot)
        → certify_schema_snapshot decimal adapter server discovered snapshot scope checks ≡ ok c
        → IsCertified c × (c.snapshot ≡ normalize_canonical_snapshot snapshot)
    certify_schema_snapshot-IsCertified c h =
        let (certifiable, same) = (certify_schema_snapshot_iff c).0 h in
        (
          subst IsCertified same (certificate-IsCertified certifiable),
          ap (λ d. d.snapshot) (sym same),
        )
