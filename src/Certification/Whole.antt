-- ===== src/Certification/Whole.antt =====
-- The verification accepts exactly the valid certificates, and a certificate that is issued is one,
-- of the normalized snapshot and with the discovered counts.
use rdb_memory_mcp.Base.{
  ℕ, ◌≡◌, refl, ◌↔◌, sym, ◌∙◌, true, List, [], ◌∷◌, map, Str, is_empty, ◌==◌, Result, ok, err,
  errors_of-ok_if_empty, if◌then◌else◌, report_iff, both_nil, iff_trans, not_iff, arith, sort_by,
}
use rdb_memory_mcp.Snapshot.Canonical.{CanonicalSchemaSnapshot}
use rdb_memory_mcp.Snapshot.Equality.{CanonicalSchemaSnapshot-discrete}
use rdb_memory_mcp.Snapshot.Normalize.{normalize_canonical_snapshot}
use rdb_memory_mcp.Metadata.Run.{validate_canonical_schema_snapshot, canonical_issues}
use rdb_memory_mcp.Metadata.Spec.{IsCanonical}
use rdb_memory_mcp.Metadata.Whole.{canonical_issues_iff}
use rdb_memory_mcp.Certification.Data.{CertifiedSchemaSnapshot, CertificationError}
use rdb_memory_mcp.Certification.Counts.{emitted_object_counts, emitted_relationship_counts}
use rdb_memory_mcp.Certification.Labels.{object_labels, relationship_labels}
use rdb_memory_mcp.Certification.Run.{Issues, check_after, checks_discrete}
use rdb_memory_mcp.Certification.Certify.{
  snapshot_issues, validate_count_reconciliation, verification_issues,
  verify_certified_schema_snapshot,
}
use rdb_memory_mcp.Certification.Spec.{IsCertified}
use rdb_memory_mcp.Certification.Correct.{
  identity_issues_iff, validate_scope_iff, validate_capabilities_iff, unequal_iff,
}
use rdb_memory_mcp.Certification.Checks.{validate_capability_checks_iff, reconciliation_issues_iff}

map-nil {ℓ κ} : {A : Type ℓ} {B : Type κ} (f : A → B) (xs : List A) → (map f xs ≡ []) ↔ (xs ≡ [])
map-nil f [] = (λ _. refl, λ _. refl)
map-nil f (x ∷ xs) = (λ h. cc, λ h. cc)

pub snapshot_issues_iff : (c : CanonicalSchemaSnapshot) → (snapshot_issues c ≡ []) ↔ IsCanonical c
unfolding validate_canonical_schema_snapshot
snapshot_issues_iff c =
    let same = errors_of-ok_if_empty (canonical_issues c) in
    let (valid, clean) = canonical_issues_iff c in
    iff_trans (map-nil _ _) (λ h. valid (sym same ∙ h), λ v. same ∙ clean v)

version_iff : (n : ℕ) → ((n == 2) ≡ true) ↔ (n ≡ 2)
version_iff n = ground arith

module _ (decimal : ℕ → Str) where
  verification_issues_iff :
      (c : CertifiedSchemaSnapshot) → (verification_issues decimal c ≡ []) ↔ IsCertified c
  unfolding verification_issues validate_count_reconciliation
  verification_issues_iff c =
      let proof = c.completeness in
      iff_trans
        (both_nil (snapshot_issues_iff c.snapshot) (
          both_nil (report_iff _ _ (iff_trans (not_iff _) (version_iff c.contract_version))) (
            both_nil
              (report_iff _ _ (
                unequal_iff CanonicalSchemaSnapshot-discrete
                  (normalize_canonical_snapshot c.snapshot) c.snapshot))
              (both_nil (identity_issues_iff proof.adapter proof.server) (
                both_nil (validate_scope_iff proof.scope) (
                  both_nil (validate_capabilities_iff _ c.snapshot.schema.capabilities) (
                    both_nil (validate_capability_checks_iff proof.capability_checks) (
                      both_nil
                        (report_iff _ _ (
                          unequal_iff checks_discrete (sort_by check_after proof.capability_checks)
                            proof.capability_checks))
                        (both_nil
                          (reconciliation_issues_iff object_labels decimal
                            (emitted_object_counts c.snapshot) proof.object_counts)
                          (reconciliation_issues_iff relationship_labels decimal
                            (emitted_relationship_counts c.snapshot)
                            proof.relationship_counts))))))))))
        (
          λ (a, (b, (d, (e, (f, (g, ((h, (i, j)), (k, (l, m))))))))). record {
            version = b;
            canonical = a;
            normal = d;
            identified = e;
            scope = f;
            full = g;
            checks = record { any_check = h; texts = i; distinct = j; sorted = k };
            objects = l;
            relationships = m;
          },
          λ p. (
            p.canonical,
            (
              p.version,
              (
                p.normal,
                (
                  p.identified,
                  (
                    p.scope,
                    (
                      p.full,
                      (
                        (p.checks.any_check, (p.checks.texts, p.checks.distinct)),
                        (p.checks.sorted, (p.objects, p.relationships)),
                      ),
                    ),
                  ),
                ),
              ),
            ),
          ),
        )

  ok_iff :
      (issues : Issues)
      → (◌≡◌ {A = Result CertificationError (Unit {0})}
          (if is_empty issues then ok tt else err (record { issues = issues }))
          (ok tt))
        ↔ (issues ≡ [])
  ok_iff [] = (λ _. refl, λ _. refl)
  ok_iff (i ∷ issues) = (λ h. cc, λ h. cc)

  -- The verification accepts a certificate exactly if it is of version 2, its snapshot is canonical and
  -- normalized, its texts are bounded, its scope is sorted and unique, the capabilities are full, the
  -- checks are sorted with a name each, and there is exactly one row for every category, with evidence,
  -- in which the discovered and the emitted count are what the snapshot holds.
  pub verify_certified_schema_snapshot_iff :
      (c : CertifiedSchemaSnapshot)
      → (verify_certified_schema_snapshot decimal c ≡ ok tt) ↔ IsCertified c
  unfolding verify_certified_schema_snapshot
  verify_certified_schema_snapshot_iff c =
      iff_trans (ok_iff (verification_issues decimal c)) (verification_issues_iff c)
