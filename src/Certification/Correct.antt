-- ===== src/Certification/Correct.antt =====
-- Each check of a certificate reports nothing exactly if its condition holds.
use rdb_memory_mcp.Base.{
  ◌≡◌, ◌≢◌, refl, ◌↔◌, true, false, not, List, [], ◌∷◌, Str, is_empty, gather-nil, report_iff,
  both_nil, iff_trans, bad_text_iff, any_iff, ne_iff, not_iff, arith,
}
use rdb_memory_mcp.Snapshot.Objects.{CapabilitySupport, AdapterCapabilities}
use rdb_memory_mcp.Snapshot.Equality.{equal, equal_iff}
use rdb_memory_mcp.Snapshot.Normalize.{canonical_texts}
use rdb_memory_mcp.Certification.Data.{IntrospectionScope, AdapterIdentity, ServerIdentity}
use rdb_memory_mcp.Certification.Run.{
  require_non_empty, require_discovery_evidence, texts_discrete, validate_canonical_scope_values,
  validate_scope, is_supported, required, optional, required_issue, optional_issue,
  validate_capabilities,
}
use rdb_memory_mcp.Certification.Certify.{identity_issues}
use rdb_memory_mcp.Certification.Spec.{IsProofText, IsIdentified, AreScopeValues, IsScope, IsFull}

pub require_non_empty_iff :
    (subject value : Str) → (require_non_empty subject value ≡ []) ↔ IsProofText value
unfolding require_non_empty
require_non_empty_iff subject value = report_iff _ _ (bad_text_iff 16384 value)

pub require_discovery_evidence_iff :
    (subject evidence : Str)
    → (require_discovery_evidence subject evidence ≡ []) ↔ IsProofText evidence
unfolding require_discovery_evidence
require_discovery_evidence_iff subject evidence = report_iff _ _ (bad_text_iff 16384 evidence)

pub identity_issues_iff :
    (adapter : AdapterIdentity) (server : ServerIdentity)
    → (identity_issues adapter server ≡ []) ↔ IsIdentified adapter server
identity_issues_iff adapter server =
    iff_trans
      (both_nil (require_non_empty_iff _ adapter.name) (
        both_nil (require_non_empty_iff _ adapter.version) (
          both_nil (require_non_empty_iff _ server.product)
            (require_non_empty_iff _ server.version))))
      (
        λ (a, (b, (c, d))). record {
          adapter_name = a;
          adapter_version = b;
          server_product = c;
          server_version = d;
        },
        λ p. (p.adapter_name, (p.adapter_version, (p.server_product, p.server_version))),
      )

pub is_empty_iff {ℓ} : {A : Type ℓ} (xs : List A) → (is_empty xs ≡ false) ↔ (xs ≢ [])
is_empty_iff [] = (λ h. absurd (ground (arith, h)), λ n. absurd (n refl))
is_empty_iff (x ∷ xs) = (λ _. not-nil, λ _. refl)
  where
    not-nil : x ∷ xs ≢ []
    not-nil h = cc

not-is_empty_iff {ℓ} : {A : Type ℓ} (xs : List A) → (not (is_empty xs) ≡ false) ↔ (xs ≡ [])
not-is_empty_iff [] = (λ _. refl, λ _. refl)
not-is_empty_iff (x ∷ xs) = (λ h. absurd (ground (arith, h)), λ h. cc)

-- A check by the decided equality.
pub unequal_iff {ℓ} :
    {A : Type ℓ} (d : Discrete A) (a b : A) → (not (equal d a b) ≡ false) ↔ (a ≡ b)
unequal_iff d a b = iff_trans (not_iff (equal d a b)) (equal_iff d a b)

validate_canonical_scope_values_iff :
    (subject : Str) (values : List Str)
    → (validate_canonical_scope_values subject values ≡ []) ↔ AreScopeValues values
unfolding validate_canonical_scope_values
validate_canonical_scope_values_iff subject values =
    both_nil (report_iff _ _ (any_iff _ (bad_text_iff 1024) values))
      (report_iff _ _ (unequal_iff texts_discrete (canonical_texts values) values))

pub validate_scope_iff : (scope : IntrospectionScope) → (validate_scope scope ≡ []) ↔ IsScope scope
unfolding validate_scope
validate_scope_iff scope =
    iff_trans
      (both_nil
        (both_nil (report_iff _ _ (is_empty_iff scope.catalogs))
          (report_iff _ _ (is_empty_iff scope.schemas)))
        (both_nil (validate_canonical_scope_values_iff _ scope.catalogs)
          (validate_canonical_scope_values_iff _ scope.schemas)))
      (
        λ ((a, b), (c, d)). record { has_catalog = a; has_schema = b; catalogs = c; schemas = d },
        λ p. ((p.has_catalog, p.has_schema), (p.catalogs, p.schemas)),
      )

is_supported_iff :
    (support : CapabilitySupport)
    → (not (is_supported support) ≡ false) ↔ (support ≡ CapabilitySupport.supported)
is_supported_iff CapabilitySupport.supported = (λ _. refl, λ _. refl)
is_supported_iff CapabilitySupport.partial_support = ground arith
is_supported_iff CapabilitySupport.unsupported = ground arith
is_supported_iff CapabilitySupport.unknown = ground arith

pub validate_capabilities_iff :
    (source_kind : Str) (c : AdapterCapabilities)
    → (validate_capabilities source_kind c ≡ []) ↔ IsFull source_kind c
unfolding validate_capabilities
validate_capabilities_iff source_kind c =
    iff_trans
      (both_nil (report_iff _ _ (ne_iff c.source_kind source_kind)) (
        both_nil (report_iff _ _ (not_iff c.metadata_only)) (
          both_nil
            (gather-nil {P = λ p. p.1 ≡ true} required_issue (λ p. report_iff _ _ (not_iff p.1))
              (required c))
            (both_nil
              (gather-nil {P = λ p. p.1 ≡ CapabilitySupport.supported} optional_issue
                (λ p. report_iff _ _ (is_supported_iff p.1)) (optional c))
              (report_iff _ _ (not-is_empty_iff c.limitations))))))
      (
        λ (a, (b, ((d, (e, (f, (g, (h, _))))), ((i, (j, (k, (l, _)))), m)))). record {
          same_source = a;
          metadata_only = b;
          schemas = d;
          tables = e;
          columns = f;
          constraints = g;
          indexes = h;
          views = i;
          triggers = j;
          routines = k;
          dependencies = l;
          unlimited = m;
        },
        λ p. (
          p.same_source,
          (
            p.metadata_only,
            (
              (p.schemas, (p.tables, (p.columns, (p.constraints, (p.indexes, tt))))),
              ((p.views, (p.triggers, (p.routines, (p.dependencies, tt)))), p.unlimited),
            ),
          ),
        ),
      )
