-- ===== src/Certification/Run.antt =====
-- The checks of a certificate that count nothing.
use rdb_memory_mcp.Base.{
  ℕ, Bool, true, false, not, ◌&&◌, List, [], ◌∷◌, ◌++◌, Str, codes, str_eq, is_blank, member, any,
  is_empty, report, gather, bad_text, str_cmp,
}
use native.Mathlib.Decide.{ℕ_discrete}
use rdb_memory_mcp.Snapshot.Objects.{CapabilitySupport, AdapterCapabilities}
use rdb_memory_mcp.Snapshot.Equality.{equal}
use rdb_memory_mcp.Snapshot.Normalize.{canonical_texts, then_cmp, is_gt}
use rdb_memory_mcp.Validation.State.{SnapshotValidationIssue}
use rdb_memory_mcp.Certification.Data.{IntrospectionScope, CapabilityCheck, CertificationIssue}

abbrev pub complete_contract_version : ℕ
complete_contract_version = 2

abbrev pub max_proof_text_bytes : ℕ
max_proof_text_bytes = 16384

abbrev pub max_scope_value_bytes : ℕ
max_scope_value_bytes = 1024

abbrev pub Issues : Type 0
Issues = List CertificationIssue

abbrev pub issue : Str → Str → Str → CertificationIssue
issue code subject message = record { code = code; subject = subject; message = message }

abbrev pub certification_issue_from_validation : SnapshotValidationIssue → CertificationIssue
certification_issue_from_validation i = issue i.code i.object_key i.message

unfoldable pub require_non_empty : Str → Str → Issues
require_non_empty subject value = report (bad_text max_proof_text_bytes value) (
    issue (codes "proof_value_missing") subject
      (codes "certification proof value must be bounded, non-empty, and contain no controls"))

unfoldable pub require_discovery_evidence : Str → Str → Issues
require_discovery_evidence subject evidence = report (bad_text max_proof_text_bytes evidence) (
    issue (codes "discovery_evidence_missing") subject
      (codes "discovered counts require bounded non-control catalog evidence"))

abbrev pub normalize_scope : IntrospectionScope → IntrospectionScope
normalize_scope scope = record {
  catalogs = canonical_texts scope.catalogs;
  schemas = canonical_texts scope.schemas;
}

abbrev pub scope_issues : IntrospectionScope → Issues
scope_issues scope =
    report (is_empty scope.catalogs) (
      issue (codes "scope_missing") (codes "scope.catalogs")
        (codes "at least one catalog/database must be declared"))
    ++ report (is_empty scope.schemas) (
        issue (codes "scope_missing") (codes "scope.schemas")
          (codes "at least one schema must be declared"))

unfoldable pub texts_discrete : Discrete (List Str)
texts_discrete = hlevel (ℕ_discrete)

unfoldable pub validate_canonical_scope_values : Str → List Str → Issues
validate_canonical_scope_values subject values =
    report (any (λ value. bad_text max_scope_value_bytes value) values) (
      issue (codes "scope_value_missing") subject
        (codes "scope values must be bounded, non-empty, and contain no controls"))
    ++ report (not (equal texts_discrete (canonical_texts values) values)) (
        issue (codes "scope_not_canonical") subject
          (codes "scope values must be sorted and unique"))

unfoldable pub validate_scope : IntrospectionScope → Issues
validate_scope scope =
    scope_issues scope
    ++ (validate_canonical_scope_values (codes "scope.catalogs") scope.catalogs
        ++ validate_canonical_scope_values (codes "scope.schemas") scope.schemas)

abbrev pub is_supported : CapabilitySupport → Bool
is_supported CapabilitySupport.supported = true
is_supported _ = false

abbrev pub required : AdapterCapabilities → List (Str × Bool)
required c =
    (codes "schemas", c.schemas)
    ∷ (codes "tables", c.tables)
    ∷ (codes "columns", c.columns)
    ∷ (codes "constraints", c.constraints)
    ∷ (codes "indexes", c.indexes)
    ∷ []

abbrev pub optional : AdapterCapabilities → List (Str × CapabilitySupport)
optional c =
    (codes "views", c.views)
    ∷ (codes "triggers", c.triggers)
    ∷ (codes "routines", c.routines)
    ∷ (codes "dependencies", c.dependencies)
    ∷ []

abbrev pub required_issue : Str × Bool → Issues
required_issue (name, supported) = report (not supported) (
    issue (codes "required_capability_missing") (codes "capabilities." ++ name)
      (codes "certified adapters must prove this metadata category"))

abbrev pub optional_issue : Str × CapabilitySupport → Issues
optional_issue (name, support) = report (not (is_supported support)) (
    issue (codes "required_capability_incomplete") (codes "capabilities." ++ name)
      (codes "certified adapters must support or prove absence of this metadata category"))

unfoldable pub validate_capabilities : Str → AdapterCapabilities → Issues
validate_capabilities source_kind c =
    report (not (str_eq c.source_kind source_kind)) (
      issue (codes "capability_source_mismatch") (codes "capabilities.source_kind")
        (codes "capability source must match snapshot source"))
    ++ (report (not c.metadata_only) (
          issue (codes "metadata_only_required") (codes "capabilities.metadata_only")
            (codes "certified indexing must be metadata-only"))
        ++ (gather required_issue (required c)
            ++ (gather optional_issue (optional c)
                ++ report (not (is_empty c.limitations)) (
                    issue (codes "adapter_limitations_present") (codes "capabilities.limitations") (
                      codes
                        "a certified complete snapshot cannot retain unmodeled metadata limitations")))))

abbrev pub no_checks : List CapabilityCheck → Issues
no_checks checks = report (is_empty checks) (
    issue (codes "capability_proof_missing") (codes "capability_checks")
      (codes "at least one metadata capability check is required"))

-- The set of the names behind a check, which a blank name does not enter.
abbrev pub names_after : Bool → Str → List Str → List Str
names_after true name names = names
names_after false name names = name ∷ names

unfoldable pub check_issues : List Str → List CapabilityCheck → Issues
check_issues names [] = []
check_issues names (check ∷ checks) =
    require_non_empty (codes "capability.name") check.name
    ++ (require_non_empty (codes "capability.evidence") check.evidence
        ++ (report (not (is_blank check.name) && member str_eq check.name names) (
              issue (codes "duplicate_capability_check") (codes "capability_checks." ++ check.name)
                (codes "capability check names must be unique"))
            ++ check_issues (names_after (is_blank check.name) check.name names) checks))

unfoldable pub validate_capability_checks : List CapabilityCheck → Issues
validate_capability_checks checks = no_checks checks ++ check_issues [] checks

unfoldable pub check_after : CapabilityCheck → CapabilityCheck → Bool
check_after a b = is_gt (then_cmp (str_cmp a.name b.name) (str_cmp a.evidence b.evidence))

unfoldable pub checks_discrete : Discrete (List CapabilityCheck)
checks_discrete = hlevel (ℕ_discrete)
