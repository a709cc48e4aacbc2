-- ===== src/Service/Lifecycle.antt =====
-- The lifecycle of one analysis, from introspection.rs. The cancellation token is another thread's
-- to set, so what each read of it returns is an argument: any answers at all are covered.
use rdb_memory_mcp.Base.{
  ℕ, Bool, true, false, Option, none, some, List, [], ◌∷◌, Str, codes, str_eq, is_blank, member,
  any, Result, ok, err, ◌>>=◌, ◌>>◌, ◌==◌, if◌then◌else◌,
}
use rdb_memory_mcp.Snapshot.Canonical.{CanonicalSchemaSnapshot}
use rdb_memory_mcp.Certification.Data.{
  AdapterIdentity, ServerIdentity, IntrospectionScope, DiscoveryCounts, CapabilityCheck,
  CertifiedSchemaSnapshot, CertificationError, display_error,
}
use rdb_memory_mcp.Service.Outcome.{
  AnalysisFailure, AnalysisFailureCode, AnalysisStage, AnalysisStatus, Redaction, redacted,
}

pub record IntrospectionRequest : Type 0 where
  pub connection_alias : Str
  pub requested_catalogs : List Str
  pub requested_schemas : List Str
  pub timeout_ms : ℕ

pub record CatalogDiscovery : Type 0 where
  pub snapshot : CanonicalSchemaSnapshot
  pub adapter : AdapterIdentity
  pub server : ServerIdentity
  pub scope : IntrospectionScope
  pub discovered_counts : DiscoveryCounts
  pub capability_checks : List CapabilityCheck

-- `AnalysisOutcome`: complete with a snapshot, or failed.
pub data AnalysisOutcome : Type 0 where
  complete : CertifiedSchemaSnapshot → AnalysisOutcome
  failed : AnalysisFailure → AnalysisOutcome

unfoldable pub status : AnalysisOutcome → AnalysisStatus
status (complete _) = AnalysisStatus.complete
status (failed _) = AnalysisStatus.failed

unfoldable pub certified_snapshot : AnalysisOutcome → Option CertifiedSchemaSnapshot
certified_snapshot (complete snapshot) = some snapshot
certified_snapshot (failed _) = none

-- The reads of the token in the order of the run: before the adapter, by the adapter before and
-- after discovery, after the adapter, and after certification.
pub data Checkpoint : Type 0 where
  before_adapter before_discovery after_discovery after_adapter after_certification : Checkpoint

-- `certify_schema_snapshot` and `verify_certified_schema_snapshot`.
pub record Certification : Type 0 where
  pub certify : CatalogDiscovery → Result CertificationError CertifiedSchemaSnapshot
  pub verify : CertifiedSchemaSnapshot → Result CertificationError (Unit {0})

-- An adapter with a state of its own, with `discover_with_cancellation` over the reads it makes.
pub record CatalogIntrospector (A : Type 0) : Type 0 where
  pub source_kind : Str
  pub discover : IntrospectionRequest → A → Result AnalysisFailure CatalogDiscovery × A
  pub discover_with_cancellation :
      (Checkpoint → Bool) → IntrospectionRequest → A → Result AnalysisFailure CatalogDiscovery × A

abbrev count_codes : List Str
count_codes =
    codes "object_count_mismatch"
    ∷ codes "relationship_count_mismatch"
    ∷ codes "discovered_count_missing"
    ∷ codes "discovered_relationship_count_missing"
    ∷ []

module _ (redaction : Redaction) where
  unfoldable pub cancelled_failure : Str → Str → AnalysisStage → AnalysisFailure
  cancelled_failure source_kind connection_alias stage =
      redacted redaction AnalysisFailureCode.cancelled stage source_kind connection_alias
        (codes "database metadata analysis was cancelled")
        (codes "start a new analysis when the result is still needed") true none

  -- `CancellationToken::checkpoint`, with what the token says.
  unfoldable pub checkpoint : Bool → Str → Str → AnalysisStage → Result AnalysisFailure (Unit {0})
  checkpoint is_cancelled source_kind connection_alias stage =
      if is_cancelled then err (cancelled_failure source_kind connection_alias stage) else ok tt

  unfoldable pub invalid : Str → Str → Str → Str → AnalysisFailure
  invalid source_kind connection_alias message remediation =
      redacted redaction AnalysisFailureCode.invalid_configuration AnalysisStage.configuration
        source_kind connection_alias message remediation false none

  -- `IntrospectionRequest::validate`.
  unfoldable pub validate : IntrospectionRequest → Str → Result AnalysisFailure (Unit {0})
  validate request source_kind =
      if is_blank request.connection_alias
      then err (
          invalid source_kind request.connection_alias (codes "connection alias must not be empty")
            (codes "provide a stable non-secret connection alias"))
      else if request.timeout_ms == 0
      then err (
          invalid source_kind request.connection_alias
            (codes "introspection timeout must be greater than zero")
            (codes "set a bounded timeout in milliseconds"))
      else ok tt

  -- The default body of `discover_with_cancellation`.
  unfoldable pub default_discovery :
      {A : Type 0}
      → Str
      → (IntrospectionRequest → A → Result AnalysisFailure CatalogDiscovery × A)
      → (Checkpoint → Bool)
      → IntrospectionRequest
      → A
      → Result AnalysisFailure CatalogDiscovery × A
  default_discovery source_kind discover observed request a =
      let check : Checkpoint → Result AnalysisFailure (Unit {0}) =
        λ c. checkpoint (observed c) source_kind request.connection_alias AnalysisStage.discovery in
      elim (check Checkpoint.before_discovery) [
        | err failure ↦ (err failure, a)
        | ok _ ↦
            let (found, a') = discover request a in
            (found >>= λ d. check Checkpoint.after_discovery >> ok d, a')
      ]

  module _ (certification : Certification) (decimal : ℕ → Str) where
    -- `certification_failure`.
    unfoldable pub certification_failure : Str → Str → CertificationError → AnalysisFailure
    certification_failure source_kind connection_alias error =
        redacted redaction
          (if any (λ i. member str_eq i.code count_codes) error.issues
            then AnalysisFailureCode.completeness_mismatch
            else AnalysisFailureCode.validation_failed)
          AnalysisStage.validation source_kind connection_alias (display_error decimal error)
          (codes
            "inspect the adapter discovery evidence and fix every reported mapping before retrying")
          false none

    -- `CanonicalSnapshotAssembler::certify` and then `AnalysisOutcome::complete`.
    unfoldable pub certified_outcome : CatalogDiscovery → AnalysisOutcome
    certified_outcome discovery =
        let fail : CertificationError → AnalysisOutcome = λ error. failed (
          certification_failure discovery.snapshot.schema.source_kind
            discovery.snapshot.schema.connection_alias error) in
        elim (certification.certify discovery) [
          | err error ↦ fail error
          | ok snapshot ↦ elim (certification.verify snapshot) [
            | err error ↦ fail error
            | ok _ ↦ complete snapshot
          ]
        ]

    module _ {A : Type 0} (adapter : CatalogIntrospector A) where
      -- The run after the adapter has returned.
      unfoldable pub after_discovery_outcome :
          (Checkpoint → Bool)
          → IntrospectionRequest
          → Result AnalysisFailure CatalogDiscovery
          → AnalysisOutcome
      after_discovery_outcome observed request (err failure) = failed failure
      after_discovery_outcome observed request (ok discovery) =
          let check : Checkpoint → Result AnalysisFailure (Unit {0}) = λ c.
            checkpoint (observed c) adapter.source_kind request.connection_alias
              AnalysisStage.validation in
          elim (check Checkpoint.after_adapter) [
            | err failure ↦ failed failure
            | ok _ ↦
                let outcome = certified_outcome discovery in
                elim (check Checkpoint.after_certification) [
                  | err failure ↦ failed failure
                  | ok _ ↦ outcome
                ]
          ]

      -- `analyze_with_cancellation`, with the state that the adapter is left in.
      unfoldable pub analyze_with_cancellation :
          (Checkpoint → Bool) → IntrospectionRequest → A → AnalysisOutcome × A
      analyze_with_cancellation observed request a = elim (validate request adapter.source_kind) [
        | err failure ↦ (failed failure, a)
        | ok _ ↦
            elim (checkpoint (observed Checkpoint.before_adapter) adapter.source_kind
              request.connection_alias AnalysisStage.configuration) [
                | err failure ↦ (failed failure, a)
                | ok _ ↦
                    let (found, a') = adapter.discover_with_cancellation observed request a in
                    (after_discovery_outcome observed request found, a')
              ]
      ]

      -- `analyze`: with a new token, which nobody cancels.
      unfoldable pub analyze : IntrospectionRequest → A → AnalysisOutcome × A
      analyze request a = analyze_with_cancellation (λ _. false) request a
