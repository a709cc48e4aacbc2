-- ===== src/Service/Tests.antt =====
-- The theorems on the analysis at a small empty database, and on a text with a two-byte character.
use rdb_memory_mcp.Base.{
  ℕ, suc, ◌≡◌, refl, ◌≤◌, ◌↔◌, Bool, true, false, none, [], ◌∷◌, ◌++◌, Str, codes, byte_length,
  Result, ok,
}
use rdb_memory_mcp.Key.{ObjectKey, ObjectKind}
use rdb_memory_mcp.Snapshot.Objects.{AdapterCapabilities, CapabilitySupport}
use rdb_memory_mcp.Snapshot.Canonical.{
  CanonicalSchemaSnapshot, MetadataRelationshipKind, graph_edge_type-injective,
}
use rdb_memory_mcp.Certification.Data.{CertifiedSchemaSnapshot, CompletionStatus}
use rdb_memory_mcp.Service.Outcome.{
  AnalysisFailure, AnalysisFailureCode, AnalysisStage, AnalysisStatus, Redaction, redacted,
  truncate_utf8,
}
use rdb_memory_mcp.Service.Truncate.{truncate_utf8_lem, redacted-bounded}
use rdb_memory_mcp.Service.Lifecycle.{
  IntrospectionRequest, CatalogDiscovery, complete, status, Checkpoint, Certification,
  CatalogIntrospector, default_discovery, analyze_with_cancellation,
}
use rdb_memory_mcp.Service.Stages.{
  IsValidRequest, analyze_with_cancellation_iff, analyze_with_cancellation-cancelled,
}

abbrev database_key : ObjectKey
database_key = record {
  source_kind = codes "s";
  connection_alias = codes "a";
  database = codes "m";
  schema = codes "m";
  object_kind = ObjectKind.database;
  object_name = codes "m";
  sub_object = none;
}

abbrev capabilities : AdapterCapabilities
capabilities = record {
  source_kind = codes "s";
  metadata_only = true;
  schemas = true;
  tables = true;
  columns = true;
  constraints = true;
  indexes = true;
  views = CapabilitySupport.supported;
  triggers = CapabilitySupport.supported;
  routines = CapabilitySupport.supported;
  dependencies = CapabilitySupport.supported;
  limitations = [];
  notes = [];
}

abbrev empty_snapshot : CanonicalSchemaSnapshot
empty_snapshot = record {
  schema = record {
    source_kind = codes "s";
    connection_alias = codes "a";
    database = record { key = database_key; name = codes "m" };
    schemas = [];
    tables = [];
    columns = [];
    constraints = [];
    indexes = [];
    views = [];
    triggers = [];
    routines = [];
    capabilities = capabilities;
  };
  metadata = record { objects = []; annotations = []; relationships = [] };
}

abbrev found : CatalogDiscovery
found = record {
  snapshot = empty_snapshot;
  adapter = record { name = codes "s"; version = codes "1" };
  server = record { product = codes "s"; version = codes "1" };
  scope = record { catalogs = []; schemas = [] };
  discovered_counts = record { objects = []; relationships = [] };
  capability_checks = [];
}

abbrev certified : CatalogDiscovery → CertifiedSchemaSnapshot
certified d = record {
  contract_version = 2;
  snapshot = d.snapshot;
  completeness = record {
    status = CompletionStatus.complete;
    adapter = d.adapter;
    server = d.server;
    scope = d.scope;
    object_counts = [];
    relationship_counts = [];
    capability_checks = d.capability_checks;
  };
}

abbrev trusting : Certification
trusting = record { certify = λ d. ok (certified d); verify = λ _. ok tt }

abbrev verbatim : Redaction
verbatim = record {
  redact_connection_string = λ s. s;
  redact_error_with_connection_string = λ s _. s;
}

abbrev discover : IntrospectionRequest → ℕ → Result AnalysisFailure CatalogDiscovery × ℕ
discover request calls = (ok found, suc calls)

-- Its state counts the calls of `discover`.
abbrev counting : CatalogIntrospector ℕ
counting = record {
  source_kind = codes "s";
  discover = discover;
  discover_with_cancellation = default_discovery verbatim (codes "s") discover;
}

abbrev request : IntrospectionRequest
request = record {
  connection_alias = codes "a";
  requested_catalogs = [];
  requested_schemas = [];
  timeout_ms = 5;
}

abbrev never : Checkpoint → Bool
never _ = false

-- The token is cancelled while the adapter discovers.
abbrev late : Checkpoint → Bool
late Checkpoint.before_adapter = false
late Checkpoint.before_discovery = false
late _ = true

abbrev no_decimal : ℕ → Str
no_decimal _ = []

analyze_with_cancellation_iff_example :
    ((analyze_with_cancellation verbatim trusting no_decimal counting never request 0).0
      ≡ complete (certified found))
    ↔ (IsValidRequest request
        × (never Checkpoint.before_adapter ≡ false)
        × (never Checkpoint.after_adapter ≡ false)
        × (never Checkpoint.after_certification ≡ false)
        × ((d : CatalogDiscovery) × ((counting.discover_with_cancellation never request 0).0 ≡ ok d)
            × (trusting.certify d ≡ ok (certified found))
            × (trusting.verify (certified found) ≡ ok tt)))
analyze_with_cancellation_iff_example =
    analyze_with_cancellation_iff verbatim trusting no_decimal counting never request 0
      (certified found)

analyze_with_cancellation-cancelled_example :
    status (analyze_with_cancellation verbatim trusting no_decimal counting late request 0).0
    ≡ AnalysisStatus.failed
analyze_with_cancellation-cancelled_example =
    analyze_with_cancellation-cancelled verbatim trusting no_decimal (codes "s") discover late
      request 0 Checkpoint.after_discovery refl

-- "aé" at two bytes keeps "a".
truncate_utf8_lem_example :
    ((rest : Str) × (truncate_utf8 (97 ∷ 233 ∷ []) 2 ++ rest ≡ 97 ∷ 233 ∷ []))
    × (byte_length (truncate_utf8 (97 ∷ 233 ∷ []) 2) ≤ 2)
    × ((p q : Str)
        → p ++ q ≡ 97 ∷ 233 ∷ []
        → byte_length p ≤ 2
        → byte_length p ≤ byte_length (truncate_utf8 (97 ∷ 233 ∷ []) 2))
truncate_utf8_lem_example = truncate_utf8_lem (97 ∷ 233 ∷ []) 2

abbrev timeout : AnalysisFailure
timeout =
    redacted verbatim AnalysisFailureCode.timeout AnalysisStage.discovery (codes "s") (codes "a")
      (codes "slow") (codes "wait") true none

redacted-bounded_example :
    (byte_length timeout.source_kind ≤ 8192)
    × (byte_length timeout.connection_alias ≤ 8192)
    × (byte_length timeout.message ≤ 8192)
    × (byte_length timeout.remediation ≤ 8192)
redacted-bounded_example =
    redacted-bounded verbatim AnalysisFailureCode.timeout AnalysisStage.discovery (codes "s")
      (codes "a") (codes "slow") (codes "wait") true none

graph_edge_type-injective_example :
    MetadataRelationshipKind.extension (codes "x") ≡ MetadataRelationshipKind.extension (codes "x")
graph_edge_type-injective_example =
    graph_edge_type-injective (MetadataRelationshipKind.extension (codes "x"))
      (MetadataRelationshipKind.extension (codes "x")) refl
