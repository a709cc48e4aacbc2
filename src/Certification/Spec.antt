-- ===== src/Certification/Spec.antt =====
-- What a valid certificate is.
use rdb_memory_mcp.Base.{
  ℕ, ◌≡◌, ◌≢◌, true, List, [], map, Str, All, Distinct, Memᴰ, IsBoundedText, sort_by,
}
use rdb_memory_mcp.Snapshot.Objects.{CapabilitySupport, AdapterCapabilities}
use rdb_memory_mcp.Snapshot.Normalize.{normalize_canonical_snapshot, canonical_texts}
use rdb_memory_mcp.Metadata.Spec.{IsCanonical}
use rdb_memory_mcp.Certification.Data.{
  AdapterIdentity, ServerIdentity, IntrospectionScope, CapabilityCheck, Reconciliation,
  CertifiedSchemaSnapshot,
}
use rdb_memory_mcp.Certification.Counts.{
  emitted_object_counts, emitted_relationship_counts, all_objects, all_relationships,
}
use rdb_memory_mcp.Certification.Run.{check_after}
use rdb_memory_mcp.Certification.Reconcile.{categories_of}

-- A text of the certificate: bounded, not blank, without control characters.
abbrev pub IsProofText : Str → Type 0
IsProofText s = IsBoundedText 16384 s

pub record IsIdentified (adapter : AdapterIdentity) (server : ServerIdentity) : Type 0 where
  pub adapter_name : IsProofText adapter.name
  pub adapter_version : IsProofText adapter.version
  pub server_product : IsProofText server.product
  pub server_version : IsProofText server.version

-- The values are bounded texts, sorted and unique.
abbrev pub AreScopeValues : List Str → Type 0
AreScopeValues values = All (λ s. IsBoundedText 1024 s) values × (canonical_texts values ≡ values)

pub record IsScope (scope : IntrospectionScope) : Type 0 where
  pub has_catalog : scope.catalogs ≢ []
  pub has_schema : scope.schemas ≢ []
  pub catalogs : AreScopeValues scope.catalogs
  pub schemas : AreScopeValues scope.schemas

-- The adapter read every category of metadata, and leaves nothing out.
pub record IsFull (source_kind : Str) (c : AdapterCapabilities) : Type 0 where
  pub same_source : c.source_kind ≡ source_kind
  pub metadata_only : c.metadata_only ≡ true
  pub schemas : c.schemas ≡ true
  pub tables : c.tables ≡ true
  pub columns : c.columns ≡ true
  pub constraints : c.constraints ≡ true
  pub indexes : c.indexes ≡ true
  pub views : c.views ≡ CapabilitySupport.supported
  pub triggers : c.triggers ≡ CapabilitySupport.supported
  pub routines : c.routines ≡ CapabilitySupport.supported
  pub dependencies : c.dependencies ≡ CapabilitySupport.supported
  pub unlimited : c.limitations ≡ []

pub record AreChecks (checks : List CapabilityCheck) : Type 0 where
  pub any_check : checks ≢ []
  pub texts : All (λ c. IsProofText c.name × IsProofText c.evidence) checks
  pub distinct : Distinct (map (λ c. c.name) checks)
  pub sorted : sort_by check_after checks ≡ checks

-- The row has evidence, and what was discovered was emitted, and is what the snapshot holds.
abbrev pub IsExact : {C : Type 0} → (C → ℕ) → Reconciliation C → Type 0
IsExact emitted r =
    IsProofText r.evidence × (r.discovered ≡ r.emitted) × (r.emitted ≡ emitted r.category)

-- There is one row for each category, and it is exact.
pub record Reconciles {C : Type 0} (categories : List C) (emitted : C → ℕ)
    (rows : List (Reconciliation C)) : Type 0 where
  pub once : Distinct (categories_of rows)
  pub exact : All (λ r. IsExact emitted r) rows
  pub complete : All (λ c. Memᴰ c (categories_of rows)) categories

pub record IsCertified (c : CertifiedSchemaSnapshot) : Type 0 where
  pub version : c.contract_version ≡ 2
  pub canonical : IsCanonical c.snapshot
  pub normal : normalize_canonical_snapshot c.snapshot ≡ c.snapshot
  pub identified : IsIdentified c.completeness.adapter c.completeness.server
  pub scope : IsScope c.completeness.scope
  pub full : IsFull c.snapshot.schema.source_kind c.snapshot.schema.capabilities
  pub checks : AreChecks c.completeness.capability_checks
  pub objects :
      Reconciles all_objects (emitted_object_counts c.snapshot) c.completeness.object_counts
  pub relationships :
      Reconciles all_relationships
        (emitted_relationship_counts c.snapshot)
        c.completeness.relationship_counts
