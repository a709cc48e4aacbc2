-- ===== src/Certification/Data.antt =====
-- The data of crates/database-memory-core/src/certification.rs. A `BTreeMap` over categories is
-- the list of its entries.
use rdb_memory_mcp.Base.{ℕ, List, [], ◌∷◌, ◌++◌, Str, codes, length}
use rdb_memory_mcp.Snapshot.Canonical.{CanonicalSchemaSnapshot}

pub data CompletionStatus : Type 0 where
  complete : CompletionStatus

pub record AdapterIdentity : Type 0 where
  pub name : Str
  pub version : Str

pub record ServerIdentity : Type 0 where
  pub product : Str
  pub version : Str

pub record IntrospectionScope : Type 0 where
  pub catalogs : List Str
  pub schemas : List Str

pub data ObjectCategory : Type 0 where
  database schema table column primary_key foreign_key unique_constraint : ObjectCategory
  check_constraint index view view_column trigger routine materialized_view : ObjectCategory
  sequence routine_parameter user_defined_type domain enum_value synonym : ObjectCategory
  exclusion_constraint event package_category principal policy extension : ObjectCategory

pub data RelationshipCategory : Type 0 where
  database_has_schema schema_has_table table_has_column : RelationshipCategory
  table_has_constraint constraint_column foreign_key_column_pair : RelationshipCategory
  table_has_index index_column schema_has_view view_dependency : RelationshipCategory
  trigger_target trigger_routine schema_has_routine : RelationshipCategory
  routine_dependency metadata_parent metadata_relationship : RelationshipCategory

-- The rows of the two reconciliations have the same fields.
pub record Reconciliation (C : Type 0) : Type 0 where
  pub category : C
  pub discovered : ℕ
  pub emitted : ℕ
  pub evidence : Str

abbrev pub CountReconciliation : Type 0
CountReconciliation = Reconciliation ObjectCategory

abbrev pub RelationshipCountReconciliation : Type 0
RelationshipCountReconciliation = Reconciliation RelationshipCategory

pub record DiscoveredCount : Type 0 where
  pub count : ℕ
  pub evidence : Str

pub record DiscoveryCounts : Type 0 where
  pub objects : List (ObjectCategory × DiscoveredCount)
  pub relationships : List (RelationshipCategory × DiscoveredCount)

pub record CapabilityCheck : Type 0 where
  pub name : Str
  pub evidence : Str

pub record CompletenessProof : Type 0 where
  pub status : CompletionStatus
  pub adapter : AdapterIdentity
  pub server : ServerIdentity
  pub scope : IntrospectionScope
  pub object_counts : List CountReconciliation
  pub relationship_counts : List RelationshipCountReconciliation
  pub capability_checks : List CapabilityCheck

pub record CertifiedSchemaSnapshot : Type 0 where
  pub contract_version : ℕ
  pub snapshot : CanonicalSchemaSnapshot
  pub completeness : CompletenessProof

pub record CertificationIssue : Type 0 where
  pub code : Str
  pub subject : Str
  pub message : Str

pub record CertificationError : Type 0 where
  pub issues : List CertificationIssue

-- The text after the count: `: {message} [{subject}]` for the first issue.
abbrev pub first_issue : List CertificationIssue → Str
first_issue [] = []
first_issue (i ∷ _) = codes ": " ++ i.message ++ codes " [" ++ i.subject ++ codes "]"

-- `Display for CertificationError`, over the decimal print of a number.
unfoldable pub display_error : (ℕ → Str) → CertificationError → Str
display_error decimal error =
    codes "schema snapshot certification failed with "
    ++ decimal (length error.issues)
    ++ codes " issue(s)"
    ++ first_issue error.issues
