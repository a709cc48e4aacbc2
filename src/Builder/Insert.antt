-- ===== src/Builder/Insert.antt =====
-- `insert_schema_snapshot_graph` and `insert_certified_schema_snapshot_graph`.
use rdb_memory_mcp.Base.{[], ◌∷◌, ◌++◌, codes, ℕ, ℤ, none, some, List, Str, ok, err, length}
use rdb_memory_mcp.Snapshot.Objects.{SchemaSnapshot}
use rdb_memory_mcp.Validation.State.{SnapshotValidationIssue}
use rdb_memory_mcp.Validation.Run.{validate_schema_snapshot}
use rdb_memory_mcp.Certification.Data.{CertifiedSchemaSnapshot, display_error}
use rdb_memory_mcp.Certification.Certify.{verify_certified_schema_snapshot}
use rdb_memory_mcp.Graph.Store.{GraphStoreError}
use rdb_memory_mcp.Builder.Nodes.{Serialization}
use rdb_memory_mcp.Builder.Projection.{certified_graph_projection_counts}
use rdb_memory_mcp.Builder.Rows.{
  Database, Statement, ◌>>◌, insert_schema_snapshot_graph_inner, verify_projection_counts,
  with_transaction,
}

-- `: {message} [{object_key}]` for the first issue.
abbrev first_fault : List SnapshotValidationIssue → Str
first_fault [] = []
first_fault (i ∷ _) = codes ": " ++ (i.message ++ (codes " [" ++ (i.object_key ++ codes "]")))

module _ (database : Database) (serialization : Serialization) (decimal : ℕ → Str) where
  -- The operation of the transaction, over a certificate.
  unfoldable pub insert_and_verify : Str → ℤ → CertifiedSchemaSnapshot → Str → Statement
  insert_and_verify key captured certified payload =
      let counts = certified_graph_projection_counts certified in
      insert_schema_snapshot_graph_inner database serialization decimal key captured
        certified.snapshot.schema payload (some certified.snapshot.metadata)
      >> verify_projection_counts key counts.objects counts.graph_edges

  -- `payload` is the JSON of the certificate.
  unfoldable pub insert_certified_schema_snapshot_graph :
      Str → ℤ → CertifiedSchemaSnapshot → Str → Statement
  insert_certified_schema_snapshot_graph key captured certified payload rows =
      elim (verify_certified_schema_snapshot decimal certified) [
        | ok _ ↦ with_transaction (insert_and_verify key captured certified payload) rows
        | err error ↦
            (err (GraphStoreError.invalid_certification (display_error decimal error)), rows)
      ]

  -- The text of a validation error, `Display for SnapshotValidationError`.
  abbrev validation_text : List SnapshotValidationIssue → Str
  validation_text issues =
      codes "schema snapshot validation failed with "
      ++ (decimal (length issues) ++ (codes " issue(s)" ++ first_fault issues))

  -- `payload` is the JSON of the snapshot.
  unfoldable pub insert_schema_snapshot_graph : Str → ℤ → SchemaSnapshot → Str → Statement
  insert_schema_snapshot_graph key captured snapshot payload rows =
      elim (validate_schema_snapshot snapshot) [
        | ok _ ↦
            with_transaction
              (insert_schema_snapshot_graph_inner database serialization decimal key captured
                snapshot payload none)
              rows
        | err issues ↦ (err (GraphStoreError.invalid_snapshot (validation_text issues)), rows)
      ]
