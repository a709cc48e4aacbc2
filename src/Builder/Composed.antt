-- ===== src/Builder/Composed.antt =====
-- From the request to the store: what a complete analysis certifies is valid, so the builder can
-- store it.
use rdb_memory_mcp.Base.{ℕ, ℤ, ◌≡◌, Bool, Str, ok}
use rdb_memory_mcp.Certification.Data.{CertifiedSchemaSnapshot}
use rdb_memory_mcp.Certification.Spec.{IsCertified}
use rdb_memory_mcp.Certification.Analysis.{
  certification, issued_iff, issued-IsCertified, analyze_with_cancellation-certifies,
}
use rdb_memory_mcp.Service.Outcome.{Redaction}
use rdb_memory_mcp.Service.Lifecycle.{
  IntrospectionRequest, complete, Checkpoint, CatalogIntrospector, analyze_with_cancellation,
}
use rdb_memory_mcp.Builder.Nodes.{Serialization}
use rdb_memory_mcp.Builder.Rows.{Database, Rows}
use rdb_memory_mcp.Builder.Atomic.{
  HoldsGraph, KeepsOrRestores, insert_certified_schema_snapshot_graph-atomic,
}

module _ (redaction : Redaction) (decimal : ℕ → Str) {A : Type 0}
    (adapter : CatalogIntrospector A) where
  analyze_with_cancellation-IsCertified :
      (observed : Checkpoint → Bool) (request : IntrospectionRequest) (a : A)
      (s : CertifiedSchemaSnapshot)
      → (analyze_with_cancellation redaction
          (certification decimal)
          decimal
          adapter
          observed
          request
          a).0
        ≡ complete s
      → IsCertified s
  analyze_with_cancellation-IsCertified observed request a s h =
      let (_, _, _, _, (d, _, issued)) =
        (analyze_with_cancellation-certifies redaction decimal adapter observed request a s).0 h in
      issued-IsCertified decimal d s ((issued_iff decimal d s).1 issued)

  -- What a complete analysis certifies can be inserted: with an accepted payload no insert fails, and
  -- they put the graph of the certificate in the place of the snapshot. The store is left with that
  -- if it counts the nodes and the edges that the certificate announces; if a count differs, and only
  -- then, the certificate is refused and the store is left as it was.
  pub analyze_with_cancellation-stores :
      (observed : Checkpoint → Bool) (request : IntrospectionRequest) (a : A)
      (s : CertifiedSchemaSnapshot) (database : Database) (serialization : Serialization)
      (key : Str) (captured : ℤ) (payload : Str) (rows : Rows)
      → (analyze_with_cancellation redaction
          (certification decimal)
          decimal
          adapter
          observed
          request
          a).0
        ≡ complete s
      → database.validate_persisted_snapshot_payload payload ≡ ok tt
      → (stored : Rows) × HoldsGraph database serialization decimal key captured s payload rows
          stored
        × KeepsOrRestores database serialization decimal key captured s payload rows stored
  analyze_with_cancellation-stores observed request a s database serialization key captured payload
        rows h accepted =
      insert_certified_schema_snapshot_graph-atomic database serialization decimal key captured s
        payload rows (analyze_with_cancellation-IsCertified observed request a s h) accepted
