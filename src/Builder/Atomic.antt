-- ===== src/Builder/Atomic.antt =====
-- Storing a certificate: it is all or nothing, and only the counts can refuse a valid one.
use rdb_memory_mcp.Base.{
  length, keep, str_eq, ap, Result-cases, err-ne-ok, sym, ℕ, ℤ, ◌≡◌, refl, not, ◌||◌, ◌⊎◌, inl, inr,
  some, Str, ok, err, Bool-cases, ◌==◌, arith,
}
use rdb_memory_mcp.Certification.Data.{CertifiedSchemaSnapshot}
use rdb_memory_mcp.Certification.Spec.{IsCertified}
use rdb_memory_mcp.Certification.Whole.{verify_certified_schema_snapshot_iff}
use rdb_memory_mcp.Graph.Store.{GraphStoreError, StoreResult}
use rdb_memory_mcp.Certification.Certify.{verify_certified_schema_snapshot}
use rdb_memory_mcp.Builder.Nodes.{Serialization, graph_nodes}
use rdb_memory_mcp.Builder.Edges.{graph_edges}
use rdb_memory_mcp.Builder.Projection.{certified_graph_projection_counts}
use rdb_memory_mcp.Builder.Rows.{
  Database, Rows, Statement, node_count_for_snapshot, edge_count_for_snapshot,
  verify_projection_counts, with_transaction, insert_schema_snapshot_graph_inner, snapshot_record,
}
use rdb_memory_mcp.Builder.Insert.{insert_and_verify, insert_certified_schema_snapshot_graph}
use rdb_memory_mcp.Builder.Replaced.{IsReplaced}
use rdb_memory_mcp.Builder.Stored.{>>-ok, insert_schema_snapshot_graph_inner-stores}

-- How a transaction ends.
with_transaction-of :
    (operation : Statement) (rows changed : Rows) (result : StoreResult (Unit {0}))
    → operation rows ≡ (result, changed)
    → with_transaction operation rows
      ≡ elim result [ ok _ ↦ (ok tt, changed) | err error ↦ (err error, rows) ]
unfolding with_transaction
with_transaction-of operation rows changed result h =
    ap (λ x. elim x.0 [ ok _ ↦ (ok tt, x.1) | err error ↦ (err error, rows) ]) h

module _ (database : Database) (serialization : Serialization) (decimal : ℕ → Str) (key : Str)
    (captured : ℤ) (c : CertifiedSchemaSnapshot) (payload : Str) (rows : Rows) where
  -- The rows with the graph in them are kept if they count what the certificate announces. If they
  -- do not, the error says what was counted, and the rows are those from before.
  abbrev pub KeepsOrRestores : Rows → Type 0
  KeepsOrRestores stored =
      let counts = certified_graph_projection_counts c in
      let nodes = length (keep (λ n. str_eq n.snapshot_key key) stored.nodes) in
      let edges = length (keep (λ e. str_eq e.snapshot_key key) stored.edges) in
      let result =
        insert_certified_schema_snapshot_graph database serialization decimal key captured c payload
          rows in
      ((nodes ≡ counts.objects) × (edges ≡ counts.graph_edges) × (result ≡ (ok tt, stored)))
      ⊎ (¬ ((nodes ≡ counts.objects) × (edges ≡ counts.graph_edges))
          × (result ≡ (
            err (GraphStoreError.projection_mismatch counts.objects nodes counts.graph_edges edges),
            rows,
          )))

  -- The rows that the inserts of a certificate leave: the graph in the place of the snapshot.
  abbrev pub HoldsGraph : Rows → Type 0
  HoldsGraph stored =
      (insert_schema_snapshot_graph_inner database serialization decimal key captured
          c.snapshot.schema payload (some c.snapshot.metadata) rows
        ≡ (ok tt, stored))
      × IsReplaced key
          (snapshot_record database serialization decimal key captured c.snapshot.schema payload)
          (graph_nodes serialization key c.snapshot.schema (some c.snapshot.metadata))
          (graph_edges serialization decimal key c.snapshot.schema (some c.snapshot.metadata)) rows
          stored

  insert_and_verify_lem :
      (stored : Rows) (result : StoreResult (Unit {0}))
      → IsCertified c
      → insert_schema_snapshot_graph_inner database serialization decimal key captured
          c.snapshot.schema payload
          (some c.snapshot.metadata)
          rows
        ≡ (ok tt, stored)
      → (let counts = certified_graph_projection_counts c in
          verify_projection_counts key counts.objects counts.graph_edges stored)
        ≡ (result, stored)
      → insert_certified_schema_snapshot_graph database serialization decimal key captured c payload
          rows
        ≡ elim result [ ok _ ↦ (ok tt, stored) | err error ↦ (err error, rows) ]
  unfolding insert_certified_schema_snapshot_graph insert_and_verify
  insert_and_verify_lem stored result valid done counted =
      let counts = certified_graph_projection_counts c in
      let verified = (verify_certified_schema_snapshot_iff decimal c).1 valid in
      let run =
        >>-ok
          (insert_schema_snapshot_graph_inner database serialization decimal key captured
            c.snapshot.schema payload (some c.snapshot.metadata))
          (verify_projection_counts key counts.objects counts.graph_edges) rows stored done
          counted in
      rw (verified, insert_certified_schema_snapshot_graph)
        (with_transaction-of
          (insert_and_verify database serialization decimal key captured c payload) rows stored
          result run)

  -- The inserts of a valid certificate with an accepted payload succeed and put its graph in the
  -- place of the snapshot. If the store then counts, under the key, the nodes and the edges that the
  -- certificate announces, that is what the store is left with. If a count differs, and only then,
  -- the certificate is refused with both counts, and the store is left as it was.
  pub insert_certified_schema_snapshot_graph-atomic :
      IsCertified c
      → database.validate_persisted_snapshot_payload payload ≡ ok tt
      → (stored : Rows) × HoldsGraph stored × KeepsOrRestores stored
  unfolding verify_projection_counts
  insert_certified_schema_snapshot_graph-atomic valid accepted =
      let (stored, done, held) =
        insert_schema_snapshot_graph_inner-stores database serialization decimal key captured
          c.snapshot payload rows valid.canonical accepted in
      let counts = certified_graph_projection_counts c in
      let nodes = node_count_for_snapshot key stored in
      let edges = edge_count_for_snapshot key stored in
      (
        stored,
        (done, held),
        elim (Bool-cases (not (nodes == counts.objects) || not (edges == counts.graph_edges))) [
          | inl differ ↦ inr (
            (λ agree. ground (arith, differ, agree)),
            insert_and_verify_lem stored
                (err (
                  GraphStoreError.projection_mismatch counts.objects nodes counts.graph_edges
                    edges))
                valid done (rw (differ, verify_projection_counts) refl),
          )
          | inr agree ↦ inl (
            ground (arith, agree),
            ground (arith, agree),
            insert_and_verify_lem stored (ok tt) valid done
                (rw (agree, verify_projection_counts) refl),
          )
        ],
      )

  -- Whatever fails, at whatever statement, the store is left as it was.
  pub insert_certified_schema_snapshot_graph-restores :
      (error : GraphStoreError)
      → (insert_certified_schema_snapshot_graph database serialization decimal key captured c
          payload rows).0
        ≡ err error
      → (insert_certified_schema_snapshot_graph database serialization decimal key captured c
          payload rows).1
        ≡ rows
  unfolding insert_certified_schema_snapshot_graph with_transaction
  insert_certified_schema_snapshot_graph-restores error h =
      elim (Result-cases (verify_certified_schema_snapshot decimal c)) [
        | inr (e, refused) ↦ rw (refused, insert_certified_schema_snapshot_graph) refl
        | inl (u, verified) ↦
            elim (Result-cases
              (insert_and_verify database serialization decimal key captured c payload rows).0) [
                | inr (e, stopped) ↦
                    rw (verified, stopped, insert_certified_schema_snapshot_graph, with_transaction)
                      refl
                | inl (u', done) ↦ absurd (
                    err-ne-ok (
                      sym (
                        rw
                          (verified, done, insert_certified_schema_snapshot_graph, with_transaction)
                          at h)))
              ]
      ]
