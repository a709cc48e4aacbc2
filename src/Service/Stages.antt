-- ===== src/Service/Stages.antt =====
-- When an analysis completes, and what its cancellation leaves.
use rdb_memory_mcp.Base.{
  ℕ, ◌≡◌, refl, ap, ◌∙◌, subst, ◌↔◌, inl, inr, Bool, true, false, Str, is_blank, Result, ok, err,
  Result-cases, Bool-cases, err-ne-ok, arith, ◌<◌,
}
use rdb_memory_mcp.Certification.Data.{CertifiedSchemaSnapshot}
use rdb_memory_mcp.Service.Outcome.{AnalysisFailure, AnalysisStage, AnalysisStatus, Redaction}
use rdb_memory_mcp.Service.Lifecycle.{
  IntrospectionRequest, CatalogDiscovery, AnalysisOutcome, complete, failed, status, Checkpoint,
  Certification, CatalogIntrospector, checkpoint, validate, default_discovery, certified_outcome,
  after_discovery_outcome, analyze_with_cancellation,
}

-- The request has an alias that is not blank and a bounded timeout.
abbrev pub IsValidRequest : IntrospectionRequest → Type 0
IsValidRequest request = (is_blank request.connection_alias ≡ false) × (0 < request.timeout_ms)

complete-injective : {s s' : CertifiedSchemaSnapshot} → complete s ≡ complete s' → s ≡ s'
complete-injective h = cc

failed-ne-complete : {f : AnalysisFailure} {s : CertifiedSchemaSnapshot} → ¬ (failed f ≡ complete s)
failed-ne-complete h = cc

-- No read says cancelled.
all_false :
    (observed : Checkpoint → Bool)
    → observed Checkpoint.before_adapter ≡ false
    → observed Checkpoint.before_discovery ≡ false
    → observed Checkpoint.after_discovery ≡ false
    → observed Checkpoint.after_adapter ≡ false
    → observed Checkpoint.after_certification ≡ false
    → (c : Checkpoint) → ¬ (observed c ≡ true)
all_false observed p q r s t Checkpoint.before_adapter h = cc
all_false observed p q r s t Checkpoint.before_discovery h = cc
all_false observed p q r s t Checkpoint.after_discovery h = cc
all_false observed p q r s t Checkpoint.after_adapter h = cc
all_false observed p q r s t Checkpoint.after_certification h = cc

module _ (redaction : Redaction) where
  validate_iff :
      (request : IntrospectionRequest) (source_kind : Str)
      → (validate redaction request source_kind ≡ ok tt) ↔ IsValidRequest request
  unfolding validate
  validate_iff request source_kind = (forward, λ h. ground (arith, h))
    where
      forward : validate redaction request source_kind ≡ ok tt → IsValidRequest request
      forward h = (ground (arith, h), ground (arith, h))

  checkpoint_iff :
      (b : Bool) (source_kind alias : Str) (stage : AnalysisStage)
      → (checkpoint redaction b source_kind alias stage ≡ ok tt) ↔ (b ≡ false)
  unfolding checkpoint
  checkpoint_iff b source_kind alias stage = (λ h. ground (arith, h), λ h. ground (arith, h))

  module _ (certification : Certification) (decimal : ℕ → Str) where
    certified_outcome_iff :
        (d : CatalogDiscovery) (s : CertifiedSchemaSnapshot)
        → (certified_outcome redaction certification decimal d ≡ complete s)
          ↔ ((certification.certify d ≡ ok s) × (certification.verify s ≡ ok tt))
    unfolding certified_outcome
    certified_outcome_iff d s = (forward, λ h. rw (h.0, h.1, certified_outcome) refl)
      where
        forward :
            certified_outcome redaction certification decimal d ≡ complete s
            → (certification.certify d ≡ ok s) × (certification.verify s ≡ ok tt)
        forward h = elim (Result-cases (certification.certify d)) [
          | inr (error, e) ↦ absurd (failed-ne-complete (rw (e, certified_outcome) at h))
          | inl (s', e) ↦ elim (Result-cases (certification.verify s')) [
            | inr (error, e') ↦ absurd (failed-ne-complete (rw (e, e', certified_outcome) at h))
            | inl (_, e') ↦
                let same : s' ≡ s = complete-injective (rw (e, e', certified_outcome) at h) in
                (e ∙ ap ok same, subst (λ r. certification.verify r ≡ ok tt) same e')
          ]
        ]

    module _ {A : Type 0} (adapter : CatalogIntrospector A) where
      abbrev Certifies : CatalogDiscovery → CertifiedSchemaSnapshot → Type 0
      Certifies d s = (certification.certify d ≡ ok s) × (certification.verify s ≡ ok tt)

      after_discovery_outcome-eq-complete :
          (observed : Checkpoint → Bool) (request : IntrospectionRequest)
          (found : Result AnalysisFailure CatalogDiscovery) (s : CertifiedSchemaSnapshot)
          → after_discovery_outcome redaction certification decimal adapter observed request found
            ≡ complete s
          → (observed Checkpoint.after_adapter ≡ false)
            × (observed Checkpoint.after_certification ≡ false)
            × ((d : CatalogDiscovery) × (found ≡ ok d) × Certifies d s)
      unfolding after_discovery_outcome checkpoint
      after_discovery_outcome-eq-complete observed request (err f) s h =
          absurd (failed-ne-complete h)
      after_discovery_outcome-eq-complete observed request (ok d) s h =
          elim (Bool-cases (observed Checkpoint.after_adapter)) [
            | inl stop ↦
                absurd (failed-ne-complete (rw (stop, after_discovery_outcome, checkpoint) at h))
            | inr on ↦ elim (Bool-cases (observed Checkpoint.after_certification)) [
              | inl stop ↦
                  absurd
                    (failed-ne-complete (rw (on, stop, after_discovery_outcome, checkpoint) at h))
              | inr on' ↦ (
                on,
                on',
                (
                  d,
                  refl,
                  (certified_outcome_iff d s).0
                      (rw (on, on', after_discovery_outcome, checkpoint) at h),
                ),
              )
            ]
          ]

      after_discovery_outcome-complete :
          (observed : Checkpoint → Bool) (request : IntrospectionRequest) (d : CatalogDiscovery)
          (s : CertifiedSchemaSnapshot)
          → observed Checkpoint.after_adapter ≡ false
          → observed Checkpoint.after_certification ≡ false
          → Certifies d s
          → after_discovery_outcome redaction certification decimal adapter observed request (ok d)
            ≡ complete s
      unfolding after_discovery_outcome checkpoint
      after_discovery_outcome-complete observed request d s on on' c =
          rw (on, on', after_discovery_outcome, checkpoint) ((certified_outcome_iff d s).1 c)

      analyze_with_cancellation-eq-complete :
          (observed : Checkpoint → Bool) (request : IntrospectionRequest) (a : A)
          (s : CertifiedSchemaSnapshot)
          → (analyze_with_cancellation redaction certification decimal adapter observed request a).0
            ≡ complete s
          → IsValidRequest request
            × (observed Checkpoint.before_adapter ≡ false)
            × (after_discovery_outcome redaction certification decimal adapter observed request
                  (adapter.discover_with_cancellation observed request a).0
                ≡ complete s)
      unfolding analyze_with_cancellation checkpoint
      analyze_with_cancellation-eq-complete observed request a s h =
          elim (Result-cases (validate redaction request adapter.source_kind)) [
            | inr (f, e) ↦ absurd (failed-ne-complete (rw (e, analyze_with_cancellation) at h))
            | inl (_, e) ↦ elim (Bool-cases (observed Checkpoint.before_adapter)) [
              | inl stop ↦
                  absurd
                    (failed-ne-complete (rw (e, stop, analyze_with_cancellation, checkpoint) at h))
              | inr on ↦ (
                (validate_iff request adapter.source_kind).0 e,
                on,
                rw (e, on, analyze_with_cancellation, checkpoint) at h,
              )
            ]
          ]

      -- An analysis completes with a snapshot exactly if the request is valid, the service saw no
      -- cancellation at any of its three checkpoints, the adapter found something, and certification
      -- made the snapshot of it and verified it.
      pub analyze_with_cancellation_iff :
          (observed : Checkpoint → Bool) (request : IntrospectionRequest) (a : A)
          (s : CertifiedSchemaSnapshot)
          → ((analyze_with_cancellation redaction certification decimal adapter observed request
                a).0
              ≡ complete s)
            ↔ (IsValidRequest request
                × (observed Checkpoint.before_adapter ≡ false)
                × (observed Checkpoint.after_adapter ≡ false)
                × (observed Checkpoint.after_certification ≡ false)
                × ((d : CatalogDiscovery) × ((adapter.discover_with_cancellation observed request
                        a).0
                      ≡ ok d)
                    × (certification.certify d ≡ ok s)
                    × (certification.verify s ≡ ok tt)))
      unfolding analyze_with_cancellation checkpoint
      analyze_with_cancellation_iff observed request a s = (
        λ h.
            let (valid, on, rest) = analyze_with_cancellation-eq-complete observed request a s h in
            let (on', on'', (d, found, c)) =
              after_discovery_outcome-eq-complete observed request _ s rest in
            (valid, on, on', on'', (d, found, c.0, c.1)),
        λ h.
            let (valid, on, on', on'', (d, found, c, v)) = h in
            rw
              (
                (validate_iff request adapter.source_kind).1 valid,
                on,
                found,
                analyze_with_cancellation,
                checkpoint,
              )
              (after_discovery_outcome-complete observed request d s on' on'' (c, v)),
      )

  -- With the default body of `discover_with_cancellation`, a discovery that is found saw no
  -- cancellation.
  default_discovery-eq-ok :
      {A : Type 0} (source_kind : Str)
      (discover : IntrospectionRequest → A → Result AnalysisFailure CatalogDiscovery × A)
      (observed : Checkpoint → Bool) (request : IntrospectionRequest) (a : A) (d : CatalogDiscovery)
      → (default_discovery redaction source_kind discover observed request a).0 ≡ ok d
      → (observed Checkpoint.before_discovery ≡ false)
        × (observed Checkpoint.after_discovery ≡ false)
  unfolding default_discovery checkpoint
  default_discovery-eq-ok source_kind discover observed request a d h =
      elim (Bool-cases (observed Checkpoint.before_discovery)) [
        | inl stop ↦ absurd (err-ne-ok (rw (stop, default_discovery, checkpoint) at h))
        | inr on ↦ elim (Result-cases (discover request a).0) [
          | inr (f, e) ↦ absurd (err-ne-ok (rw (on, e, default_discovery, checkpoint) at h))
          | inl (d', e) ↦ elim (Bool-cases (observed Checkpoint.after_discovery)) [
            | inl stop ↦ absurd (err-ne-ok (rw (on, e, stop, default_discovery, checkpoint) at h))
            | inr on' ↦ (on, on')
          ]
        ]
      ]

  outcome-failed :
      (o : AnalysisOutcome)
      → ((s : CertifiedSchemaSnapshot) → ¬ (o ≡ complete s))
      → status o ≡ AnalysisStatus.failed
  unfolding status
  outcome-failed (complete s) h = absurd (h s refl)
  outcome-failed (failed f) h = refl

  -- With an adapter that has the default body, a cancellation seen at any of the five checkpoints
  -- makes the analysis fail, whatever the other reads, discovery and certification return.
  pub analyze_with_cancellation-cancelled :
      {A : Type 0} (certification : Certification) (decimal : ℕ → Str) (source_kind : Str)
      (discover : IntrospectionRequest → A → Result AnalysisFailure CatalogDiscovery × A)
      (observed : Checkpoint → Bool) (request : IntrospectionRequest) (a : A) (c : Checkpoint)
      → observed c ≡ true
      → status
          (analyze_with_cancellation redaction certification decimal
            (record {
              source_kind = source_kind;
              discover = discover;
              discover_with_cancellation = default_discovery redaction source_kind discover;
            })
            observed
            request
            a).0
        ≡ AnalysisStatus.failed
  analyze_with_cancellation-cancelled certification decimal source_kind discover observed request a
        c stop =
      outcome-failed _ (λ s h.
        let adapter : CatalogIntrospector _ = record {
          source_kind = source_kind;
          discover = discover;
          discover_with_cancellation = default_discovery redaction source_kind discover;
        } in
        let (_, at_start, at_end, certified, (d, found, _, _)) =
          (analyze_with_cancellation_iff certification decimal adapter observed request a s).0 h in
        let (before, after) =
          default_discovery-eq-ok source_kind discover observed request a d found in
        all_false observed at_start before after at_end certified c stop)
