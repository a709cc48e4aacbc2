-- ===== src/Certification/Discovered.antt =====
-- The discovered counts: they are accepted exactly if they are those that the snapshot emits, and
-- then the rows made of them reconcile.
use rdb_memory_mcp.Base.{
  ℕ, ◌≡◌, refl, ◌↔◌, sym, ap, ◌∙◌, subst, true, false, Option, none, some, List, [], ◌∷◌, Str,
  str_cmp, str_cmp_reverse, has_duplicate, has_duplicate-false, member, ◌==◌, All, All-imp,
  Distinct, Memᴰ, report_iff, both_nil, gather-nil, iff_trans, not_iff, arith,
}
use rdb_memory_mcp.Snapshot.Equality.{equal, equal_iff}
use rdb_memory_mcp.Snapshot.Normalize.{then_cmp}
use rdb_memory_mcp.Snapshot.Normalize.Laws.{is_gt_asym, then_cmp_reverse}
use rdb_memory_mcp.Certification.Data.{DiscoveredCount, CapabilityCheck, Reconciliation}
use rdb_memory_mcp.Certification.Counts.{
  all_objects, all_relationships, ObjectCategory-discrete, RelationshipCategory-discrete,
}
use rdb_memory_mcp.Certification.Labels.{Labels, same_category}
use rdb_memory_mcp.Certification.Run.{check_after}
use rdb_memory_mcp.Certification.Reconcile.{
  find_entry, discovery_issues, all_discovery_issues, push_row, reconciliations, categories_of,
}
use rdb_memory_mcp.Certification.Spec.{IsProofText, IsExact, Reconciles}
use rdb_memory_mcp.Certification.Correct.{require_discovery_evidence_iff}

-- The adapter discovered as many as the snapshot emits, with evidence.
abbrev pub IsDiscovered : ℕ → Option DiscoveredCount → Type 0
IsDiscovered emitted none = ⊥
IsDiscovered emitted (some d) = IsProofText d.evidence × (d.count ≡ emitted)

abbrev pub Discovers : {C : Type 0} → Labels C → (C → ℕ) → List (C × DiscoveredCount) → Type 0
Discovers labels emitted discovered =
    All (λ c. IsDiscovered (emitted c) (find_entry (same_category labels) c discovered))
      labels.categories

module _ {C : Type 0} (labels : Labels C) (decimal : ℕ → Str) (emitted : C → ℕ) where
  discovery_issues_iff :
      (c : C) (found : Option DiscoveredCount)
      → (discovery_issues labels decimal emitted c found ≡ []) ↔ IsDiscovered (emitted c) found
  unfolding discovery_issues
  discovery_issues_iff c none = (λ h. absurd (not-nil h), λ h. absurd h)
    where
      not-nil : ¬ (discovery_issues labels decimal emitted c none ≡ [])
      not-nil h = cc
  discovery_issues_iff c (some d) =
      both_nil (require_discovery_evidence_iff _ d.evidence)
        (report_iff _ _ (iff_trans (not_iff (d.count == emitted c)) count_iff))
    where
      count_iff : ((d.count == emitted c) ≡ true) ↔ (d.count ≡ emitted c)
      count_iff = ground arith

  pub all_discovery_issues_iff :
      (discovered : List (C × DiscoveredCount))
      → (all_discovery_issues labels decimal emitted discovered ≡ [])
        ↔ Discovers labels emitted discovered
  all_discovery_issues_iff discovered =
      gather-nil _ (λ c. discovery_issues_iff c (find_entry (same_category labels) c discovered))
        labels.categories

  push_row_lem :
      (c : C) (found : Option DiscoveredCount) (rows : List (Reconciliation C))
      → IsDiscovered (emitted c) found
      → All (λ r. IsExact emitted r) rows
      → (categories_of (push_row labels decimal emitted c found rows) ≡ c ∷ categories_of rows)
        × All (λ r. IsExact emitted r) (push_row labels decimal emitted c found rows)
  unfolding push_row
  push_row_lem c none rows h exact = absurd h
  push_row_lem c (some d) rows h exact = (refl, ((h.0, h.1, refl), exact))

  reconciliations_lem :
      (discovered : List (C × DiscoveredCount)) (cs : List C)
      → All (λ c. IsDiscovered (emitted c) (find_entry (same_category labels) c discovered)) cs
      → (categories_of (reconciliations labels decimal emitted discovered cs) ≡ cs)
        × All (λ r. IsExact emitted r) (reconciliations labels decimal emitted discovered cs)
  unfolding reconciliations
  reconciliations_lem discovered [] h = (refl, tt)
  reconciliations_lem discovered (c ∷ cs) h =
      let (same, exact) = reconciliations_lem discovered cs h.1 in
      let (same', exact') = push_row_lem c _ _ h.0 exact in (same' ∙ ap (λ ds. c ∷ ds) same, exact')

  All-Memᴰ {ℓ} : {A : Type ℓ} (xs : List A) → All (λ x. Memᴰ x xs) xs
  All-Memᴰ [] = tt
  All-Memᴰ (x ∷ xs) = (Memᴰ.head refl, All-imp (λ y m. Memᴰ.tail m) xs (All-Memᴰ xs))

  -- The rows of a discovery that fits reconcile.
  pub reconciliations-Reconciles :
      (discovered : List (C × DiscoveredCount))
      → Distinct labels.categories
      → Discovers labels emitted discovered
      → Reconciles labels.categories emitted
          (reconciliations labels decimal emitted discovered labels.categories)
  reconciliations-Reconciles discovered distinct h =
      let (same, exact) = reconciliations_lem discovered labels.categories h in
      record {
        once = subst Distinct (sym same) distinct;
        exact = exact;
        complete =
            subst (λ cs. All (λ c. Memᴰ c cs) labels.categories) (sym same)
              (All-Memᴰ labels.categories);
      }

pub all_objects-Distinct : Distinct all_objects
unfolding has_duplicate member ObjectCategory-discrete
all_objects-Distinct =
    (has_duplicate-false (equal ObjectCategory-discrete) (equal_iff ObjectCategory-discrete)
        all_objects).0
      refl

pub all_relationships-Distinct : Distinct all_relationships
unfolding has_duplicate member RelationshipCategory-discrete
all_relationships-Distinct =
    (has_duplicate-false (equal RelationshipCategory-discrete)
        (equal_iff RelationshipCategory-discrete) all_relationships).0
      refl

pub check_after_asym : (a b : CapabilityCheck) → check_after a b ≡ true → check_after b a ≡ false
unfolding check_after
check_after_asym a b =
    is_gt_asym (then_cmp (str_cmp a.name b.name) (str_cmp a.evidence b.evidence))
      (then_cmp (str_cmp b.name a.name) (str_cmp b.evidence a.evidence))
      (then_cmp_reverse _ _ _ _ (str_cmp_reverse a.name b.name)
        (str_cmp_reverse a.evidence b.evidence))
