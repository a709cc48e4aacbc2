-- ===== src/Certification/Reconcile.antt =====
-- The loops over the categories, for objects and for relationships: `certify_schema_snapshot`
-- compares the discovered with the emitted counts, `validate_count_reconciliation` the rows of a
-- certificate with the counts that its snapshot emits. `decimal` prints a number.
use rdb_memory_mcp.Base.{
  ℕ, Bool, true, false, not, ◌||◌, Option, none, some, List, [], ◌∷◌, ◌++◌, map, Str, codes, member,
  ◌==◌, report, gather, if◌then◌else◌,
}
use rdb_memory_mcp.Certification.Data.{DiscoveredCount, Reconciliation}
use rdb_memory_mcp.Certification.Labels.{Labels, same_category}
use rdb_memory_mcp.Certification.Run.{Issues, issue, require_discovery_evidence}

-- `map.get(&key)`.
unfoldable pub find_entry : {C V : Type 0} → (C → C → Bool) → C → List (C × V) → Option V
find_entry same c [] = none
find_entry same c ((d, v) ∷ rest) =
    let later = find_entry same c rest in if same c d then some v else later

abbrev pub categories_of : {C : Type 0} → List (Reconciliation C) → List C
categories_of rows = map (λ r. r.category) rows

module _ {C : Type 0} (labels : Labels C) (decimal : ℕ → Str) (emitted : C → ℕ) where
  -- What the loop of `certify_schema_snapshot` reports for a category.
  unfoldable pub discovery_issues : C → Option DiscoveredCount → Issues
  discovery_issues c (some discovery) =
      require_discovery_evidence (labels.subject c) discovery.evidence
      ++ report (not (discovery.count == emitted c)) (
          issue labels.mismatch (labels.subject c) (
            codes "discovered "
            ++ (decimal discovery.count ++ (labels.items ++ decimal (emitted c)))))
  discovery_issues c none =
      issue labels.discovered_missing (labels.subject c) labels.discovered_missing_message ∷ []

  abbrev pub all_discovery_issues : List (C × DiscoveredCount) → Issues
  all_discovery_issues discovered =
      gather (λ c. discovery_issues c (find_entry (same_category labels) c discovered))
        labels.categories

  -- The row that it pushes.
  unfoldable pub push_row :
      C → Option DiscoveredCount → List (Reconciliation C) → List (Reconciliation C)
  push_row c none rows = rows
  push_row c (some discovery) rows =
      record {
        category = c;
        discovered = discovery.count;
        emitted = emitted c;
        evidence = discovery.evidence;
      }
      ∷ rows

  unfoldable pub reconciliations : List (C × DiscoveredCount) → List C → List (Reconciliation C)
  reconciliations discovered [] = []
  reconciliations discovered (c ∷ cs) =
      push_row c (find_entry (same_category labels) c discovered) (reconciliations discovered cs)

  abbrev pub row_mismatch : Reconciliation C → Bool
  row_mismatch r = not (r.discovered == r.emitted) || not (r.emitted == emitted r.category)

  -- The check of a row, which ends early for a category that was seen.
  unfoldable pub row_issues : Bool → Reconciliation C → Issues
  row_issues true r =
      issue labels.duplicate (labels.subject r.category) labels.duplicate_message ∷ []
  row_issues false r = report (row_mismatch r) (
      issue labels.mismatch (labels.subject r.category) (
        codes "discovered "
        ++ (decimal r.discovered
            ++ (codes ", declared emitted "
                ++ (decimal r.emitted
                    ++ (codes ", actual emitted " ++ decimal (emitted r.category)))))))

  -- The loop over the rows, with the categories seen.
  unfoldable pub rows_issues : List C → List (Reconciliation C) → Issues
  rows_issues seen [] = []
  rows_issues seen (r ∷ rows) =
      require_discovery_evidence (labels.subject r.category) r.evidence
      ++ (row_issues (member (same_category labels) r.category seen) r
          ++ rows_issues (r.category ∷ seen) rows)

  -- The loop over the rows and then over the categories: those seen are those of the rows.
  unfoldable pub reconciliation_issues : List (Reconciliation C) → Issues
  reconciliation_issues rows =
      rows_issues [] rows
      ++ gather
          (λ c.
            report (not (member (same_category labels) c (categories_of rows)))
              (issue labels.missing (labels.subject c) labels.missing_message))
          labels.categories
