-- ===== src/Certification/Checks.antt =====
-- The loop over the capability checks and the loops over the counts: each reports nothing exactly if
-- its items are valid and named once.
use rdb_memory_mcp.Base.{
  ℕ, ◌≡◌, ◌≢◌, refl, ◌↔◌, sym, subst, Bool, true, false, not, ◌&&◌, ◌||◌, List, [], ◌∷◌, map, Str,
  str_eq, str_eq_iff, is_blank, member, has_duplicate, has_duplicate-false, member-true, All,
  Distinct, gather-nil, report_iff, report-nil, both_nil, iff_trans, not_iff, or_split, arith, Memᴰ,
}
use rdb_memory_mcp.Snapshot.Equality.{equal_iff}
use rdb_memory_mcp.Certification.Data.{CapabilityCheck, Reconciliation}
use rdb_memory_mcp.Certification.Labels.{Labels, same_category}
use rdb_memory_mcp.Certification.Run.{check_issues, names_after, validate_capability_checks}
use rdb_memory_mcp.Certification.Reconcile.{
  categories_of, row_mismatch, row_issues, rows_issues, reconciliation_issues,
}
use rdb_memory_mcp.Certification.Spec.{IsProofText, IsExact, Reconciles}
use rdb_memory_mcp.Certification.Correct.{
  require_non_empty_iff, require_discovery_evidence_iff, is_empty_iff,
}

abbrev pub AreProofTexts : CapabilityCheck → Type 0
AreProofTexts c = IsProofText c.name × IsProofText c.evidence

-- The guard of a name that may be blank, for one that is not.
fresh_iff : (blank held : Bool) → blank ≡ false → ((not blank && held) ≡ false) ↔ (held ≡ false)
fresh_iff true held e = absurd (ground (arith, e))
fresh_iff false held e = (λ h. h, λ h. h)

check_issues_iff :
    (names : List Str) (checks : List CapabilityCheck)
    → (check_issues names checks ≡ [])
      ↔ (All AreProofTexts checks × (has_duplicate str_eq names (map (λ c. c.name) checks) ≡ false))
unfolding check_issues has_duplicate
check_issues_iff names [] = (λ _. (tt, refl), λ _. refl)
check_issues_iff names (c ∷ checks) =
    iff_trans
      (both_nil (require_non_empty_iff _ c.name) (
        both_nil (require_non_empty_iff _ c.evidence) (
          both_nil (report-nil (not (is_blank c.name) && member str_eq c.name names) _)
            (check_issues_iff (names_after (is_blank c.name) c.name names) checks))))
      (there, back)
  where
    Rest : Bool → Type 0
    Rest blank =
        All AreProofTexts checks
        × (has_duplicate str_eq (names_after blank c.name names) (map (λ c. c.name) checks) ≡ false)

    Scan : Type 0
    Scan =
        (member str_eq c.name names
          || has_duplicate str_eq (c.name ∷ names) (map (λ c. c.name) checks))
        ≡ false

    Passed : Type 0
    Passed =
        IsProofText c.name
        × (IsProofText c.evidence
            × (((not (is_blank c.name) && member str_eq c.name names) ≡ false)
                × Rest (is_blank c.name)))

    there : Passed → (AreProofTexts c × All AreProofTexts checks) × Scan
    there (named, (evidence, (guard, rest))) =
        let (others, distinct) = subst Rest named.0 rest in
        (
          ((named, evidence), others),
          (or_split _ _).1 ((fresh_iff (is_blank c.name) _ named.0).0 guard, distinct),
        )

    back : (AreProofTexts c × All AreProofTexts checks) × Scan → Passed
    back (((named, evidence), others), scan) =
        let (fresh, distinct) = (or_split (member str_eq c.name names) _).0 scan in
        (
          named,
          (
            evidence,
            (
              (fresh_iff (is_blank c.name) _ named.0).1 fresh,
              subst Rest (sym named.0) (others, distinct),
            ),
          ),
        )

pub validate_capability_checks_iff :
    (checks : List CapabilityCheck)
    → (validate_capability_checks checks ≡ [])
      ↔ ((checks ≢ []) × (All AreProofTexts checks × Distinct (map (λ c. c.name) checks)))
unfolding validate_capability_checks
validate_capability_checks_iff checks =
    let distinct = has_duplicate-false str_eq str_eq_iff (map (λ c. c.name) checks) in
    let (there, back) = check_issues_iff [] checks in
    both_nil (report_iff _ _ (is_empty_iff checks)) (
      λ h. let (texts, scan) = there h in (texts, distinct.0 scan),
      λ h. back (h.0, distinct.1 h.1),
    )

module _ {C : Type 0} (labels : Labels C) (decimal : ℕ → Str) (emitted : C → ℕ) where
  row_mismatch_iff :
      (r : Reconciliation C)
      → (row_mismatch labels decimal emitted r ≡ false)
        ↔ ((r.discovered ≡ r.emitted) × (r.emitted ≡ emitted r.category))
  row_mismatch_iff r = (λ h. (ground (arith, h), ground (arith, h)), λ h. ground (arith, h.0, h.1))

  row_issues_iff :
      (seen : Bool) (r : Reconciliation C)
      → (row_issues labels decimal emitted seen r ≡ [])
        ↔ ((seen ≡ false) × (r.discovered ≡ r.emitted) × (r.emitted ≡ emitted r.category))
  unfolding row_issues
  row_issues_iff true r = (λ h. absurd (not-nil h), λ h. absurd (ground (arith, h.0)))
    where
      not-nil : ¬ (row_issues labels decimal emitted true r ≡ [])
      not-nil h = cc
  row_issues_iff false r =
      let (there, back) = report_iff _ _ (row_mismatch_iff r) in
      (λ h. let (same, exact) = there h in (refl, same, exact), λ h. back (h.1, h.2))

  rows_issues_iff :
      (seen : List C) (rows : List (Reconciliation C))
      → (rows_issues labels decimal emitted seen rows ≡ []) ↔ (
          All (λ r. IsExact emitted r) rows
          × (has_duplicate (same_category labels) seen (categories_of rows) ≡ false))
  unfolding rows_issues has_duplicate
  rows_issues_iff seen [] = (λ _. (tt, refl), λ _. refl)
  rows_issues_iff seen (r ∷ rows) =
      iff_trans
        (both_nil (require_discovery_evidence_iff _ r.evidence) (
          both_nil (row_issues_iff (member (same_category labels) r.category seen) r)
            (rows_issues_iff (r.category ∷ seen) rows)))
        (
          λ (evident, ((fresh, same, exact), (others, distinct))).
              (((evident, same, exact), others), (or_split _ _).1 (fresh, distinct)),
          λ (((evident, same, exact), others), scan).
              let (fresh, distinct) =
                (or_split (member (same_category labels) r.category seen) _).0 scan in
              (evident, ((fresh, same, exact), (others, distinct))),
        )

  pub reconciliation_issues_iff :
      (rows : List (Reconciliation C))
      → (reconciliation_issues labels decimal emitted rows ≡ [])
        ↔ Reconciles labels.categories emitted rows
  unfolding reconciliation_issues
  reconciliation_issues_iff rows =
      let same_iff = equal_iff labels.category_discrete in
      let distinct = has_duplicate-false (same_category labels) same_iff (categories_of rows) in
      iff_trans
        (both_nil (rows_issues_iff [] rows) (
          gather-nil {P = λ c. Memᴰ c (categories_of rows)} _
            (λ c. report_iff _ _ (
              iff_trans (not_iff _)
                (member-true (same_category labels) same_iff c (categories_of rows))))
            labels.categories))
        (
          λ ((exact, scan), complete). record {
            once = distinct.0 scan;
            exact = exact;
            complete = complete;
          },
          λ p. ((p.exact, distinct.1 p.once), p.complete),
        )
