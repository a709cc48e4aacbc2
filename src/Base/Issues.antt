-- ===== src/Base/Issues.antt =====
-- Functions that push issues to a list, as the issues that they push.
use mathlib.Core.Path.{◌≡◌, refl}
use mathlib.Core.Logic.{◌↔◌}
use mathlib.Core.Bool.{Bool, true, false}
use mathlib.Core.List.{List, [], ◌∷◌, ◌++◌}
use native.Mathlib.Omega.{arith}
use rdb_memory_mcp.Base.Lists.{All, All-append}

module _ {ℓ} {I : Type ℓ} where
  -- `if test { issues.push(issue) }`.
  abbrev pub report : Bool → I → List I
  report true issue = issue ∷ []
  report false issue = []

  pub report-nil : (test : Bool) (issue : I) → (report test issue ≡ []) ↔ (test ≡ false)
  report-nil true issue = (λ h. absurd (cons-ne-nil h), λ h. absurd (ground arith))
    where
      cons-ne-nil : ¬ (issue ∷ [] ≡ [])
      cons-ne-nil h = cc
  report-nil false issue = (λ _. refl, λ _. refl)

  pub append-nil_iff : (xs ys : List I) → (xs ++ ys ≡ []) ↔ ((xs ≡ []) × (ys ≡ []))
  append-nil_iff [] ys = (λ h. (refl, h), λ h. h.1)
  append-nil_iff (x ∷ xs) ys = (λ h. absurd (not-nil h), λ h. absurd (not-nil' h.0))
    where
      not-nil : ¬ (x ∷ (xs ++ ys) ≡ [])
      not-nil h = cc

      not-nil' : ¬ (x ∷ xs ≡ [])
      not-nil' h = cc

  -- One list of issues, then another: both are empty.
  pub both_nil {κ μ} :
      {P : Type κ} {Q : Type μ} {xs ys : List I}
      → (xs ≡ []) ↔ P
      → (ys ≡ []) ↔ Q
      → (xs ++ ys ≡ []) ↔ (P × Q)
  both_nil {xs = xs} {ys = ys} p q = (
    λ h. let (a, b) = (append-nil_iff xs ys).0 h in (p.0 a, q.0 b),
    λ h. (append-nil_iff xs ys).1 (p.1 h.0, q.1 h.1),
  )

-- `for item in items { … }`.
abbrev pub gather {ℓ κ} : {A : Type ℓ} {I : Type κ} → (A → List I) → List A → List I
gather f [] = []
gather f (x ∷ xs) = f x ++ gather f xs

pub gather-nil {ℓ κ μ} :
    {A : Type ℓ} {I : Type κ} {P : A → Type μ} (f : A → List I)
    → ((x : A) → (f x ≡ []) ↔ P x)
    → (xs : List A) → (gather f xs ≡ []) ↔ All P xs
gather-nil f each [] = (λ _. tt, λ _. refl)
gather-nil f each (x ∷ xs) = both_nil (each x) (gather-nil f each xs)

pub iff_trans {ℓ κ μ} : {P : Type ℓ} {Q : Type κ} {R : Type μ} → P ↔ Q → Q ↔ R → P ↔ R
iff_trans p q = (λ h. q.0 (p.0 h), λ h. p.1 (q.1 h))

-- A guarded issue, where the guard is read as a condition.
pub report_iff {ℓ κ} :
    {I : Type ℓ} {P : Type κ} (test : Bool) (issue : I)
    → (test ≡ false) ↔ P
    → (report test issue ≡ []) ↔ P
report_iff test issue p = iff_trans (report-nil test issue) p

pub All-gather {ℓ κ μ} :
    {A : Type ℓ} {I : Type κ} (P : I → Type μ) (f : A → List I) (xs : List A)
    → All (λ x. All P (f x)) xs
    → All P (gather f xs)
All-gather P f [] h = tt
All-gather P f (x ∷ xs) h = All-append P (f x) (gather f xs) h.0 (All-gather P f xs h.1)
