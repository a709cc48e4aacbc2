-- ===== src/Base/Duplicates.antt =====
-- `items.any(|item| !seen.insert(item))`: whether an item occurs twice.
use mathlib.Core.Path.{◌≡◌, refl}
use mathlib.Core.Logic.{◌≢◌, ◌↔◌, inl, inr}
use mathlib.Core.Bool.{Bool, true, false, ◌||◌}
use mathlib.Core.List.{List, [], ◌∷◌, Memᴰ}
use mathlib.Core.List.Memᴰ
use rdb_memory_mcp.Base.Tests.{Bool-cases}
use native.Mathlib.Omega.{arith}
use rdb_memory_mcp.Base.Lists.{All, All-imp, All-both, All-of}
use rdb_memory_mcp.Base.Map.{member}

module _ {ℓ} {A : Type ℓ} where
  -- No two entries are equal.
  abbrev pub Distinct : List A → Type ℓ
  Distinct [] = Unit
  Distinct (x ∷ xs) = All (λ y. x ≢ y) xs × Distinct xs

module _ {ℓ} {A : Type ℓ} (beq : A → A → Bool) where
  unfoldable pub has_duplicate : List A → List A → Bool
  has_duplicate seen [] = false
  has_duplicate seen (x ∷ xs) = member beq x seen || has_duplicate (x ∷ seen) xs

module _ {ℓ} {A : Type ℓ} (beq : A → A → Bool)
    (beq_iff : (a b : A) → (beq a b ≡ true) ↔ (a ≡ b)) where
  pub member-false : (a : A) (xs : List A) → (member beq a xs ≡ false) ↔ All (λ x. x ≢ a) xs
  unfolding member
  member-false a [] = (λ _. tt, λ _. refl)
  member-false a (x ∷ xs) = ground (arith, beq_iff x a, member-false a xs)

  pub member-true : (a : A) (xs : List A) → (member beq a xs ≡ true) ↔ Memᴰ a xs
  unfolding member
  member-true a [] = (λ h. cc, λ m. elim m [ ])
  member-true a (x ∷ xs) = (
    λ h. elim (Bool-cases (beq x a)) [
      | inl e ↦ Memᴰ.head (ground (arith, beq_iff x a))
      | inr n ↦ Memᴰ.tail ((member-true a xs).0 (ground arith))
    ],
    λ m. elim (Memᴰ.cases_cons m) [
      | inl e ↦ ground (arith, beq_iff x a)
      | inr r ↦ let t = (member-true a xs).1 r in ground arith
    ],
  )

  pub has_duplicate-false_seen :
      (seen xs : List A)
      → (has_duplicate beq seen xs ≡ false) ↔ (All (λ x. All (λ s. s ≢ x) seen) xs × Distinct xs)
  unfolding has_duplicate
  has_duplicate-false_seen seen [] = (λ _. (tt, tt), λ _. refl)
  has_duplicate-false_seen seen (x ∷ xs) =
      let now = member-false x seen in
      let later = has_duplicate-false_seen (x ∷ seen) xs in
      (
        λ h.
            let new : member beq x seen ≡ false = ground arith in
            let more : has_duplicate beq (x ∷ seen) xs ≡ false = ground arith in
            let (fresh, distinct) = later.0 more in
            ((now.0 new, All-imp (λ _ p. p.1) xs fresh), (All-imp (λ _ p. p.0) xs fresh, distinct)),
        λ p.
            let new = now.1 p.0.0 in
            let more = later.1 (All-both _ _ xs p.1.0 p.0.1, p.1.1) in ground arith,
      )

  -- The scan finds no duplicate exactly if the entries are pairwise different.
  pub has_duplicate-false : (xs : List A) → (has_duplicate beq [] xs ≡ false) ↔ Distinct xs
  has_duplicate-false xs =
      let (there, back) = has_duplicate-false_seen [] xs in
      (λ h. (there h).1, λ d. back (All-of _ (λ _. tt) xs, d))
