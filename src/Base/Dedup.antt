-- ===== src/Base/Dedup.antt =====
-- `items.dedup()`, which drops an item equal to the last one kept, and sorting with it.
use mathlib.Core.Path.{◌≡◌, refl, subst, ap, ◌∙◌}
use mathlib.Core.Logic.{◌↔◌}
use mathlib.Core.Bool.{Bool, true, false}
use mathlib.Core.List.{List, [], ◌∷◌}
use rdb_memory_mcp.Base.Tests.{if◌then◌else◌}
use rdb_memory_mcp.Base.Sort.{sort_by, IsSorted, IsSorted-sort_by, sort_by-IsSorted}

module _ {ℓ} {A : Type ℓ} (same : A → A → Bool) where
  unfoldable pub dedup_from : A → List A → List A
  dedup_from x [] = []
  dedup_from x (y ∷ ys) =
      let dropped = dedup_from x ys in
      let kept = dedup_from y ys in if same y x then dropped else y ∷ kept

  unfoldable pub dedup : List A → List A
  dedup [] = []
  dedup (x ∷ xs) = x ∷ dedup_from x xs

  module _ (same_iff : (x y : A) → (same x y ≡ true) ↔ (x ≡ y)) where
    -- The list is a row of which no two neighbours are the same, after x.
    abbrev Changes : A → List A → Type 0
    Changes x [] = Unit
    Changes x (y ∷ ys) = (same y x ≡ false) × Changes y ys

    Changes-dedup_from : (x : A) (ys : List A) → Changes x (dedup_from x ys)
    unfolding dedup_from
    Changes-dedup_from x [] = tt
    Changes-dedup_from x (y ∷ ys) =
        go (Changes-dedup_from x ys) (Changes-dedup_from y ys) (same y x) refl
      where
        go :
            Changes x (dedup_from x ys)
            → Changes y (dedup_from y ys)
            → (b : Bool) → same y x ≡ b
            → Changes x (if b then dedup_from x ys else y ∷ dedup_from y ys)
        go dropped kept true e = dropped
        go dropped kept false e = (e, kept)

    dedup_from-Changes : (x : A) (ys : List A) → Changes x ys → dedup_from x ys ≡ ys
    unfolding dedup_from
    dedup_from-Changes x [] c = refl
    dedup_from-Changes x (y ∷ ys) c = rw c.0 (ap (◌∷◌ y) (dedup_from-Changes y ys c.1))

    pub dedup_idempotent : (xs : List A) → dedup (dedup xs) ≡ dedup xs
    unfolding dedup
    dedup_idempotent [] = refl
    dedup_idempotent (x ∷ xs) =
        ap (◌∷◌ x) (dedup_from-Changes x (dedup_from x xs) (Changes-dedup_from x xs))

    module _ (after : A → A → Bool) where
      dedup_from-keeps :
          (x : A) (ys : List A) → IsSorted after (x ∷ ys) → IsSorted after (x ∷ dedup_from x ys)
      unfolding dedup_from
      dedup_from-keeps x [] s = s
      dedup_from-keeps x (y ∷ ys) s =
          go
            (λ e.
              dedup_from-keeps x ys (subst (λ z. IsSorted after (z ∷ ys)) ((same_iff y x).0 e) s.1))
            (dedup_from-keeps y ys s.1) (same y x) refl
        where
          go :
              (same y x ≡ true → IsSorted after (x ∷ dedup_from x ys))
              → IsSorted after (y ∷ dedup_from y ys)
              → (b : Bool) → same y x ≡ b
              → IsSorted after (x ∷ (if b then dedup_from x ys else y ∷ dedup_from y ys))
          go dropped kept true e = dropped e
          go dropped kept false e = (s.0, kept)

      IsSorted-dedup : (xs : List A) → IsSorted after xs → IsSorted after (dedup xs)
      unfolding dedup
      IsSorted-dedup [] s = s
      IsSorted-dedup (x ∷ xs) s = dedup_from-keeps x xs s

      -- Sorting and dropping repetitions a second time changes nothing.
      pub dedup-sort_by_idempotent :
          ((x y : A) → after x y ≡ true → after y x ≡ false)
          → (xs : List A)
          → dedup (sort_by after (dedup (sort_by after xs))) ≡ dedup (sort_by after xs)
      dedup-sort_by_idempotent asym xs =
          let sorted = IsSorted-sort_by after asym xs in
          ap dedup (
            sort_by-IsSorted after (dedup (sort_by after xs))
              (IsSorted-dedup (sort_by after xs) sorted))
          ∙ dedup_idempotent (sort_by after xs)
