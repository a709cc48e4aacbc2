-- ===== src/Base/Same.antt =====
-- Two lists without repetition that hold the same items have the same sums.
use Prim.Native.Nat.{ℕ, ◌+◌}
use mathlib.Core.Path.{◌≡◌, refl, sym, ap, ◌∙◌}
use mathlib.Core.Logic.{◌≢◌, inl, inr}
use mathlib.Core.List.{List, [], ◌∷◌, Memᴰ}
use mathlib.Core.List.Memᴰ
use native.Mathlib.Omega.{arith}
use rdb_memory_mcp.Base.Lists.{All, All-imp, All-both, All-mem}
use rdb_memory_mcp.Base.Duplicates.{Distinct}
use rdb_memory_mcp.Base.Sums.{sum_of}

module _ {ℓ} {A : Type ℓ} where
  -- The list with one occurrence of an item taken out.
  without : {x : A} {xs : List A} → Memᴰ x xs → List A
  without (Memᴰ.head {x = y} {xs = ys} e) = ys
  without (Memᴰ.tail {x = y} {xs = ys} m) = y ∷ without m

  sum_of-without :
      (f : A → ℕ) {x : A} {xs : List A} (m : Memᴰ x xs) → sum_of f xs ≡ f x + sum_of f (without m)
  unfolding without
  sum_of-without f {x} (Memᴰ.head {x = y} {xs = ys} e) = ap (λ z. f z + sum_of f ys) (sym e)
  sum_of-without f {x} (Memᴰ.tail {x = y} {xs = ys} m) = omega (arith, sum_of-without f m)

  All-without {κ} :
      (P : A → Type κ) {x : A} {xs : List A} (m : Memᴰ x xs) → All P xs → All P (without m)
  unfolding without
  All-without P (Memᴰ.head {x = y} {xs = ys} e) h = h.1
  All-without P (Memᴰ.tail {x = y} {xs = ys} m) h = (h.0, All-without P m h.1)

  Distinct-without :
      {x : A} {xs : List A} (m : Memᴰ x xs)
      → Distinct xs
      → Distinct (without m) × All (λ y. x ≢ y) (without m)
  unfolding without
  Distinct-without {x} (Memᴰ.head {x = y} {xs = ys} e) d =
      (d.1, All-imp (λ z n p. n (sym e ∙ p)) ys d.0)
  Distinct-without {x} (Memᴰ.tail {x = y} {xs = ys} m) d =
      let (rest, differ) = Distinct-without m d.1 in
      ((All-without (λ z. y ≢ z) m d.0, rest), ((λ p. All-mem (λ z. y ≢ z) d.0 m (sym p)), differ))

  Memᴰ-without : {x y : A} {xs : List A} (m : Memᴰ x xs) → Memᴰ y xs → x ≢ y → Memᴰ y (without m)
  unfolding without
  Memᴰ-without (Memᴰ.head {x = z} {xs = zs} e) k n = elim (Memᴰ.cases_cons k) [
    | inl p ↦ absurd (n (e ∙ sym p))
    | inr r ↦ r
  ]
  Memᴰ-without (Memᴰ.tail {x = z} {xs = zs} m) k n = elim (Memᴰ.cases_cons k) [
    | inl p ↦ Memᴰ.head p
    | inr r ↦ Memᴰ.tail (Memᴰ-without m r n)
  ]

  behind : {x y : A} {xs : List A} → Memᴰ y (x ∷ xs) → x ≢ y → Memᴰ y xs
  behind k n = elim (Memᴰ.cases_cons k) [ inl p ↦ absurd (n (sym p)) | inr r ↦ r ]

  pub sum_of-same :
      (f : A → ℕ) (xs ys : List A)
      → Distinct xs
      → Distinct ys
      → All (λ z. Memᴰ z ys) xs
      → All (λ z. Memᴰ z xs) ys
      → sum_of f xs ≡ sum_of f ys
  sum_of-same f [] [] dx dy sub sup = refl
  sum_of-same f [] (y ∷ ys) dx dy sub sup = absurd (elim sup.0 [ ])
  sum_of-same f (x ∷ xs) ys dx dy sub sup =
      let m = sub.0 in
      let (distinct, differ) = Distinct-without m dy in
      let inside =
        All-imp (λ z p. Memᴰ-without m p.0 p.1) xs (All-both _ (λ z. x ≢ z) xs sub.1 dx.0) in
      let outside =
        All-imp (λ z p. behind p.0 p.1) (without m)
          (All-both (λ z. Memᴰ z (x ∷ xs)) (λ z. x ≢ z) (without m)
            (All-without (λ z. Memᴰ z (x ∷ xs)) m sup) differ) in
      omega (arith, sum_of-without f m, sum_of-same f xs (without m) dx.1 distinct inside outside)
