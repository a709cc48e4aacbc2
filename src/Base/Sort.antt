-- ===== src/Base/Sort.antt =====
-- A stable insertion sort, for `sort_by` and `sort_by_key`: `after a b` says that a comes after b.
use mathlib.Core.Logic.{inl, inr}
use mathlib.Core.Bool.{Bool, true, false}
use mathlib.Core.Path.{◌≡◌, refl, ap, ◌∙◌}
use mathlib.Core.List.{List, [], ◌∷◌, map, Perm}
use mathlib.Core.List.Perm
use rdb_memory_mcp.Base.Lists.{All}
use rdb_memory_mcp.Base.Tests.{if◌then◌else◌, Bool-cases}

module _ {ℓ} {A : Type ℓ} (after : A → A → Bool) where
  unfoldable pub insert_by : A → List A → List A
  insert_by x [] = x ∷ []
  insert_by x (y ∷ ys) = let rest = insert_by x ys in if after x y then y ∷ rest else x ∷ y ∷ ys

  unfoldable pub sort_by : List A → List A
  unfolding insert_by
  sort_by [] = []
  sort_by (x ∷ xs) = insert_by x (sort_by xs)

  All-insert_by {κ} :
      (P : A → Type κ) (x : A) (xs : List A) → P x → All P xs → All P (insert_by x xs)
  unfolding insert_by
  All-insert_by P x [] p ps = (p, ps)
  All-insert_by P x (y ∷ ys) p ps = elim (Bool-cases (after x y)) [
    | inl later ↦ rw later (ps.0, All-insert_by P x ys p ps.1)
    | inr before ↦ rw before (p, ps)
  ]

  pub All-sort_by {κ} : (P : A → Type κ) (xs : List A) → All P xs → All P (sort_by xs)
  unfolding sort_by
  All-sort_by P [] ps = ps
  All-sort_by P (x ∷ xs) ps = All-insert_by P x (sort_by xs) ps.0 (All-sort_by P xs ps.1)

  All-insert_by_back {κ} :
      (P : A → Type κ) (x : A) (xs : List A) → All P (insert_by x xs) → P x × All P xs
  unfolding insert_by
  All-insert_by_back P x [] ps = ps
  All-insert_by_back P x (y ∷ ys) ps = go (All-insert_by_back P x ys) (after x y) ps
    where
      go :
          (All P (insert_by x ys) → P x × All P ys)
          → (b : Bool) → All P (if b then y ∷ insert_by x ys else x ∷ y ∷ ys)
          → P x × (P y × All P ys)
      go back true qs = let (p, rest) = back qs.1 in (p, (qs.0, rest))
      go back false qs = (qs.0, qs.1)

  pub All-sort_by_back {κ} : (P : A → Type κ) (xs : List A) → All P (sort_by xs) → All P xs
  unfolding sort_by
  All-sort_by_back P [] ps = ps
  All-sort_by_back P (x ∷ xs) ps =
      let (p, rest) = All-insert_by_back P x (sort_by xs) ps in (p, All-sort_by_back P xs rest)

  insert_by-perm : (x : A) (xs : List A) → Perm (insert_by x xs) (x ∷ xs)
  unfolding insert_by
  insert_by-perm x [] = Perm.refl (x ∷ [])
  insert_by-perm x (y ∷ ys) = elim (Bool-cases (after x y)) [
    | inl later ↦ rw later (Perm.trans (Perm.cons y (insert_by-perm x ys)) (Perm.swap x y ys))
    | inr before ↦ rw before (Perm.refl (x ∷ y ∷ ys))
  ]

  -- Sorting keeps every item, as often as it was there.
  pub sort_by-perm : (xs : List A) → Perm (sort_by xs) xs
  unfolding sort_by
  sort_by-perm [] = Perm.refl []
  sort_by-perm (x ∷ xs) = Perm.trans (insert_by-perm x (sort_by xs)) (Perm.cons x (sort_by-perm xs))

-- No item comes after the one behind it.
module _ {ℓ} {A : Type ℓ} (after : A → A → Bool) where
  abbrev pub Before : A → List A → Type 0
  Before x [] = Unit
  Before x (y ∷ _) = after x y ≡ false

  abbrev pub IsSorted : List A → Type 0
  IsSorted [] = Unit
  IsSorted (x ∷ xs) = Before x xs × IsSorted xs

  insert_by-first : (x : A) (xs : List A) → Before x xs → insert_by after x xs ≡ x ∷ xs
  unfolding insert_by
  insert_by-first x [] h = refl
  insert_by-first x (y ∷ ys) h = rw h

  -- Sorting leaves a sorted list as it is.
  pub sort_by-IsSorted : (xs : List A) → IsSorted xs → sort_by after xs ≡ xs
  unfolding sort_by
  sort_by-IsSorted [] h = refl
  sort_by-IsSorted (x ∷ xs) h = rw (sort_by-IsSorted xs h.1) (insert_by-first x xs h.0)

  module _ (asym : (x y : A) → after x y ≡ true → after y x ≡ false) where
    Before-insert_by :
        (x y : A) (ys : List A) → after x y ≡ true → Before y ys → Before y (insert_by after x ys)
    unfolding insert_by
    Before-insert_by x y [] a h = asym x y a
    Before-insert_by x y (z ∷ ys) a h = go (after x z)
      where
        go : (b : Bool) → Before y (if b then z ∷ insert_by after x ys else x ∷ z ∷ ys)
        go true = h
        go false = asym x y a

    insert_by-keeps : (x : A) (xs : List A) → IsSorted xs → IsSorted (insert_by after x xs)
    unfolding insert_by
    insert_by-keeps x [] h = (tt, tt)
    insert_by-keeps x (y ∷ ys) h = go (insert_by-keeps x ys h.1) (after x y) refl
      where
        go :
            IsSorted (insert_by after x ys)
            → (b : Bool) → after x y ≡ b
            → IsSorted (if b then y ∷ insert_by after x ys else x ∷ y ∷ ys)
        go rest true e = (Before-insert_by x y ys e h.0, rest)
        go rest false e = (e, h)

    pub IsSorted-sort_by : (xs : List A) → IsSorted (sort_by after xs)
    unfolding sort_by
    IsSorted-sort_by [] = tt
    IsSorted-sort_by (x ∷ xs) = insert_by-keeps x (sort_by after xs) (IsSorted-sort_by xs)

    pub sort_by_idempotent : (xs : List A) → sort_by after (sort_by after xs) ≡ sort_by after xs
    sort_by_idempotent xs = sort_by-IsSorted (sort_by after xs) (IsSorted-sort_by xs)

-- A function that the order does not see past may be mapped before or after sorting.
module _ {ℓ κ} {A : Type ℓ} {B : Type κ} (f : A → B) (after : B → B → Bool) where
  insert_by-map :
      (x : A) (xs : List A)
      → insert_by after (f x) (map f xs) ≡ map f (insert_by (λ a b. after (f a) (f b)) x xs)
  unfolding insert_by
  insert_by-map x [] = refl
  insert_by-map x (y ∷ ys) = go (insert_by-map x ys) (after (f x) (f y))
    where
      go :
          insert_by after (f x) (map f ys) ≡ map f (insert_by (λ a b. after (f a) (f b)) x ys)
          → (b : Bool)
          → (if b then f y ∷ insert_by after (f x) (map f ys) else f x ∷ f y ∷ map f ys)
            ≡ map f (if b then y ∷ insert_by (λ a b. after (f a) (f b)) x ys else x ∷ y ∷ ys)
      go h true = ap (◌∷◌ (f y)) h
      go h false = refl

  pub sort_by-map :
      (xs : List A) → sort_by after (map f xs) ≡ map f (sort_by (λ a b. after (f a) (f b)) xs)
  unfolding sort_by
  sort_by-map [] = refl
  sort_by-map (x ∷ xs) =
      ap (insert_by after (f x)) (sort_by-map xs)
      ∙ insert_by-map x (sort_by (λ a b. after (f a) (f b)) xs)
