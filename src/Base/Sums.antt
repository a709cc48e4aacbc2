-- ===== src/Base/Sums.antt =====
-- Sums over lists, and the lengths that they are.
use Prim.Native.Nat.{ℕ, ◌+◌}
use mathlib.Core.Path.{◌≡◌, refl}
use mathlib.Core.Bool.{Bool, true, false}
use mathlib.Core.List.{List, [], ◌∷◌, ◌++◌, map}
use native.Mathlib.Omega.{arith}
use rdb_memory_mcp.Base.Lists.{length, length-append}
use rdb_memory_mcp.Base.Tests.{if◌then◌else◌}
use rdb_memory_mcp.Base.Sort.{insert_by, sort_by}
use rdb_memory_mcp.Base.Issues.{gather}

-- `iter().map(f).sum()`.
abbrev pub sum_of {ℓ} : {A : Type ℓ} → (A → ℕ) → List A → ℕ
sum_of f [] = 0
sum_of f (x ∷ xs) = f x + sum_of f xs

module _ {ℓ} {A : Type ℓ} (after : A → A → Bool) (f : A → ℕ) where
  sum_of-insert_by : (x : A) (xs : List A) → sum_of f (insert_by after x xs) ≡ f x + sum_of f xs
  unfolding insert_by
  sum_of-insert_by x [] = refl
  sum_of-insert_by x (y ∷ xs) = go (sum_of-insert_by x xs) (after x y)
    where
      go :
          sum_of f (insert_by after x xs) ≡ f x + sum_of f xs
          → (b : Bool)
          → sum_of f (if b then y ∷ insert_by after x xs else x ∷ y ∷ xs)
            ≡ f x + (f y + sum_of f xs)
      go later true = omega (arith, later)
      go later false = refl

  -- Sorting keeps the sum.
  pub sum_of-sort_by : (xs : List A) → sum_of f (sort_by after xs) ≡ sum_of f xs
  unfolding sort_by
  sum_of-sort_by [] = refl
  sum_of-sort_by (x ∷ xs) = omega (arith, sum_of-insert_by x (sort_by after xs), sum_of-sort_by xs)

pub sum_of-one {ℓ} : {A : Type ℓ} (xs : List A) → sum_of (λ _. 1) xs ≡ length xs
sum_of-one [] = refl
sum_of-one (x ∷ xs) = omega (arith, sum_of-one xs)

pub length-map {ℓ κ} :
    {A : Type ℓ} {B : Type κ} (f : A → B) (xs : List A) → length (map f xs) ≡ length xs
length-map f [] = refl
length-map f (x ∷ xs) = omega (arith, length-map f xs)

pub length-sort_by {ℓ} :
    {A : Type ℓ} (after : A → A → Bool) (xs : List A) → length (sort_by after xs) ≡ length xs
length-sort_by after xs =
    omega (arith, sum_of-one (sort_by after xs), sum_of-one xs, sum_of-sort_by after (λ _. 1) xs)

pub length-map_append {ℓ κ} :
    {A : Type ℓ} {B : Type κ} (f : A → B) (xs : List A) (ys : List B)
    → length (map f xs ++ ys) ≡ length xs + length ys
length-map_append f xs ys = omega (arith, length-append (map f xs) ys, length-map f xs)

pub length-gather {ℓ κ} :
    {A : Type ℓ} {B : Type κ} (f : A → List B) (xs : List A)
    → length (gather f xs) ≡ sum_of (λ x. length (f x)) xs
length-gather f [] = refl
length-gather f (x ∷ xs) = omega (arith, length-append (f x) (gather f xs), length-gather f xs)

-- A list that is sorted, mapped, and followed by another.
pub length-map_sorted {ℓ κ} :
    {A : Type ℓ} {B : Type κ} (f : A → B) (after : A → A → Bool) (xs : List A) (ys : List B)
    → length (map f (sort_by after xs) ++ ys) ≡ length xs + length ys
length-map_sorted f after xs ys =
    omega (arith, length-map_append f (sort_by after xs) ys, length-sort_by after xs)

-- A list that is sorted, expanded, and followed by another.
pub length-gather_sorted {ℓ κ} :
    {A : Type ℓ} {B : Type κ} (f : A → List B) (after : A → A → Bool) (xs : List A) (ys : List B)
    → length (gather f (sort_by after xs) ++ ys) ≡ sum_of (λ x. length (f x)) xs + length ys
length-gather_sorted f after xs ys = omega (
  arith,
  length-append (gather f (sort_by after xs)) ys,
  length-gather f (sort_by after xs),
  sum_of-sort_by after (λ x. length (f x)) xs,
)

pub length-gather_all {ℓ κ} :
    {A : Type ℓ} {B : Type κ} (f : A → List B) (after : A → A → Bool) (xs : List A)
    → length (gather f (sort_by after xs)) ≡ sum_of (λ x. length (f x)) xs
length-gather_all f after xs =
    omega (arith, length-gather f (sort_by after xs), sum_of-sort_by after (λ x. length (f x)) xs)
