-- ===== src/Base/Map.antt =====
-- `BTreeMap<String, V>` as the list of its entries in the order of their keys, and `BTreeSet` as
-- a list whose order is never read.
use Prim.Native.Nat.{compare, Ordering}
use Prim.Native.Nat.Ordering.{lt, eq, gt}
use mathlib.Core.Logic.{◌≢◌}
use mathlib.Core.Path.{◌≡◌, refl, ap, ◌∙◌}
use mathlib.Core.Bool.{Bool, true, false, ◌||◌}
use mathlib.Core.Option.{Option, none, some}
use mathlib.Core.List.{List, [], ◌∷◌}
use native.Mathlib.Omega.{arith}
use rdb_memory_mcp.Base.Tests.{if◌then◌else◌}
use rdb_memory_mcp.Base.Text.{Str, str_eq, str_eq_iff}

-- The order of texts: that of their code points, which is that of their UTF-8 bytes.
unfoldable pub str_cmp : Str → Str → Ordering
str_cmp [] [] = eq
str_cmp [] (y ∷ ys) = lt
str_cmp (x ∷ xs) [] = gt
str_cmp (x ∷ xs) (y ∷ ys) =
    let rest = str_cmp xs ys in elim (compare x y) [ lt ↦ lt | eq ↦ rest | gt ↦ gt ]

pub eq_of_str_cmp : (s t : Str) → str_cmp s t ≡ eq → s ≡ t
unfolding str_cmp
eq_of_str_cmp [] [] h = refl
eq_of_str_cmp [] (y ∷ ys) h = cc
eq_of_str_cmp (x ∷ xs) [] h = cc
eq_of_str_cmp (x ∷ xs) (y ∷ ys) h = ground (arith, eq_of_str_cmp xs ys)

pub str_cmp_refl : (s : Str) → str_cmp s s ≡ eq
unfolding str_cmp
str_cmp_refl [] = refl
str_cmp_refl (x ∷ xs) = ground (arith, str_cmp_refl xs)

-- The order the other way round.
abbrev pub reverse_cmp : Ordering → Ordering
reverse_cmp lt = gt
reverse_cmp eq = eq
reverse_cmp gt = lt

pub str_cmp_reverse : (s t : Str) → str_cmp t s ≡ reverse_cmp (str_cmp s t)
unfolding str_cmp
str_cmp_reverse [] [] = refl
str_cmp_reverse [] (y ∷ ys) = refl
str_cmp_reverse (x ∷ xs) [] = refl
str_cmp_reverse (x ∷ xs) (y ∷ ys) = ground (arith, str_cmp_reverse xs ys)

pub str_cmp_flip : (s t : Str) → str_cmp s t ≡ gt → str_cmp t s ≡ lt
str_cmp_flip s t h = str_cmp_reverse s t ∙ ap reverse_cmp h

module _ {ℓ} {V : Type ℓ} where
  -- `map.get(key)`.
  unfoldable pub get : Str → List (Str × V) → Option V
  get k [] = none
  get k ((j, v) ∷ m) = if str_eq j k then some v else get k m

  -- `map.insert(key, value)`: at its place in the order, over an older value.
  unfoldable pub insert : Str → V → List (Str × V) → List (Str × V)
  insert k v [] = (k, v) ∷ []
  insert k v ((j, w) ∷ m) =
      let rest = insert k v m in
      elim (str_cmp k j) [ lt ↦ (k, v) ∷ (j, w) ∷ m | eq ↦ (k, v) ∷ m | gt ↦ (j, w) ∷ rest ]

  unfoldable pub values : List (Str × V) → List V
  values [] = []
  values ((_, v) ∷ m) = v ∷ values m

  pub get-insert :
      (k j : Str) (v : V) (m : List (Str × V))
      → get j (insert k v m) ≡ (if str_eq k j then some v else get j m)
  unfolding get insert
  get-insert k j v [] = refl
  get-insert k j v ((i, w) ∷ m) = ground (
    arith,
    str_eq_iff k j,
    str_eq_iff i k,
    str_eq_iff i j,
    eq_of_str_cmp k i,
    str_cmp_refl k,
    get-insert k j v m,
  )

module _ {ℓ} {A : Type ℓ} (beq : A → A → Bool) where
  -- `set.contains(a)`.
  unfoldable pub member : A → List A → Bool
  member a [] = false
  member a (x ∷ xs) = beq x a || member a xs

pub member_head : (k : Str) (ks : List Str) → member str_eq k (k ∷ ks) ≡ true
unfolding member
member_head k ks = ground (arith, str_eq_iff k k)

pub member_tail :
    (k j : Str) (ks : List Str) → member str_eq k ks ≡ true → member str_eq k (j ∷ ks) ≡ true
unfolding member
member_tail k j ks h = ground arith

pub ne_of_members :
    (k j : Str) (ks : List Str) → member str_eq k ks ≡ true → member str_eq j ks ≡ false → k ≢ j
ne_of_members k j ks h n e = ground (arith, h, n)
