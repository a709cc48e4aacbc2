-- ===== src/Base/Fallible.antt =====
-- `Result<A, E>`: a computation with an error, and its `?` operator as a monad.
use mathlib.Core.Path.{◌≡◌, refl}
use mathlib.Core.Logic.{◌⊎◌, ◌↔◌, inl, inr}
use mathlib.Core.Bool.{Bool, true, false}
use mathlib.Core.List.{List, [], ◌∷◌}
use native.Mathlib.Omega.{arith}
use rdb_memory_mcp.Base.Tests.{if◌then◌else◌}
use rdb_memory_mcp.Base.Lists.{length, is_empty}

pub data Result {ℓ κ} (E : Type ℓ) (A : Type κ) : Type (ℓ ⊔ κ) where
  ok : A → Result E A
  err : E → Result E A

infixl 5 ◌>>=◌ ◌>>◌
abbrev pub ◌>>=◌ {ℓ κ μ} :
    {E : Type ℓ} {A : Type κ} {B : Type μ} → Result E A → (A → Result E B) → Result E B
ok a >>= f = f a
err e >>= f = err e

abbrev pub ◌>>◌ {ℓ κ} : {E : Type ℓ} {B : Type κ} → Result E (Unit {0}) → Result E B → Result E B
m >> k = m >>= λ _. k

pub Result-cases {ℓ κ} :
    {E : Type ℓ} {A : Type κ} (r : Result E A) → ((a : A) × (r ≡ ok a)) ⊎ ((e : E) × (r ≡ err e))
Result-cases (ok a) = inl (a, refl)
Result-cases (err e) = inr (e, refl)

-- `iter.map(f).collect::<Result<Vec<_>, _>>()`: the first error stops the iteration.
abbrev pub traverse {ℓ κ μ} :
    {E : Type ℓ} {A : Type κ} {B : Type μ} → (A → Result E B) → List A → Result E (List B)
traverse f [] = ok []
traverse f (x ∷ xs) = f x >>= λ y. traverse f xs >>= λ ys. ok (y ∷ ys)

pub traverse-eq-ok {ℓ κ μ} :
    {E : Type ℓ} {A : Type κ} {B : Type μ} (f : A → Result E B) (x : A) (xs : List A) {ys : List B}
    → traverse f (x ∷ xs) ≡ ok ys
    → (y : B) × (rest : List B) × (f x ≡ ok y) × (traverse f xs ≡ ok rest) × (ys ≡ y ∷ rest)
traverse-eq-ok f x xs h = elim (Result-cases (f x)) [
  | inl (y, e) ↦ elim (Result-cases (traverse f xs)) [
    | inl (rest, e') ↦ (y, rest, e, e', ground arith)
    | inr (b, e') ↦ absurd (ground arith)
  ]
  | inr (b, e) ↦ absurd (ground arith)
]

pub ok-injective {ℓ κ} :
    {E : Type ℓ} {A : Type κ} {a b : A} → ◌≡◌ {A = Result E A} (ok a) (ok b) → a ≡ b
ok-injective h = cc

pub err-ne-ok {ℓ κ} :
    {E : Type ℓ} {A : Type κ} {e : E} {a : A} → ¬ (◌≡◌ {A = Result E A} (err e) (ok a))
err-ne-ok h = cc

-- Inversion of a successful bind.
pub >>=-eq-ok {ℓ κ μ} :
    {E : Type ℓ} {A : Type κ} {B : Type μ} (first : Result E A) (next : A → Result E B) {y : B}
    → (first >>= next) ≡ ok y
    → (x : A) × (first ≡ ok x) × (next x ≡ ok y)
>>=-eq-ok (err e) next done = absurd (err-ne-ok done)
>>=-eq-ok (ok x) next done = (x, refl, done)

-- A guard with an error: what a success says of its test.
pub if_err-eq-ok {ℓ κ} :
    {E : Type ℓ} {A : Type κ} (b : Bool) (e : E) (r : Result E A) {a : A}
    → (if b then err e else r) ≡ ok a
    → (b ≡ false) × (r ≡ ok a)
if_err-eq-ok true e r h = absurd (err-ne-ok h)
if_err-eq-ok false e r h = (refl, h)

pub length-traverse {ℓ κ μ} :
    {E : Type ℓ} {A : Type κ} {B : Type μ} (f : A → Result E B) (xs : List A) (ys : List B)
    → traverse f xs ≡ ok ys
    → length ys ≡ length xs
length-traverse f [] ys h = ground arith
length-traverse f (x ∷ xs) ys h =
    let (y, rest, _, e, e') = traverse-eq-ok f x xs h in ground (arith, length-traverse f xs rest)

-- `if issues.is_empty() { Ok(()) } else { Err(issues) }`.
abbrev pub ok_if_empty {ℓ} : {A : Type ℓ} → List A → Result (List A) (Unit {0})
ok_if_empty issues = if is_empty issues then ok tt else err issues

-- The issues of such a result.
abbrev pub errors_of {ℓ} : {A : Type ℓ} → Result (List A) (Unit {0}) → List A
errors_of (ok _) = []
errors_of (err issues) = issues

pub if_empty {ℓ} : {A : Type ℓ} (xs : List A) → (ok_if_empty xs ≡ ok tt) ↔ (xs ≡ [])
if_empty [] = (λ _. refl, λ _. refl)
if_empty (x ∷ xs) = (λ h. cc, λ h. cc)

pub errors_of-ok_if_empty {ℓ} : {A : Type ℓ} (xs : List A) → errors_of (ok_if_empty xs) ≡ xs
errors_of-ok_if_empty [] = refl
errors_of-ok_if_empty (x ∷ xs) = refl
