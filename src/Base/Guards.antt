-- ===== src/Base/Guards.antt =====
-- The guards of the checks: what it means that a guard lets an item pass.
use Prim.Native.Nat.{ℕ, ◌≤◌}
use mathlib.Core.Path.{◌≡◌, refl}
use mathlib.Core.Logic.{◌↔◌}
use mathlib.Core.Bool.{Bool, true, false, not, ◌||◌}
use mathlib.Core.Option.{Option, none, some, none-ne-some}
use mathlib.Core.List.{List, [], ◌∷◌}
use native.Mathlib.Omega.{arith}
use rdb_memory_mcp.Base.Tests.{ltb}
use rdb_memory_mcp.Base.Lists.{any, All}
use rdb_memory_mcp.Base.Text.{Str, str_eq, str_eq_iff, is_blank, byte_length, has_control}

-- `option.is_some()`.
abbrev pub is_some {ℓ} : {A : Type ℓ} → Option A → Bool
is_some none = false
is_some (some _) = true

-- `s.trim().is_empty() || s.len() > bound || s.chars().any(char::is_control)`.
abbrev pub bad_text : ℕ → Str → Bool
bad_text bound s = is_blank s || (ltb bound (byte_length s) || has_control s)

-- A text of at most `bound` bytes, not blank and without control characters.
abbrev pub IsBoundedText : ℕ → Str → Type 0
IsBoundedText bound s = (is_blank s ≡ false) × (byte_length s ≤ bound) × (has_control s ≡ false)

pub any_iff {ℓ κ} :
    {A : Type ℓ} {P : A → Type κ} (p : A → Bool)
    → ((x : A) → (p x ≡ false) ↔ P x)
    → (xs : List A) → (any p xs ≡ false) ↔ All P xs
any_iff p e [] = (λ _. tt, λ _. refl)
any_iff p e (x ∷ xs) =
    let (there, back) = any_iff p e xs in
    (
      λ h.
          let now : p x ≡ false = ground (arith, h) in
          let later : any p xs ≡ false = ground (arith, h) in ((e x).0 now, there later),
      λ h. let now = (e x).1 h.0 in let later = back h.1 in ground (arith, now, later),
    )

pub ltb_iff : (bound n : ℕ) → (ltb bound n ≡ false) ↔ (n ≤ bound)
ltb_iff bound n = (λ h. ground (arith, h), λ h. ground (arith, h))

pub or_iff {ℓ κ} :
    {P : Type ℓ} {Q : Type κ} (a b : Bool)
    → (a ≡ false) ↔ P
    → (b ≡ false) ↔ Q
    → ((a || b) ≡ false) ↔ (P × Q)
or_iff false b p q = (λ h. (p.0 refl, q.0 h), λ h. q.1 h.1)
or_iff true b p q = (λ h. absurd (ground (arith, h)), λ h. absurd (ground (arith, p.1 h.0)))

pub ne_iff : (s t : Str) → (not (str_eq s t) ≡ false) ↔ (s ≡ t)
ne_iff s t =
    (λ h. (str_eq_iff s t).0 (ground (arith, h)), λ e. ground (arith, (str_eq_iff s t).1 e))

pub not_iff : (b : Bool) → (not b ≡ false) ↔ (b ≡ true)
not_iff b = (λ h. ground (arith, h), λ h. ground (arith, h))

pub same_iff : (b : Bool) → (b ≡ false) ↔ (b ≡ false)
same_iff b = (λ h. h, λ h. h)

pub is_some_iff {ℓ} :
    {A : Type ℓ} (o : Option A) → (not (is_some o) ≡ false) ↔ ((a : A) × (o ≡ some a))
is_some_iff none = (λ h. absurd (ground (arith, h)), λ p. absurd (none-ne-some p.0 p.1))
is_some_iff (some a) = (λ _. (a, refl), λ _. refl)

pub or_split : (a b : Bool) → ((a || b) ≡ false) ↔ ((a ≡ false) × (b ≡ false))
or_split a b = (λ h. (ground (arith, h), ground (arith, h)), λ h. ground (arith, h.0, h.1))

pub is_some-none {ℓ} : {A : Type ℓ} (o : Option A) → (is_some o ≡ false) ↔ (o ≡ none)
is_some-none none = (λ _. refl, λ _. refl)
is_some-none (some a) = (λ h. absurd (ground (arith, h)), λ h. cc)

pub bad_text_iff : (bound : ℕ) (s : Str) → (bad_text bound s ≡ false) ↔ IsBoundedText bound s
bad_text_iff bound s = (
  λ h. (ground (arith, h), ground (arith, h), ground (arith, h)),
  λ h. ground (arith, h.0, h.1, h.2),
)
