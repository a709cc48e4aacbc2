-- ===== src/Snapshot/Equality.antt =====
-- The derived equality of the records, as a test.
use native.Mathlib.Decide.{ℕ_discrete}
use rdb_memory_mcp.Base.{◌≡◌, refl, ◌↔◌, Bool, true, false, arith}
use rdb_memory_mcp.Key.{ObjectKey}
use rdb_memory_mcp.Snapshot.Canonical.{CanonicalSchemaSnapshot, MetadataRelationshipKind}

-- `a == b`, from the decision.
abbrev pub equal {ℓ} : {A : Type ℓ} → Discrete A → A → A → Bool
equal d a b = elim (d a b) [ yes _ ↦ true | no _ ↦ false ]

pub equal_iff {ℓ} : {A : Type ℓ} (d : Discrete A) (a b : A) → (equal d a b ≡ true) ↔ (a ≡ b)
equal_iff d a b = go (d a b)
  where
    go : (e : Dec (a ≡ b)) → ((elim e [ yes _ ↦ true | no _ ↦ false ]) ≡ true) ↔ (a ≡ b)
    go (yes e) = (λ _. e, λ _. refl)
    go (no n) = (λ h. absurd (ground arith), λ e. absurd (n e))

unfoldable pub ObjectKey-discrete : Discrete ObjectKey
ObjectKey-discrete = hlevel (ℕ_discrete)

unfoldable pub MetadataRelationshipKind-discrete : Discrete MetadataRelationshipKind
MetadataRelationshipKind-discrete = hlevel (ℕ_discrete)

unfoldable pub CanonicalSchemaSnapshot-discrete : Discrete CanonicalSchemaSnapshot
CanonicalSchemaSnapshot-discrete = hlevel (ℕ_discrete)
