-- ===== src/Service/Truncate.antt =====
-- The cut of a text: at a character boundary, within the bound, and as late as that allows.
use mathlib.Core.List.{append-nil}
use rdb_memory_mcp.Base.{
  ℕ, zero, suc, ◌+◌, ◌-◌, ◌≤◌, ◌<◌, ◌≡◌, refl, ap, Bool, true, false, Option, [], ◌∷◌, ◌++◌, Str,
  byte_length, len_utf8, leb, Bool-cases, inl, inr, arith, subst, if◌then◌else◌,
}
use rdb_memory_mcp.Service.Outcome.{
  is_char_boundary, boundary_below, slice_to, truncate_utf8, Redaction, redacted, bounded_redacted,
  AnalysisFailureCode, AnalysisStage,
}

len_utf8_positive : (c : ℕ) → 0 < len_utf8 c
len_utf8_positive c = ground arith

byte_length-slice_to :
    (s : Str) (i : ℕ) → is_char_boundary s i ≡ true → byte_length (slice_to s i) ≡ i
unfolding is_char_boundary slice_to byte_length
byte_length-slice_to [] i h = ground arith
byte_length-slice_to (c ∷ s) i h =
    ground (arith, len_utf8_positive c, byte_length-slice_to s (i - len_utf8 c))

slice_to-prefix : (s : Str) (i : ℕ) → (rest : Str) × (slice_to s i ++ rest ≡ s)
unfolding slice_to
slice_to-prefix [] i = ([], refl)
slice_to-prefix (c ∷ s) i = go (slice_to-prefix s (i - len_utf8 c)) (leb (len_utf8 c) i)
  where
    go :
        (rest : Str) × (slice_to s (i - len_utf8 c) ++ rest ≡ s)
        → (b : Bool)
        → (rest : Str) × ((if b then c ∷ slice_to s (i - len_utf8 c) else []) ++ rest ≡ c ∷ s)
    go (rest, e) true = (rest, λ j. c ∷ e j)
    go rest false = (c ∷ s, refl)

boundary_zero : (s : Str) → is_char_boundary s 0 ≡ true
unfolding is_char_boundary
boundary_zero [] = refl
boundary_zero (c ∷ s) = refl

boundary_below-IsBoundary :
    (s : Str) (n : ℕ) → (is_char_boundary s (boundary_below s n) ≡ true) × (boundary_below s n ≤ n)
unfolding boundary_below
boundary_below-IsBoundary s zero = (boundary_zero s, omega arith)
boundary_below-IsBoundary s (suc n) = elim (Bool-cases (is_char_boundary s (suc n))) [
  | inl e ↦ rw e (e, omega arith)
  | inr e ↦ let (b, le) = boundary_below-IsBoundary s n in rw e (b, omega arith)
]

boundary_below-latest :
    (s : Str) (n m : ℕ) → is_char_boundary s m ≡ true → m ≤ n → m ≤ boundary_below s n
unfolding boundary_below
boundary_below-latest s zero m b le = omega arith
boundary_below-latest s (suc n) m b le = ground (arith, boundary_below-latest s n m b)

byte_length-append : (p q : Str) → byte_length (p ++ q) ≡ byte_length p + byte_length q
unfolding byte_length
byte_length-append [] q = omega arith
byte_length-append (c ∷ p) q = omega (arith, byte_length-append p q)

byte_length-boundary : (p q : Str) → is_char_boundary (p ++ q) (byte_length p) ≡ true
unfolding is_char_boundary byte_length
byte_length-boundary [] q = boundary_zero q
byte_length-boundary (c ∷ p) q =
    let e : len_utf8 c + byte_length p - len_utf8 c ≡ byte_length p = omega arith in
    ground (arith, byte_length-boundary p q, e)

-- The cut text is a prefix of the text, has at most the given number of bytes, and no prefix within
-- that number of bytes is longer.
pub truncate_utf8_lem :
    (value : Str) (max_bytes : ℕ)
    → ((rest : Str) × (truncate_utf8 value max_bytes ++ rest ≡ value))
      × (byte_length (truncate_utf8 value max_bytes) ≤ max_bytes)
      × ((p q : Str)
          → p ++ q ≡ value
          → byte_length p ≤ max_bytes
          → byte_length p ≤ byte_length (truncate_utf8 value max_bytes))
unfolding truncate_utf8
truncate_utf8_lem value max_bytes = elim (Bool-cases (leb (byte_length value) max_bytes)) [
  | inl fits ↦ rw fits (([], append-nil value), ground arith, whole)
  | inr long ↦ rw long (
    slice_to-prefix value cut,
    omega (arith, size),
    λ p q e le. omega (arith, size, latest p q e le),
  )
]
  where
    cut : ℕ
    cut = boundary_below value max_bytes

    size : (byte_length (slice_to value cut) ≡ cut) × (cut ≤ max_bytes)
    size =
        let (b, le) = boundary_below-IsBoundary value max_bytes in
        (byte_length-slice_to value cut b, le)

    latest : (p q : Str) → p ++ q ≡ value → byte_length p ≤ max_bytes → byte_length p ≤ cut
    latest p q e le =
        boundary_below-latest value max_bytes (byte_length p)
          (subst (λ s. is_char_boundary s (byte_length p) ≡ true) e (byte_length-boundary p q)) le

    whole :
        (p q : Str) → p ++ q ≡ value → byte_length p ≤ max_bytes → byte_length p ≤ byte_length value
    whole p q e le = omega (arith, byte_length-append p q, ap byte_length e)

-- Whatever redaction returns, no text of a failure exceeds 8192 bytes.
pub redacted-bounded :
    (redaction : Redaction) (code : AnalysisFailureCode) (stage : AnalysisStage)
    (source_kind connection_alias message remediation : Str) (retryable : Bool)
    (connection_string : Option Str)
    → let f =
        redacted redaction code stage source_kind connection_alias message remediation retryable
          connection_string in
      (byte_length f.source_kind ≤ 8192)
      × (byte_length f.connection_alias ≤ 8192)
      × (byte_length f.message ≤ 8192)
      × (byte_length f.remediation ≤ 8192)
unfolding redacted bounded_redacted
redacted-bounded redaction code stage source_kind connection_alias message remediation retryable c =
    (cut source_kind, cut connection_alias, cut message, cut remediation)
  where
    cut : (value : Str) → byte_length (bounded_redacted redaction value c) ≤ 8192
    cut value = (truncate_utf8_lem _ 8192).1
