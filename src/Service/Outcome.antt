-- ===== src/Service/Outcome.antt =====
-- `AnalysisFailure` and the cut of its texts, from analysis_outcome.rs. What redaction does with a
-- text is a parameter.
use rdb_memory_mcp.Base.{
  ℕ, zero, suc, ◌-◌, Bool, ◌&&◌, ◌||◌, Option, [], ◌∷◌, Str, byte_length, len_utf8, leb, ◌==◌,
  if◌then◌else◌,
}

pub data AnalysisStatus : Type 0 where
  complete failed : AnalysisStatus

pub data AnalysisFailureCode : Type 0 where
  invalid_configuration unsafe_source driver_unavailable connection_failed : AnalysisFailureCode
  authentication_failed permission_denied unsupported_product : AnalysisFailureCode
  unsupported_version unsupported_metadata metadata_query_failed : AnalysisFailureCode
  metadata_mapping_failed validation_failed completeness_mismatch timeout : AnalysisFailureCode
  cancelled storage_failed internal : AnalysisFailureCode

pub data AnalysisStage : Type 0 where
  configuration connection capability_probe discovery mapping validation persistence : AnalysisStage

pub record AnalysisFailure : Type 0 where
  pub code : AnalysisFailureCode
  pub stage : AnalysisStage
  pub source_kind : Str
  pub connection_alias : Str
  pub message : Str
  pub remediation : Str
  pub retryable : Bool

-- `MAX_FAILURE_TEXT_BYTES`.
abbrev pub max_failure_text_bytes : ℕ
max_failure_text_bytes = 8192

-- `value.is_char_boundary(i)`.
unfoldable pub is_char_boundary : Str → ℕ → Bool
is_char_boundary [] i = i == 0
is_char_boundary (c ∷ s) i = i == 0 || (leb (len_utf8 c) i && is_char_boundary s (i - len_utf8 c))

-- The loop that goes down from a byte index to a boundary; the index 0 is one.
unfoldable pub boundary_below : Str → ℕ → ℕ
boundary_below s zero = zero
boundary_below s (suc n) =
    let lower = boundary_below s n in if is_char_boundary s (suc n) then suc n else lower

-- `value[..i]` at a boundary i.
unfoldable pub slice_to : Str → ℕ → Str
slice_to [] i = []
slice_to (c ∷ s) i =
    let rest = slice_to s (i - len_utf8 c) in if leb (len_utf8 c) i then c ∷ rest else []

unfoldable pub truncate_utf8 : Str → ℕ → Str
truncate_utf8 value max_bytes =
    if leb (byte_length value) max_bytes
    then value
    else slice_to value (boundary_below value max_bytes)

-- The two functions of redact.rs that hide secrets in a text.
pub record Redaction : Type 0 where
  pub redact_connection_string : Str → Str
  pub redact_error_with_connection_string : Str → Str → Str

module _ (redaction : Redaction) where
  unfoldable pub bounded_redacted : Str → Option Str → Str
  bounded_redacted value connection_string =
      truncate_utf8
        (elim connection_string [
          | Option.none ↦ redaction.redact_connection_string value
          | Option.some c ↦ redaction.redact_error_with_connection_string value c
        ])
        max_failure_text_bytes

  -- `AnalysisFailure::redacted`.
  unfoldable pub redacted :
      AnalysisFailureCode
      → AnalysisStage
      → Str
      → Str
      → Str
      → Str
      → Bool
      → Option Str
      → AnalysisFailure
  redacted code stage source_kind connection_alias message remediation retryable connection_string =
      record {
        code = code;
        stage = stage;
        source_kind = bounded_redacted source_kind connection_string;
        connection_alias = bounded_redacted connection_alias connection_string;
        message = bounded_redacted message connection_string;
        remediation = bounded_redacted remediation connection_string;
        retryable = retryable;
      }
