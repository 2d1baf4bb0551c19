-- ===== src/Tools/Result.antt =====
-- `StructuredToolResult` of tools.py, and what raises.
use canis.Prelude.{Bool, true, false, Option, none, some, [], Text, ℤ}
use canis.Tools.Json.{Json, null, str}

pub data StructuredToolResultStatus : Type 0 where
  success error no_data approval_required : StructuredToolResultStatus

abbrev pub status_eq : StructuredToolResultStatus → StructuredToolResultStatus → Bool
status_eq success success = true
status_eq error error = true
status_eq no_data no_data = true
status_eq approval_required approval_required = true
status_eq _ _ = false

-- `P` is the type of a tool's arguments.
pub record StructuredToolResult (P : Type 0) : Type 0 where
  pub status : StructuredToolResultStatus
  pub error_text : Option Text
  pub return_code : Option ℤ
  pub result_data : Json
  pub url : Option Text
  pub invocation : Option Text
  pub params : Option P
  pub icon_url : Option Text

-- `StructuredToolResult(status=ERROR, error=…, params=…)`
abbrev pub error_result : {P : Type 0} → Text → Option P → StructuredToolResult P
error_result message params = record {
  status = error;
  error_text = some message;
  return_code = none;
  result_data = null;
  url = none;
  invocation = none;
  params = params;
  icon_url = none;
}

-- The text of the data and whether it is JSON, with `dumps` for `json.dumps` (compact or not).
unfoldable pub stringify_data :
    {P : Type 0} → (Bool → Json → Text) → StructuredToolResult P → Bool → Text × Bool
stringify_data dumps result compact = elim result.result_data [
  | null ↦ ([], false)
  | str s ↦ (s, false)
  | other ↦ (dumps compact other, true)
]

unfoldable pub get_stringified_data :
    {P : Type 0} → (Bool → Json → Text) → StructuredToolResult P → Text
unfolding stringify_data
get_stringified_data dumps result = (stringify_data dumps result true).0

-- A value, or an exception with its text.
pub data Outcome {ℓ} (A : Type ℓ) : Type ℓ where
  returned : A → Outcome A
  raised : Text → Outcome A
