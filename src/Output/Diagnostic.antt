-- ===== src/Output/Diagnostic.antt =====
-- The diagnostics of src/output/mod.rs: `Diagnostic`, `ErrorDiagnostic` and their checks.
pub mod Laws
use styrn.Common.{
  ℕ, Bool, true, false, not, ◌&&◌, ◌||◌, Option, none, some, String, List, [], ◌∷◌, all, Result, ok,
  err, ◌==◌, if◌then◌else◌,
}
use styrn.Common.Text.{codes, empty_text, is_lower, is_digit, split}
use styrn.Json.Defs.{Value, is_object}
use styrn.Output.Code.{ErrorCode}

pub data OutputError : Type 0 where
  empty_command invalid_success_data missing_failure_error : OutputError
  invalid_diagnostic_code empty_diagnostic_message invalid_diagnostic_details : OutputError
  invalid_workflow_command serialize write : OutputError

pub record Diagnostic : Type 0 where
  pub code : String
  pub message : String
  pub details : Option Value

pub record ErrorDiagnostic : Type 0 where
  pub code : ErrorCode
  pub message : String
  pub details : Option Value

valid_code_segment : List ℕ → Bool
valid_code_segment [] = false
valid_code_segment (c ∷ cs) = is_lower c && all (λ x. is_lower x || is_digit x || x == b'_') cs

-- `segments.next().is_some() && !first.is_empty() && …all(valid_code_segment)`, on the segments.
valid_segments : List (List ℕ) → Bool
valid_segments [] = false
valid_segments (first ∷ []) = false
valid_segments ([] ∷ second ∷ more) = false
valid_segments (first ∷ second ∷ more) = all valid_code_segment (first ∷ second ∷ more)

unfoldable pub is_diagnostic_code : String → Bool
unfolding valid_segments valid_code_segment split
is_diagnostic_code code = valid_segments (split b'.' (codes code))

abbrev pub bad_details : Option Value → Bool
bad_details none = false
bad_details (some v) = not (is_object v)

unfoldable pub Diagnostic_new : String → String → Option Value → Result OutputError Diagnostic
Diagnostic_new code message details =
    if not (is_diagnostic_code code)
    then err invalid_diagnostic_code
    else if empty_text message
    then err empty_diagnostic_message
    else if bad_details details
    then err invalid_diagnostic_details
    else ok (record { code = code; message = message; details = details })

unfoldable pub ErrorDiagnostic_new :
    ErrorCode → String → Option Value → Result OutputError ErrorDiagnostic
ErrorDiagnostic_new code message details =
    if empty_text message
    then err empty_diagnostic_message
    else if bad_details details
    then err invalid_diagnostic_details
    else ok (record { code = code; message = message; details = details })
