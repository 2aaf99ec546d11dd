-- ===== src/Output/Diagnostic/Laws.antt =====
-- The diagnostics of src/output/mod.rs and the codes they may have.
use styrn.Common.{◌≡◌, refl, true, false, Option, String, ok, arith}
use styrn.Common.Text.{empty_text}
use styrn.Json.Defs.{Value}
use styrn.Output.Code.{ErrorCode, usage_invalid_argument, as_str}
use styrn.Output.Diagnostic.{
  Diagnostic, ErrorDiagnostic, is_diagnostic_code, bad_details, Diagnostic_new, ErrorDiagnostic_new,
}

-- What the private fields of a `Diagnostic` keep true.
pub record DiagnosticIsValid (d : Diagnostic) : Type 0 where
  pub named : is_diagnostic_code d.code ≡ true
  pub spoken : empty_text d.message ≡ false
  pub detailed : bad_details d.details ≡ false

pub record ErrorDiagnosticIsValid (d : ErrorDiagnostic) : Type 0 where
  pub spoken : empty_text d.message ≡ false
  pub detailed : bad_details d.details ≡ false

pub Diagnostic_new-IsValid :
    (code message : String) (details : Option Value) (d : Diagnostic)
    → Diagnostic_new code message details ≡ ok d
    → DiagnosticIsValid d
unfolding Diagnostic_new
Diagnostic_new-IsValid code message details d h = ground arith

pub ErrorDiagnostic_new-IsValid :
    (code : ErrorCode) (message : String) (details : Option Value) (d : ErrorDiagnostic)
    → ErrorDiagnostic_new code message details ≡ ok d
    → ErrorDiagnosticIsValid d
unfolding ErrorDiagnostic_new
ErrorDiagnostic_new-IsValid code message details d h = ground arith

-- The name of every error code passes the check on diagnostic codes.
pub is_diagnostic_code-as_str : (c : ErrorCode) → is_diagnostic_code (as_str c) ≡ true
unfolding is_diagnostic_code as_str
is_diagnostic_code-as_str usage_invalid_argument = refl
is_diagnostic_code-as_str _ = refl

-- An error code, a message that is not empty and details that are an object make a warning too.
pub Diagnostic_new-as_str :
    (c : ErrorCode) (message : String) (details : Option Value)
    → empty_text message ≡ false
    → bad_details details ≡ false
    → Diagnostic_new (as_str c) message details
      ≡ ok (record { code = as_str c; message = message; details = details })
unfolding Diagnostic_new
Diagnostic_new-as_str c message details m d = ground (arith, is_diagnostic_code-as_str c)
