-- ===== src/Output/Envelope.antt =====
-- The command envelopes of src/output/mod.rs. A time is written by chrono, which is a parameter.
pub mod Laws
use styrn.Common.{
  ℕ, suc, Bool, true, false, not, ◌||◌, Option, none, some, String, str_eq, List, [], ◌∷◌, Result,
  ok, err, ◌>>=◌, is_empty, if◌then◌else◌,
}
use styrn.Common.Int.{ℤ, pos, negsuc}
use styrn.Common.Text.{is_blank}
use styrn.Json.Defs.{
  Value, Number, null, bool, number, text, object, array, end, field, pos_int, neg_int,
}
use styrn.Output.Exit.{StyrnExit, workflow}
use styrn.Output.Code.{ErrorCode, job_workflow_failed, exit_code}
use styrn.Output.Diagnostic.{
  OutputError, empty_command, invalid_success_data, missing_failure_error, invalid_workflow_command,
  Diagnostic, ErrorDiagnostic, ErrorDiagnostic_new,
}

abbrev pub schema_v1 : String
schema_v1 = "styrn.command.v1"

pub record Envelope : Type 0 where
  pub schema : String
  pub is_ok : Bool
  pub command : String
  pub timestamp : String
  pub payload : Value
  pub warnings : List Diagnostic
  pub errors : List ErrorDiagnostic

unfoldable pub validate_command : String → Result OutputError String
validate_command command = if is_blank command then err empty_command else ok command

abbrev pub is_success_data : Value → Bool
is_success_data (object fs) = true
is_success_data (array vs) = true
is_success_data null = true
is_success_data _ = false

-- `json!` of an `i32`.
abbrev pub int_value : ℤ → Value
int_value (pos n) = number (pos_int n)
int_value (negsuc n) = number (neg_int n)

abbrev pub is_workflow_command : String → Bool
is_workflow_command command = str_eq command "workflow run" || str_eq command "matrix run"

pub record CommandFailure : Type 0 where
  pub envelope : Envelope
  pub exit : StyrnExit

pub record ExecOutcome : Type 0 where
  pub envelope : Envelope
  pub process_exit_code : ℤ

module _ {Time : Type 0} (to_rfc3339 : Time → String) where
  unfoldable pub success : String → Time → Value → List Diagnostic → Result OutputError Envelope
  success command time payload warnings = do
    command ← validate_command command
    if not (is_success_data payload)
        then err invalid_success_data
        else ok (record {
          schema = schema_v1;
          is_ok = true;
          command = command;
          timestamp = to_rfc3339 time;
          payload = payload;
          warnings = warnings;
          errors = [];
        })

  unfoldable pub failure :
      String → Time → List ErrorDiagnostic → List Diagnostic → Result OutputError Envelope
  failure command time errors warnings = do
    command ← validate_command command
    if is_empty errors
        then err missing_failure_error
        else ok (record {
          schema = schema_v1;
          is_ok = false;
          command = command;
          timestamp = to_rfc3339 time;
          payload = null;
          warnings = warnings;
          errors = errors;
        })

  unfoldable pub CommandFailure_new :
      String → Time → ErrorCode → String → Result OutputError CommandFailure
  unfolding failure ErrorDiagnostic_new
  CommandFailure_new command time code message = do
    diagnostic ← ErrorDiagnostic_new code message none
    envelope ← failure command time (diagnostic ∷ []) []
    ok (record { envelope = envelope; exit = exit_code code })

  -- `WorkflowFailure::new`; the process status of such a failure is always `workflow`.
  unfoldable pub WorkflowFailure_new : String → Time → ℤ → Result OutputError Envelope
  unfolding ErrorDiagnostic_new
  WorkflowFailure_new command time inner_exit_code =
      if not (is_workflow_command command) then err invalid_workflow_command else do
        diagnostic ←
            ErrorDiagnostic_new job_workflow_failed "workflow command exited with a non-zero status"
              none
        ok (record {
          schema = schema_v1;
          is_ok = false;
          command = command;
          timestamp = to_rfc3339 time;
          payload = object (field "exit_code" (int_value inner_exit_code) end);
          warnings = [];
          errors = diagnostic ∷ [];
        })

  abbrev pub workflow_exit : StyrnExit
  workflow_exit = workflow

  -- `ExecOutcome::new_sanitized`.
  unfoldable pub ExecOutcome_new :
      Time → ℤ → String → String → ℕ → Bool → Bool → Bool → Bool → Result OutputError ExecOutcome
  unfolding success
  ExecOutcome_new time remote_exit_code stdout stderr duration_ms stdout_lossy stderr_lossy
        stdout_redacted stderr_redacted =
      do
        envelope ←
            success "exec" time
              (object (
                field "exit_code" (int_value remote_exit_code) (
                  field "stdout" (text stdout) (
                    field "stderr" (text stderr) (
                      field "duration_ms" (number (pos_int duration_ms)) (
                        field "stdout_lossy" (bool stdout_lossy) (
                          field "stderr_lossy" (bool stderr_lossy) (
                            field "stdout_redacted" (bool stdout_redacted)
                              (field "stderr_redacted" (bool stderr_redacted) end)))))))))
              []
        ok (record { envelope = envelope; process_exit_code = remote_exit_code })
