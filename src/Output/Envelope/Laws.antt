-- ===== src/Output/Envelope/Laws.antt =====
-- The envelopes of src/output/mod.rs, by the ways in which they are made.
use styrn.Common.{
  ℕ, ◌≡◌, ◌≢◌, refl, Bool, true, false, none, some, String, str_eq, List, [], ◌∷◌, ok, arith,
  eq_iff, Bool-cases, inl, inr,
}
use mathlib.Core.Option
use styrn.Common.Int.{ℤ}
use styrn.Common.Text.{is_blank}
use styrn.Json.Defs.{Value, as_object, get}
use styrn.Output.Code.{ErrorCode, exit_code}
use styrn.Output.Diagnostic.{Diagnostic, ErrorDiagnostic}
use styrn.Output.Envelope.{
  Envelope, CommandFailure, ExecOutcome, schema_v1, int_value, is_workflow_command,
  validate_command, success, failure, CommandFailure_new, WorkflowFailure_new, ExecOutcome_new,
}

-- The contract of schemas/command-v1.schema.json that does not depend on the command.
pub record IsConsistent (e : Envelope) : Type 0 where
  pub versioned : e.schema ≡ schema_v1
  pub commanded : is_blank e.command ≡ false
  pub no_errors : e.is_ok ≡ true → e.errors ≡ []
  pub some_errors : e.is_ok ≡ false → e.errors ≢ []

not_blank : (command : String) → is_workflow_command command ≡ true → is_blank command ≡ false
not_blank command h = elim (Bool-cases (str_eq command "workflow run")) [
  | inl yes_run ↦ rw ((eq_iff command "workflow run").0 yes_run)
  | inr no_run ↦ rw ((eq_iff command "matrix run").0 (ground arith))
]

module _ {Time : Type 0} (to_rfc3339 : Time → String) (time : Time) where
  success-IsConsistent :
      (command : String) (payload : Value) (warnings : List Diagnostic) (e : Envelope)
      → success to_rfc3339 command time payload warnings ≡ ok e
      → IsConsistent e × (e.is_ok ≡ true) × (e.warnings ≡ warnings)
  unfolding success validate_command
  success-IsConsistent command payload warnings e h = ground arith

  failure-IsConsistent :
      (command : String) (errors : List ErrorDiagnostic) (warnings : List Diagnostic) (e : Envelope)
      → failure to_rfc3339 command time errors warnings ≡ ok e
      → IsConsistent e × (e.is_ok ≡ false) × (e.errors ≡ errors)
  unfolding failure validate_command
  failure-IsConsistent command errors warnings e h = ground arith

  WorkflowFailure_new-IsConsistent :
      (command : String) (inner : ℤ) (e : Envelope)
      → WorkflowFailure_new to_rfc3339 command time inner ≡ ok e
      → IsConsistent e
  unfolding WorkflowFailure_new
  WorkflowFailure_new-IsConsistent command inner e h = ground (arith, not_blank command)

  -- The ways in which the program makes an envelope.
  pub data Made : Envelope → Type 0 where
    by_success :
        (command : String) (payload : Value) (warnings : List Diagnostic) (e : Envelope)
        → success to_rfc3339 command time payload warnings ≡ ok e
        → Made e
    by_failure :
        (command : String) (errors : List ErrorDiagnostic) (warnings : List Diagnostic)
        (e : Envelope)
        → failure to_rfc3339 command time errors warnings ≡ ok e
        → Made e
    by_command :
        (command message : String) (code : ErrorCode) (f : CommandFailure)
        → CommandFailure_new to_rfc3339 command time code message ≡ ok f
        → Made f.envelope
    by_workflow :
        (command : String) (inner : ℤ) (e : Envelope)
        → WorkflowFailure_new to_rfc3339 command time inner ≡ ok e
        → Made e
    by_exec :
        (code : ℤ) (stdout stderr : String) (duration : ℕ) (l₁ l₂ r₁ r₂ : Bool) (o : ExecOutcome)
        → ExecOutcome_new to_rfc3339 time code stdout stderr duration l₁ l₂ r₁ r₂ ≡ ok o
        → Made o.envelope

  CommandFailure_new-IsConsistent :
      (command message : String) (code : ErrorCode) (f : CommandFailure)
      → CommandFailure_new to_rfc3339 command time code message ≡ ok f
      → IsConsistent f.envelope
  unfolding CommandFailure_new validate_command
  CommandFailure_new-IsConsistent command message code f h = ground arith

  ExecOutcome_new-IsConsistent :
      (code : ℤ) (stdout stderr : String) (duration : ℕ) (l₁ l₂ r₁ r₂ : Bool) (o : ExecOutcome)
      → ExecOutcome_new to_rfc3339 time code stdout stderr duration l₁ l₂ r₁ r₂ ≡ ok o
      → IsConsistent o.envelope
  unfolding ExecOutcome_new validate_command
  ExecOutcome_new-IsConsistent code stdout stderr duration l₁ l₂ r₁ r₂ o h =
      let named : o.envelope.command ≡ "exec" = ground arith in
      record {
        versioned = ground arith;
        commanded = rw named;
        no_errors = ground arith;
        some_errors = ground arith;
      }

  -- Every envelope that the program makes has the schema's name, a command that is not blank, and
  -- errors exactly when its `ok` field is false.
  pub Made-IsConsistent : {e : Envelope} → Made e → IsConsistent e
  Made-IsConsistent (by_success c p w e h) = (success-IsConsistent c p w e h).0
  Made-IsConsistent (by_failure c es w e h) = (failure-IsConsistent c es w e h).0
  Made-IsConsistent (by_command c m code f h) = CommandFailure_new-IsConsistent c m code f h
  Made-IsConsistent (by_workflow c i e h) = WorkflowFailure_new-IsConsistent c i e h
  Made-IsConsistent (by_exec c o e d l₁ l₂ r₁ r₂ r h) =
      ExecOutcome_new-IsConsistent c o e d l₁ l₂ r₁ r₂ r h

  -- The process status of a failed command is the status of the one error that its envelope shows.
  pub exit-CommandFailure_new :
      (command message : String) (code : ErrorCode) (f : CommandFailure)
      → CommandFailure_new to_rfc3339 command time code message ≡ ok f
      → (f.exit ≡ exit_code code)
        × (f.envelope.errors ≡ record { code = code; message = message; details = none } ∷ [])
  unfolding CommandFailure_new validate_command
  exit-CommandFailure_new command message code f h = ground arith

  -- A remote command's status is the process status, the `exit_code` of the data, and its envelope
  -- is a success whatever the status.
  pub exit-ExecOutcome_new :
      (code : ℤ) (stdout stderr : String) (duration : ℕ) (l₁ l₂ r₁ r₂ : Bool)
      → (o : ExecOutcome) × (ExecOutcome_new to_rfc3339 time code stdout stderr duration l₁ l₂ r₁ r₂
          ≡ ok o)
        × (o.process_exit_code ≡ code)
        × (o.envelope.is_ok ≡ true)
        × (Option.bind (as_object o.envelope.payload) (get "exit_code") ≡ some (int_value code))
  unfolding ExecOutcome_new validate_command get Option.bind
  exit-ExecOutcome_new code stdout stderr duration l₁ l₂ r₁ r₂ = (_, refl, refl, refl, refl)
