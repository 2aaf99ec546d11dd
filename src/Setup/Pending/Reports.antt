-- ===== src/Setup/Pending/Reports.antt =====
-- The outcome of `PendingPolicy::evaluate` of src/setup/pending.rs.
use styrn.Common.{
  ◌≡◌, ◌≢◌, ◌⊎◌, refl, Bool, true, false, Option, some, String, List, [], ◌∷◌, All, ok, inl, inr,
}
use styrn.Common.Text.{empty_text}
use styrn.Output.Exit.{success, setup}
use styrn.Output.Code.{setup_needs_human, as_str}
use styrn.Output.Diagnostic.{Diagnostic, ErrorDiagnostic_new}
use styrn.Output.Diagnostic.Laws.{Diagnostic_new-as_str}
use styrn.Output.Envelope
use styrn.Json.Defs.{Value, null, text, object, field, end}
use styrn.Setup.Plan.Defs.{PendingSeverity, info, warning, error}
use styrn.Output.Envelope.{schema_v1, Envelope, failure, validate_command}
use styrn.Setup.Pending.{
  PendingAction, warning_details, warnings_for, pending_data, PendingOutcome, evaluate,
}

abbrev pub HasInstructions : PendingAction → Type 0
HasInstructions p = empty_text p.needs_human.instructions ≡ false

abbrev pub severity_text : PendingSeverity → String
severity_text info = "info"
severity_text warning = "warning"
severity_text error = "error"

-- The warning of one action.
abbrev pub warning_of : PendingAction → Diagnostic
warning_of p = record {
  code = "setup.needs_human";
  message = p.needs_human.instructions;
  details = some (
      object (
        field "action_id" (text p.id)
          (field "severity" (text (severity_text p.needs_human.severity)) end)));
}

abbrev pub warnings_of : List PendingAction → List Diagnostic
warnings_of [] = []
warnings_of (p ∷ ps) = warning_of p ∷ warnings_of ps

cons_is_not_nil : {p : PendingAction} {ps : List PendingAction} → p ∷ ps ≢ []
cons_is_not_nil e = cc

warnings_for-eq :
    (ps : List PendingAction) → All HasInstructions ps → warnings_for ps ≡ ok (warnings_of ps)
unfolding warnings_for as_str
warnings_for-eq [] h = refl
warnings_for-eq (p ∷ ps) (here, later) =
    rw
      (
        Diagnostic_new-as_str setup_needs_human p.needs_human.instructions
            (some (warning_details p)) here refl,
        warnings_for-eq ps later,
      )
      refl

-- A setup that fails, with the one error of actions that are left to a human.
abbrev pub IsFailure : PendingOutcome → Type 0
IsFailure o =
    (o.exit_code ≡ setup)
    × (o.envelope.is_ok ≡ false)
    × (o.envelope.payload ≡ null)
    × ((details : Option Value) × (o.envelope.errors
          ≡ record {
            code = setup_needs_human;
            message = "setup has unresolved actions requiring human attention";
            details = details;
          }
            ∷ []))

-- A setup that succeeds.
abbrev pub IsSuccess : PendingOutcome → Type 0
IsSuccess o = (o.exit_code ≡ success) × (o.envelope.is_ok ≡ true) × (o.envelope.errors ≡ [])

-- What is reported of a setup.
pub record IsReported (fail_on_pending : Bool) (pending : List PendingAction) (o : PendingOutcome)
    : Type 0 where
  pub verdict :
      ((fail_on_pending ≡ true) × (pending ≢ []) × IsFailure o)
      ⊎ (((fail_on_pending ≡ false) ⊎ (pending ≡ [])) × IsSuccess o)
  pub one_warning_each : o.envelope.warnings ≡ warnings_of pending
  pub same_command : o.envelope.command ≡ "setup"

module _ {Time : Type 0} (to_rfc3339 : Time → String) where
  -- The report of a setup that fails, and of one that does not.
  abbrev blocked_report : Time → List PendingAction → PendingOutcome
  blocked_report time pending = record {
    envelope = record {
      schema = schema_v1;
      is_ok = false;
      command = "setup";
      timestamp = to_rfc3339 time;
      payload = null;
      warnings = warnings_of pending;
      errors =
          record {
            code = setup_needs_human;
            message = "setup has unresolved actions requiring human attention";
            details = some (pending_data pending);
          }
          ∷ [];
    };
    exit_code = setup;
  }

  abbrev passed_report : Time → List PendingAction → PendingOutcome
  passed_report time pending = record {
    envelope = record {
      schema = schema_v1;
      is_ok = true;
      command = "setup";
      timestamp = to_rfc3339 time;
      payload = pending_data pending;
      warnings = warnings_of pending;
      errors = [];
    };
    exit_code = success;
  }

  -- Where every pending action has instructions, a report is made, with one warning for each action in
  -- their order. It is a failure with the status of setup and one error where the policy fails on
  -- pending actions and there is one, and a success without errors where the policy does not or there
  -- is none.
  pub evaluate_lem :
      (fail_on_pending : Bool) (time : Time) (pending : List PendingAction)
      → All HasInstructions pending
      → (o : PendingOutcome) × (evaluate to_rfc3339 fail_on_pending time pending ≡ ok o)
        × IsReported fail_on_pending pending o
  unfolding evaluate validate_command failure ErrorDiagnostic_new Envelope.success
  evaluate_lem true time (p ∷ ps) h = (
    blocked_report time (p ∷ ps),
    rw (warnings_for-eq (p ∷ ps) h) refl,
    record {
      verdict =
          inl (refl, cons_is_not_nil, (refl, refl, refl, (some (pending_data (p ∷ ps)), refl)));
      one_warning_each = refl;
      same_command = refl;
    },
  )
  evaluate_lem true time [] h = (
    passed_report time [],
    refl,
    record {
      verdict = inr (inr refl, (refl, refl, refl));
      one_warning_each = refl;
      same_command = refl;
    },
  )
  evaluate_lem false time pending h = (
    passed_report time pending,
    rw (warnings_for-eq pending h) refl,
    record {
      verdict = inr (inl refl, (refl, refl, refl));
      one_warning_each = refl;
      same_command = refl;
    },
  )
