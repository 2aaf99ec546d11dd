-- ===== src/Setup/Pending.antt =====
-- `PendingPolicy::evaluate` of src/setup/pending.rs: how a setup that leaves work to a human is
-- reported. A pending action is its identifier and what it needs.
pub mod Reports
pub mod Projection
use styrn.Common.{
  ◌≡◌, refl, Bool, true, false, not, ◌&&◌, Option, none, some, String, List, [], ◌∷◌, All, is_empty,
  Result, ok, err, ◌>>=◌, arith, Bool-cases, inl, inr, if◌then◌else◌,
}
use styrn.Common.Text.{empty_text}
use styrn.Json.Defs.{Value, text, array, object, Items, nil, cons, Fields, end, field}
use styrn.Output.Exit.{StyrnExit, success, setup}
use styrn.Output.Code.{setup_needs_human, as_str}
use styrn.Output.Diagnostic.{
  OutputError, Diagnostic, ErrorDiagnostic, is_diagnostic_code, bad_details, Diagnostic_new,
  ErrorDiagnostic_new,
}
use styrn.Output.Diagnostic.Laws.{Diagnostic_new-as_str}
use styrn.Output.Envelope.{Envelope, failure, validate_command}
use styrn.Output.Envelope
use styrn.Setup.Plan.Defs.{PendingSeverity, info, warning, error, NeedsHuman}

pub record PendingAction : Type 0 where
  pub id : String
  pub needs_human : NeedsHuman

abbrev pub severity_name : PendingSeverity → String
severity_name info = "info"
severity_name warning = "warning"
severity_name error = "error"

abbrev deferred_fields : Option String → Fields
deferred_fields none = end
deferred_fields (some name) = field "deferred_action" (text name) end

-- `PendingWire`.
abbrev pub pending_value : PendingAction → Value
pending_value p = object (
    field "id" (text p.id) (
      field "severity" (text (severity_name p.needs_human.severity)) (
        field "message" (text p.needs_human.instructions)
          (deferred_fields p.needs_human.fragment))))

abbrev pub pending_wire : List PendingAction → Items
pending_wire [] = nil
pending_wire (p ∷ ps) = cons (pending_value p) (pending_wire ps)

-- `json!({"pending": pending_wire(pending)})`.
abbrev pub pending_data : List PendingAction → Value
pending_data ps = object (field "pending" (array (pending_wire ps)) end)

abbrev pub warning_details : PendingAction → Value
warning_details p = object (
    field "action_id" (text p.id)
      (field "severity" (text (severity_name p.needs_human.severity)) end))

unfoldable pub warnings_for : List PendingAction → Result OutputError (List Diagnostic)
warnings_for [] = ok []
warnings_for (p ∷ ps) = do
  w ←
      Diagnostic_new (as_str setup_needs_human) p.needs_human.instructions
        (some (warning_details p))
  ws ← warnings_for ps
  ok (w ∷ ws)

pub record PendingOutcome : Type 0 where
  pub envelope : Envelope
  pub exit_code : StyrnExit

-- `self.fail_on_pending && !pending.is_empty()`.
abbrev pub blocks : Bool → List PendingAction → Bool
blocks fail_on_pending pending = fail_on_pending && not (is_empty pending)

module _ {Time : Type 0} (to_rfc3339 : Time → String) where
  unfoldable pub evaluate : Bool → Time → List PendingAction → Result OutputError PendingOutcome
  unfolding warnings_for
  evaluate fail_on_pending time pending =
      let failing = λ (warnings : List Diagnostic). (do
        e ←
            ErrorDiagnostic_new setup_needs_human
              "setup has unresolved actions requiring human attention" (some (pending_data pending))
        envelope ← failure to_rfc3339 "setup" time (e ∷ []) warnings
        ok (record { envelope = envelope; exit_code = setup })) in
      let passing = λ (warnings : List Diagnostic). (do
        envelope ← Envelope.success to_rfc3339 "setup" time (pending_data pending) warnings
        ok (record { envelope = envelope; exit_code = success })) in
      do
        warnings ← warnings_for pending
        if blocks fail_on_pending pending then failing warnings else passing warnings
