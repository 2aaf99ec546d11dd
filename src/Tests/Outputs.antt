-- ===== src/Tests/Outputs.antt =====
-- Examples for the envelopes, the codes and the statuses.
use styrn.Common.{◌≡◌, refl, false, none, String, [], ◌∷◌, ok}
use styrn.Json.Defs.{null}
use styrn.Output.Code.{exit_code, protocol_malformed}
use styrn.Output.Diagnostic.{ErrorDiagnostic_new}
use styrn.Output.Envelope.{CommandFailure, CommandFailure_new, validate_command, failure, schema_v1}
use styrn.Output.Envelope.Laws.{IsConsistent, by_command, Made-IsConsistent}

-- A time is written out by what it is.
abbrev to_rfc3339 : String → String
to_rfc3339 time = time

abbrev noon : String
noon = "2026-01-01T12:00:00Z"

abbrev refused : CommandFailure
refused = record {
  envelope = record {
    schema = schema_v1;
    is_ok = false;
    command = "exec";
    timestamp = noon;
    payload = null;
    warnings = [];
    errors = record { code = protocol_malformed; message = "bad frame"; details = none } ∷ [];
  };
  exit = exit_code protocol_malformed;
}

refused_made : CommandFailure_new to_rfc3339 "exec" noon protocol_malformed "bad frame" ≡ ok refused
unfolding CommandFailure_new validate_command failure ErrorDiagnostic_new
refused_made = refl

Made-IsConsistent_example : IsConsistent refused.envelope
Made-IsConsistent_example =
    Made-IsConsistent to_rfc3339 noon
      (by_command "exec" "bad frame" protocol_malformed refused refused_made)
