-- ===== src/Tests/Remotes.antt =====
-- Examples for what the two sides of a session accept.
use styrn.Common.{
  Distinct, ◌≤◌, ◌≡◌, ◌↔◌, refl, Bool, true, false, none, some, String, str_eq, List, [], ◌∷◌,
  length, All, ok,
}
use styrn.Common.Int.{pos}
use styrn.Json.Defs.{Value, text, object, field, end}
use styrn.Rpc.Remote.Argv.{
  validate_exec_argv, no_program, max_exec_arguments, IsSendableArgument, total_bytes,
  max_exec_total_bytes, validate_exec_argv_iff,
}
use styrn.Rpc.Remote.Capture.{
  ExecResult, redacted_output, sanitize_for_client, IsShown, sanitize_for_client-IsShown,
}
use styrn.Rpc.Remote.Doctor.{
  DoctorReport, fail, warning, validate_for_client, IsShowable, validate_for_client_iff,
}
use styrn.Rpc.Remote.Binding.{
  ExpectedPeer, MachineManifest, validate_hello_manifest_binding,
  validate_hello_manifest_binding_iff,
}
use styrn.Tests.Crates.{hello}

-- The only secret.
abbrev is_secret : String → Bool
is_secret value = str_eq value "token: x"

abbrev shown : Value
shown = object (field "token" (text "x") end)

abbrev arguments : List String
arguments = "ls" ∷ "-l" ∷ []

validate_exec_argv_iff_example : (validate_exec_argv is_secret arguments ≡ ok tt) ↔ (
    (no_program arguments ≡ false)
    × (length arguments ≤ max_exec_arguments)
    × All (IsSendableArgument is_secret) arguments
    × (total_bytes arguments ≤ max_exec_total_bytes))
validate_exec_argv_iff_example = validate_exec_argv_iff is_secret arguments

abbrev received : ExecResult
received = record {
  exit_code = pos 0;
  stdout = "token: x";
  stderr = "fine";
  duration_ms = 3;
  stdout_lossy = false;
  stderr_lossy = false;
  stdout_redacted = false;
  stderr_redacted = false;
}

abbrev accepted : ExecResult
accepted = record received { stdout = redacted_output; stdout_redacted = true }

sanitized : sanitize_for_client is_secret received ≡ ok accepted
unfolding sanitize_for_client
sanitized = refl

sanitize_for_client-IsShown_example :
    IsShown is_secret "token: x" redacted_output true
    × IsShown is_secret "fine" "fine" false
    × (accepted.exit_code ≡ received.exit_code)
    × (accepted.duration_ms ≡ received.duration_ms)
    × (accepted.stdout_lossy ≡ received.stdout_lossy)
    × (accepted.stderr_lossy ≡ received.stderr_lossy)
sanitize_for_client-IsShown_example =
    sanitize_for_client-IsShown is_secret received accepted sanitized

abbrev report : DoctorReport
report = record {
  findings =
      record {
        id = "pending.action-1";
        state = fail;
        severity = warning;
        message = "unresolved";
        remediation = none;
      }
      ∷ [];
  coverage = "phase1_minimum";
  complete = false;
}

validate_for_client_iff_example : (validate_for_client is_secret report ≡ ok tt) ↔ (
    (report.coverage ≡ "phase1_minimum")
    × (report.complete ≡ false)
    × (1 ≤ length report.findings)
    × (length report.findings ≤ 64)
    × Distinct (λ f. f.id) report.findings
    × All (IsShowable is_secret) report.findings)
validate_for_client_iff_example = validate_for_client_iff is_secret report

abbrev manifest : MachineManifest
manifest = record {
  schema_version = 1;
  machine_id = 3;
  name = "build";
  transport_user = some "styrn";
  identity_name = some "styrn";
}

abbrev expected : ExpectedPeer
expected = record { machine_id = 3; name = "build"; user = "styrn" }

validate_hello_manifest_binding_iff_example :
    (validate_hello_manifest_binding hello manifest expected ≡ ok tt) ↔ (
      (manifest.machine_id ≡ expected.machine_id)
      × (manifest.name ≡ expected.name)
      × (hello.machine_id ≡ expected.machine_id)
      × (hello.name ≡ expected.name)
      × (hello.manifest_schema_version ≡ manifest.schema_version)
      × (manifest.transport_user ≡ some expected.user)
      × (manifest.identity_name ≡ some expected.user))
validate_hello_manifest_binding_iff_example =
    validate_hello_manifest_binding_iff hello manifest expected
