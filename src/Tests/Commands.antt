-- ===== src/Tests/Commands.antt =====
-- Examples for a remote command.
use mathlib.Core.Option
use styrn.Common.{
  ℕ, ◌==◌, Option, if◌then◌else◌, ◌≡◌, ◌⊎◌, refl, Bool, true, false, none, some, String, str_eq,
  List, [], ◌∷◌, ◌++◌, ok, err, arith,
}
use styrn.Common.Int.{pos}
use styrn.Common.Utf8.{is_utf8}
use styrn.Common.Decimal.{decimal}
use styrn.Json.Defs.{Value, get, contains_key, as_object, as_str}
use styrn.Json.Visitor.{distinct}
use styrn.Output.Code.{ErrorCode}
use styrn.Rpc.Frame.Defs.{Frame, request, response}
use styrn.Rpc.Frame.Encode.{serialize}
use styrn.Rpc.Frame.Decode.{valid_controller_id}
use styrn.Rpc.Wire.{newline, JsonCrate}
use styrn.Rpc.Wire.Writer.{write, write_bytes, write_all, write_room}
use styrn.Rpc.Wire.Lines.{IsSendable}
use styrn.Rpc.Id.{request_id}
use styrn.Rpc.Server.{malformed}
use styrn.Rpc.Process.{new}
use styrn.Rpc.Client.{Client, call, receive}
use styrn.Rpc.Client.Session.{Ends}
use styrn.Rpc.Exchange.{call_gets}
use styrn.Rpc.Remote.Argv.{validate_exec_argv}
use styrn.Rpc.Remote.Capture.{ExecResult, sanitize_for_client}
use styrn.Rpc.Methods.{
  Worker, handle_request, exec_params, exec_value, read_exec_params, read_texts, finish_exec, exec,
}
use styrn.Rpc.Methods.Exec.{exec-Ends, exec-handle_request}
use styrn.Tests.Crates.{uuid, laws, hello, pipe, line_of}

abbrev is_secret : String → Bool
is_secret value = str_eq value "token: x"

abbrev listing : ExecResult
listing = record {
  exit_code = pos 2;
  stdout = "";
  stderr = "no such file";
  duration_ms = 3;
  stdout_lossy = false;
  stderr_lossy = false;
  stdout_redacted = false;
  stderr_redacted = false;
}

abbrev arguments : List String
arguments = "ls" ∷ "missing" ∷ []

abbrev asking : Frame
asking = request "c1" "exec.run" (exec_params arguments)

abbrev answering : Frame
answering = response "c1" true (some (exec_value listing)) []

abbrev read_byte : List ℕ → Option Value
read_byte (b ∷ []) =
    if b == 113 then some (serialize uuid asking) else some (serialize uuid answering)
read_byte _ = none

abbrev json : JsonCrate
json = record {
  from_str = read_byte;
  to_vec = λ v. line_of (Option.bind (Option.bind (as_object v) (get "type")) as_str);
}

abbrev worker : Worker
worker = record {
  to_toml = none;
  machine_status = none;
  machine_doctor = λ params. err malformed;
  run_exec = λ argv. some listing;
}

abbrev client : Client
client = record {
  process =
      new (record { wait = some true }) pipe
        (record { bytes = (114 ∷ []) ++ newline ∷ []; fails = false }) true;
  hello = hello;
  next_id = 1;
  terminated = false;
}

abbrev after : Client
after = record client {
  next_id = 2;
  process = record client.process {
    input = some (record pipe { written = 113 ∷ newline ∷ [] });
    output = record { bytes = []; fails = false };
  };
}

answer-IsSendable : IsSendable uuid json answering (114 ∷ [])
unfolding serialize is_utf8 distinct contains_key Option.bind get exec_value valid_controller_id
answer-IsSendable = record {
  valid = ((refl, omega arith), (λ h. cc, refl));
  typed = ground arith;
  distinct_keys = refl;
  written = record { written = refl; read_back = refl; one_line = (ground arith, tt); utf8 = refl };
  short = omega arith;
}

asks : write uuid json asking pipe ≡ (ok tt, record pipe { written = 113 ∷ newline ∷ [] })
unfolding write write_bytes write_all write_room serialize get Option.bind
asks = refl

answered :
    call uuid json "exec.run" (exec_params arguments) client ≡ (ok (exec_value listing), after)
unfolding receive request_id decimal
answered =
    call_gets uuid json laws "exec.run" (exec_params arguments) client (114 ∷ []) [] answering pipe
      (record pipe { written = 113 ∷ newline ∷ [] }) refl (ground arith) refl asks refl
      answer-IsSendable

valid : validate_exec_argv is_secret arguments ≡ ok tt
unfolding validate_exec_argv
valid = refl

runs : handle_request is_secret worker "exec.run" (exec_params arguments) ≡ ok (exec_value listing)
unfolding handle_request read_exec_params read_texts validate_exec_argv
runs = refl

exec-handle_request_example :
    exec is_secret uuid json arguments client
    ≡ finish_exec is_secret after (sanitize_for_client is_secret listing)
exec-handle_request_example =
    exec-handle_request is_secret uuid json worker arguments listing (exec_value listing) client
      after valid refl (record { status = omega arith; duration = omega arith }) runs answered

exec-Ends_example :
    ((code : ErrorCode) × (validate_exec_argv is_secret arguments ≡ err code)
      × (exec is_secret uuid json arguments client ≡ (err code, client)))
    ⊎ Ends
        (exec is_secret uuid json arguments client).0
        (exec is_secret uuid json arguments client).1
exec-Ends_example = exec-Ends is_secret uuid json arguments client refl
