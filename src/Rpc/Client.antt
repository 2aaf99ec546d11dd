-- ===== src/Rpc/Client.antt =====
-- `RpcClient` of src/rpc/mod.rs: the controller's side of a session.
pub mod Session
pub mod Opening
use Prim.Native.String
use styrn.Common.{
  ℕ, ◌+◌, Bool, true, false, not, ◌&&◌, ◌||◌, Option, none, some, String, str_eq, List, [], ◌∷◌,
  is_empty, ◌==◌, Result, ok, err, if◌then◌else◌,
}
use styrn.Common.Decimal.{decimal}
use styrn.Json.Defs.{Value}
use styrn.Output.Code.{
  ErrorCode, protocol_incompatible, protocol_malformed, transport_session_lost,
  remote_execution_failed, from_str, as_str,
}
use styrn.Rpc.Frame.Defs.{
  UuidCrate, ServerHello, RpcDiagnostic, Frame, server_hello, client_hello, request, response,
  error, FrameResult,
}
use styrn.Rpc.Wire.{JsonCrate}
use styrn.Rpc.Negotiation.{protocol_min, protocol_max, supported_schema, negotiate_server_hello}
use styrn.Rpc.Errors.{frame_error, diagnostic, remote_execution_failed_message}
use styrn.Rpc.Id.{request_id}
use styrn.Rpc.Server.{last_id}
use styrn.Rpc.Process.{Process, FinishError, read_frame, write_frame, abort, finish}

pub record Client : Type 0 where
  pub process : Process
  pub hello : ServerHello
  pub next_id : ℕ
  pub terminated : Bool

-- `incompatible_server_hello_diagnostic`.
unfoldable pub incompatible_diagnostic : ServerHello → RpcDiagnostic
unfolding diagnostic
incompatible_diagnostic hello = diagnostic protocol_incompatible (
    String.◌++◌ "controller protocol range [1, 1], worker protocol range [" (
      String.◌++◌ (decimal hello.protocol_min) (
        String.◌++◌ ", " (
          String.◌++◌ (decimal hello.protocol_max) (
            String.◌++◌ "], controller manifest schema 1, worker manifest schema "
              (decimal hello.manifest_schema_version))))))

abbrev pub is_absent : Option Value → Bool
is_absent none = true
is_absent (some v) = false

-- `is_remote_execution_failure`.
unfoldable pub is_remote_execution_failure : List RpcDiagnostic → Bool
is_remote_execution_failure (d ∷ []) =
    str_eq d.code (as_str remote_execution_failed)
    && str_eq d.message remote_execution_failed_message
    && is_absent d.details
is_remote_execution_failure _ = false

-- The codes that an error frame may give to the session; every other one is malformed.
abbrev pub session_code : Option ErrorCode → ErrorCode
session_code (some protocol_incompatible) = protocol_incompatible
session_code _ = protocol_malformed

abbrev pub first_code : List RpcDiagnostic → Option ErrorCode
first_code [] = none
first_code (d ∷ ds) = from_str d.code

-- `terminate`: only the first call aborts the process.
unfoldable pub terminate : Client → Client
unfolding abort
terminate client =
    if client.terminated
    then client
    else record client { process = abort client.process; terminated = true }

abbrev pub fail_with : ErrorCode → Client → Result ErrorCode Value × Client
fail_with code client = (err code, terminate client)

-- The last `match` of `request`, on the frame that was read.
unfoldable pub receive : String → Option Frame → Client → Result ErrorCode Value × Client
unfolding terminate is_remote_execution_failure
receive id (some (response response_id true (some payload) errors)) client =
    if str_eq response_id id && is_empty errors
    then (ok payload, client)
    else fail_with protocol_malformed client
receive id (some (response response_id false payload errors)) client =
    if str_eq response_id id && is_remote_execution_failure errors
    then (err remote_execution_failed, client)
    else fail_with protocol_malformed client
receive id (some (error error_id errors)) client =
    if str_eq error_id id
    then fail_with (session_code (first_code errors)) client
    else fail_with protocol_malformed client
receive id (some frame) client = fail_with protocol_malformed client
receive id none client = fail_with transport_session_lost client

module _ (uuid : UuidCrate) (json : JsonCrate) where
  abbrev pub received :
      String → Client → FrameResult (Option Frame) × Process → Result ErrorCode Value × Client
  received id client (ok frame, process) = receive id frame (record client { process = process })
  received id client (err e, process) =
      fail_with (frame_error e) (record client { process = process })

  abbrev pub sent :
      String → Client → FrameResult (Unit {0}) × Process → Result ErrorCode Value × Client
  sent id client (ok _, process) =
      received id (record client { process = process }) (read_frame uuid json process)
  sent id client (err e, process) = fail_with (frame_error e) (record client { process = process })

  -- `RpcClient::request`, on a session that is open.
  unfoldable pub ask : String → Value → Client → Result ErrorCode Value × Client
  unfolding receive
  ask method params client =
      if client.next_id == last_id
      then fail_with protocol_malformed client
      else (let id = request_id client.next_id in
          let asking = record client { next_id = client.next_id + 1 } in
          sent id asking (write_frame uuid json (request id method params) client.process))

  -- `RpcClient::request`.
  unfoldable pub call : String → Value → Client → Result ErrorCode Value × Client
  unfolding ask
  call method params client =
      if client.terminated then (err transport_session_lost, client) else ask method params client

  module _ (styrn_version : String) where
    -- A client that is not made drops its process, which aborts it.
    abbrev pub refused : ErrorCode → Process → Result ErrorCode Client × Process
    refused code process = (err code, abort process)

    abbrev pub chosen :
        ServerHello → FrameResult (Unit {0}) × Process → Result ErrorCode Client × Process
    chosen hello (ok _, process) =
        (ok (record { process = process; hello = hello; next_id = 1; terminated = false }), process)
    chosen hello (err e, process) = refused (frame_error e) process

    abbrev pub negotiated :
        ServerHello → Result ErrorCode ℕ → Process → Result ErrorCode Client × Process
    negotiated hello (ok protocol) process = chosen hello (
        write_frame uuid json
          (client_hello (record { protocol = protocol; styrn_version = styrn_version })) process)
    negotiated hello (err code) process =
        refused code
          (write_frame uuid json (error "hello" (incompatible_diagnostic hello ∷ [])) process).1

    abbrev pub greeted : FrameResult (Option Frame) × Process → Result ErrorCode Client × Process
    greeted (ok (some (server_hello hello)), process) =
        negotiated hello (negotiate_server_hello hello) process
    greeted (ok (some _), process) = refused protocol_malformed process
    greeted (ok none, process) = refused process.pre_hello_error process
    greeted (err e, process) = refused (frame_error e) process

    -- `RpcClient::connect`.
    unfoldable pub connect : Process → Result ErrorCode Client × Process
    connect process = greeted (read_frame uuid json process)

-- `RpcClient::finish`.
abbrev pub finished : Result FinishError Bool → Result ErrorCode (Unit {0})
finished (ok true) = ok tt
finished _ = err transport_session_lost

unfoldable pub finish_session : Client → Result ErrorCode (Unit {0})
unfolding finish
finish_session client =
    if client.terminated then err transport_session_lost else finished (finish client.process).0
