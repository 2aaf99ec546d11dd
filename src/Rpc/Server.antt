-- ===== src/Rpc/Server.antt =====
-- src/rpc/server.rs: the worker's side of a session. What a method does is the parameter `handle`.
pub mod Rounds
pub mod Termination
use styrn.Common.{
  ℕ, zero, suc, ◌+◌, ◌-◌, ◌^◌, Bool, true, false, not, ◌&&◌, ◌||◌, Option, none, some, String,
  str_eq, List, [], ◌∷◌, ltb, ◌==◌, Result, ok, err, if◌then◌else◌,
}
use styrn.Json.Defs.{Value}
use styrn.Output.Code.{ErrorCode, protocol_malformed, protocol_incompatible, as_str}
use styrn.Rpc.Frame.Defs.{
  UuidCrate, ServerHello, ClientHello, RpcDiagnostic, Frame, server_hello, client_hello, request,
  response, error, FrameErrorKind, FrameResult, io, oversize,
}
use styrn.Rpc.Wire.{JsonCrate}
use styrn.Rpc.Wire.Reader.{Source, read}
use styrn.Rpc.Wire.Writer.{Sink, write}
use styrn.Rpc.Negotiation.{protocol_min, protocol_max}
use styrn.Rpc.Errors.{frame_error, diagnostic, remote_failure, failure_message}
use styrn.Rpc.Id.{request_id}

pub data HandlerError : Type 0 where
  malformed remote : HandlerError

-- The state of the loop of `serve_manifest`.
pub record Session : Type 0 where
  pub next_id : ℕ
  pub source : Source
  pub sink : Sink

-- How a round of the loop ends: with `return`, or with the next round.
pub data Turn : Type 0 where
  stop : Result ErrorCode (Unit {0}) → Sink → Turn
  go_on : Session → Turn

abbrev pub last_id : ℕ
last_id = 2 ^ 64 - 1

-- `[error] if error.code == "protocol.incompatible" && error.details.is_none()`.
abbrev pub reports_incompatible : List RpcDiagnostic → Bool
reports_incompatible (d ∷ []) =
    str_eq d.code (as_str protocol_incompatible) && elim d.details [ none ↦ true | some v ↦ false ]
reports_incompatible _ = false

module _ (uuid : UuidCrate) (json : JsonCrate) where
  -- The result of writing the error frame is ignored.
  unfoldable pub protocol_failure : String → ErrorCode → Sink → Turn
  protocol_failure id code sink =
      let (_, after) =
        write uuid json (error id (diagnostic code (failure_message code) ∷ [])) sink in
      stop (err code) after

  -- The retry of a response that was too long.
  abbrev pub retried : ℕ → Source → FrameResult (Unit {0}) × Sink → Turn
  retried next_id source (ok _, sink) =
      go_on (record { next_id = next_id; source = source; sink = sink })
  retried next_id source (err e, sink) = stop (err (frame_error e)) sink

  abbrev pub written : ℕ → Source → String → FrameResult (Unit {0}) × Sink → Turn
  written next_id source id (ok _, sink) =
      go_on (record { next_id = next_id; source = source; sink = sink })
  written next_id source id (err oversize, sink) =
      retried next_id source (write uuid json (response id false none remote_failure) sink)
  written next_id source id (err e, sink) = stop (err (frame_error e)) sink

  abbrev pub answer : ℕ → Source → String → Frame → Sink → Turn
  answer next_id source id frame sink = written next_id source id (write uuid json frame sink)

  unfoldable pub respond : ℕ → Source → String → Result HandlerError Value → Sink → Turn
  respond next_id source id (ok payload) sink =
      answer next_id source id (response id true (some payload) []) sink
  respond next_id source id (err malformed) sink = protocol_failure id protocol_malformed sink
  respond next_id source id (err remote) sink =
      answer next_id source id (response id false none remote_failure) sink

module _ (uuid : UuidCrate) (json : JsonCrate) where
  -- The selection of a protocol by the controller.
  unfoldable pub selected : FrameResult (Option Frame) × Source → Sink → Turn
  selected (ok (some (client_hello selection)), source) sink =
      if ltb selection.protocol protocol_min || ltb protocol_max selection.protocol
      then protocol_failure uuid json "hello" protocol_incompatible sink
      else go_on (record { next_id = 1; source = source; sink = sink })
  selected (ok (some (error id errors)), source) sink =
      if str_eq id "hello" && reports_incompatible errors
      then stop (ok tt) sink
      else protocol_failure uuid json "hello" protocol_malformed sink
  selected (ok none, source) sink = stop (ok tt) sink
  selected (err io, source) sink = stop (err (frame_error io)) sink
  selected (r, source) sink = protocol_failure uuid json "hello" protocol_malformed sink

  abbrev pub greeted : Source → FrameResult (Unit {0}) × Sink → Turn
  greeted source (ok _, sink) = selected (read uuid json source) sink
  greeted source (err e, sink) = stop (err (frame_error e)) sink

module _ (uuid : UuidCrate) (json : JsonCrate)
    (handle : String → Value → Result HandlerError Value) where
  -- A request: its identifier, the overflow check and the method.
  unfoldable pub turn_request : ℕ → Source → String → String → Value → Sink → Turn
  unfolding respond protocol_failure
  turn_request next_id source id method params sink =
      if not (str_eq id (request_id next_id))
      then protocol_failure uuid json id protocol_malformed sink
      else if next_id == last_id
      then stop (err protocol_malformed) sink
      else respond uuid json (next_id + 1) source id (handle method params) sink

  unfoldable pub turn_read : ℕ → FrameResult (Option Frame) × Source → Sink → Turn
  unfolding turn_request
  turn_read next_id (ok (some (request id method params)), source) sink =
      turn_request next_id source id method params sink
  turn_read next_id (ok none, source) sink = stop (ok tt) sink
  turn_read next_id (err io, source) sink = stop (err (frame_error io)) sink
  turn_read next_id (r, source) sink = protocol_failure uuid json "hello" protocol_malformed sink

  -- One round of the loop.
  unfoldable pub turn : Session → Turn
  unfolding turn_read
  turn session = turn_read session.next_id (read uuid json session.source) session.sink

  -- The loop, on fuel; `none` means that the fuel ran out.
  unfoldable pub loop : ℕ → Turn → Option (Result ErrorCode (Unit {0}) × Sink)
  loop fuel (stop result sink) = some (result, sink)
  loop zero (go_on session) = none
  loop (suc fuel) (go_on session) = loop fuel (turn session)

  -- `serve_manifest`, for the hello that it makes of the manifest.
  unfoldable pub serve :
      ℕ → ServerHello → Source → Sink → Option (Result ErrorCode (Unit {0}) × Sink)
  unfolding loop turn selected
  serve fuel hello source sink =
      loop fuel (greeted uuid json source (write uuid json (server_hello hello) sink))
