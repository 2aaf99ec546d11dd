-- ===== src/Rpc/Errors.antt =====
-- `RpcError` of src/rpc/mod.rs. An error is its code: its message is fixed by the place that makes it.
use styrn.Common.{String, List, [], ◌∷◌, none}
use styrn.Output.Code.{
  ErrorCode, transport_session_lost, protocol_malformed, protocol_incompatible,
  remote_execution_failed, as_str,
}
use styrn.Rpc.Frame.Defs.{FrameErrorKind, io, RpcDiagnostic}

-- `RpcError::frame`.
unfoldable pub frame_error : FrameErrorKind → ErrorCode
frame_error io = transport_session_lost
frame_error _ = protocol_malformed

abbrev pub remote_execution_failed_message : String
remote_execution_failed_message = "the worker could not complete the RPC method"

-- `RpcDiagnostic::new`.
unfoldable pub diagnostic : ErrorCode → String → RpcDiagnostic
diagnostic code message = record { code = as_str code; message = message; details = none }

-- The one diagnostic of a failed method.
unfoldable pub remote_failure : List RpcDiagnostic
unfolding diagnostic
remote_failure = diagnostic remote_execution_failed remote_execution_failed_message ∷ []

-- The message of `protocol_failure` in src/rpc/server.rs.
abbrev pub failure_message : ErrorCode → String
failure_message protocol_incompatible = "the selected RPC protocol is incompatible"
failure_message _ = "the RPC peer sent a malformed frame"
