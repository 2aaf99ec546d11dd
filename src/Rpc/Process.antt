-- ===== src/Rpc/Process.antt =====
-- `RpcProcess` of src/transport/mod.rs: the child process behind a session and its pipes.
use styrn.Common.{Bool, false, Option, none, some, Result, ok, err}
use styrn.Output.Code.{ErrorCode, transport_session_lost, transport_auth_failed}
use styrn.Rpc.Frame.Defs.{UuidCrate, Frame, FrameResult, io}
use styrn.Rpc.Wire.{JsonCrate}
use styrn.Rpc.Wire.Reader.{Source, read}
use styrn.Rpc.Wire.Writer.{Sink, write}

-- What waiting for the child gives: whether it succeeded, or `none` for an error.
pub record Child : Type 0 where
  pub wait : Option Bool

-- `input` and `child` are taken by `finish` and `abort`; `stderr` is the thread that drains the
-- standard error, by whether joining it succeeds.
pub record Process : Type 0 where
  pub child : Option Child
  pub input : Option Sink
  pub output : Source
  pub stderr : Option Bool
  pub pre_hello_error : ErrorCode

-- `RpcProcess::new` and `RpcProcess::new_ssh`.
abbrev pub new : Child → Sink → Source → Bool → Process
new child input output stderr = record {
  child = some child;
  input = some input;
  output = output;
  stderr = some stderr;
  pre_hello_error = transport_session_lost;
}

abbrev pub new_ssh : Child → Sink → Source → Bool → Process
new_ssh child input output stderr = record (new child input output stderr) {
  pre_hello_error = transport_auth_failed;
}

-- The errors of `finish` are all of one kind.
pub data FinishError : Type 0 where
  unreachable : FinishError

abbrev joined : Option Bool → Bool → Result FinishError Bool
joined (some false) status = err unreachable
joined _ status = ok status

-- The thread is joined only once the child has been waited for.
abbrev reaped : Option Bool → Process → Result FinishError Bool × Process
reaped none process = (err unreachable, process)
reaped (some status) process = (joined process.stderr status, record process { stderr = none })

abbrev waited : Option Child → Process → Result FinishError Bool × Process
waited none process = (err unreachable, process)
waited (some child) process = reaped child.wait process

unfoldable pub finish : Process → Result FinishError Bool × Process
finish process = waited process.child (record process { child = none; input = none })

unfoldable pub abort : Process → Process
abort process = record process { child = none; input = none; stderr = none }

module _ (uuid : UuidCrate) (json : JsonCrate) where
  unfoldable pub read_frame : Process → FrameResult (Option Frame) × Process
  read_frame process =
      let (r, left) = read uuid json process.output in (r, record process { output = left })

  abbrev pub write_input : Option Sink → Frame → FrameResult (Unit {0}) × Option Sink
  write_input none frame = (err io, none)
  write_input (some sink) frame = let (r, after) = write uuid json frame sink in (r, some after)

  unfoldable pub write_frame : Frame → Process → FrameResult (Unit {0}) × Process
  write_frame frame process =
      let (r, left) = write_input process.input frame in (r, record process { input = left })
