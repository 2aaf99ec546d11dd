-- ===== src/Rpc/Client/Session.antt =====
-- The session that a call of src/rpc/mod.rs leaves.
use styrn.Common.{
  ◌≢◌, ◌+◌, ◌≡◌, ◌⊎◌, inl, inr, true, false, Option, none, some, String, ◌==◌, Result, ok, err,
  arith, Bool-cases,
}
use styrn.Json.Defs.{Value}
use styrn.Output.Code.{ErrorCode, transport_session_lost, remote_execution_failed}
use styrn.Rpc.Frame.Defs.{UuidCrate, Frame, request, response, error, FrameResult}
use styrn.Rpc.Wire.{JsonCrate}
use styrn.Rpc.Id.{request_id}
use styrn.Rpc.Server.{last_id}
use styrn.Rpc.Process.{Process, read_frame, write_frame, abort}
use styrn.Rpc.Client.{Client, terminate, receive, received, sent, ask, call}

-- The process has been aborted: no child, no pipe to it, no thread.
pub record IsAborted (p : Process) : Type 0 where
  pub no_child : p.child ≡ none
  pub no_input : p.input ≡ none
  pub no_stderr : p.stderr ≡ none

-- The session is over for good.
abbrev pub IsClosed : Client → Type 0
IsClosed c = (c.terminated ≡ true) × IsAborted c.process

-- How a call ends, by its result and the client that it leaves.
abbrev pub Ends : {A : Type 0} → Result ErrorCode A → Client → Type 0
Ends (ok payload) c = c.terminated ≡ false
Ends (err code) c = ((code ≡ remote_execution_failed) × (c.terminated ≡ false)) ⊎ IsClosed c

pub terminate-IsClosed : (c : Client) → c.terminated ≡ false → IsClosed (terminate c)
unfolding terminate abort
terminate-IsClosed c h = ground arith

receive-Ends :
    (id : String) (frame : Option Frame) (c : Client)
    → c.terminated ≡ false
    → Ends (receive id frame c).0 (receive id frame c).1
unfolding receive
receive-Ends id (some (response rid true (some payload) errors)) c h =
    ground (arith, terminate-IsClosed c)
receive-Ends id (some (response rid true none errors)) c h = ground (arith, terminate-IsClosed c)
receive-Ends id (some (response rid false payload errors)) c h =
    ground (arith, terminate-IsClosed c)
receive-Ends id (some (error rid errors)) c h = ground (arith, terminate-IsClosed c)
receive-Ends id (some frame) c h = inr (terminate-IsClosed c h)
receive-Ends id none c h = inr (terminate-IsClosed c h)

module _ (uuid : UuidCrate) (json : JsonCrate) where
  received-Ends :
      (id : String) (c : Client) (r : FrameResult (Option Frame) × Process)
      → c.terminated ≡ false
      → Ends (received uuid json id c r).0 (received uuid json id c r).1
  received-Ends id c (ok frame, process) h =
      receive-Ends id frame (record c { process = process }) h
  received-Ends id c (err e, process) h =
      inr (terminate-IsClosed (record c { process = process }) h)

  sent-Ends :
      (id : String) (c : Client) (r : FrameResult (Unit {0}) × Process)
      → c.terminated ≡ false
      → Ends (sent uuid json id c r).0 (sent uuid json id c r).1
  sent-Ends id c (ok x, process) h =
      received-Ends id (record c { process = process }) (read_frame uuid json process) h
  sent-Ends id c (err e, process) h = inr (terminate-IsClosed (record c { process = process }) h)

  ask-Ends :
      (method : String) (params : Value) (c : Client)
      → c.terminated ≡ false
      → Ends (ask uuid json method params c).0 (ask uuid json method params c).1
  unfolding ask
  ask-Ends method params c h = elim (Bool-cases (c.next_id == last_id)) [
    | inl last ↦ rw last (inr (terminate-IsClosed c h))
    | inr more ↦ rw more (
        sent-Ends (request_id c.next_id) (record c { next_id = c.next_id + 1 })
          (write_frame uuid json (request (request_id c.next_id) method params) c.process) h)
  ]

  pub call_open :
      (method : String) (params : Value) (c : Client)
      → c.terminated ≡ false
      → call uuid json method params c ≡ ask uuid json method params c
  unfolding call
  call_open method params c h = ground arith

  -- A call on an open session that returns data leaves the session open. One that fails either
  -- reports `remote.execution_failed` and leaves it open, or leaves it terminated, with the process
  -- aborted.
  pub call-Ends :
      (method : String) (params : Value) (c : Client)
      → c.terminated ≡ false
      → Ends (call uuid json method params c).0 (call uuid json method params c).1
  call-Ends method params c h = rw (call_open method params c h) (ask-Ends method params c h)

  call_closed :
      (method : String) (params : Value) (c : Client)
      → c.terminated ≡ true
      → call uuid json method params c ≡ (err transport_session_lost, c)
  unfolding call
  call_closed method params c h = rw h

  -- A call on an open session that fails with another error than `remote.execution_failed` ends the
  -- session for good: every later call reports that it is lost, and changes nothing.
  pub call_lost :
      (method : String) (params : Value) (c after : Client) (code : ErrorCode)
      → c.terminated ≡ false
      → call uuid json method params c ≡ (err code, after)
      → code ≢ remote_execution_failed
      → (later : String) (more : Value)
      → call uuid json later more after ≡ (err transport_session_lost, after)
  call_lost method params c after code is_open called other later more =
      elim (rw called at (call-Ends method params c is_open)) [
        | inl same ↦ absurd (other same.0)
        | inr closed ↦ call_closed later more after closed.0
      ]
