-- ===== src/Rpc/Exchange.antt =====
-- A call of src/rpc/mod.rs and the round of src/rpc/server.rs that serves it, together.
use styrn.Common.{
  ℕ, ◌+◌, ◌≡◌, ◌≢◌, ◌∙◌, true, false, none, some, String, eq_refl, List, [], ◌∷◌, ◌++◌, Result, ok,
  err, arith,
}
use styrn.Json.Defs.{Value}
use styrn.Output.Code.{remote_execution_failed, as_str}
use styrn.Rpc.Frame.Defs.{UuidCrate, UuidLaws, Frame, request, response}
use styrn.Rpc.Wire.{newline, JsonCrate}
use styrn.Rpc.Wire.Reader.{Source, read}
use styrn.Rpc.Wire.Writer.{Sink, write}
use styrn.Rpc.Wire.Lines.{IsSendable, read_sent}
use styrn.Rpc.Errors.{remote_failure, diagnostic}
use styrn.Rpc.Id.{request_id}
use styrn.Rpc.Server.{
  HandlerError, remote, Session, go_on, last_id, respond, turn_request, turn_read, turn,
}
use styrn.Rpc.Process.{read_frame, write_frame}
use styrn.Rpc.Client.{Client, receive, ask, call, is_remote_execution_failure}

abbrev pub asked : ℕ → String → Value → Frame
asked n method params = request (request_id n) method params

-- The state that a round leaves.
abbrev pub served : Session → List ℕ → Sink → Session
served s rest after = record {
  next_id = s.next_id + 1;
  source = record s.source { bytes = rest };
  sink = after;
}

-- The client that a call leaves, by the bytes that it has not read and the pipe behind the write.
abbrev pub called : Client → List ℕ → Sink → Client
called c rest after = record c {
  next_id = c.next_id + 1;
  process = record c.process {
    input = some after;
    output = record c.process.output { bytes = rest };
  };
}

module _ (uuid : UuidCrate) (json : JsonCrate) (laws : UuidLaws uuid) where
  read_next :
      (source : Source) (line rest : List ℕ) (frame : Frame)
      → source.bytes ≡ line ++ newline ∷ rest
      → IsSendable uuid json frame line
      → read uuid json source ≡ (ok (some frame), record source { bytes = rest })
  read_next source line rest frame bytes sendable =
      rw bytes (read_sent uuid json laws frame line rest source.fails sendable)

  -- The controller's half: a call that gets `frame` back.
  pub call_gets :
      (method : String) (params : Value) (c : Client) (line rest : List ℕ) (frame : Frame)
      (sink after : Sink)
      → c.terminated ≡ false
      → c.next_id ≢ last_id
      → c.process.input ≡ some sink
      → write uuid json (asked c.next_id method params) sink ≡ (ok tt, after)
      → c.process.output.bytes ≡ line ++ newline ∷ rest
      → IsSendable uuid json frame line
      → call uuid json method params c
        ≡ receive (request_id c.next_id) (some frame) (record c {
          next_id = c.next_id + 1;
          process = record c.process {
            input = some after;
            output = record c.process.output { bytes = rest };
          };
        })
  unfolding call ask read_frame write_frame
  call_gets method params c line rest frame sink after is_open low input w bytes sendable =
      ground (arith, read_next c.process.output line rest frame bytes sendable, w)

module _ (uuid : UuidCrate) (json : JsonCrate) (laws : UuidLaws uuid)
    (handle : String → Value → Result HandlerError Value) where
  -- The worker's half: a round that answers a request.
  turn_serves :
      (method : String) (params : Value) (s : Session) (line rest : List ℕ) (after : Sink)
      → s.next_id ≢ last_id
      → s.source.bytes ≡ line ++ newline ∷ rest
      → IsSendable uuid json (asked s.next_id method params) line
      → respond uuid json
          (s.next_id + 1)
          (record s.source { bytes = rest })
          (request_id s.next_id)
          (handle method params)
          s.sink
        ≡ go_on (served s rest after)
      → turn uuid json handle s ≡ go_on (served s rest after)
  unfolding turn turn_read turn_request
  turn_serves method params s line rest after low bytes sendable responds =
      rw
        (read_next uuid json laws s.source line rest (asked s.next_id method params) bytes sendable)
        (ground (arith, eq_refl (request_id s.next_id), responds))

  module _ (method : String) (params : Value) (c : Client) (s : Session)
      (asking answering behind rest : List ℕ) (pipe pipe' out : Sink)
      (is_open : c.terminated ≡ false) (in_step : c.next_id ≡ s.next_id) (low : s.next_id ≢ last_id)
      (input : c.process.input ≡ some pipe)
      (asks : write uuid json (asked s.next_id method params) pipe ≡ (ok tt, pipe'))
      (arrives : s.source.bytes ≡ asking ++ newline ∷ behind)
      (returns : c.process.output.bytes ≡ answering ++ newline ∷ rest)
      (ask_fits : IsSendable uuid json (asked s.next_id method params) asking) where
    -- The controller and the worker are in step, the controller's request arrives at the worker and
    -- the worker's response at the controller. Then the worker serves the request and the call
    -- returns what the method gave; both go on in step.
    pub exchange_data :
        (payload : Value)
        → handle method params ≡ ok payload
        → write uuid json (response (request_id s.next_id) true (some payload) []) s.sink
          ≡ (ok tt, out)
        → IsSendable uuid json (response (request_id s.next_id) true (some payload) []) answering
        → (turn uuid json handle s ≡ go_on (served s behind out))
          × (call uuid json method params c ≡ (ok payload, called c rest pipe'))
    unfolding respond receive
    exchange_data payload gives answers fits = (
      turn_serves method params s asking behind out low arrives ask_fits
          (ground (arith, gives, answers)),
      call_gets uuid json laws method params c answering rest
            (response (request_id s.next_id) true (some payload) []) pipe pipe' is_open
            (rw in_step low) input (rw in_step asks) returns fits
          ∙ rw in_step (ground (arith, eq_refl (request_id s.next_id))),
    )

    -- The controller and the worker are in step, and the method of the controller's request fails.
    -- Where the request and the response arrive, the call reports `remote.execution_failed` and both
    -- go on in step.
    pub exchange_failure :
        handle method params ≡ err remote
        → write uuid json (response (request_id s.next_id) false none remote_failure) s.sink
          ≡ (ok tt, out)
        → IsSendable uuid json (response (request_id s.next_id) false none remote_failure) answering
        → (turn uuid json handle s ≡ go_on (served s behind out))
          × (call uuid json method params c ≡ (err remote_execution_failed, called c rest pipe'))
    unfolding respond receive is_remote_execution_failure remote_failure diagnostic as_str
    exchange_failure gives answers fits = (
      turn_serves method params s asking behind out low arrives ask_fits
          (ground (arith, gives, answers)),
      call_gets uuid json laws method params c answering rest
            (response (request_id s.next_id) false none remote_failure) pipe pipe' is_open
            (rw in_step low) input (rw in_step asks) returns fits
          ∙ rw in_step (ground (arith, eq_refl (request_id s.next_id))),
    )
