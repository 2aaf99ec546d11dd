-- ===== src/Rpc/Server/Rounds.antt =====
-- The rounds of the loop in src/rpc/server.rs, by the requests that they read.
use styrn.Common.{
  ℕ, ◌+◌, ◌^◌, ◌<◌, ◌≡◌, ◌≢◌, ◌⊎◌, inl, inr, refl, true, false, Option, none, some, String, eq_iff,
  [], ◌∷◌, ◌∙◌, Result, ok, err, arith,
}
use styrn.Json.Defs.{Value}
use styrn.Output.Code.{protocol_malformed, as_str}
use styrn.Rpc.Frame.Defs.{UuidCrate, Frame, request, response, error, FrameResult, io, oversize}
use styrn.Rpc.Wire.{JsonCrate}
use styrn.Rpc.Wire.Reader.{Source, read}
use styrn.Rpc.Wire.Writer.{Sink, write, write_bytes, write_room}
use styrn.Rpc.Errors.{remote_failure, diagnostic}
use styrn.Rpc.Id.{request_id, request_id-injective}
use styrn.Rpc.Server.{
  HandlerError, malformed, remote, Session, go_on, stop, last_id, protocol_failure, retried,
  written, answer, respond, turn_request, turn_read, turn,
}

-- The response to a request, by what its method gave and the stream that it is written on. Data
-- that is too long is answered as a failure.
pub data IsAnswer (uuid : UuidCrate) (json : JsonCrate) (id : String) (sink : Sink)
    : Result HandlerError Value → Frame → Type 0 where
  answered :
      {payload : Value}
      → IsAnswer uuid json id sink (ok payload) (response id true (some payload) [])
  failed : IsAnswer uuid json id sink (err remote) (response id false none remote_failure)
  too_long :
      {payload : Value}
      → write uuid json (response id true (some payload) []) sink ≡ (err oversize, sink)
      → IsAnswer uuid json id sink (ok payload) (response id false none remote_failure)

-- What the worker says of a frame that it cannot serve.
abbrev pub malformed_notice : String → Frame
malformed_notice id = error id (
    record {
      code = "protocol.malformed";
      message = "the RPC peer sent a malformed frame";
      details = none;
    }
    ∷ [])

module _ (uuid : UuidCrate) (json : JsonCrate) where
  -- A frame that is too long leaves the stream as it was.
  write_oversize_same :
      (frame : Frame) (sink after : Sink)
      → write uuid json frame sink ≡ (err oversize, after)
      → after ≡ sink
  unfolding write write_bytes write_room
  write_oversize_same frame sink after h = ground arith

  -- What was written in a round that goes on, and with what the next one begins.
  abbrev Written : ℕ → Source → Frame → Sink → Session → Type 0
  Written next_id source frame sink after =
      (write uuid json frame sink ≡ (ok tt, after.sink))
      × (after.next_id ≡ next_id)
      × (after.source ≡ source)

  retried-go_on :
      (next_id : ℕ) (source : Source) (frame : Frame) (sink : Sink) (after : Session)
      → retried uuid json next_id source (write uuid json frame sink) ≡ go_on after
      → Written next_id source frame sink after
  retried-go_on next_id source frame sink after h = ground arith

  written-go_on :
      (next_id : ℕ) (source : Source) (id : String) (frame : Frame) (sink : Sink) (after : Session)
      (w : FrameResult (Unit {0}) × Sink)
      → write uuid json frame sink ≡ w
      → written uuid json next_id source id w ≡ go_on after
      → Written next_id source frame sink after
        ⊎ (Written next_id source (response id false none remote_failure) sink after
            × (write uuid json frame sink ≡ (err oversize, sink)))
  written-go_on next_id source id frame sink after (ok x, mid) e h = inl (ground arith)
  written-go_on next_id source id frame sink after (err oversize, mid) e h =
      let failure = response id false none remote_failure in
      let same : mid ≡ sink = write_oversize_same frame sink mid e in
      inr (retried-go_on next_id source failure sink after (rw same at h), rw same at e)
  written-go_on next_id source id frame sink after (err io, mid) e h = cc
  written-go_on next_id source id frame sink after (err _, mid) e h = cc

  -- How a response of a round that goes on was written.
  respond-go_on :
      (next_id : ℕ) (source : Source) (id : String) (r : Result HandlerError Value) (sink : Sink)
      (after : Session)
      → respond uuid json next_id source id r sink ≡ go_on after
      → (frame : Frame) × IsAnswer uuid json id sink r frame
        × Written next_id source frame sink after
  unfolding respond protocol_failure
  respond-go_on next_id source id (ok payload) sink after h =
      let data_frame = response id true (some payload) [] in
      elim (written-go_on next_id source id data_frame sink after (write uuid json data_frame sink)
        refl h) [
          | inl w ↦ (data_frame, answered, w)
          | inr (w, long) ↦ (response id false none remote_failure, too_long long, w)
        ]
  respond-go_on next_id source id (err malformed) sink after h = cc
  respond-go_on next_id source id (err remote) sink after h =
      let failure = response id false none remote_failure in
      elim (written-go_on next_id source id failure sink after (write uuid json failure sink) refl
        h) [ inl w ↦ (failure, failed, w) | inr (w, long) ↦ (failure, failed, w) ]

module _ (uuid : UuidCrate) (json : JsonCrate)
    (handle : String → Value → Result HandlerError Value) where
  turn_request-eq :
      (next_id : ℕ) (source : Source) (method : String) (params : Value) (sink : Sink)
      → next_id ≢ last_id
      → turn_request uuid json handle next_id source (request_id next_id) method params sink
        ≡ respond uuid json (next_id + 1) source (request_id next_id) (handle method params) sink
  unfolding turn_request
  turn_request-eq next_id source method params sink h =
      ground (arith, eq_iff (request_id next_id) (request_id next_id))

  -- What a round that goes on has done with its request.
  pub record IsServed (session after : Session) : Type 0 where
    pub method : String
    pub params : Value
    pub frame : Frame
    pub request_read :
        read uuid json session.source
        ≡ (ok (some (request (request_id session.next_id) method params)), after.source)
    pub in_range : session.next_id ≢ last_id
    pub next : after.next_id ≡ session.next_id + 1
    pub answer_of :
        IsAnswer uuid json (request_id session.next_id) session.sink (handle method params) frame
    pub answer_written : write uuid json frame session.sink ≡ (ok tt, after.sink)

  turn_request-go_on :
      (next_id : ℕ) (source : Source) (id method : String) (params : Value) (sink : Sink)
      (after : Session)
      → turn_request uuid json handle next_id source id method params sink ≡ go_on after
      → (id ≡ request_id next_id)
        × (next_id ≢ last_id)
        × (respond uuid json (next_id + 1) source id (handle method params) sink ≡ go_on after)
  unfolding turn_request protocol_failure
  turn_request-go_on next_id source id method params sink after h =
      ground (arith, eq_iff id (request_id next_id))

  turn_read-go_on :
      (session after : Session) (r : FrameResult (Option Frame) × Source)
      → read uuid json session.source ≡ r
      → turn_read uuid json handle session.next_id r session.sink ≡ go_on after
      → IsServed session after
  unfolding turn_read protocol_failure
  turn_read-go_on session after (ok (some (request id method params)), source) e h =
      let (same, low, responds) =
        turn_request-go_on session.next_id source id method params session.sink after h in
      let (frame, answer, w) =
        respond-go_on uuid json (session.next_id + 1) source id (handle method params) session.sink
          after responds in
      record {
        method = method;
        params = params;
        frame = frame;
        request_read = ground (arith, e, same, w.2);
        in_range = low;
        next = w.1;
        answer_of = rw same at answer;
        answer_written = w.0;
      }
  turn_read-go_on session after (ok none, source) e h = cc
  turn_read-go_on session after (err io, source) e h = cc
  turn_read-go_on session after (r, source) e h = cc

  -- A round that goes on has read the request whose turn it was, and has written one frame, which
  -- answers it: the data of the method, or the failure of the method, or a failure where the data is
  -- too long to be written. The next round waits for the next identifier.
  pub turn-IsServed :
      (session after : Session)
      → turn uuid json handle session ≡ go_on after
      → IsServed session after
  unfolding turn
  turn-IsServed session after h =
      turn_read-go_on session after (read uuid json session.source) refl h

  protocol_failure-malformed :
      (id : String) (sink : Sink)
      → protocol_failure uuid json id protocol_malformed sink
        ≡ stop (err protocol_malformed) (write uuid json (malformed_notice id) sink).1
  unfolding protocol_failure diagnostic as_str
  protocol_failure-malformed id sink = refl

  -- A request whose identifier is not the one whose turn it is ends the session as malformed,
  -- through `protocol_failure` for that identifier.
  pub turn_out_of_order :
      (session : Session) (source : Source) (id method : String) (params : Value)
      → read uuid json session.source ≡ (ok (some (request id method params)), source)
      → id ≢ request_id session.next_id
      → turn uuid json handle session
        ≡ protocol_failure uuid json id protocol_malformed session.sink
  unfolding turn turn_read turn_request
  turn_out_of_order session source id method params r ne =
      rw r (ground (arith, eq_iff id (request_id session.next_id)))

  -- A request with an identifier of an earlier round is not answered: the session ends with the error
  -- of a malformed protocol, and what is written, if it can be, is one error frame for that
  -- identifier with the code `protocol.malformed`.
  pub turn_replay :
      (session : Session) (source : Source) (n : ℕ) (method : String) (params : Value)
      → read uuid json session.source ≡ (ok (some (request (request_id n) method params)), source)
      → n < session.next_id
      → session.next_id < 2 ^ 64
      → turn uuid json handle session
        ≡ stop
            (err protocol_malformed)
            (write uuid json (malformed_notice (request_id n)) session.sink).1
  turn_replay session source n method params r lt word =
      let ended = turn_out_of_order session source (request_id n) method params r λ e.
        let same = request_id-injective n session.next_id (omega arith) word e in
        absurd (omega (arith, same)) in
      ended ∙ protocol_failure-malformed (request_id n) session.sink
