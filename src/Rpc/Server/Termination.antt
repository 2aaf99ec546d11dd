-- ===== src/Rpc/Server/Termination.antt =====
-- The length of a session of src/rpc/server.rs, by the bytes of its input.
use styrn.Common.{
  ℕ, zero, suc, ◌≤◌, ◌<◌, ◌≡◌, refl, ap, some, ◌∷◌, Result, length, length-append, arith, Option,
  none, ok, err, String,
}
use styrn.Json.Defs.{Value}
use styrn.Output.Code.{ErrorCode}
use styrn.Rpc.Frame.Defs.{
  UuidCrate, ServerHello, server_hello, Frame, request, client_hello, error, io, FrameResult,
}
use styrn.Rpc.Wire.{newline, JsonCrate}
use styrn.Rpc.Wire.Reader.{Source, read}
use styrn.Rpc.Wire.Writer.{Sink, write}
use styrn.Rpc.Wire.Limits.{read_sound}
use styrn.Rpc.Id.{request_id}
use styrn.Rpc.Server.{
  HandlerError, Session, Turn, stop, go_on, turn, loop, greeted, selected, protocol_failure, serve,
}
use styrn.Rpc.Server.Rounds.{turn-IsServed}

-- A bound on the rounds to come.
abbrev remaining : Turn → ℕ
remaining (stop result sink) = 0
remaining (go_on session) = suc (length session.source.bytes)

module _ (uuid : UuidCrate) (json : JsonCrate) where
  -- A frame takes at least one byte of the stream.
  pub read-shorter :
      (source after : Source) (frame : Frame)
      → read uuid json source ≡ (ok (some frame), after)
      → length after.bytes < length source.bytes
  read-shorter source after frame h =
      let left : (read uuid json source).1.bytes ≡ after.bytes = ap (λ r. r.1.bytes) h in
      let (line, split, _, _, _) = read_sound uuid json source frame (ap (λ r. r.0) h) in
      let counted = ap length split in
      let parts = length-append line (newline ∷ (read uuid json source).1.bytes) in
      let same = ap length left in omega (arith, counted, parts, same)

  remaining-selected :
      (source : Source) (r : FrameResult (Option Frame) × Source) (sink : Sink)
      → read uuid json source ≡ r
      → remaining (selected uuid json r sink) ≤ length source.bytes
  unfolding selected protocol_failure
  remaining-selected source (ok (some (client_hello hello)), after) sink e =
      ground (arith, read-shorter source after (client_hello hello) e)
  remaining-selected source (ok (some (error id errors)), after) sink e = ground arith
  remaining-selected source (ok none, after) sink e = omega arith
  remaining-selected source (err io, after) sink e = omega arith
  remaining-selected source (r, after) sink e = ground arith

  remaining-greeted :
      (source : Source) (w : FrameResult (Unit {0}) × Sink)
      → remaining (greeted uuid json source w) ≤ length source.bytes
  remaining-greeted source (ok x, sink) =
      remaining-selected source (read uuid json source) sink refl
  remaining-greeted source (err e, sink) = omega arith

module _ (uuid : UuidCrate) (json : JsonCrate)
    (handle : String → Value → Result HandlerError Value) where
  turn-shorter :
      (session after : Session)
      → turn uuid json handle session ≡ go_on after
      → length after.source.bytes < length session.source.bytes
  turn-shorter session after h =
      let served = turn-IsServed uuid json handle session after h in
      read-shorter uuid json session.source after.source
        (request (request_id session.next_id) served.method served.params) served.request_read

  remaining-turn :
      (session : Session) (t : Turn)
      → turn uuid json handle session ≡ t
      → remaining t ≤ length session.source.bytes
  remaining-turn session (stop result sink) h = omega arith
  remaining-turn session (go_on after) h = turn-shorter session after h

  loop_total :
      (fuel : ℕ) (t : Turn)
      → remaining t ≤ fuel
      → (r : Result ErrorCode (Unit {0}) × Sink) × (loop uuid json handle fuel t ≡ some r)
  unfolding loop
  loop_total fuel (stop result sink) h = ((result, sink), refl)
  loop_total zero (go_on session) h = absurd (omega arith)
  loop_total (suc fuel) (go_on session) h =
      let left = remaining-turn session (turn uuid json handle session) refl in
      loop_total fuel (turn uuid json handle session) (omega (arith, left))

  -- A session ends, with a result, after at most as many rounds as the controller sends bytes:
  -- whatever the bytes are, whatever the methods do and however the streams fail.
  pub serve_total :
      (fuel : ℕ) (hello : ServerHello) (source : Source) (sink : Sink)
      → length source.bytes ≤ fuel
      → (r : Result ErrorCode (Unit {0}) × Sink) × (serve uuid json handle fuel hello source sink
          ≡ some r)
  unfolding serve
  serve_total fuel hello source sink h =
      let w = write uuid json (server_hello hello) sink in
      let left = remaining-greeted uuid json source w in
      loop_total fuel (greeted uuid json source w) (omega (arith, left))
