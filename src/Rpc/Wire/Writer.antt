-- ===== src/Rpc/Wire/Writer.antt =====
-- `FrameWriter` of src/rpc/frame.rs, over a stream that may fail.
use styrn.Common.{
  ℕ, zero, suc, ◌-◌, Bool, true, false, Option, none, some, List, [], ◌∷◌, ◌++◌, length, ltb, leb,
  ok, err, if◌then◌else◌,
}
use styrn.Rpc.Frame.Defs.{
  UuidCrate, Frame, FrameResult, max_frame_bytes, io, oversize, invalid_json,
}
use styrn.Rpc.Frame.Encode.{serialize}
use styrn.Rpc.Wire.{newline, JsonCrate}

-- What was written, how many more bytes the stream takes (`none`: any number), and whether a
-- flush succeeds.
pub record Sink : Type 0 where
  pub written : List ℕ
  pub room : Option ℕ
  pub flushes : Bool

abbrev pub keep : ℕ → List ℕ → List ℕ
keep zero bytes = []
keep (suc n) [] = []
keep (suc n) (b ∷ bytes) = b ∷ keep n bytes

-- `write_all`: a stream without room takes what fits and fails.
unfoldable pub write_room : Option ℕ → List ℕ → Sink → Bool × Sink
write_room none bytes sink = (true, record sink { written = sink.written ++ bytes })
write_room (some room) bytes sink =
    if leb (length bytes) room
    then (true, record sink { written = sink.written ++ bytes; room = some (room - length bytes) })
    else (false, record sink { written = sink.written ++ keep room bytes; room = some 0 })

unfoldable pub write_all : List ℕ → Sink → Bool × Sink
unfolding write_room
write_all bytes sink = write_room sink.room bytes sink

-- `.and_then(|()| self.output.write_all(b"\n")).and_then(|()| self.output.flush())`.
abbrev pub write_newline : Bool × Sink → Bool × Sink
write_newline (true, sink) = write_all (newline ∷ []) sink
write_newline (false, sink) = (false, sink)

abbrev pub flush : Bool × Sink → FrameResult (Unit {0}) × Sink
flush (true, sink) = (if sink.flushes then ok tt else err io, sink)
flush (false, sink) = (err io, sink)

module _ (uuid : UuidCrate) (json : JsonCrate) where
  unfoldable pub write_bytes : Option (List ℕ) → Sink → FrameResult (Unit {0}) × Sink
  unfolding write_all
  write_bytes none sink = (err invalid_json, sink)
  write_bytes (some bytes) sink =
      if ltb max_frame_bytes (length bytes)
      then (err oversize, sink)
      else flush (write_newline (write_all bytes sink))

  unfoldable pub write : Frame → Sink → FrameResult (Unit {0}) × Sink
  unfolding write_bytes
  write frame sink = write_bytes (json.to_vec (serialize uuid frame)) sink
