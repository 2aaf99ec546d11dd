-- ===== src/Rpc/Wire/Reader.antt =====
-- `FrameReader` of src/rpc/frame.rs, over a stream that ends or fails after its bytes.
use styrn.Common.{
  ℕ, zero, suc, ◌+◌, Bool, true, false, not, ◌&&◌, Option, none, some, List, [], ◌∷◌, length,
  is_empty, ltb, ◌==◌, ok, err, ◌>>=◌, if◌then◌else◌,
}
use styrn.Common.Utf8.{is_utf8}
use styrn.Rpc.Frame.Defs.{
  UuidCrate, Frame, FrameResult, max_frame_bytes, io, oversize, truncated, invalid_utf8,
}
use styrn.Rpc.Frame.Decode.{decode}
use styrn.Rpc.Wire.{newline, JsonCrate}

-- The bytes that are still to come, and whether the read after the last one is an error.
pub record Source : Type 0 where
  pub bytes : List ℕ
  pub fails : Bool

pub record Chunk : Type 0 where
  pub taken : List ℕ
  pub rest : List ℕ
  pub exhausted : Bool

abbrev pub push : ℕ → Chunk → Chunk
push b c = record c { taken = b ∷ c.taken }

-- `take(limit).read_until(b'\n')`: up to the limit, a newline or the end of the bytes.
unfoldable pub read_until : ℕ → List ℕ → Chunk
read_until zero bytes = record { taken = []; rest = bytes; exhausted = false }
read_until (suc limit) [] = record { taken = []; rest = []; exhausted = true }
read_until (suc limit) (b ∷ bytes) =
    let later = push b (read_until limit bytes) in
    if b == newline then record { taken = b ∷ []; rest = bytes; exhausted = false } else later

-- `bytes.last() == Some(&b'\n')`.
abbrev pub ends_line : List ℕ → Bool
ends_line [] = false
ends_line (b ∷ []) = b == newline
ends_line (b ∷ c ∷ bytes) = ends_line (c ∷ bytes)

-- `bytes.pop()`.
abbrev pub pop : List ℕ → List ℕ
pop [] = []
pop (b ∷ []) = []
pop (b ∷ c ∷ bytes) = b ∷ pop (c ∷ bytes)

module _ (uuid : UuidCrate) (json : JsonCrate) where
  -- The line, without its newline.
  unfoldable pub read_line : List ℕ → FrameResult (Option Frame)
  read_line line =
      if ltb max_frame_bytes (length line)
      then err oversize
      else if not (is_utf8 line)
      then err invalid_utf8
      else do frame ← decode uuid (json.from_str line); ok (some frame)

  -- What was taken from the stream.
  unfoldable pub read_taken : List ℕ → FrameResult (Option Frame)
  unfolding read_line
  read_taken bytes =
      if is_empty bytes
      then ok none
      else if not (ends_line bytes)
      then err (if ltb max_frame_bytes (length bytes) then oversize else truncated)
      else read_line (pop bytes)

  unfoldable pub read : Source → FrameResult (Option Frame) × Source
  unfolding read_until read_taken
  read source =
      let chunk = read_until (max_frame_bytes + 2) source.bytes in
      (
        (if chunk.exhausted && source.fails then err io else read_taken chunk.taken),
        record source { bytes = chunk.rest },
      )
