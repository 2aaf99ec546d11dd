-- ===== src/Rpc/Wire/Lines.antt =====
-- `FrameReader::read` of src/rpc/frame.rs on the line of a frame.
use styrn.Common.{
  ℕ, suc, zero, ◌+◌, ◌≤◌, ◌<◌, ◌≡◌, ◌≢◌, refl, ap, Bool, true, false, some, List, [], ◌∷◌, ◌++◌,
  length, All, is_empty, ok, arith,
}
use styrn.Json.Visitor.{distinct}
use styrn.Rpc.Frame.Defs.{UuidCrate, UuidLaws, Frame, max_frame_bytes}
use styrn.Rpc.Frame.Encode.{serialize}
use styrn.Rpc.Frame.Bounds.{IsValid}
use styrn.Rpc.Frame.RoundTrip.{IsTyped, decode-serialize}
use styrn.Rpc.Wire.{newline, JsonCrate, IsWritten}
use styrn.Rpc.Wire.Reader.{read_until, ends_line, pop, read_line, read_taken, read}

-- A line is taken up to its newline.
pub read_until_line :
    (limit : ℕ) (line rest : List ℕ)
    → All (λ b. b ≢ newline) line
    → length line < limit
    → read_until limit (line ++ newline ∷ rest)
      ≡ record { taken = line ++ newline ∷ []; rest = rest; exhausted = false }
unfolding read_until
read_until_line zero line rest h lt = absurd (omega arith)
read_until_line (suc limit) [] rest h lt = refl
read_until_line (suc limit) (b ∷ line) rest (here, h) lt =
    ground (arith, read_until_line limit line rest h)

pub ends_line-append : (line : List ℕ) → ends_line (line ++ newline ∷ []) ≡ true
ends_line-append [] = refl
ends_line-append (b ∷ []) = refl
ends_line-append (b ∷ c ∷ line) = ends_line-append (c ∷ line)

pub pop-append : (line : List ℕ) → pop (line ++ newline ∷ []) ≡ line
pop-append [] = refl
pop-append (b ∷ []) = refl
pop-append (b ∷ c ∷ line) = ap (λ l. b ∷ l) (pop-append (c ∷ line))

is_empty-append : (line : List ℕ) → is_empty (line ++ newline ∷ []) ≡ false
is_empty-append [] = refl
is_empty-append (b ∷ line) = refl

module _ (uuid : UuidCrate) (json : JsonCrate) where
  -- Reading a line is reading its bytes.
  pub read-line :
      (line rest : List ℕ) (fails : Bool)
      → All (λ b. b ≢ newline) line
      → length line < max_frame_bytes + 2
      → read uuid json (record { bytes = line ++ newline ∷ rest; fails = fails })
        ≡ (read_line uuid json line, record { bytes = rest; fails = fails })
  unfolding read read_taken
  read-line line rest fails h lt = rw (
    read_until_line (max_frame_bytes + 2) line rest h lt,
    is_empty-append line,
    ends_line-append line,
    pop-append line,
  )

-- The conditions under which a frame is written and read back.
pub record IsSendable (uuid : UuidCrate) (json : JsonCrate) (frame : Frame) (bytes : List ℕ)
    : Type 0 where
  pub valid : IsValid uuid frame
  pub typed : IsTyped frame
  pub distinct_keys : distinct (serialize uuid frame) ≡ true
  pub written : IsWritten json (serialize uuid frame) bytes
  pub short : length bytes ≤ max_frame_bytes

module _ (uuid : UuidCrate) (json : JsonCrate) (laws : UuidLaws uuid) where
  read_line-IsSendable :
      (frame : Frame) (line : List ℕ)
      → IsSendable uuid json frame line
      → read_line uuid json line ≡ ok (some frame)
  unfolding read_line
  read_line-IsSendable frame line s =
      let t = decode-serialize uuid laws frame s.valid s.typed s.distinct_keys in
      ground (arith, t, s.written.read_back, s.written.utf8, s.short)

  -- The line of a frame that may be sent is read as the frame, whatever follows it in the stream,
  -- and exactly the line is consumed.
  pub read_sent :
      (frame : Frame) (line rest : List ℕ) (fails : Bool)
      → IsSendable uuid json frame line
      → read uuid json (record { bytes = line ++ newline ∷ rest; fails = fails })
        ≡ (ok (some frame), record { bytes = rest; fails = fails })
  read_sent frame line rest fails s =
      let short = s.short in
      rw (
        read-line uuid json line rest fails s.written.one_line (omega arith),
        read_line-IsSendable frame line s,
      )
