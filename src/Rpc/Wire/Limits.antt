-- ===== src/Rpc/Wire/Limits.antt =====
-- `FrameReader::read` of src/rpc/frame.rs on any stream.
use mathlib.Core.List.{append_assoc}
use styrn.Common.{
  ltb→lt, ◌∙◌, if◌then◌else◌, ℕ, suc, zero, ◌+◌, ◌≤◌, ◌<◌, ◌≡◌, ◌≢◌, refl, ap, Bool, true, false,
  Option, some, List, [], ◌∷◌, ◌++◌, length, ltb, ◌==◌, All, ok, err, Bool-cases, inl, inr, arith,
}
use styrn.Common.Utf8.{is_utf8}
use styrn.Rpc.Frame.Defs.{UuidCrate, Frame, FrameResult, max_frame_bytes, oversize, truncated, io}
use styrn.Rpc.Frame.Bounds.{IsValid, decode-IsValid}
use styrn.Rpc.Wire.{newline, JsonCrate}
use styrn.Rpc.Wire.Reader.{Source, read_until, ends_line, pop, read_line, read_taken, read}
use styrn.Rpc.Wire.Lines.{read-line}

-- A chunk is a prefix of the bytes, at most as long as the limit.
read_until_splits :
    (limit : ℕ) (bytes : List ℕ)
    → (bytes ≡ (read_until limit bytes).taken ++ (read_until limit bytes).rest)
      × (length (read_until limit bytes).taken ≤ limit)
unfolding read_until
read_until_splits zero bytes = (refl, omega arith)
read_until_splits (suc limit) [] = (refl, omega arith)
read_until_splits (suc limit) (b ∷ bytes) = ground (arith, read_until_splits limit bytes)

All-pop :
    (b : ℕ) (bytes : List ℕ)
    → b ≢ newline
    → All (λ c. c ≢ newline) (pop bytes)
    → All (λ c. c ≢ newline) (pop (b ∷ bytes))
All-pop b [] h k = tt
All-pop b (c ∷ bytes) h k = (h, k)

-- Only the last byte of a chunk can be a newline.
read_until_one_line :
    (limit : ℕ) (bytes : List ℕ) → All (λ b. b ≢ newline) (pop (read_until limit bytes).taken)
unfolding read_until
read_until_one_line zero bytes = tt
read_until_one_line (suc limit) [] = tt
read_until_one_line (suc limit) (b ∷ bytes) = elim (Bool-cases (b == newline)) [
  | inl last ↦ rw last tt
  | inr other ↦
      rw other
        (All-pop b (read_until limit bytes).taken (ground arith) (read_until_one_line limit bytes))
]

append-pop : (bytes : List ℕ) → ends_line bytes ≡ true → bytes ≡ pop bytes ++ newline ∷ []
append-pop [] h = cc
append-pop (b ∷ []) h = ground arith
append-pop (b ∷ c ∷ bytes) h = ap (λ l. b ∷ l) (append-pop (c ∷ bytes) h)

-- A chunk of bytes that hold no newline, where there are enough of them.
read_until_full :
    (limit : ℕ) (line rest : List ℕ)
    → All (λ b. b ≢ newline) line
    → limit ≤ length line
    → (length (read_until limit (line ++ rest)).taken ≡ limit)
      × All (λ b. b ≢ newline) (read_until limit (line ++ rest)).taken
      × ((read_until limit (line ++ rest)).exhausted ≡ false)
unfolding read_until
read_until_full zero line rest h le = (refl, tt, refl)
read_until_full (suc limit) [] rest h le = absurd (omega arith)
read_until_full (suc limit) (b ∷ line) rest (here, h) le =
    ground (arith, read_until_full limit line rest h)

-- A chunk of bytes that hold no newline, where they come to an end.
read_until_end :
    (limit : ℕ) (line : List ℕ)
    → All (λ b. b ≢ newline) line
    → length line < limit
    → read_until limit line ≡ record { taken = line; rest = []; exhausted = true }
unfolding read_until
read_until_end zero line h lt = absurd (omega arith)
read_until_end (suc limit) [] h lt = refl
read_until_end (suc limit) (b ∷ line) (here, h) lt = ground (arith, read_until_end limit line h)

no_line : (bytes : List ℕ) → All (λ b. b ≢ newline) bytes → ends_line bytes ≡ false
no_line [] h = refl
no_line (b ∷ []) h = ground arith
no_line (b ∷ c ∷ bytes) h = no_line (c ∷ bytes) h.1

not_failed :
    (b : Bool) (r : FrameResult (Option Frame)) {o : Option Frame}
    → (if b then err io else r) ≡ ok o
    → r ≡ ok o
not_failed true r h = cc
not_failed false r h = h

module _ (uuid : UuidCrate) (json : JsonCrate) where
  -- Whatever the stream holds, one read takes a prefix of it of at most two bytes more than the
  -- limit, and leaves the rest.
  pub read_splits :
      (source : Source)
      → (taken : List ℕ) × (source.bytes ≡ taken ++ (read uuid json source).1.bytes)
        × (length taken ≤ max_frame_bytes + 2)
  unfolding read
  read_splits source =
      let s = read_until_splits (max_frame_bytes + 2) source.bytes in
      ((read_until (max_frame_bytes + 2) source.bytes).taken, s.0, s.1)

  read_taken_long :
      (bytes : List ℕ)
      → All (λ b. b ≢ newline) bytes
      → max_frame_bytes < length bytes
      → read_taken uuid json bytes ≡ err oversize
  unfolding read_taken
  read_taken_long bytes h lt = ground (arith, no_line bytes h)

  read_long :
      (line rest : List ℕ) (fails : Bool)
      → All (λ b. b ≢ newline) line
      → max_frame_bytes + 2 ≤ length line
      → (read uuid json (record { bytes = line ++ rest; fails = fails })).0 ≡ err oversize
  unfolding read
  read_long line rest fails h le =
      let (size, none_in, more) = read_until_full (max_frame_bytes + 2) line rest h le in
      rw more (
        read_taken_long (read_until (max_frame_bytes + 2) (line ++ rest)).taken none_in
          (omega arith))

  read_line_long :
      (line : List ℕ) → max_frame_bytes < length line → read_line uuid json line ≡ err oversize
  unfolding read_line
  read_line_long line lt = ground arith

  -- A line of more bytes than the limit is refused as oversize.
  pub read_oversize :
      (line rest : List ℕ) (fails : Bool)
      → All (λ b. b ≢ newline) line
      → max_frame_bytes < length line
      → (read uuid json (record { bytes = line ++ newline ∷ rest; fails = fails })).0 ≡ err oversize
  read_oversize line rest fails h lt = elim (Bool-cases (ltb (length line) (max_frame_bytes + 2))) [
    | inl near ↦
        rw (read-line uuid json line rest fails h (ltb→lt _ _ near)) (read_line_long line lt)
    | inr far ↦ read_long line (newline ∷ rest) fails h (ground arith)
  ]

  -- A line that is not empty and within the limit, at the end of the stream and without a newline,
  -- is refused as truncated.
  pub read_truncated :
      (line : List ℕ)
      → All (λ b. b ≢ newline) line
      → line ≢ []
      → length line ≤ max_frame_bytes
      → (read uuid json (record { bytes = line; fails = false })).0 ≡ err truncated
  unfolding read read_taken
  read_truncated line h ne le =
      rw (read_until_end (max_frame_bytes + 2) line h (omega arith))
        (ground (arith, no_line line h))

  -- A stream that fails before the end of a line that is not too long gives an I/O error, and no
  -- frame, whatever was read of the line.
  pub read_io :
      (line : List ℕ)
      → All (λ b. b ≢ newline) line
      → length line < max_frame_bytes + 2
      → (read uuid json (record { bytes = line; fails = true })).0 ≡ err io
  unfolding read
  read_io line h lt = rw (read_until_end (max_frame_bytes + 2) line h lt)

  read_line-IsValid :
      (line : List ℕ) (frame : Frame)
      → read_line uuid json line ≡ ok (some frame)
      → IsValid uuid frame × (length line ≤ max_frame_bytes) × (is_utf8 line ≡ true)
  unfolding read_line
  read_line-IsValid line frame h = ground (arith, decode-IsValid uuid (json.from_str line) frame)

  read_taken-IsValid :
      (bytes : List ℕ) (frame : Frame)
      → read_taken uuid json bytes ≡ ok (some frame)
      → IsValid uuid frame × (length (pop bytes) ≤ max_frame_bytes) × (ends_line bytes ≡ true)
  unfolding read_taken
  read_taken-IsValid bytes frame h = ground (arith, read_line-IsValid (pop bytes) frame)

  -- A frame is read from nothing but a whole line within the limit, and is within its bounds.
  pub read_sound :
      (source : Source) (frame : Frame)
      → (read uuid json source).0 ≡ ok (some frame)
      → (line : List ℕ) × (source.bytes ≡ line ++ newline ∷ (read uuid json source).1.bytes)
        × All (λ b. b ≢ newline) line
        × (length line ≤ max_frame_bytes)
        × IsValid uuid frame
  unfolding read
  read_sound source frame h =
      let limit = max_frame_bytes + 2 in
      let taken = (read_until limit source.bytes).taken in
      let accepted : read_taken uuid json taken ≡ ok (some frame) = not_failed _ _ h in
      let (valid, short, whole) = read_taken-IsValid taken frame accepted in
      let (split, _) = read_until_splits limit source.bytes in
      (
        pop taken,
        split
            ∙ ap (λ t. t ++ (read_until limit source.bytes).rest) (append-pop taken whole)
            ∙ append_assoc (pop taken) (newline ∷ []) _,
        read_until_one_line limit source.bytes,
        short,
        valid,
      )
