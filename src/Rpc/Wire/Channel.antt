-- ===== src/Rpc/Wire/Channel.antt =====
-- A writer and a reader of src/rpc/frame.rs on the two ends of one stream.
use mathlib.Core.List.{append_assoc, append-nil}
use styrn.Common.{
  ℕ, ◌<◌, ◌≡◌, refl, sym, ap, ◌∙◌, false, none, some, List, [], ◌∷◌, ◌++◌, length, ok, err, arith,
}
use styrn.Rpc.Frame.Defs.{UuidCrate, UuidLaws, Frame, max_frame_bytes, oversize}
use styrn.Rpc.Frame.Encode.{serialize}
use styrn.Rpc.Wire.{newline, JsonCrate}
use styrn.Rpc.Wire.Reader.{Source, read_until, read_taken, read}
use styrn.Rpc.Wire.Writer.{Sink, write_room, write_all, write_bytes, write}
use styrn.Rpc.Wire.Lines.{IsSendable, read_sent}

abbrev pub lines : List (List ℕ) → List ℕ
lines [] = []
lines (l ∷ ls) = l ++ newline ∷ lines ls

module _ (uuid : UuidCrate) (json : JsonCrate) where
  abbrev pub AllSendable : List Frame → List (List ℕ) → Type 0
  AllSendable [] [] = Unit
  AllSendable (f ∷ fs) (l ∷ ls) = IsSendable uuid json f l × AllSendable fs ls
  AllSendable [] (l ∷ ls) = ⊥
  AllSendable (f ∷ fs) [] = ⊥

  -- A successful write has put one line more on the stream, whatever room it had.
  write_bytes_appends :
      (line : List ℕ) (sink after : Sink)
      → write_bytes uuid json (some line) sink ≡ (ok tt, after)
      → after.written ≡ (sink.written ++ line) ++ newline ∷ []
  unfolding write_bytes write_all write_room
  write_bytes_appends line sink after h = ground arith

  write_appends :
      (frame : Frame) (line : List ℕ) (sink after : Sink)
      → json.to_vec (serialize uuid frame) ≡ some line
      → write uuid json frame sink ≡ (ok tt, after)
      → after.written ≡ (sink.written ++ line) ++ newline ∷ []
  unfolding write
  write_appends frame line sink after w h = write_bytes_appends line sink after (rw w at h)

  -- A frame that is too long is refused before any byte of it is written.
  pub write_oversize :
      (frame : Frame) (line : List ℕ) (sink : Sink)
      → json.to_vec (serialize uuid frame) ≡ some line
      → max_frame_bytes < length line
      → write uuid json frame sink ≡ (err oversize, sink)
  unfolding write write_bytes
  write_oversize frame line sink w lt = rw w (ground arith)

  -- One successful write after another.
  pub data Sends : List Frame → Sink → Sink → Type 0 where
    sent : (sink : Sink) → Sends [] sink sink
    send :
        {frame : Frame} {frames : List Frame} {sink after last : Sink}
        → write uuid json frame sink ≡ (ok tt, after)
        → Sends frames after last
        → Sends (frame ∷ frames) sink last

  -- The frames that a reader gets, up to the clean end of the stream.
  pub data Receives : Source → List Frame → Type 0 where
    ended : (source : Source) → (read uuid json source).0 ≡ ok none → Receives source []
    receive :
        (source after : Source) (frame : Frame) (frames : List Frame)
        → read uuid json source ≡ (ok (some frame), after)
        → Receives after frames
        → Receives source (frame ∷ frames)

  written_after :
      (frames : List Frame) (ls : List (List ℕ)) {sink last : Sink}
      → AllSendable frames ls
      → Sends frames sink last
      → last.written ≡ sink.written ++ lines ls
  written_after [] [] s (sent sink) = sym (append-nil sink.written)
  written_after [] (l ∷ ls) s _ = elim s [ ]
  written_after (f ∷ fs) [] s _ = elim s [ ]
  written_after (f ∷ fs) (l ∷ ls) (s, ss) (send {sink} {after} w rest) =
      written_after fs ls ss rest
      ∙ ap (λ t. t ++ lines ls) (write_appends f l sink after s.written.written w)
      ∙ append_assoc (sink.written ++ l) (newline ∷ []) (lines ls)
      ∙ append_assoc sink.written l (newline ∷ lines ls)

  read_end : (read uuid json (record { bytes = []; fails = false })).0 ≡ ok none
  unfolding read read_until read_taken
  read_end = refl

  module _ (laws : UuidLaws uuid) where
    receives_lines :
        (frames : List Frame) (ls : List (List ℕ))
        → AllSendable frames ls
        → Receives (record { bytes = lines ls; fails = false }) frames
    receives_lines [] [] s = ended _ read_end
    receives_lines [] (l ∷ ls) s = elim s [ ]
    receives_lines (f ∷ fs) [] s = elim s [ ]
    receives_lines (f ∷ fs) (l ∷ ls) (s, ss) =
        receive _ _ f fs (read_sent uuid json laws f l (lines ls) false s) (receives_lines fs ls ss)

    -- Where a writer puts frames that may be sent on an empty stream, and each write succeeds, a
    -- reader takes the same frames from it in the same order, and then gets the end.
    pub channel_fifo :
        (frames : List Frame) (ls : List (List ℕ)) (sink last : Sink)
        → AllSendable frames ls
        → sink.written ≡ []
        → Sends frames sink last
        → Receives (record { bytes = last.written; fails = false }) frames
    channel_fifo frames ls sink last s e sends =
        let bytes : last.written ≡ lines ls =
          written_after frames ls s sends ∙ ap (λ t. t ++ lines ls) e in
        rw bytes (receives_lines frames ls s)
