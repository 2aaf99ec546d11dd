-- ===== src/Tests/Streams.antt =====
-- Examples for the reader and the writer.
use styrn.Common.{
  ℕ, ◌≤◌, ◌≡◌, ◌≢◌, refl, ap, true, false, some, List, [], ◌∷◌, ◌++◌, length, All, ok, arith,
}
use styrn.Common.Utf8.{is_utf8}
use styrn.Json.Visitor.{distinct}
use mathlib.Core.Option
use styrn.Json.Defs.{contains_key, get}
use styrn.Rpc.Frame.Defs.{server_hello, max_frame_bytes}
use styrn.Rpc.Frame.Encode.{serialize, diagnostic_items}
use styrn.Rpc.Frame.Bounds.{IsValid}
use styrn.Rpc.Errors.{remote_failure}
use styrn.Rpc.Wire.{newline}
use styrn.Rpc.Wire.Reader.{Source, read}
use styrn.Rpc.Wire.Writer.{Sink, write, write_bytes, write_all, write_room}
use styrn.Rpc.Wire.Lines.{IsSendable, read_sent}
use styrn.Rpc.Wire.Limits.{read_sound}
use styrn.Rpc.Wire.Channel.{Sends, sent, send, Receives, channel_fifo}
use styrn.Tests.Crates.{uuid, laws, json, hello, asking, answering, failing, pipe}
use styrn.Tests.Frames.{
  hello-IsValid, asking-IsValid, answering-IsValid, failing-IsValid, hello_distinct,
}

pub hello-IsSendable : IsSendable uuid (json answering) (server_hello hello) (104 ∷ [])
unfolding serialize is_utf8 Option.bind get
hello-IsSendable = record {
  valid = hello-IsValid;
  typed = omega arith;
  distinct_keys = hello_distinct;
  written = record { written = refl; read_back = refl; one_line = (ground arith, tt); utf8 = refl };
  short = omega arith;
}

pub asking-IsSendable : IsSendable uuid (json answering) asking (113 ∷ [])
unfolding serialize is_utf8 distinct contains_key Option.bind get
asking-IsSendable = record {
  valid = asking-IsValid;
  typed = tt;
  distinct_keys = refl;
  written = record { written = refl; read_back = refl; one_line = (ground arith, tt); utf8 = refl };
  short = omega arith;
}

pub answering-IsSendable : IsSendable uuid (json answering) answering (114 ∷ [])
unfolding serialize is_utf8 distinct contains_key Option.bind get
answering-IsSendable = record {
  valid = answering-IsValid;
  typed = ground arith;
  distinct_keys = refl;
  written = record { written = refl; read_back = refl; one_line = (ground arith, tt); utf8 = refl };
  short = omega arith;
}

pub asking_to_failing : IsSendable uuid (json failing) asking (113 ∷ [])
unfolding serialize is_utf8 distinct contains_key Option.bind get
asking_to_failing = record {
  valid = asking-IsValid;
  typed = tt;
  distinct_keys = refl;
  written = record { written = refl; read_back = refl; one_line = (ground arith, tt); utf8 = refl };
  short = omega arith;
}

pub failing-IsSendable : IsSendable uuid (json failing) failing (114 ∷ [])
unfolding serialize is_utf8 distinct contains_key remote_failure Option.bind get diagnostic_items
failing-IsSendable = record {
  valid = failing-IsValid;
  typed = ground arith;
  distinct_keys = refl;
  written = record { written = refl; read_back = refl; one_line = (ground arith, tt); utf8 = refl };
  short = omega arith;
}

abbrev source : Source
source = record { bytes = (104 ∷ []) ++ newline ∷ 113 ∷ []; fails = true }

read_hello :
    read uuid (json answering) source
    ≡ (ok (some (server_hello hello)), record { bytes = 113 ∷ []; fails = true })
read_hello =
    read_sent uuid (json answering) laws (server_hello hello) (104 ∷ []) (113 ∷ []) true
      hello-IsSendable

read_sound_example :
    (line : List ℕ) × (source.bytes ≡ line ++ newline ∷ (read uuid (json answering) source).1.bytes)
    × All (λ b. b ≢ newline) line
    × (length line ≤ max_frame_bytes)
    × IsValid uuid (server_hello hello)
read_sound_example =
    read_sound uuid (json answering) source (server_hello hello) (ap (λ r. r.0) read_hello)

abbrev after_hello : Sink
after_hello = record pipe { written = 104 ∷ newline ∷ [] }

abbrev after_both : Sink
after_both = record pipe { written = 104 ∷ newline ∷ 113 ∷ newline ∷ [] }

two_sent : Sends uuid (json answering) (server_hello hello ∷ asking ∷ []) pipe after_both
unfolding write serialize Option.bind get write_bytes write_all write_room
two_sent = send {after = after_hello} refl (send {after = after_both} refl (sent after_both))

channel_fifo_example :
    Receives uuid
      (json answering)
      (record { bytes = after_both.written; fails = false })
      (server_hello hello ∷ asking ∷ [])
channel_fifo_example =
    channel_fifo uuid (json answering) laws (server_hello hello ∷ asking ∷ [])
      ((104 ∷ []) ∷ (113 ∷ []) ∷ []) pipe after_both (hello-IsSendable, (asking-IsSendable, tt))
      refl two_sent
