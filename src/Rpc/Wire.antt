-- ===== src/Rpc/Wire.antt =====
-- `FrameReader` and `FrameWriter` of src/rpc/frame.rs: one frame to a line.
pub mod Reader
pub mod Writer
pub mod Lines
pub mod Limits
pub mod Channel
use styrn.Common.{ℕ, ◌≡◌, ◌≢◌, true, Option, some, List, All}
use styrn.Common.Utf8.{is_utf8}
use styrn.Json.Defs.{Value}

abbrev pub newline : ℕ
newline = 10

-- The functions of the crate `serde_json` that the program calls, on bytes; `from_str` gives the
-- events of the text, and `none` is an error.
pub record JsonCrate : Type 0 where
  pub from_str : List ℕ → Option Value
  pub to_vec : Value → Option (List ℕ)

-- What the crate documents of a value that it writes as `bytes`: one line of UTF-8, which is read
-- back as the value.
pub record IsWritten (json : JsonCrate) (v : Value) (bytes : List ℕ) : Type 0 where
  pub written : json.to_vec v ≡ some bytes
  pub read_back : json.from_str bytes ≡ some v
  pub one_line : All (λ b. b ≢ newline) bytes
  pub utf8 : is_utf8 bytes ≡ true
