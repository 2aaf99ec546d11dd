-- ===== src/Rpc/Frame/Defs.antt =====
-- The frames of src/rpc/frame.rs and their limits. A `Uuid` is its 128-bit number; how the crate
-- `uuid` reads, writes and classifies one is a parameter.
use styrn.Common.{
  ℕ, ◌*◌, ◌^◌, ◌<◌, ◌≡◌, Bool, not, ◌&&◌, Option, some, String, List, Result, len, leb,
}
use styrn.Common.Text.{empty_text}
use styrn.Json.Defs.{Value}

abbrev pub max_frame_bytes : ℕ
max_frame_bytes = 4 * 1024 * 1024

abbrev pub max_id_bytes : ℕ
max_id_bytes = 64

abbrev pub max_version_bytes : ℕ
max_version_bytes = 128

abbrev pub max_name_bytes : ℕ
max_name_bytes = 255

abbrev pub max_method_bytes : ℕ
max_method_bytes = 64

abbrev pub max_diagnostic_bytes : ℕ
max_diagnostic_bytes = 1024

-- The functions of the crate `uuid` that the program calls.
pub record UuidCrate : Type 0 where
  pub parse_str : String → Option ℕ
  pub to_string : ℕ → String
  pub get_version_num : ℕ → ℕ
  pub is_rfc4122 : ℕ → Bool

-- What the crate documents: a written identifier is read back.
pub record UuidLaws (u : UuidCrate) : Type 0 where
  pub parse_str-to_string : (id : ℕ) → id < 2 ^ 128 → u.parse_str (u.to_string id) ≡ some id

pub record ServerHello : Type 0 where
  pub protocol_min : ℕ
  pub protocol_max : ℕ
  pub styrn_version : String
  pub machine_id : ℕ
  pub name : String
  pub manifest_schema_version : ℕ

pub record ClientHello : Type 0 where
  pub protocol : ℕ
  pub styrn_version : String

pub record RpcDiagnostic : Type 0 where
  pub code : String
  pub message : String
  pub details : Option Value

pub data Frame : Type 0 where
  server_hello : ServerHello → Frame
  client_hello : ClientHello → Frame
  request : (id method : String) (params : Value) → Frame
  response :
      (id : String) (is_ok : Bool) (payload : Option Value) (errors : List RpcDiagnostic) → Frame
  error : (id : String) (errors : List RpcDiagnostic) → Frame

pub data FrameErrorKind : Type 0 where
  io oversize truncated invalid_utf8 invalid_json invalid_id unsupported_type : FrameErrorKind

abbrev pub FrameResult : Type 0 → Type 0
FrameResult A = Result FrameErrorKind A

-- `!value.is_empty() && value.len() <= limit`.
abbrev pub bounded : ℕ → String → Bool
bounded limit value = not (empty_text value) && leb (len value) limit
