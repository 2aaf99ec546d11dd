-- ===== src/Rpc/Frame/Decode.antt =====
-- `decode` of src/rpc/frame.rs: from the JSON value of a line to a frame.
use styrn.Common.{
  ℕ, Bool, true, false, not, ◌&&◌, ◌||◌, Option, none, some, String, str_eq, List, [], ◌∷◌, len,
  ltb, leb, ◌==◌, all, is_empty, ok, err, ok_or, filter_by, refuse_if, ◌>>=◌, ◌>>◌, if◌then◌else◌,
}
use styrn.Common.Text.{codes, is_digit}
use styrn.Json.Defs.{Value, object, Fields, get, as_str, is_object}
use styrn.Json.Visitor.{visit}
use styrn.Rpc.Frame.Defs.{
  UuidCrate, RpcDiagnostic, Frame, server_hello, client_hello, request, response, error,
  FrameResult, invalid_json, invalid_id, unsupported_type, bounded, max_id_bytes, max_version_bytes,
  max_name_bytes, max_method_bytes, max_diagnostic_bytes,
}
use styrn.Rpc.Frame.Raw.{RawFrame, RawFramePresence, from_object, from_value, ◌>>?◌}

-- The digits of `validate_controller_id`, behind the `c`.
abbrev pub valid_id_digits : List ℕ → Bool
valid_id_digits [] = false
valid_id_digits (d ∷ ds) = not (d == b'0') && all is_digit (d ∷ ds)

abbrev pub valid_controller_codes : List ℕ → Bool
valid_controller_codes [] = false
valid_controller_codes (c ∷ ds) = c == b'c' && valid_id_digits ds

unfoldable pub valid_controller_id : String → Bool
valid_controller_id id = valid_controller_codes (codes id)

abbrev pub validate_controller_id : String → FrameResult (Unit {0})
validate_controller_id id = if valid_controller_id id then ok tt else err invalid_id

abbrev pub object_or_none : Option Value → Bool
object_or_none none = true
object_or_none (some v) = is_object v

unfoldable pub valid_diagnostic : RpcDiagnostic → Bool
valid_diagnostic d =
    bounded max_method_bytes d.code
    && bounded max_diagnostic_bytes d.message
    && object_or_none d.details

abbrev pub valid_diagnostics : List RpcDiagnostic → Bool
valid_diagnostics errors = all valid_diagnostic errors

-- The fields that a request may not have.
abbrev pub not_of_request : RawFramePresence → Bool
not_of_request p =
    p.protocol_min || p.protocol_max || p.protocol || p.styrn_version || p.machine_id || p.name
    || p.manifest_schema_version || p.is_ok || p.payload || p.errors

unfoldable pub decode_request : RawFrame → RawFramePresence → FrameResult Frame
decode_request raw presence = do
  validate_controller_id raw.id
  refuse_if (not_of_request presence) invalid_json
  method ← ok_or (filter_by (bounded max_method_bytes) raw.method) invalid_json
  params ← ok_or (filter_by is_object raw.params) invalid_json
  ok (request raw.id method params)

abbrev pub or_empty : Option (List RpcDiagnostic) → List RpcDiagnostic
or_empty none = []
or_empty (some errors) = errors

abbrev pub is_none {ℓ} : {A : Type ℓ} → Option A → Bool
is_none none = true
is_none (some a) = false

-- The fields that a response may not have.
abbrev pub not_of_response : RawFramePresence → Bool
not_of_response p =
    p.protocol_min || p.protocol_max || p.protocol || p.styrn_version || p.machine_id || p.name
    || p.manifest_schema_version || p.method || p.params

-- The two branches on `ok`.
abbrev pub malformed_outcome : Bool → RawFrame → RawFramePresence → Bool
malformed_outcome true raw p = is_none raw.payload || p.errors
malformed_outcome false raw p =
    p.payload || is_empty (or_empty raw.errors) || not (valid_diagnostics (or_empty raw.errors))

unfoldable pub decode_response : RawFrame → RawFramePresence → FrameResult Frame
decode_response raw presence = do
  validate_controller_id raw.id
  refuse_if (not_of_response presence) invalid_json
  is_ok ← ok_or raw.is_ok invalid_json
  refuse_if (malformed_outcome is_ok raw presence) invalid_json
  ok (response raw.id is_ok raw.payload (or_empty raw.errors))

abbrev pub reported : List RpcDiagnostic → Bool
reported errors = not (is_empty errors) && valid_diagnostics errors

-- The fields that an error frame may not have.
abbrev pub not_of_error : RawFramePresence → Bool
not_of_error p =
    p.protocol_min || p.protocol_max || p.protocol || p.styrn_version || p.machine_id || p.name
    || p.manifest_schema_version || p.method || p.params || p.is_ok || p.payload

unfoldable pub decode_error : RawFrame → RawFramePresence → FrameResult Frame
decode_error raw presence = do
  refuse_if (not_of_error presence) invalid_json
  if str_eq raw.id "hello" then ok tt else validate_controller_id raw.id
  errors ← ok_or (filter_by reported raw.errors) invalid_json
  ok (error raw.id errors)

-- The fields that a hello may not have, and its identifier.
abbrev pub not_of_hello : RawFrame → RawFramePresence → Bool
not_of_hello raw p =
    not (str_eq raw.id "hello") || p.method || p.params || p.is_ok || p.payload || p.errors

abbrev pub known_kind : String → Bool
known_kind kind =
    str_eq kind "hello" || str_eq kind "request" || str_eq kind "response" || str_eq kind "error"

module _ (uuid : UuidCrate) where
  -- The canonical text of a version 7 identifier.
  abbrev pub accepts_machine_id : String → ℕ → Bool
  accepts_machine_id written id =
      str_eq (uuid.to_string id) written && uuid.get_version_num id == 7 && uuid.is_rfc4122 id

  abbrev pub read_machine_id : Option String → Option ℕ
  read_machine_id none = none
  read_machine_id (some written) = filter_by (accepts_machine_id written) (uuid.parse_str written)

  -- The arms of the `match` of `decode_hello`.
  unfoldable pub hello_arms :
      RawFrame → RawFramePresence → String → Option ℕ → Option ℕ → Option ℕ → FrameResult Frame
  hello_arms raw presence version (some protocol_min) (some protocol_max) none =
      if ltb 0 protocol_min && leb protocol_min protocol_max && not presence.protocol
      then (do
        machine_id ← ok_or (read_machine_id raw.machine_id) invalid_json
        name ← ok_or (filter_by (bounded max_name_bytes) raw.name) invalid_json
        manifest_schema_version ← ok_or raw.manifest_schema_version invalid_json
        ok (
            server_hello (record {
              protocol_min = protocol_min;
              protocol_max = protocol_max;
              styrn_version = version;
              machine_id = machine_id;
              name = name;
              manifest_schema_version = manifest_schema_version;
            })))
      else err invalid_json
  hello_arms raw presence version none none (some protocol) =
      if ltb 0 protocol
        && not presence.protocol_min
        && not presence.protocol_max
        && not presence.machine_id
        && not presence.name
        && not presence.manifest_schema_version
      then ok (client_hello (record { protocol = protocol; styrn_version = version }))
      else err invalid_json
  hello_arms raw presence version _ _ _ = err invalid_json

  unfoldable pub decode_hello : RawFrame → RawFramePresence → FrameResult Frame
  unfolding hello_arms
  decode_hello raw presence = do
    refuse_if (not_of_hello raw presence) invalid_json
    version ← ok_or (filter_by (bounded max_version_bytes) raw.styrn_version) invalid_json
    hello_arms raw presence version raw.protocol_min raw.protocol_max raw.protocol

  -- The last `match` of `decode`; the kinds were checked before.
  abbrev pub decode_kind : RawFrame → RawFramePresence → FrameResult Frame
  decode_kind raw presence =
      if str_eq raw.kind "hello"
      then decode_hello raw presence
      else if str_eq raw.kind "request"
      then decode_request raw presence
      else if str_eq raw.kind "response"
      then decode_response raw presence
      else decode_error raw presence

  -- The rest of `decode`, once the kind is known and serde has read the fields.
  unfoldable pub decode_raw : Fields → Option RawFrame → FrameResult Frame
  decode_raw fs none = err invalid_json
  decode_raw fs (some raw) =
      if ltb max_id_bytes (len raw.id) then err invalid_id else decode_kind raw (from_object fs)

  unfoldable pub decode_typed : Fields → Option String → FrameResult Frame
  unfolding decode_raw
  decode_typed fs none = err invalid_json
  decode_typed fs (some kind) =
      if known_kind kind then decode_raw fs (from_value fs) else err unsupported_type

  unfoldable pub decode_unique : Option Value → FrameResult Frame
  unfolding decode_typed
  decode_unique (some (object fs)) = decode_typed fs (get "type" fs >>? as_str)
  decode_unique _ = err invalid_json

  -- `decode`, behind the parser: the argument is what serde_json read from the text.
  unfoldable pub decode : Option Value → FrameResult Frame
  unfolding decode_unique
  decode parsed = decode_unique (parsed >>? visit)
