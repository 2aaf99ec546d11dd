-- ===== src/Rpc/Frame/Raw.antt =====
-- `RawFrame` and `RawFramePresence` of src/rpc/frame.rs: how serde reads the fields of a line.
use styrn.Common.{ℕ, ◌^◌, Bool, Option, none, some, String, List, [], ◌∷◌, ltb, if◌then◌else◌}
use styrn.Json.Defs.{
  Value, null, bool, number, array, object, pos_int, Items, nil, cons, Fields, get, contains_key,
  as_str, is_object,
}
use styrn.Rpc.Frame.Defs.{RpcDiagnostic}

pub record RawFrame : Type 0 where
  pub id : String
  pub kind : String
  pub protocol_min : Option ℕ
  pub protocol_max : Option ℕ
  pub protocol : Option ℕ
  pub styrn_version : Option String
  pub machine_id : Option String
  pub name : Option String
  pub manifest_schema_version : Option ℕ
  pub method : Option String
  pub params : Option Value
  pub is_ok : Option Bool
  pub payload : Option Value
  pub errors : Option (List RpcDiagnostic)

pub record RawFramePresence : Type 0 where
  pub protocol_min : Bool
  pub protocol_max : Bool
  pub protocol : Bool
  pub styrn_version : Bool
  pub machine_id : Bool
  pub name : Bool
  pub manifest_schema_version : Bool
  pub method : Bool
  pub params : Bool
  pub is_ok : Bool
  pub payload : Bool
  pub errors : Bool

unfoldable pub from_object : Fields → RawFramePresence
from_object fs = record {
  protocol_min = contains_key "protocol_min" fs;
  protocol_max = contains_key "protocol_max" fs;
  protocol = contains_key "protocol" fs;
  styrn_version = contains_key "styrn_version" fs;
  machine_id = contains_key "machine_id" fs;
  name = contains_key "name" fs;
  manifest_schema_version = contains_key "manifest_schema_version" fs;
  method = contains_key "method" fs;
  params = contains_key "params" fs;
  is_ok = contains_key "ok" fs;
  payload = contains_key "data" fs;
  errors = contains_key "errors" fs;
}

-- How serde reads the types of the fields; `none` is an error.
abbrev pub read_u32 : Value → Option ℕ
read_u32 (number (pos_int n)) = if ltb n (2 ^ 32) then some n else none
read_u32 _ = none

abbrev pub read_u64 : Value → Option ℕ
read_u64 (number (pos_int n)) = if ltb n (2 ^ 64) then some n else none
read_u64 _ = none

abbrev pub read_bool : Value → Option Bool
read_bool (bool b) = some b
read_bool _ = none

-- `Option<T>`: a field that is missing or null is `None`.
abbrev pub optional {ℓ} : {A : Type ℓ} → (Value → Option A) → Option Value → Option (Option A)
optional read none = some none
optional read (some null) = some none
optional read (some v) = elim (read v) [ none ↦ none | some a ↦ some (some a) ]

infixl 5 ◌>>?◌
abbrev pub ◌>>?◌ {ℓ κ} : {A : Type ℓ} {B : Type κ} → Option A → (A → Option B) → Option B
none >>? f = none
some a >>? f = f a

-- `deserialize_diagnostic_details`: the field may be missing, but not null.
abbrev pub read_details : Option Value → Option (Option Value)
read_details none = some none
read_details (some v) = if is_object v then some (some v) else none

abbrev pub read_parts : Option String → Option String → Option (Option Value) → Option RpcDiagnostic
read_parts (some code) (some message) (some details) =
    some (record { code = code; message = message; details = details })
read_parts _ _ _ = none

-- The derived form of a struct: an object, or its fields in order as an array.
unfoldable pub read_diagnostic : Value → Option RpcDiagnostic
unfolding get
read_diagnostic (object fs) =
    read_parts (get "code" fs >>? as_str) (get "message" fs >>? as_str)
      (read_details (get "details" fs))
read_diagnostic (array (cons code (cons message nil))) =
    read_parts (as_str code) (as_str message) (some none)
read_diagnostic (array (cons code (cons message (cons details nil)))) =
    read_parts (as_str code) (as_str message) (read_details (some details))
read_diagnostic _ = none

unfoldable pub read_items : Items → Option (List RpcDiagnostic)
unfolding read_diagnostic
read_items nil = some []
read_items (cons v vs) = read_diagnostic v >>? λ d. read_items vs >>? λ ds. some (d ∷ ds)

abbrev pub read_errors : Value → Option (List RpcDiagnostic)
read_errors (array vs) = read_items vs
read_errors _ = none

abbrev pub read_value : Value → Option Value
read_value v = some v

-- All fields or none: the frame that the fields read give together.
unfoldable pub assemble :
    Option String
    → Option String
    → Option (Option ℕ)
    → Option (Option ℕ)
    → Option (Option ℕ)
    → Option (Option String)
    → Option (Option String)
    → Option (Option String)
    → Option (Option ℕ)
    → Option (Option String)
    → Option (Option Value)
    → Option (Option Bool)
    → Option (Option Value)
    → Option (Option (List RpcDiagnostic))
    → Option RawFrame
assemble (some id) (some kind) (some protocol_min) (some protocol_max) (some protocol)
      (some styrn_version) (some machine_id) (some name) (some manifest_schema_version)
      (some method) (some params) (some is_ok) (some payload) (some errors) =
    some (record {
      id = id;
      kind = kind;
      protocol_min = protocol_min;
      protocol_max = protocol_max;
      protocol = protocol;
      styrn_version = styrn_version;
      machine_id = machine_id;
      name = name;
      manifest_schema_version = manifest_schema_version;
      method = method;
      params = params;
      is_ok = is_ok;
      payload = payload;
      errors = errors;
    })
assemble _ _ _ _ _ _ _ _ _ _ _ _ _ _ = none

-- `serde_json::from_value` at `RawFrame`.
unfoldable pub from_value : Fields → Option RawFrame
unfolding assemble
from_value fs =
    assemble (get "id" fs >>? as_str) (get "type" fs >>? as_str)
      (optional read_u32 (get "protocol_min" fs)) (optional read_u32 (get "protocol_max" fs))
      (optional read_u32 (get "protocol" fs)) (optional as_str (get "styrn_version" fs))
      (optional as_str (get "machine_id" fs)) (optional as_str (get "name" fs))
      (optional read_u64 (get "manifest_schema_version" fs)) (optional as_str (get "method" fs))
      (optional read_value (get "params" fs)) (optional read_bool (get "ok" fs))
      (optional read_value (get "data" fs)) (optional read_errors (get "errors" fs))
