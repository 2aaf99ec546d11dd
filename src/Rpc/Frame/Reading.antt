-- ===== src/Rpc/Frame/Reading.antt =====
-- How a `RawFrame` of src/rpc/frame.rs stands to the fields of its line.
use styrn.Common.{ℕ, ◌^◌, ◌<◌, ◌≡◌, refl, Bool, false, Option, none, some, String, List, arith}
use styrn.Json.Defs.{Value, Fields, end, field, contains_key, as_str, get}
use styrn.Rpc.Frame.Defs.{RpcDiagnostic}
use styrn.Rpc.Frame.Raw.{
  RawFrame, assemble, from_value, ◌>>?◌, optional, read_u32, read_u64, read_bool, read_value,
  read_errors,
}

-- What an assembled frame was assembled from.
pub record IsMadeOf (raw : RawFrame) (id : Option String) (kind : Option String)
    (protocol_min : Option (Option ℕ)) (protocol_max : Option (Option ℕ))
    (protocol : Option (Option ℕ)) (styrn_version : Option (Option String))
    (machine_id : Option (Option String)) (name : Option (Option String))
    (manifest_schema_version : Option (Option ℕ)) (method : Option (Option String))
    (params : Option (Option Value)) (is_ok : Option (Option Bool))
    (payload : Option (Option Value)) (errors : Option (Option (List RpcDiagnostic))) : Type 0 where
  pub id_read : id ≡ some raw.id
  pub kind_read : kind ≡ some raw.kind
  pub protocol_min_read : protocol_min ≡ some raw.protocol_min
  pub protocol_max_read : protocol_max ≡ some raw.protocol_max
  pub protocol_read : protocol ≡ some raw.protocol
  pub styrn_version_read : styrn_version ≡ some raw.styrn_version
  pub machine_id_read : machine_id ≡ some raw.machine_id
  pub name_read : name ≡ some raw.name
  pub manifest_schema_version_read : manifest_schema_version ≡ some raw.manifest_schema_version
  pub method_read : method ≡ some raw.method
  pub params_read : params ≡ some raw.params
  pub is_ok_read : is_ok ≡ some raw.is_ok
  pub payload_read : payload ≡ some raw.payload
  pub errors_read : errors ≡ some raw.errors

assemble-IsMadeOf :
    (raw : RawFrame) (id : Option String) (kind : Option String) (protocol_min : Option (Option ℕ))
    (protocol_max : Option (Option ℕ)) (protocol : Option (Option ℕ))
    (styrn_version : Option (Option String)) (machine_id : Option (Option String))
    (name : Option (Option String)) (manifest_schema_version : Option (Option ℕ))
    (method : Option (Option String)) (params : Option (Option Value))
    (is_ok : Option (Option Bool)) (payload : Option (Option Value))
    (errors : Option (Option (List RpcDiagnostic)))
    → assemble id kind protocol_min protocol_max protocol styrn_version machine_id name
        manifest_schema_version method params is_ok payload errors
      ≡ some raw
    → IsMadeOf raw id kind protocol_min protocol_max protocol styrn_version machine_id name
        manifest_schema_version method params is_ok payload errors
unfolding assemble
assemble-IsMadeOf raw (some id) (some kind) (some protocol_min) (some protocol_max) (some protocol)
      (some styrn_version) (some machine_id) (some name) (some manifest_schema_version)
      (some method) (some params) (some is_ok) (some payload) (some errors) h =
    record {
      id_read = cc;
      kind_read = cc;
      protocol_min_read = cc;
      protocol_max_read = cc;
      protocol_read = cc;
      styrn_version_read = cc;
      machine_id_read = cc;
      name_read = cc;
      manifest_schema_version_read = cc;
      method_read = cc;
      params_read = cc;
      is_ok_read = cc;
      payload_read = cc;
      errors_read = cc;
    }
assemble-IsMadeOf raw _ _ _ _ _ _ _ _ _ _ _ _ _ _ h = cc

-- The fields of the line, as they were read.
pub record IsReadFrom (fs : Fields) (raw : RawFrame) : Type 0 where
  pub id : (get "id" fs >>? as_str) ≡ some raw.id
  pub kind : (get "type" fs >>? as_str) ≡ some raw.kind
  pub protocol_min : (optional read_u32 (get "protocol_min" fs)) ≡ some raw.protocol_min
  pub protocol_max : (optional read_u32 (get "protocol_max" fs)) ≡ some raw.protocol_max
  pub protocol : (optional read_u32 (get "protocol" fs)) ≡ some raw.protocol
  pub styrn_version : (optional as_str (get "styrn_version" fs)) ≡ some raw.styrn_version
  pub machine_id : (optional as_str (get "machine_id" fs)) ≡ some raw.machine_id
  pub name : (optional as_str (get "name" fs)) ≡ some raw.name
  pub manifest_schema_version :
      (optional read_u64 (get "manifest_schema_version" fs)) ≡ some raw.manifest_schema_version
  pub method : (optional as_str (get "method" fs)) ≡ some raw.method
  pub params : (optional read_value (get "params" fs)) ≡ some raw.params
  pub is_ok : (optional read_bool (get "ok" fs)) ≡ some raw.is_ok
  pub payload : (optional read_value (get "data" fs)) ≡ some raw.payload
  pub errors : (optional read_errors (get "errors" fs)) ≡ some raw.errors

pub from_value-IsReadFrom :
    (fs : Fields) (raw : RawFrame) → from_value fs ≡ some raw → IsReadFrom fs raw
unfolding from_value
from_value-IsReadFrom fs raw h =
    let made = assemble-IsMadeOf raw _ _ _ _ _ _ _ _ _ _ _ _ _ _ h in
    record {
      id = made.id_read;
      kind = made.kind_read;
      protocol_min = made.protocol_min_read;
      protocol_max = made.protocol_max_read;
      protocol = made.protocol_read;
      styrn_version = made.styrn_version_read;
      machine_id = made.machine_id_read;
      name = made.name_read;
      manifest_schema_version = made.manifest_schema_version_read;
      method = made.method_read;
      params = made.params_read;
      is_ok = made.is_ok_read;
      payload = made.payload_read;
      errors = made.errors_read;
    }

pub get-contains_key : (k : String) (fs : Fields) → contains_key k fs ≡ false → get k fs ≡ none
unfolding get contains_key
get-contains_key k end h = refl
get-contains_key k (field j v fs) h = ground (arith, get-contains_key k fs)

-- A number that is there is below the limit.
abbrev pub Below : ℕ → Option ℕ → Type 0
Below limit none = Unit
Below limit (some n) = n < limit

pub read_u32-Below :
    (o : Option Value) (r : Option ℕ) → optional read_u32 o ≡ some r → Below (2 ^ 32) r
read_u32-Below o r h = ground arith

pub read_u64-Below :
    (o : Option Value) (r : Option ℕ) → optional read_u64 o ≡ some r → Below (2 ^ 64) r
read_u64-Below o r h = ground arith
