-- ===== src/Rpc/Frame/RoundTrip.antt =====
-- `serialize` and `decode` of src/rpc/frame.rs, one after the other.
use styrn.Common.{
  ◌^◌, ◌<◌, ◌≡◌, ◌≢◌, inl, inr, refl, Bool, true, false, Option, some, String, eq_iff, eq_refl,
  List, [], ◌∷◌, ok, arith,
}
use styrn.Json.Defs.{Value, null, get, contains_key}
use styrn.Json.Visitor.{visit, distinct}
use styrn.Json.Visitor.Laws.{visit-eq}
use styrn.Rpc.Frame.Defs.{
  UuidCrate, UuidLaws, ServerHello, ClientHello, RpcDiagnostic, Frame, server_hello, client_hello,
  request, response, error,
}
use styrn.Rpc.Frame.Encode.{serialize, diagnostic_value, diagnostic_items}
use styrn.Rpc.Frame.Raw.{from_object, from_value, read_diagnostic, read_items}
use styrn.Rpc.Frame.Decode.{
  valid_diagnostic, valid_diagnostics, decode_request, decode_response, decode_error, decode_hello,
  decode_unique, decode,
}
use styrn.Rpc.Frame.Bounds.{IsValid}

read_diagnostic-diagnostic_value :
    (d : RpcDiagnostic) → valid_diagnostic d ≡ true → read_diagnostic (diagnostic_value d) ≡ some d
unfolding read_diagnostic diagnostic_value valid_diagnostic
read_diagnostic-diagnostic_value d h = ground arith

read_items-diagnostic_items :
    (ds : List RpcDiagnostic)
    → valid_diagnostics ds ≡ true
    → read_items (diagnostic_items ds) ≡ some ds
unfolding read_items diagnostic_items
read_items-diagnostic_items [] h = refl
read_items-diagnostic_items (d ∷ ds) h =
    ground (arith, read_diagnostic-diagnostic_value d, read_items-diagnostic_items ds)

-- What holds of a frame by the types of the program, and that the data of a response is not null:
-- an identifier has 128 bits, and no map repeats a key.
abbrev pub IsTyped : Frame → Type 0
IsTyped (server_hello h) = h.machine_id < 2 ^ 128
IsTyped (response id is_ok payload errors) = payload ≢ some null
IsTyped _ = Unit

module _ (uuid : UuidCrate) (laws : UuidLaws uuid) where
  request_trip :
      (id method : String) (params : Value)
      → IsValid uuid (request id method params)
      → decode_unique uuid (some (serialize uuid (request id method params)))
        ≡ ok (request id method params)
  unfolding decode_unique serialize from_value from_object get contains_key decode_request
  request_trip id method params h = ground arith

  client_trip :
      (h : ClientHello)
      → IsValid uuid (client_hello h)
      → decode_unique uuid (some (serialize uuid (client_hello h))) ≡ ok (client_hello h)
  unfolding decode_unique serialize from_value from_object get contains_key decode_hello
  client_trip hello h = ground arith

  server_trip :
      (h : ServerHello)
      → IsValid uuid (server_hello h)
      → h.machine_id < 2 ^ 128
      → decode_unique uuid (some (serialize uuid (server_hello h))) ≡ ok (server_hello h)
  unfolding decode_unique serialize from_value from_object get contains_key decode_hello
  server_trip hello h lt =
      ground (
        arith,
        laws.parse_str-to_string hello.machine_id,
        eq_refl (uuid.to_string hello.machine_id),
      )

  response_trip :
      (id : String) (is_ok : Bool) (payload : Option Value) (errors : List RpcDiagnostic)
      → IsValid uuid (response id is_ok payload errors)
      → payload ≢ some null
      → decode_unique uuid (some (serialize uuid (response id is_ok payload errors)))
        ≡ ok (response id is_ok payload errors)
  unfolding decode_unique serialize from_value from_object get contains_key decode_response
  response_trip id true payload errors h n = ground arith
  response_trip id false payload errors h n = ground (arith, read_items-diagnostic_items errors)

  error_trip :
      (id : String) (errors : List RpcDiagnostic)
      → IsValid uuid (error id errors)
      → decode_unique uuid (some (serialize uuid (error id errors))) ≡ ok (error id errors)
  unfolding decode_unique serialize from_value from_object get contains_key decode_error
  error_trip id errors (inl e, reports) = rw e (ground (arith, read_items-diagnostic_items errors))
  error_trip id errors (inr c, reports) =
      ground (arith, read_items-diagnostic_items errors, eq_iff id "hello")

  unique_trip :
      (f : Frame) → IsValid uuid f → IsTyped f → decode_unique uuid (some (serialize uuid f)) ≡ ok f
  unique_trip (server_hello h) v t = server_trip h v t
  unique_trip (client_hello h) v t = client_trip h v
  unique_trip (request id method params) v t = request_trip id method params v
  unique_trip (response id is_ok payload errors) v t = response_trip id is_ok payload errors v t
  unique_trip (error id errors) v t = error_trip id errors v

  -- A frame within the bounds of its kind, whose maps repeat no key and whose data is not null, is
  -- what `decode` returns for its JSON form.
  pub decode-serialize :
      (f : Frame)
      → IsValid uuid f
      → IsTyped f
      → distinct (serialize uuid f) ≡ true
      → decode uuid (some (serialize uuid f)) ≡ ok f
  unfolding decode
  decode-serialize f v t d = rw (visit-eq (serialize uuid f), d) (unique_trip f v t)

-- A success whose data is null is refused by every reader, although it can be written.
pub decode_null_data :
    (uuid : UuidCrate) (id : String) (errors : List RpcDiagnostic) (f : Frame)
    → decode uuid (some (serialize uuid (response id true (some null) errors))) ≢ ok f
unfolding decode decode_unique serialize visit from_value from_object get contains_key
    decode_response
decode_null_data uuid id errors f = ground arith
