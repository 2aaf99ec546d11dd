-- ===== src/Rpc/Frame/Bounds.antt =====
-- The bounds of the frames of src/rpc/frame.rs, kind by kind, and `decode`.
use styrn.Common.{
  ℕ, ◌^◌, ◌≤◌, ◌<◌, ◌≡◌, ◌≢◌, ◌⊎◌, refl, Bool, true, false, Option, none, some, String, eq_iff,
  List, [], len, ltb, ok, err, ok_or, >>=-eq-ok, filter_by, refuse_if-eq-ok, ◌>>=◌, Result,
  Bool-cases, inl, inr, arith,
}
use styrn.Common.Text.{empty_text}
use styrn.Json.Defs.{Value, object, Fields, is_object, as_str, get}
use styrn.Json.Visitor.{visit}
use styrn.Rpc.Frame.Defs.{
  UuidCrate, ServerHello, ClientHello, RpcDiagnostic, Frame, server_hello, client_hello, request,
  response, error, bounded, invalid_json, max_id_bytes, max_version_bytes, max_name_bytes,
  max_method_bytes,
}
use styrn.Rpc.Frame.Raw.{RawFrame, RawFramePresence, from_object, from_value, ◌>>?◌}
use styrn.Rpc.Frame.Reading.{
  from_value-IsReadFrom, get-contains_key, Below, read_u32-Below, read_u64-Below,
}
use styrn.Rpc.Frame.Decode.{
  valid_controller_id, valid_diagnostics, decode_request, decode_response, decode_error,
  decode_hello, hello_arms, decode_kind, decode_raw, decode_typed, decode_unique, decode,
  known_kind, not_of_hello,
}

err_is_not_ok {ℓ κ} :
    {E : Type ℓ} {A : Type κ} {e : E} {a : A} → ◌≡◌ {A = Result E A} (err e) (ok a) → ⊥
err_is_not_ok h = cc

-- A text that is not empty and has at most `limit` bytes.
abbrev pub Fits : ℕ → String → Type 0
Fits limit value = (empty_text value ≡ false) × (len value ≤ limit)

abbrev pub IsControllerId : String → Type 0
IsControllerId id = (valid_controller_id id ≡ true) × (len id ≤ max_id_bytes)

-- A list of diagnostics that reports a failure.
abbrev pub Reports : List RpcDiagnostic → Type 0
Reports errors = (errors ≢ []) × (valid_diagnostics errors ≡ true)

abbrev pub IsObject : Value → Type 0
IsObject v = is_object v ≡ true

module _ (uuid : UuidCrate) where
  pub record HelloIsValid (h : ServerHello) : Type 0 where
    pub positive : 0 < h.protocol_min
    pub ordered : h.protocol_min ≤ h.protocol_max
    pub word : h.protocol_max < 2 ^ 32
    pub schema_word : h.manifest_schema_version < 2 ^ 64
    pub version : Fits max_version_bytes h.styrn_version
    pub name : Fits max_name_bytes h.name
    pub seventh : uuid.get_version_num h.machine_id ≡ 7
    pub variant : uuid.is_rfc4122 h.machine_id ≡ true

  pub record ClientHelloIsValid (h : ClientHello) : Type 0 where
    pub positive : 0 < h.protocol
    pub word : h.protocol < 2 ^ 32
    pub version : Fits max_version_bytes h.styrn_version

  abbrev pub OutcomeIsValid : Bool → Option Value → List RpcDiagnostic → Type 0
  OutcomeIsValid true payload errors = (payload ≢ none) × (errors ≡ [])
  OutcomeIsValid false payload errors = (payload ≡ none) × Reports errors

  abbrev pub IsValid : Frame → Type 0
  IsValid (server_hello h) = HelloIsValid h
  IsValid (client_hello h) = ClientHelloIsValid h
  IsValid (request id method params) =
      IsControllerId id × Fits max_method_bytes method × IsObject params
  IsValid (response id is_ok payload errors) =
      IsControllerId id × OutcomeIsValid is_ok payload errors
  IsValid (error id errors) = ((id ≡ "hello") ⊎ IsControllerId id) × Reports errors

  decode_request-IsValid :
      (raw : RawFrame) (p : RawFramePresence) (f : Frame)
      → len raw.id ≤ max_id_bytes
      → decode_request raw p ≡ ok f
      → IsValid f
  unfolding decode_request
  decode_request-IsValid raw p f h e = ground arith

  decode_error-IsValid :
      (raw : RawFrame) (p : RawFramePresence) (f : Frame)
      → len raw.id ≤ max_id_bytes
      → decode_error raw p ≡ ok f
      → IsValid f
  unfolding decode_error
  decode_error-IsValid raw p f h e = ground (arith, eq_iff raw.id "hello")

  decode_response-IsValid :
      (fs : Fields) (raw : RawFrame) (f : Frame)
      → from_value fs ≡ some raw
      → len raw.id ≤ max_id_bytes
      → decode_response raw (from_object fs) ≡ ok f
      → IsValid f
  unfolding decode_response from_object
  decode_response-IsValid fs raw f r h e =
      let read = from_value-IsReadFrom fs raw r in
      ground
        (arith, read.payload, read.errors, get-contains_key "data" fs, get-contains_key "errors" fs)

  hello_arms-IsValid :
      (raw : RawFrame) (p : RawFramePresence) (version : String) (lo hi one : Option ℕ) (f : Frame)
      → Fits max_version_bytes version
      → Below (2 ^ 32) hi
      → Below (2 ^ 32) one
      → Below (2 ^ 64) raw.manifest_schema_version
      → hello_arms uuid raw p version lo hi one ≡ ok f
      → IsValid f
  unfolding hello_arms
  hello_arms-IsValid raw p version (some lo) (some hi) none f v mx w sw e = ground arith
  hello_arms-IsValid raw p version none none (some one) f v mx w sw e = ground arith
  hello_arms-IsValid raw p version _ _ _ f v mx w sw e = cc

  decode_hello-IsValid :
      (fs : Fields) (raw : RawFrame) (f : Frame)
      → from_value fs ≡ some raw
      → decode_hello uuid raw (from_object fs) ≡ ok f
      → IsValid f
  unfolding decode_hello
  decode_hello-IsValid fs raw f r e =
      let read = from_value-IsReadFrom fs raw r in
      let p = from_object fs in
      let arms =
        λ (v : String). hello_arms uuid raw p v raw.protocol_min raw.protocol_max raw.protocol in
      let version_of =
        ok_or (filter_by (bounded max_version_bytes) raw.styrn_version) invalid_json in
      let (_, e1) = refuse_if-eq-ok (not_of_hello raw p) invalid_json (version_of >>= arms) e in
      let (version, v, e2) = >>=-eq-ok version_of arms e1 in
      hello_arms-IsValid raw p version raw.protocol_min raw.protocol_max raw.protocol f
        (ground arith) (read_u32-Below (get "protocol_max" fs) raw.protocol_max read.protocol_max)
        (read_u32-Below (get "protocol" fs) raw.protocol read.protocol)
        (read_u64-Below (get "manifest_schema_version" fs) raw.manifest_schema_version
          read.manifest_schema_version)
        e2

  decode_kind-IsValid :
      (fs : Fields) (raw : RawFrame) (f : Frame)
      → from_value fs ≡ some raw
      → len raw.id ≤ max_id_bytes
      → decode_kind uuid raw (from_object fs) ≡ ok f
      → IsValid f
  decode_kind-IsValid fs raw f r h e = ground (
    arith,
    decode_hello-IsValid fs raw f r,
    decode_request-IsValid raw (from_object fs) f h,
    decode_response-IsValid fs raw f r h,
    decode_error-IsValid raw (from_object fs) f h,
  )

  decode_raw-IsValid :
      (fs : Fields) (o : Option RawFrame) (f : Frame)
      → from_value fs ≡ o
      → decode_raw uuid fs o ≡ ok f
      → IsValid f
  unfolding decode_raw
  decode_raw-IsValid fs none f r e = cc
  decode_raw-IsValid fs (some raw) f r e = elim (Bool-cases (ltb max_id_bytes (len raw.id))) [
    | inl long ↦ absurd (err_is_not_ok (rw long at e))
    | inr short ↦ decode_kind-IsValid fs raw f r (ground arith) (rw short at e)
  ]

  decode_typed-IsValid :
      (fs : Fields) (kind : Option String) (f : Frame)
      → decode_typed uuid fs kind ≡ ok f
      → IsValid f
  unfolding decode_typed
  decode_typed-IsValid fs none f e = cc
  decode_typed-IsValid fs (some kind) f e = elim (Bool-cases (known_kind kind)) [
    | inl known ↦ decode_raw-IsValid fs (from_value fs) f refl (rw known at e)
    | inr other ↦ absurd (err_is_not_ok (rw other at e))
  ]

  decode_unique-IsValid : (v : Option Value) (f : Frame) → decode_unique uuid v ≡ ok f → IsValid f
  unfolding decode_unique
  decode_unique-IsValid (some (object fs)) f e =
      decode_typed-IsValid fs (get "type" fs >>? as_str) f e
  decode_unique-IsValid _ f e = cc

  -- Every frame that `decode` returns is within the bounds of its kind.
  pub decode-IsValid : (parsed : Option Value) (f : Frame) → decode uuid parsed ≡ ok f → IsValid f
  unfolding decode
  decode-IsValid parsed f e = decode_unique-IsValid (parsed >>? visit) f e
