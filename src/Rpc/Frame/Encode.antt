-- ===== src/Rpc/Frame/Encode.antt =====
-- `Serialize` of src/rpc/frame.rs: the JSON form of a frame.
use styrn.Common.{Bool, true, false, Option, none, some, List, [], ◌∷◌}
use styrn.Json.Defs.{
  Value, null, bool, number, text, array, object, pos_int, Items, nil, cons, Fields, end, field,
}
use styrn.Rpc.Frame.Defs.{
  UuidCrate, RpcDiagnostic, Frame, server_hello, client_hello, request, response, error,
}

-- The derived form: `details` is left out when there are none.
abbrev details_fields : Option Value → Fields
details_fields none = end
details_fields (some v) = field "details" v end

unfoldable pub diagnostic_value : RpcDiagnostic → Value
diagnostic_value d =
    object
      (field "code" (text d.code) (field "message" (text d.message) (details_fields d.details)))

unfoldable pub diagnostic_items : List RpcDiagnostic → Items
unfolding diagnostic_value
diagnostic_items [] = nil
diagnostic_items (d ∷ ds) = cons (diagnostic_value d) (diagnostic_items ds)

-- `data.as_ref().unwrap_or(&Value::Null)`.
abbrev or_null : Option Value → Value
or_null none = null
or_null (some v) = v

-- The last field of a response.
abbrev outcome_fields : Bool → Option Value → List RpcDiagnostic → Fields
outcome_fields true payload errors = field "data" (or_null payload) end
outcome_fields false payload errors = field "errors" (array (diagnostic_items errors)) end

module _ (uuid : UuidCrate) where
  unfoldable pub serialize : Frame → Value
  serialize (server_hello hello) = object (
      field "id" (text "hello") (
        field "type" (text "hello") (
          field "protocol_min" (number (pos_int hello.protocol_min)) (
            field "protocol_max" (number (pos_int hello.protocol_max)) (
              field "styrn_version" (text hello.styrn_version) (
                field "machine_id" (text (uuid.to_string hello.machine_id)) (
                  field "name" (text hello.name) (
                    field "manifest_schema_version" (number (pos_int hello.manifest_schema_version))
                      end))))))))
  serialize (client_hello hello) = object (
      field "id" (text "hello") (
        field "type" (text "hello") (
          field "protocol" (number (pos_int hello.protocol))
            (field "styrn_version" (text hello.styrn_version) end))))
  serialize (request id method params) = object (
      field "id" (text id)
        (field "type" (text "request") (field "method" (text method) (field "params" params end))))
  serialize (response id is_ok payload errors) = object (
      field "id" (text id) (
        field "type" (text "response")
          (field "ok" (bool is_ok) (outcome_fields is_ok payload errors))))
  serialize (error id errors) = object (
      field "id" (text id)
        (field "type" (text "error") (field "errors" (array (diagnostic_items errors)) end)))
