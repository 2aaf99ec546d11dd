-- ===== src/Tests/Frames.antt =====
-- Examples for the frames, the negotiation and the identifiers.
use styrn.Common.{◌≡◌, refl, true, none, some, ok, arith, if◌then◌else◌}
use styrn.Json.Defs.{Value, null, object, field, end, contains_key}
use styrn.Json.Visitor.{visit, distinct}
use styrn.Json.Visitor.Laws.{visit-eq}
use styrn.Rpc.Frame.Defs.{server_hello}
use styrn.Rpc.Frame.Encode.{serialize}
use styrn.Rpc.Frame.Decode.{decode, valid_controller_id, valid_diagnostic}
use styrn.Rpc.Frame.Bounds.{IsValid, decode-IsValid}
use styrn.Rpc.Frame.RoundTrip.{decode-serialize}
use styrn.Rpc.Errors.{remote_failure}
use styrn.Output.Code.{as_str}
use styrn.Tests.Crates.{uuid, laws, hello, asking, answering, failing}

pub hello-IsValid : IsValid uuid (server_hello hello)
hello-IsValid = record {
  positive = omega arith;
  ordered = omega arith;
  word = omega arith;
  schema_word = omega arith;
  version = (refl, omega arith);
  name = (refl, omega arith);
  seventh = refl;
  variant = refl;
}

pub asking-IsValid : IsValid uuid asking
unfolding valid_controller_id
asking-IsValid = ((refl, omega arith), (refl, omega arith), refl)

pub answering-IsValid : IsValid uuid answering
unfolding valid_controller_id
answering-IsValid = ((refl, omega arith), (λ h. cc, refl))

pub failing-IsValid : IsValid uuid failing
unfolding valid_controller_id valid_diagnostic remote_failure as_str
failing-IsValid = ((refl, omega arith), (refl, (λ h. cc, refl)))

pub hello_distinct : distinct (serialize uuid (server_hello hello)) ≡ true
unfolding distinct serialize contains_key
hello_distinct = refl

decode-serialize_example :
    decode uuid (some (serialize uuid (server_hello hello))) ≡ ok (server_hello hello)
decode-serialize_example =
    decode-serialize uuid laws (server_hello hello) hello-IsValid (omega arith) hello_distinct

decode-IsValid_example : IsValid uuid (server_hello hello)
decode-IsValid_example =
    decode-IsValid uuid (some (serialize uuid (server_hello hello))) (server_hello hello)
      (decode-serialize uuid laws (server_hello hello) hello-IsValid (omega arith) hello_distinct)

-- A field that comes twice.
abbrev twice : Value
twice = object (field "id" null (field "ok" null (field "id" null end)))

visit-eq_example : visit twice ≡ (if distinct twice then some twice else none)
visit-eq_example = visit-eq twice
