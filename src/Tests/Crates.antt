-- ===== src/Tests/Crates.antt =====
-- Stand-ins for the crates `uuid` and `serde_json`, and the test data.
use Prim.Native.String.len
use mathlib.Core.Option
use styrn.Common.{
  ℕ, zero, suc, ◌≡◌, ◌≢◌, refl, ap, true, false, Option, none, some, String, len, str_eq, List, [],
  ◌∷◌, length, All, ◌==◌, if◌then◌else◌, Result, arith,
}
use styrn.Json.Defs.{Value, object, end, field, text, as_object, as_str, get}
use styrn.Rpc.Frame.Defs.{UuidCrate, UuidLaws, ServerHello, Frame, server_hello, request, response}
use styrn.Rpc.Frame.Encode.{serialize}
use styrn.Rpc.Errors.{remote_failure}
use styrn.Rpc.Wire.{newline, JsonCrate}
use styrn.Rpc.Wire.Writer.{Sink}
use styrn.Rpc.Server.{HandlerError}

-- An identifier is written as that many letters.
unfoldable pub unary : ℕ → String
unary zero = ""
unary (suc n) = String.◌∷◌ "a" (unary n)

len-unary : (n : ℕ) → len (unary n) ≡ n
unfolding unary
len-unary zero = refl
len-unary (suc n) = omega (arith, len.cons "a" (unary n), len-unary n)

abbrev pub uuid : UuidCrate
uuid = record {
  parse_str = λ s. some (len s);
  to_string = unary;
  get_version_num = λ n. 7;
  is_rfc4122 = λ n. true;
}

pub laws : UuidLaws uuid
laws = record { parse_str-to_string = λ id lt. ap some (len-unary id) }

abbrev pub hello : ServerHello
hello = record {
  protocol_min = 1;
  protocol_max = 1;
  styrn_version = "0.1.0";
  machine_id = 3;
  name = "build";
  manifest_schema_version = 1;
}

abbrev pub payload : Value
payload = object (field "state" (text "ok") end)

abbrev pub asking : Frame
asking = request "c1" "doctor" (object end)

abbrev pub answering : Frame
answering = response "c1" true (some payload) []

abbrev pub failing : Frame
failing = response "c1" false none remote_failure

-- Each kind of frame has a line of one byte.
abbrev pub line_of : Option String → Option (List ℕ)
line_of none = none
line_of (some kind) =
    if str_eq kind "hello"
    then some (104 ∷ [])
    else if str_eq kind "request"
    then some (113 ∷ [])
    else some (114 ∷ [])

abbrev frame_of : Frame → ℕ → Option Value
frame_of answer b =
    if b == 104
    then some (serialize uuid (server_hello hello))
    else if b == 113
    then some (serialize uuid asking)
    else if b == 114
    then some (serialize uuid answer)
    else none

abbrev read_byte : Frame → List ℕ → Option Value
read_byte answer (b ∷ []) = frame_of answer b
read_byte answer _ = none

-- The only response that the crate reads is `answer`.
abbrev pub json : Frame → JsonCrate
json answer = record {
  from_str = read_byte answer;
  to_vec = λ v. line_of (Option.bind (Option.bind (as_object v) (get "type")) as_str);
}

unfoldable pub repeat : ℕ → List ℕ
repeat zero = []
repeat (suc n) = 97 ∷ repeat n

pub length-repeat : (n : ℕ) → length (repeat n) ≡ n
unfolding repeat
length-repeat zero = refl
length-repeat (suc n) = omega (arith, length-repeat n)

pub All-repeat : (n : ℕ) → All (λ b. b ≢ newline) (repeat n)
unfolding repeat
All-repeat zero = tt
All-repeat (suc n) = (ground arith, All-repeat n)

abbrev pub pipe : Sink
pipe = record { written = []; room = none; flushes = true }

abbrev pub handle : Result HandlerError Value → String → Value → Result HandlerError Value
handle r method params = r
