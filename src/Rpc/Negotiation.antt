-- ===== src/Rpc/Negotiation.antt =====
-- The choice of a protocol version: `highest_protocol_intersection` and `negotiate_server_hello` of
-- src/rpc/mod.rs.
use Prim.Native.Nat.{min, max}
use styrn.Common.{
  ℕ, ◌≤◌, ◌≡◌, ◌↔◌, not, Option, none, some, leb, ◌==◌, Result, err, ok_or, arith, if◌then◌else◌,
}
use styrn.Output.Code.{ErrorCode, protocol_incompatible}
use styrn.Rpc.Frame.Defs.{ServerHello}

abbrev pub protocol_min : ℕ
protocol_min = 1

abbrev pub protocol_max : ℕ
protocol_max = 1

abbrev pub supported_schema : ℕ
supported_schema = 1

-- Two inclusive ranges, each by its ends.
unfoldable pub highest_protocol_intersection : (our_min our_max their_min their_max : ℕ) → Option ℕ
highest_protocol_intersection our_min our_max their_min their_max =
    let minimum = max our_min their_min in
    let maximum = min our_max their_max in if leb minimum maximum then some maximum else none

-- An error of src/rpc/mod.rs: its code; the fixed messages are not compared anywhere.
unfoldable pub negotiate_server_hello : ServerHello → Result ErrorCode ℕ
unfolding highest_protocol_intersection
negotiate_server_hello hello =
    if not (hello.manifest_schema_version == supported_schema)
    then err protocol_incompatible
    else ok_or
        (highest_protocol_intersection protocol_min protocol_max hello.protocol_min
          hello.protocol_max)
        protocol_incompatible

-- The version that both sides speak: `v`.
abbrev pub Speaks : (our_min our_max their_min their_max v : ℕ) → Type 0
Speaks our_min our_max their_min their_max v =
    (our_min ≤ v) × (v ≤ our_max) × (their_min ≤ v) × (v ≤ their_max)

module _ (our_min our_max their_min their_max : ℕ) where
  -- A version is chosen exactly when both ranges hold it and none above it is in both.
  pub highest_protocol_intersection_iff :
      (v : ℕ)
      → (highest_protocol_intersection our_min our_max their_min their_max ≡ some v) ↔ (
          Speaks our_min our_max their_min their_max v
          × ((w : ℕ) → Speaks our_min our_max their_min their_max w → w ≤ v))
  unfolding highest_protocol_intersection
  highest_protocol_intersection_iff v =
      (λ h. (ground arith, λ w c. ground arith), λ c. ground (arith, c.1 (min our_max their_max)))
