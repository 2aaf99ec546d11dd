-- ===== src/Rpc/Id.antt =====
-- The request identifiers of src/rpc/mod.rs and src/rpc/server.rs: `format!("c{next_id}")`.
use Prim.Native.String.len
use text.Mathlib.TextLemmas.{tail-eq_of_cons-eq}
use styrn.Common.{ℕ, ◌^◌, ◌<◌, ◌≡◌, true, String, arith, all, List, [], ◌∷◌}
use styrn.Common.Text.{codes, is_digit}
use styrn.Common.Decimal.{
  decimal, decimal-injective, all_digits-decimal, first, first-decimal, len-decimal,
}
use styrn.Rpc.Frame.Decode.{valid_controller_id, valid_id_digits}
use styrn.Rpc.Frame.Bounds.{IsControllerId}

unfoldable pub request_id : ℕ → String
request_id n = String.◌∷◌ "c" (decimal n)

valid_digits : (cs : List ℕ) → 48 < first cs → all is_digit cs ≡ true → valid_id_digits cs ≡ true
valid_digits [] h d = absurd (omega arith)
valid_digits (c ∷ cs) h d = ground arith

-- The identifier of a positive 64-bit number is one that a frame may have.
pub request_id-IsControllerId : (n : ℕ) → 0 < n → n < 2 ^ 64 → IsControllerId (request_id n)
unfolding request_id valid_controller_id
request_id-IsControllerId n pos lt = (
  valid_digits (codes (decimal n)) (first-decimal n pos (omega arith)) (all_digits-decimal n),
  omega (arith, len.cons "c" (decimal n), len-decimal n),
)

-- Two 64-bit numbers with one identifier are one number.
pub request_id-injective : (m n : ℕ) → m < 2 ^ 64 → n < 2 ^ 64 → request_id m ≡ request_id n → m ≡ n
unfolding request_id
request_id-injective m n hm hn e =
    decimal-injective m n (omega arith) (omega arith) (tail-eq_of_cons-eq e)
