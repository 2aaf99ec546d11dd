-- ===== src/Platform/Principal/Decimals.antt =====
-- The canonical numbers of src/platform/mod.rs: `canonical_decimal` and `validate_unix_uid`.
use styrn.Common.{
  ℕ, zero, suc, inl, inr, ◌^◌, ◌≤◌, ◌<◌, ◌≡◌, refl, ◌↔◌, true, false, some, List, [], ◌∷◌, all,
  is_empty, ok, Option-cases, arith,
}
use styrn.Common.Text.{codes, is_digit}
use styrn.Common.Chars.{chars_eq_iff}
use styrn.Common.Decimal.{
  decimal, value_of, value_from, value_of-decimal, first, first-decimal, all_digits-decimal,
}
use styrn.Platform.Principal.{
  u32_max, u64_max, skip_plus, parse_unsigned, canonical_decimal, validate_unix_uid,
}

-- What `to_string` writes.
abbrev pub shown : ℕ → List ℕ
shown n = codes (decimal n)

value_from-shown : (n : ℕ) → n < 10 ^ 20 → value_from 0 (shown n) ≡ n
unfolding value_of
value_from-shown n h = value_of-decimal n h

skip_plus-digits : (s : List ℕ) → all is_digit s ≡ true → skip_plus s ≡ s
skip_plus-digits [] h = refl
skip_plus-digits (c ∷ s) h = ground arith

not_empty_of_first : (s : List ℕ) → 48 < first s → is_empty s ≡ false
not_empty_of_first [] h = absurd (omega arith)
not_empty_of_first (c ∷ s) h = refl

shown-zero : is_empty (shown 0) ≡ false
unfolding decimal
shown-zero = refl

shown-not_empty : (n : ℕ) → n < 10 ^ 20 → is_empty (shown n) ≡ false
shown-not_empty zero h = shown-zero
shown-not_empty (suc n) h =
    not_empty_of_first (shown (suc n)) (first-decimal (suc n) (omega arith) h)

-- A number of at most twenty digits is read back where it fits the type.
pub parse_unsigned-shown :
    (type_max n : ℕ) → n < 10 ^ 20 → n ≤ type_max → parse_unsigned type_max (shown n) ≡ some n
unfolding parse_unsigned
parse_unsigned-shown type_max n small le =
    rw
      (
        skip_plus-digits (shown n) (all_digits-decimal n),
        shown-not_empty n small,
        all_digits-decimal n,
        value_from-shown n small,
      )
      (ground arith)

pub parse_unsigned-le :
    (type_max n : ℕ) (value : List ℕ) → parse_unsigned type_max value ≡ some n → n ≤ type_max
unfolding parse_unsigned
parse_unsigned-le type_max n value h = ground arith

-- A text is a canonical number exactly when it is what is written for a number in the range.
pub canonical_decimal_iff :
    (value : List ℕ) (maximum n : ℕ)
    → maximum ≤ u64_max
    → (canonical_decimal value maximum ≡ ok n) ↔ ((value ≡ shown n) × (n ≤ maximum))
unfolding canonical_decimal
canonical_decimal_iff value maximum n bound = (
  λ h. elim (Option-cases (parse_unsigned u64_max value)) [
    | inl e ↦ absurd (ground arith)
    | inr (parsed, e) ↦ ground (arith, chars_eq_iff (shown parsed) value)
  ],
  λ (e, le).
      rw (e, parse_unsigned-shown u64_max n (omega arith) (omega arith))
        (ground (arith, chars_eq_iff (shown n) (shown n))),
)

pub validate_unix_uid_iff :
    (value : List ℕ)
    → (validate_unix_uid value ≡ ok tt)
      ↔ ((uid : ℕ) × (value ≡ shown uid) × (0 < uid) × (uid ≤ u32_max))
unfolding validate_unix_uid
validate_unix_uid_iff value = (
  λ h. elim (Option-cases (parse_unsigned u32_max value)) [
    | inl e ↦ absurd (ground arith)
    | inr (uid, e) ↦ (
      uid,
      ground (arith, chars_eq_iff (shown uid) value),
      ground arith,
      parse_unsigned-le u32_max uid value e,
    )
  ],
  λ (uid, e, positive, le).
      rw (e, parse_unsigned-shown u32_max uid (omega arith) le)
        (ground (arith, chars_eq_iff (shown uid) (shown uid))),
)
