-- ===== src/Platform/Principal.antt =====
-- `WorkerPrincipal` of src/platform/mod.rs: the account that a worker runs as. The error is the text
-- of the `io::Error`.
pub mod Decimals
pub mod Sid
use styrn.Common.{
  ℕ, ◌+◌, ◌-◌, ◌*◌, ◌^◌, ◌==◌, Bool, true, false, not, ◌&&◌, ◌||◌, Option, none, some, String, len,
  List, [], ◌∷◌, ltb, leb, length, all, any, is_empty, Result, ok, err, ◌>>=◌, ◌>>◌, ok_or,
  refuse_if, if◌then◌else◌,
}
use styrn.Common.Text.{codes, empty_text, is_digit, is_whitespace, has_control, split}
use styrn.Common.Chars.{chars_eq, strip_prefix, trim_start, trim_end, trim_matches}
use styrn.Common.Decimal.{decimal, value_from}

pub data PrincipalKind : Type 0 where
  unix_uid windows_sid : PrincipalKind

pub data WorkerAccountPolicy : Type 0 where
  current_user dedicated : WorkerAccountPolicy

pub data WorkerIsolation : Type 0 where
  shared_user dedicated_account : WorkerIsolation

pub record WorkerPrincipal : Type 0 where
  pub principal_kind : PrincipalKind
  pub principal_id : String
  pub name : String
  pub account_policy : WorkerAccountPolicy

abbrev pub u32_max : ℕ
u32_max = 2 ^ 32 - 1

abbrev pub u64_max : ℕ
u64_max = 2 ^ 64 - 1

-- `str::parse` of an unsigned integer: a sign `+` may stand first, and a value above the maximum of
-- the type is refused.
abbrev pub skip_plus : List ℕ → List ℕ
skip_plus [] = []
skip_plus (c ∷ s) = if c == b'+' then s else c ∷ s

abbrev pub parse_digits : ℕ → List ℕ → Option ℕ
parse_digits type_max digits =
    if is_empty digits || not (all is_digit digits) || ltb type_max (value_from 0 digits)
    then none
    else some (value_from 0 digits)

unfoldable pub parse_unsigned : ℕ → List ℕ → Option ℕ
unfolding value_from
parse_unsigned type_max value = parse_digits type_max (skip_plus value)

unfoldable pub canonical_decimal : List ℕ → ℕ → Result String ℕ
unfolding parse_unsigned chars_eq decimal
canonical_decimal value maximum = do
  parsed ← ok_or (parse_unsigned u64_max value) "native principal identifier is not decimal"
  refuse_if (ltb maximum parsed || not (chars_eq (codes (decimal parsed)) value))
      "native principal identifier is not canonical"
  ok parsed

unfoldable pub validate_unix_uid : List ℕ → Result String (Unit {0})
unfolding parse_unsigned chars_eq decimal
validate_unix_uid value = do
  uid ← ok_or (parse_unsigned u32_max value) "worker uid must be canonical decimal u32 text"
  refuse_if (uid == 0 || not (chars_eq (codes (decimal uid)) value))
      "worker uid must be canonical non-root decimal text"
  ok tt

-- The loop over the components behind the authority.
unfoldable pub check_components : List (List ℕ) → Result String (Unit {0})
unfolding canonical_decimal
check_components [] = ok tt
check_components (component ∷ components) =
    canonical_decimal component u32_max >>= λ _. check_components components

abbrev pub max_authority : ℕ
max_authority = 2 ^ 48 - 1

abbrev pub sid_prefix : List ℕ
sid_prefix = codes "S-1-"

abbrev pub system_sid : List ℕ
system_sid = codes "S-1-5-18"

abbrev pub component_count_ok : List (List ℕ) → Bool
component_count_ok components = leb 2 (length components) && leb (length components) 16

unfoldable pub check_sid_components : List ℕ → List (List ℕ) → Result String (Unit {0})
unfolding check_components canonical_decimal chars_eq
check_sid_components value [] = err "worker SID has an invalid component count"
check_sid_components value (first ∷ rest) = do
  refuse_if (not (component_count_ok (first ∷ rest))) "worker SID has an invalid component count"
  authority ← canonical_decimal first u64_max
  refuse_if (ltb max_authority authority) "worker SID authority is out of range"
  check_components rest
  refuse_if (chars_eq value system_sid) "SYSTEM cannot be a worker principal"
  ok tt

unfoldable pub validate_windows_sid : List ℕ → Result String (Unit {0})
unfolding strip_prefix check_sid_components split
validate_windows_sid value = do
  rest ← ok_or (strip_prefix sid_prefix value) "worker SID must use canonical S-1 text"
  check_sid_components value (split b'-' rest)

abbrev pub is_ambiguous : ℕ → Bool
is_ambiguous c = c == 92 || c == b'/' || c == b':'

-- `value.trim() != value`.
abbrev pub is_padded : List ℕ → Bool
is_padded value = not (chars_eq (trim_matches is_whitespace value) value)

unfoldable pub validate_principal_name : String → Result String (Unit {0})
unfolding chars_eq trim_start trim_end
validate_principal_name value = do
  refuse_if
      (empty_text value || ltb 256 (len value) || is_padded (codes value) || has_control value)
      "worker account name is invalid"
  refuse_if (any is_ambiguous (codes value)) "worker account name is ambiguous"
  ok tt

abbrev pub validate_principal_id : PrincipalKind → String → Result String (Unit {0})
validate_principal_id unix_uid value = validate_unix_uid (codes value)
validate_principal_id windows_sid value = validate_windows_sid (codes value)

unfoldable pub WorkerPrincipal_new :
    PrincipalKind → String → String → WorkerAccountPolicy → Result String WorkerPrincipal
unfolding validate_unix_uid validate_windows_sid validate_principal_name
WorkerPrincipal_new principal_kind principal_id name account_policy = do
  validate_principal_name name
  validate_principal_id principal_kind principal_id
  ok (record {
    principal_kind = principal_kind;
    principal_id = principal_id;
    name = name;
    account_policy = account_policy;
  })

abbrev pub isolation : WorkerPrincipal → WorkerIsolation
isolation principal = elim principal.account_policy [
  | current_user ↦ shared_user
  | dedicated ↦ dedicated_account
]
