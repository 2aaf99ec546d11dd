-- ===== src/Transport/Address.antt =====
-- `str::parse` of an `Ipv6Addr`, which `validate_host` of src/transport/mod.rs uses: whether a text is an
-- address. A reader gives the text that is left.
pub mod Characters
use styrn.Common.{
  ℕ, zero, suc, ◌+◌, ◌-◌, ◌*◌, ◌==◌, ◌≡◌, refl, sym, ap, ◌∙◌, inl, inr, Bool, true, false, not,
  ◌&&◌, ◌||◌, Option, none, some, List, [], ◌∷◌, ◌++◌, ltb, leb, length, all, is_empty,
  Option-cases, Bool-cases, and-true, arith, if◌then◌else◌,
}
use mathlib.Core.List.{append_assoc}
use styrn.Common.Text.{is_digit, in_range}
use styrn.Common.Splitting.{all-append}
use styrn.Common.Decimal.{value_from}

abbrev pub Reader : Type 0
Reader = List ℕ → Option (List ℕ)

infixl 5 ◌then_read◌
abbrev pub ◌then_read◌ : Option (List ℕ) → Reader → Option (List ℕ)
none then_read next = none
some rest then_read next = next rest

abbrev pub is_hex_digit : ℕ → Bool
is_hex_digit c = is_digit c || in_range b'a' b'f' c || in_range b'A' b'F' c

abbrev pub read_given : ℕ → Reader
read_given c [] = none
read_given c (d ∷ s) = if d == c then some s else none

-- `read_number`: all the digits that follow, and the text behind them.
unfoldable pub digits_of : (ℕ → Bool) → List ℕ → List ℕ
digits_of p [] = []
digits_of p (c ∷ s) = let more = c ∷ digits_of p s in if p c then more else []

unfoldable pub behind_digits : (ℕ → Bool) → List ℕ → List ℕ
behind_digits p [] = []
behind_digits p (c ∷ s) = let later = behind_digits p s in if p c then later else c ∷ s

abbrev pub has_zero_prefix : List ℕ → Bool
has_zero_prefix (c ∷ d ∷ s) = c == b'0'
has_zero_prefix _ = false

abbrev pub is_octet : List ℕ → Bool
is_octet digits =
    not (is_empty digits)
    && leb (length digits) 3
    && not (has_zero_prefix digits)
    && leb (value_from 0 digits) 255

abbrev pub is_group : List ℕ → Bool
is_group digits = not (is_empty digits) && leb (length digits) 4

unfoldable pub read_octet : Reader
unfolding digits_of behind_digits value_from
read_octet s = if is_octet (digits_of is_digit s) then some (behind_digits is_digit s) else none

unfoldable pub read_group : Reader
unfolding digits_of behind_digits
read_group s =
    if is_group (digits_of is_hex_digit s) then some (behind_digits is_hex_digit s) else none

-- `read_separator`: none stands before the first.
abbrev pub read_separator : ℕ → ℕ → Reader → Reader
read_separator separator index inner s =
    if index == 0 then inner s else (read_given separator s then_read inner)

unfoldable pub read_ipv4 : Reader
unfolding read_octet
read_ipv4 s =
    read_octet s
    then_read read_separator b'.' 1 read_octet
    then_read read_separator b'.' 2 read_octet
    then_read read_separator b'.' 3 read_octet

-- `read_groups` from an index, with the groups that may follow: how many there are, whether the last
-- two are an IPv4 address, and the text that is left.
abbrev pub Groups : Type 0
Groups = ℕ × Bool × List ℕ

unfoldable pub read_groups : ℕ → ℕ → List ℕ → Groups
unfolding read_ipv4 read_group
read_groups index zero s = (index, false, s)
read_groups index (suc more) s =
    elim (if more == 0 then none else read_separator b':' index read_ipv4 s) [
      | some rest ↦ (index + 2, true, rest)
      | none ↦ elim (read_separator b':' index read_group s) [
        | some rest ↦ read_groups (index + 1) more rest
        | none ↦ (index, false, s)
      ]
    ]

-- Behind the head, `::` and the tail.
abbrev pub read_tail : Groups → Option (List ℕ)
read_tail (size, has_ipv4, s) =
    if size == 8
    then some s
    else if has_ipv4
    then none
    else (read_given b':' s then_read read_given b':' then_read λ rest.
        some (read_groups 0 (7 - size) rest).2)

abbrev pub is_consumed : Option (List ℕ) → Bool
is_consumed none = false
is_consumed (some rest) = is_empty rest

unfoldable pub is_ipv6 : List ℕ → Bool
unfolding read_groups
is_ipv6 s = is_consumed (read_tail (read_groups 0 8 s))
