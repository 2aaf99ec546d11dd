-- ===== src/Common/Decimal.antt =====
-- Decimal numbers: what `format!` writes for an unsigned integer.
use Prim.Native.Char.{Char, code, len_utf8}
use Prim.Native.String.{String, len}
use Prim.Native.String.len
use Prim.Native.Nat.{ℕ, zero, suc, ◌+◌, ◌-◌, ◌*◌, ◌/◌, ◌%◌, ◌^◌, ◌≤◌, ◌<◌}
use mathlib.Core.Path.{◌≡◌, refl, ap, sym, ◌∙◌}
use mathlib.Core.Bool.{true, false}
use mathlib.Core.List.{List, [], ◌∷◌}
use mathlib.Core.Logic.{inl, inr}
use native.Mathlib.Omega.{arith}
use native.Mathlib.Nat.{pow-suc}
use styrn.Common.Tests.{ltb, if◌then◌else◌, Bool-cases}
use styrn.Common.Lists.{all}
use styrn.Common.Text.{codes, is_digit}

digit_char : ℕ → Char
digit_char zero = "0"
digit_char (suc zero) = "1"
digit_char (suc (suc zero)) = "2"
digit_char (suc (suc (suc zero))) = "3"
digit_char (suc (suc (suc (suc zero)))) = "4"
digit_char (suc (suc (suc (suc (suc zero))))) = "5"
digit_char (suc (suc (suc (suc (suc (suc zero)))))) = "6"
digit_char (suc (suc (suc (suc (suc (suc (suc zero))))))) = "7"
digit_char (suc (suc (suc (suc (suc (suc (suc (suc zero)))))))) = "8"
digit_char _ = "9"

-- The digits of `n` in front of `rest`; the first argument bounds their number.
digits_onto : ℕ → ℕ → String → String
unfolding digit_char
digits_onto zero n rest = rest
digits_onto (suc places) n rest =
    let shown = String.◌∷◌ (digit_char (n % 10)) rest in
    let more = digits_onto places (n / 10) shown in if ltb n 10 then shown else more

-- A number of 64 bits has at most twenty digits.
unfoldable pub decimal : ℕ → String
unfolding digits_onto
decimal n = digits_onto 20 n ""

code_digit : (n : ℕ) → n < 10 → code (digit_char n) ≡ 48 + n
unfolding digit_char
code_digit zero h = refl
code_digit (suc zero) h = refl
code_digit (suc (suc zero)) h = refl
code_digit (suc (suc (suc zero))) h = refl
code_digit (suc (suc (suc (suc zero)))) h = refl
code_digit (suc (suc (suc (suc (suc zero))))) h = refl
code_digit (suc (suc (suc (suc (suc (suc zero)))))) h = refl
code_digit (suc (suc (suc (suc (suc (suc (suc zero))))))) h = refl
code_digit (suc (suc (suc (suc (suc (suc (suc (suc zero)))))))) h = refl
code_digit (suc (suc (suc (suc (suc (suc (suc (suc (suc n))))))))) h = omega arith

len_digit : (n : ℕ) → len_utf8 (digit_char n) ≡ 1
unfolding digit_char
len_digit zero = refl
len_digit (suc zero) = refl
len_digit (suc (suc zero)) = refl
len_digit (suc (suc (suc zero))) = refl
len_digit (suc (suc (suc (suc zero)))) = refl
len_digit (suc (suc (suc (suc (suc zero))))) = refl
len_digit (suc (suc (suc (suc (suc (suc zero)))))) = refl
len_digit (suc (suc (suc (suc (suc (suc (suc zero))))))) = refl
len_digit (suc (suc (suc (suc (suc (suc (suc (suc zero)))))))) = refl
len_digit _ = refl

-- The number that a row of digits stands for, behind those already read.
unfoldable pub value_from : ℕ → List ℕ → ℕ
value_from acc [] = acc
value_from acc (c ∷ cs) = value_from (acc * 10 + (c - 48)) cs

unfoldable pub value_of : String → ℕ
unfolding value_from
value_of s = value_from 0 (codes s)

some_place : (places n : ℕ) → ltb n 10 ≡ false → n < 10 ^ suc places → 0 < places
some_place zero n big lt = ground arith
some_place (suc places) n big lt = omega arith

fewer_places : (places n : ℕ) → n < 10 ^ suc places → n / 10 < 10 ^ places
fewer_places places n lt = omega (arith, pow-suc 10 places)

value_from-digits_onto :
    (places n : ℕ) (rest : String)
    → n < 10 ^ places
    → 0 < places
    → value_from 0 (codes (digits_onto places n rest)) ≡ value_from n (codes rest)
unfolding digits_onto value_from
value_from-digits_onto zero n rest lt pos = absurd (omega arith)
value_from-digits_onto (suc places) n rest lt pos =
    let digit = code_digit (n % 10) (omega arith) in
    elim (Bool-cases (ltb n 10)) [
      | inl small ↦
          let shown : 0 * 10 + (code (digit_char (n % 10)) - 48) ≡ n = ground (arith, digit) in
          rw small (ap (λ k. value_from k (codes rest)) shown)
      | inr big ↦
          let shown : n / 10 * 10 + (code (digit_char (n % 10)) - 48) ≡ n = omega (arith, digit) in
          rw big (
            value_from-digits_onto places (n / 10) (String.◌∷◌ (digit_char (n % 10)) rest)
              (fewer_places places n lt) (some_place places n big lt)
            ∙ ap (λ k. value_from k (codes rest)) shown)
    ]

-- A number is read back from its digits.
pub value_of-decimal : (n : ℕ) → n < 10 ^ 20 → value_of (decimal n) ≡ n
unfolding value_of decimal value_from
value_of-decimal n lt = value_from-digits_onto 20 n "" lt (omega arith)

pub decimal-injective : (m n : ℕ) → m < 10 ^ 20 → n < 10 ^ 20 → decimal m ≡ decimal n → m ≡ n
decimal-injective m n hm hn e = sym (value_of-decimal m hm) ∙ ap value_of e ∙ value_of-decimal n hn

is_digit_char : (n : ℕ) → n < 10 → is_digit (code (digit_char n)) ≡ true
is_digit_char n h = rw (code_digit n h) (ground arith)

all_digits :
    (places n : ℕ) (rest : String)
    → all is_digit (codes rest) ≡ true
    → all is_digit (codes (digits_onto places n rest)) ≡ true
unfolding digits_onto
all_digits zero n rest h = h
all_digits (suc places) n rest h =
    let digit = is_digit_char (n % 10) (omega arith) in
    let rest_digits : all is_digit (codes (String.◌∷◌ (digit_char (n % 10)) rest)) ≡ true =
      rw digit h in
    elim (Bool-cases (ltb n 10)) [
      | inl small ↦ rw small rest_digits
      | inr big ↦
          rw big (all_digits places (n / 10) (String.◌∷◌ (digit_char (n % 10)) rest) rest_digits)
    ]

pub all_digits-decimal : (n : ℕ) → all is_digit (codes (decimal n)) ≡ true
unfolding decimal
all_digits-decimal n = all_digits 20 n "" refl

-- The first code point of a text, and one that is no digit of a text that has none.
abbrev pub first : List ℕ → ℕ
first [] = 0
first (c ∷ cs) = c

first_digit :
    (places n : ℕ) (rest : String)
    → 0 < n
    → n < 10 ^ places
    → 48 < first (codes (digits_onto places n rest))
unfolding digits_onto
first_digit zero n rest pos lt = absurd (omega arith)
first_digit (suc places) n rest pos lt =
    let digit = code_digit (n % 10) (omega arith) in
    elim (Bool-cases (ltb n 10)) [
      | inl small ↦ rw small (ground (arith, digit))
      | inr big ↦ rw big (
          first_digit places (n / 10) (String.◌∷◌ (digit_char (n % 10)) rest) (ground arith)
            (fewer_places places n lt))
    ]

-- The digits of a positive number begin with one of 1 to 9.
pub first-decimal : (n : ℕ) → 0 < n → n < 10 ^ 20 → 48 < first (codes (decimal n))
unfolding decimal
first-decimal n pos lt = first_digit 20 n "" pos lt

len-digits_onto :
    (places n : ℕ) (rest : String) → len (digits_onto places n rest) ≤ places + len rest
unfolding digits_onto
len-digits_onto zero n rest = omega arith
len-digits_onto (suc places) n rest =
    let shown = String.◌∷◌ (digit_char (n % 10)) rest in
    let one = len.cons (digit_char (n % 10)) rest in
    let narrow = len_digit (n % 10) in
    let more = len-digits_onto places (n / 10) shown in
    elim (Bool-cases (ltb n 10)) [
      | inl small ↦ rw small (omega (arith, one, narrow))
      | inr big ↦ rw big (omega (arith, one, narrow, more))
    ]

pub len-decimal : (n : ℕ) → len (decimal n) ≤ 20
unfolding decimal
len-decimal n = omega (arith, len-digits_onto 20 n "", len.nil)
