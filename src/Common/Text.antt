-- ===== src/Common/Text.antt =====
-- Rust's `char` and `str` operations that the program uses, over the code points of a text.
use Prim.Native.Nat.{ℕ}
use Prim.Native.Char.{code}
use Prim.Native.String.{String}
use mathlib.Core.Bool.{Bool, true, false, ◌&&◌, ◌||◌}
use mathlib.Core.List.{List, [], ◌∷◌}
use styrn.Common.Tests.{leb, ◌==◌, if◌then◌else◌}
use styrn.Common.Lists.{all, any}

-- `str::chars`: the bytes too, where the text is ASCII.
abbrev pub codes : String → List ℕ
codes String.[] = []
codes (String.◌∷◌ c s) = code c ∷ codes s

abbrev pub empty_text : String → Bool
empty_text String.[] = true
empty_text (String.◌∷◌ c s) = false

abbrev pub in_range : ℕ → ℕ → ℕ → Bool
in_range lo hi c = leb lo c && leb c hi

abbrev pub is_lower : ℕ → Bool
is_lower = in_range b'a' b'z'

abbrev pub is_upper : ℕ → Bool
is_upper = in_range b'A' b'Z'

abbrev pub is_digit : ℕ → Bool
is_digit = in_range b'0' b'9'

abbrev pub is_alphanumeric : ℕ → Bool
is_alphanumeric c = is_lower c || is_upper c || is_digit c

-- `char::is_control`: the category Cc.
abbrev pub is_control : ℕ → Bool
is_control c = leb c 31 || in_range 127 159 c

-- `char::is_whitespace`: the property White_Space.
abbrev pub is_whitespace : ℕ → Bool
is_whitespace c =
    in_range 9 13 c
    || c == 32
    || c == 133
    || c == 160
    || c == 5760
    || in_range 8192 8202 c
    || c == 8232
    || c == 8233
    || c == 8239
    || c == 8287
    || c == 12288

-- `s.trim().is_empty()`.
abbrev pub is_blank : String → Bool
is_blank s = all is_whitespace (codes s)

abbrev pub has_control : String → Bool
has_control s = any is_control (codes s)

abbrev pub push_first : ℕ → List (List ℕ) → List (List ℕ)
push_first c [] = (c ∷ []) ∷ []
push_first c (s ∷ ss) = (c ∷ s) ∷ ss

-- `str::split` at one character; the result is never empty.
unfoldable pub split : ℕ → List ℕ → List (List ℕ)
split d [] = [] ∷ []
split d (c ∷ s) = let rest = split d s in if c == d then [] ∷ rest else push_first c rest
