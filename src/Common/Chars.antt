-- ===== src/Common/Chars.antt =====
-- Rust's `str` operations on the code points of a text: letter case, prefixes, trimming, searching.
use Prim.Native.Nat.{ℕ, ◌+◌, ◌-◌}
use mathlib.Core.Path.{◌≡◌}
use mathlib.Core.Logic.{◌↔◌}
use mathlib.Core.Bool.{Bool, true, false, ◌&&◌, ◌||◌}
use mathlib.Core.Option.{Option, none, some}
use mathlib.Core.List.{List, [], ◌∷◌, ◌++◌}
use native.Mathlib.Omega.{arith}
use styrn.Common.Tests.{◌==◌, if◌then◌else◌}
use styrn.Common.Text.{is_lower, is_upper}

-- `char::to_ascii_lowercase`, `char::to_ascii_uppercase`.
abbrev pub lower_char : ℕ → ℕ
lower_char c = if is_upper c then c + 32 else c

abbrev pub upper_char : ℕ → ℕ
upper_char c = if is_lower c then c - 32 else c

unfoldable pub to_lower : List ℕ → List ℕ
to_lower [] = []
to_lower (c ∷ s) = lower_char c ∷ to_lower s

unfoldable pub to_upper : List ℕ → List ℕ
to_upper [] = []
to_upper (c ∷ s) = upper_char c ∷ to_upper s

unfoldable pub chars_eq : List ℕ → List ℕ → Bool
chars_eq [] [] = true
chars_eq [] (d ∷ t) = false
chars_eq (c ∷ s) [] = false
chars_eq (c ∷ s) (d ∷ t) = c == d && chars_eq s t

-- `str::strip_prefix`.
unfoldable pub strip_prefix : List ℕ → List ℕ → Option (List ℕ)
strip_prefix [] s = some s
strip_prefix (p ∷ ps) [] = none
strip_prefix (p ∷ ps) (c ∷ s) = let rest = strip_prefix ps s in if p == c then rest else none

abbrev pub is_some {ℓ} : {A : Type ℓ} → Option A → Bool
is_some none = false
is_some (some a) = true

unfoldable pub starts_with : List ℕ → List ℕ → Bool
unfolding strip_prefix
starts_with p s = is_some (strip_prefix p s)

abbrev pub first_char : List ℕ → Option ℕ
first_char [] = none
first_char (c ∷ s) = some c

-- The last character of a text that stands behind another character.
unfoldable pub last_char : Option ℕ → List ℕ → Option ℕ
last_char before [] = before
last_char before (c ∷ s) = last_char (some c) s

-- `str::ends_with` of a character.
unfoldable pub ends_with : ℕ → List ℕ → Bool
unfolding last_char
ends_with d s = elim (last_char none s) [ none ↦ false | some c ↦ c == d ]

-- `str::ends_with` of a text.
unfoldable pub ends_with_text : List ℕ → List ℕ → Bool
unfolding chars_eq
ends_with_text pat [] = chars_eq [] pat
ends_with_text pat (c ∷ s) = chars_eq (c ∷ s) pat || ends_with_text pat s

-- `str::trim_start_matches`, `str::trim_end_matches` and `str::trim_matches`, by a test.
unfoldable pub trim_start : (ℕ → Bool) → List ℕ → List ℕ
trim_start p [] = []
trim_start p (c ∷ s) = let rest = trim_start p s in if p c then rest else c ∷ s

abbrev pub push_kept : (ℕ → Bool) → ℕ → List ℕ → List ℕ
push_kept p c [] = if p c then [] else c ∷ []
push_kept p c (d ∷ s) = c ∷ d ∷ s

unfoldable pub trim_end : (ℕ → Bool) → List ℕ → List ℕ
trim_end p [] = []
trim_end p (c ∷ s) = push_kept p c (trim_end p s)

abbrev pub trim_matches : (ℕ → Bool) → List ℕ → List ℕ
trim_matches p s = trim_end p (trim_start p s)

-- `str::split_whitespace` without the pieces that are empty: the pieces between the characters of a
-- test.
abbrev pub push_word : List ℕ → List (List ℕ) → List (List ℕ)
push_word [] words = words
push_word (c ∷ s) words = (c ∷ s) ∷ words

unfoldable pub words_from : (ℕ → Bool) → List ℕ → List ℕ → List (List ℕ)
words_from p word [] = push_word word []
words_from p word (c ∷ s) =
    let cut = push_word word (words_from p [] s) in
    let longer = words_from p (word ++ c ∷ []) s in if p c then cut else longer

-- `str::split_once`; `none` where the character is missing.
unfoldable pub split_once : ℕ → List ℕ → Option (List ℕ × List ℕ)
split_once d [] = none
split_once d (c ∷ s) =
    let later = split_once d s in
    if c == d
    then some ([], s)
    else elim later [ none ↦ none | some (before, behind) ↦ some (c ∷ before, behind) ]

-- `str::match_indices` of a pattern, asked at each match for the character before it and the text
-- behind it. For patterns that cannot overlap themselves these are the matches at every position.
unfoldable pub any_match : List ℕ → (Option ℕ → List ℕ → Bool) → Option ℕ → List ℕ → Bool
unfolding strip_prefix
any_match pat test before [] = elim (strip_prefix pat []) [
  | none ↦ false
  | some behind ↦ test before behind
]
any_match pat test before (c ∷ s) =
    elim (strip_prefix pat (c ∷ s)) [ none ↦ false | some behind ↦ test before behind ]
    || any_match pat test (some c) s

-- `str::contains` of a text.
abbrev pub contains_text : List ℕ → List ℕ → Bool
contains_text pat = any_match pat (λ _ _. true) none

pub chars_eq_iff : (s t : List ℕ) → (chars_eq s t ≡ true) ↔ (s ≡ t)
unfolding chars_eq
chars_eq_iff [] [] = ground arith
chars_eq_iff [] (d ∷ t) = ground arith
chars_eq_iff (c ∷ s) [] = ground arith
chars_eq_iff (c ∷ s) (d ∷ t) = ground (arith, chars_eq_iff s t)

pub strip_prefix_iff : (p s behind : List ℕ) → (strip_prefix p s ≡ some behind) ↔ (s ≡ p ++ behind)
unfolding strip_prefix
strip_prefix_iff [] s behind = ground arith
strip_prefix_iff (d ∷ p) [] behind = ground arith
strip_prefix_iff (d ∷ p) (c ∷ s) behind = ground (arith, strip_prefix_iff p s behind)
