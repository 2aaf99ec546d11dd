-- ===== src/Manifest/Secrets/Labels.antt =====
-- `contains_labeled_credential` of src/manifest/mod.rs on an assignment.
use styrn.Common.{
  ℕ, ◌==◌, ◌≡◌, refl, Bool, true, false, ◌||◌, Option, none, some, List, [], ◌∷◌, ◌++◌, arith,
}
use mathlib.Core.List.{Memᴰ}
use styrn.Common.Chars.{to_lower, last_char, any_match, trim_start, trim_end}
use styrn.Common.Matching.{any_match_iff, trim_end_kept}
use styrn.Common.Members.{any_of_Memᴰ}
use styrn.Manifest.Secrets.{
  labels, safe_values, is_one_of, is_name_char, opens_value, closes_value, none_or_not, is_labelled,
  candidate, is_unsafe, contains_labeled_credential,
}

-- A value that stands for a credential: no character to be trimmed at its ends, and not one of
-- `safe_values`.
abbrev pub IsCredentialValue : List ℕ → Type 0
IsCredentialValue [] = ⊥
IsCredentialValue (c ∷ s) =
    (opens_value c ≡ false)
    × (none_or_not closes_value (last_char (some c) s) ≡ true)
    × (is_one_of safe_values (c ∷ s) ≡ false)

last_char-some : (c : ℕ) (s : List ℕ) → (d : ℕ) × (last_char (some c) s ≡ some d)
unfolding last_char
last_char-some c [] = (c, refl)
last_char-some c (d ∷ s) = last_char-some d s

candidate-value : (value : List ℕ) → IsCredentialValue value → is_unsafe (candidate value) ≡ true
unfolding candidate is_unsafe last_char
candidate-value [] h = absurd h
candidate-value (c ∷ s) h =
    let (d, e) = last_char-some c s in
    let start : trim_start opens_value (c ∷ s) ≡ c ∷ s = unfold trim_start in ground arith in
    let kept : trim_end closes_value (c ∷ s) ≡ c ∷ s =
      trim_end_kept closes_value (c ∷ s) {c = d} e (ground arith) in
    rw (start, kept) (ground arith)

abbrev pub is_assignment : ℕ → Bool
is_assignment c = c == b':' || c == b'='

assignment-labelled :
    (before : Option ℕ) (sign : ℕ) (value : List ℕ)
    → none_or_not is_name_char before ≡ true
    → is_assignment sign ≡ true
    → IsCredentialValue value
    → is_labelled before (sign ∷ value) ≡ true
unfolding trim_start
assignment-labelled before sign value left signed h = ground (arith, candidate-value value h)

-- A text that, in lower case, assigns a value with `:` or `=` to one of the eleven labels, behind the
-- start of the text or a character that cannot belong to a name, is found, unless the value is one of
-- the ten that stand for none or could be trimmed at an end.
pub contains_labeled_credential-assignment :
    (text label before value : List ℕ) (sign : ℕ)
    → Memᴰ label labels
    → to_lower text ≡ before ++ (label ++ (sign ∷ value))
    → none_or_not is_name_char (last_char none before) ≡ true
    → is_assignment sign ≡ true
    → IsCredentialValue value
    → contains_labeled_credential text ≡ true
unfolding contains_labeled_credential
contains_labeled_credential-assignment text label before value sign member spelled left signed h =
    any_of_Memᴰ (λ (name : List ℕ). any_match name is_labelled none (to_lower text)) member
      ((any_match_iff label is_labelled (to_lower text)).1 (
        before,
        sign ∷ value,
        spelled,
        assignment-labelled (last_char none before) sign value left signed h,
      ))
