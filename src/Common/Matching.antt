-- ===== src/Common/Matching.antt =====
-- What a search in a text finds, and what trimming leaves alone.
use text.Mathlib.TextEquality.{Char-path}
use Prim.Native.Char.{code}
use Prim.Native.String
use text.Mathlib.TextLemmas.{nil-append, cons-append}
use styrn.Common.{
  String, ℕ, ◌≡◌, refl, ap, ◌∙◌, ◌↔◌, inl, inr, Bool, true, false, Option, none, some, List, [],
  ◌∷◌, ◌++◌, arith, Bool-cases, Option-cases,
}
use styrn.Common.Text.{codes}
use styrn.Common.Chars.{
  to_lower, lower_char, strip_prefix, strip_prefix_iff, last_char, trim_end, any_match,
}

-- The pattern stands in the text between two parts of which the test holds.
abbrev pub Occurs : List ℕ → (Option ℕ → List ℕ → Bool) → Option ℕ → List ℕ → Type 0
Occurs pat test start s =
    (before : List ℕ) × (behind : List ℕ) × (s ≡ before ++ (pat ++ behind))
    × (test (last_char start before) behind ≡ true)

module _ (pat : List ℕ) (test : Option ℕ → List ℕ → Bool) where
  any_match_here :
      (start : Option ℕ) (s behind : List ℕ)
      → s ≡ pat ++ behind
      → test start behind ≡ true
      → any_match pat test start s ≡ true
  unfolding any_match
  any_match_here start [] behind e h = ground (arith, strip_prefix_iff pat [] behind)
  any_match_here start (c ∷ s) behind e h = ground (arith, strip_prefix_iff pat (c ∷ s) behind)

  any_match_found :
      (before behind : List ℕ) (start : Option ℕ)
      → test (last_char start before) behind ≡ true
      → any_match pat test start (before ++ (pat ++ behind)) ≡ true
  unfolding last_char any_match
  any_match_found [] behind start h = any_match_here start (pat ++ behind) behind refl h
  any_match_found (c ∷ before) behind start h =
      ground (arith, any_match_found before behind (some c) h)

  Occurs-later :
      (start : Option ℕ) (c : ℕ) (s : List ℕ)
      → Occurs pat test (some c) s
      → Occurs pat test start (c ∷ s)
  unfolding last_char
  Occurs-later start c s (before, behind, e, h) = (c ∷ before, behind, ap (λ t. c ∷ t) e, h)

  any_match-Occurs :
      (s : List ℕ) (start : Option ℕ) → any_match pat test start s ≡ true → Occurs pat test start s
  unfolding any_match last_char
  any_match-Occurs [] start h = elim (Option-cases (strip_prefix pat [])) [
    | inl e ↦ absurd (ground arith)
    | inr (behind, e) ↦ ([], behind, (strip_prefix_iff pat [] behind).0 e, ground arith)
  ]
  any_match-Occurs (c ∷ s) start h = elim (Bool-cases (any_match pat test (some c) s)) [
    | inl later ↦ Occurs-later start c s (any_match-Occurs s (some c) later)
    | inr never ↦ elim (Option-cases (strip_prefix pat (c ∷ s))) [
      | inl e ↦ absurd (ground arith)
      | inr (behind, e) ↦ ([], behind, (strip_prefix_iff pat (c ∷ s) behind).0 e, ground arith)
    ]
  ]

  pub any_match_iff : (s : List ℕ) → (any_match pat test none s ≡ true) ↔ Occurs pat test none s
  any_match_iff s = (
    any_match-Occurs s none,
    λ (before, behind, e, h). rw e (any_match_found before behind none h),
  )

pub to_lower-append : (s t : List ℕ) → to_lower (s ++ t) ≡ to_lower s ++ to_lower t
unfolding to_lower
to_lower-append [] t = refl
to_lower-append (c ∷ s) t = ap (λ r. lower_char c ∷ r) (to_lower-append s t)

pub trim_end_kept :
    (p : ℕ → Bool) (s : List ℕ) {c : ℕ} → last_char none s ≡ some c → p c ≡ false → trim_end p s ≡ s
unfolding trim_end last_char
trim_end_kept p [] e h = refl
trim_end_kept p (d ∷ []) e h = ground arith
trim_end_kept p (d ∷ b ∷ s) e h = rw (trim_end_kept p (b ∷ s) e h) refl

pub codes-append : (s t : String) → codes (String.◌++◌ s t) ≡ codes s ++ codes t
codes-append String.[] t = ap codes (nil-append t)
codes-append (String.◌∷◌ c s) t =
    ap codes (cons-append c s t) ∙ ap (λ (r : List ℕ). code c ∷ r) (codes-append s t)

-- A text is determined by its code points.
pub codes-injective : (s t : String) → codes s ≡ codes t → s ≡ t
codes-injective String.[] String.[] e = refl
codes-injective String.[] (String.◌∷◌ d t) e = absurd (ground arith)
codes-injective (String.◌∷◌ c s) String.[] e = absurd (ground arith)
codes-injective (String.◌∷◌ c s) (String.◌∷◌ d t) e =
    ground (arith, Char-path c d, codes-injective s t)
