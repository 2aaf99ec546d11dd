-- ===== src/Manifest/Secrets/Prefixes.antt =====
-- `contains_credential_prefix` of src/manifest/mod.rs, and `contains_secret_shaped_text` beyond it.
use styrn.Common.{
  ℕ, zero, suc, ◌≡◌, refl, ap, ◌↔◌, Bool, true, none, List, [], ◌∷◌, ◌++◌, length, all, arith,
  and-true,
}
use mathlib.Core.List.{Memᴰ}
use mathlib.Core.Path.{subst}
use styrn.Common.Text.{is_alphanumeric}
use styrn.Common.Chars.{to_lower, last_char, any_match}
use styrn.Common.Matching.{Occurs, any_match_iff}
use styrn.Common.Members.{any-Memᴰ, any_of_Memᴰ}
use styrn.Manifest.Secrets.{
  is_token_char, credential_prefixes, none_or_not, starts_with_run, min_credential_suffix_len,
  is_credential, contains_credential_prefix,
}

-- The text begins with `n` characters of the test.
abbrev pub RunOf : (ℕ → Bool) → ℕ → List ℕ → Type 0
RunOf p n s =
    (run : List ℕ) × (rest : List ℕ) × (s ≡ run ++ rest) × (length run ≡ n) × (all p run ≡ true)

starts_with_run-RunOf :
    (p : ℕ → Bool) (n : ℕ) (s : List ℕ) → starts_with_run p n s ≡ true → RunOf p n s
unfolding starts_with_run
starts_with_run-RunOf p zero s h = ([], s, refl, refl, refl)
starts_with_run-RunOf p (suc n) [] h = absurd (ground arith)
starts_with_run-RunOf p (suc n) (c ∷ s) h =
    let (here, later) = and-true (p c) (starts_with_run p n s) h in
    let (run, rest, e, size, ok_run) = starts_with_run-RunOf p n s later in
    (c ∷ run, rest, ap (λ t. c ∷ t) e, ap suc size, ground arith)

starts_with_run-append :
    (p : ℕ → Bool) (run rest : List ℕ)
    → all p run ≡ true
    → starts_with_run p (length run) (run ++ rest) ≡ true
unfolding starts_with_run
starts_with_run-append p [] rest h = refl
starts_with_run-append p (c ∷ run) rest h = ground (arith, starts_with_run-append p run rest)

-- Behind the start of the text or a character that is no letter and no digit stand a prefix of
-- `credential_prefixes` and sixteen characters of a token.
abbrev pub HoldsCredential : List ℕ → Type 0
HoldsCredential s =
    (prefix : List ℕ) × Memᴰ prefix credential_prefixes
    × (before : List ℕ) × (behind : List ℕ) × (s ≡ before ++ (prefix ++ behind))
    × (none_or_not is_alphanumeric (last_char none before) ≡ true)
    × RunOf is_token_char min_credential_suffix_len behind

found-HoldsCredential :
    (s prefix : List ℕ)
    → Memᴰ prefix credential_prefixes
    → Occurs prefix is_credential none s
    → HoldsCredential s
found-HoldsCredential s prefix member (before, behind, e, h) =
    let (left, run) = and-true _ _ h in
    (
      prefix,
      member,
      before,
      behind,
      e,
      left,
      starts_with_run-RunOf is_token_char min_credential_suffix_len behind run,
    )

HoldsCredential-Occurs :
    (s : List ℕ) (held : HoldsCredential s) → Occurs held.0 is_credential none s
HoldsCredential-Occurs s (prefix, member, before, behind, e, left, (run, rest, e', size, tokens)) =
    (
      before,
      behind,
      e,
      rw left (
          rw e' (
            subst (λ (n : ℕ). starts_with_run is_token_char n (run ++ rest) ≡ true) size
              (starts_with_run-append is_token_char run rest tokens))),
    )

-- A text holds a credential exactly when, in lower case, one of the nine prefixes stands in it
-- behind no letter or digit and before sixteen characters of a token.
pub contains_credential_prefix_iff :
    (value : List ℕ) → (contains_credential_prefix value ≡ true) ↔ HoldsCredential (to_lower value)
unfolding contains_credential_prefix
contains_credential_prefix_iff value = (
  λ h.
      let (prefix, member, found) =
        any-Memᴰ (λ (prefix : List ℕ). any_match prefix is_credential none (to_lower value))
          credential_prefixes h in
      found-HoldsCredential (to_lower value) prefix member
        ((any_match_iff prefix is_credential (to_lower value)).0 found),
  λ held.
      any_of_Memᴰ (λ (prefix : List ℕ). any_match prefix is_credential none (to_lower value)) held.1
        ((any_match_iff held.0 is_credential (to_lower value)).1
          (HoldsCredential-Occurs (to_lower value) held)),
)
