-- ===== src/Manifest/Paths/Unix.antt =====
-- The Unix paths that src/manifest/mod.rs accepts.
use styrn.Common.{
  ℕ, ◌==◌, ◌≡◌, refl, sym, ap, ◌∙◌, ◌↔◌, inl, inr, Bool, true, false, not, ◌&&◌, List, [], ◌∷◌,
  ◌++◌, all, any, Bool-cases, arith,
}
use mathlib.Core.Path.{subst}
use styrn.Common.Text.{is_control, split}
use styrn.Common.Chars.{starts_with}
use styrn.Common.Splitting.{
  separated, glued, is_not, is_part, split-cons, glued-split, split-is_not, split-glued,
  any-not-all, all-and, all-separated, ends_with-separated, all-snoc, separated-snoc,
}
use styrn.Manifest.Paths.{slash, backslash, is_bad_unix_component, is_bad_unix_path}

abbrev pub is_plain : ℕ → Bool
is_plain c = not (is_control c)

abbrev is_good : List ℕ → Bool
is_good component = not (is_bad_unix_component component)

-- A name other than `.` and `..`, not empty, without slashes, backslashes and control characters.
abbrev pub is_unix_component : List ℕ → Bool
is_unix_component component =
    is_good component
    && (all (is_not slash) component
        && (all (is_not backslash) component && all is_plain component))

split_tests :
    (parts : List (List ℕ))
    → all is_unix_component parts ≡ (
        all is_good parts
        && (all (all (is_not slash)) parts
            && (all (all (is_not backslash)) parts && all (all is_plain) parts)))
split_tests parts =
    all-and is_good _ parts
    ∙ ap (λ (b : Bool). all is_good parts && b)
        (all-and (all (is_not slash)) _ parts
          ∙ ap (λ (b : Bool). all (all (is_not slash)) parts && b)
              (all-and (all (is_not backslash)) (all is_plain) parts))

good-is_part :
    (parts : List (List ℕ))
    → all is_good parts ≡ true
    → all (all (is_not slash)) parts ≡ true
    → all (is_part slash) parts ≡ true
good-is_part [] h g = refl
good-is_part (part ∷ parts) h g = ground (arith, good-is_part parts)

bad_unix_path-separated :
    (first : List ℕ) (rest : List (List ℕ))
    → all (all (is_not slash)) (first ∷ rest) ≡ true
    → is_bad_unix_path (separated slash (first ∷ rest))
      ≡ not (all is_good (first ∷ rest) && all (all (is_not backslash)) (first ∷ rest))
unfolding is_bad_unix_path
bad_unix_path-separated first rest h =
    let text = separated slash (first ∷ rest) in
    let pieces = split-glued slash first rest h in
    let begins : starts_with (slash ∷ []) text ≡ true = unfold starts_with separated in refl in
    let cut : split slash text ≡ [] ∷ (first ∷ rest) = unfold split separated in rw pieces refl in
    let lacks = any-not-all (λ (c : ℕ). c == backslash) text in
    let inside = all-separated (is_not backslash) slash (first ∷ rest) refl in
    let bad = any-not-all is_bad_unix_component (first ∷ rest) in
    elim (Bool-cases (all is_good (first ∷ rest))) [
      | inl good ↦
          rw (begins, cut)
            (ground (
              arith,
              lacks,
              inside,
              bad,
              good,
              ends_with-separated slash first rest (good-is_part (first ∷ rest) good h),
            ))
      | inr some_bad ↦ rw (begins, cut) (ground (arith, bad, some_bad))
    ]

-- One or more components, each behind a slash.
abbrev pub IsUnixPath : List ℕ → Type 0
IsUnixPath value =
    (first : List ℕ) × (rest : List (List ℕ)) × (value ≡ separated slash (first ∷ rest))
    × (all is_unix_component (first ∷ rest) ≡ true)

-- What is checked of a text that is cut at its slashes.
accepted_parts :
    (first : List ℕ) (rest : List (List ℕ))
    → all (all (is_not slash)) (first ∷ rest) ≡ true
    → ((is_bad_unix_path (separated slash (first ∷ rest)) ≡ false)
        × (any is_control (separated slash (first ∷ rest)) ≡ false))
      ↔ (all is_unix_component (first ∷ rest) ≡ true)
accepted_parts first rest h = ground (
  arith,
  bad_unix_path-separated first rest h,
  split_tests (first ∷ rest),
  any-not-all is_control (separated slash (first ∷ rest)),
  all-separated is_plain slash (first ∷ rest) refl,
)

lacks_slashes :
    (parts : List (List ℕ))
    → all is_unix_component parts ≡ true
    → all (all (is_not slash)) parts ≡ true
lacks_slashes parts h = ground (arith, split_tests parts)

begins_with_slash :
    (value : List ℕ) → is_bad_unix_path value ≡ false → (text : List ℕ) × (value ≡ slash ∷ text)
unfolding is_bad_unix_path starts_with
begins_with_slash [] h = absurd (ground arith)
begins_with_slash (c ∷ text) h = (text, ground arith)

pub IsUnixPath-iff :
    (value : List ℕ)
    → ((is_bad_unix_path value ≡ false) × (any is_control value ≡ false)) ↔ IsUnixPath value
IsUnixPath-iff value = (
  λ (fine, plain).
      let (text, e) = begins_with_slash value fine in
      let (first, rest, cut) = split-cons slash text in
      let whole : value ≡ separated slash (first ∷ rest) =
        unfold separated in
        e
        ∙ ap (λ (s : List ℕ). slash ∷ s)
            (subst (λ (parts : List (List ℕ)). text ≡ glued slash parts) cut
              (sym (glued-split slash text))) in
      let lacks =
        subst (λ (parts : List (List ℕ)). all (all (is_not slash)) parts ≡ true) cut
          (split-is_not slash text) in
      (
        first,
        rest,
        whole,
        (accepted_parts first rest lacks).0 (
          subst (λ (s : List ℕ). is_bad_unix_path s ≡ false) whole fine,
          subst (λ (s : List ℕ). any is_control s ≡ false) whole plain,
        ),
      ),
  λ (first, rest, whole, good).
      subst (λ (s : List ℕ). (is_bad_unix_path s ≡ false) × (any is_control s ≡ false)) (sym whole)
        ((accepted_parts first rest (lacks_slashes (first ∷ rest) good)).1 good),
)

-- A path with one more component is a path.
pub child-IsUnixPath :
    (value leaf : List ℕ)
    → is_unix_component leaf ≡ true
    → IsUnixPath value
    → IsUnixPath (value ++ (slash ∷ leaf))
child-IsUnixPath value leaf h (first, rest, whole, good) = (
  first,
  rest ++ leaf ∷ [],
  rw whole (sym (separated-snoc slash (first ∷ rest) leaf)),
  all-snoc is_unix_component (first ∷ rest) leaf good h,
)
