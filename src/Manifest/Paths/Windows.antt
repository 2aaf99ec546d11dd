-- ===== src/Manifest/Paths/Windows.antt =====
-- The Windows paths that src/manifest/mod.rs accepts.
use styrn.Common.{
  ℕ, ◌==◌, ◌≡◌, refl, sym, ap, ◌∙◌, ◌↔◌, inl, inr, Bool, true, false, not, ◌&&◌, ◌||◌, some, List,
  [], ◌∷◌, ◌++◌, all, any, is_empty, Bool-cases, arith,
}
use mathlib.Core.Path.{subst}
use styrn.Common.Text.{is_control, is_lower, is_upper}
use styrn.Common.Chars.{last_char, ends_with}
use styrn.Common.Splitting.{
  separated, glued, is_not, is_part, split-cons, glued-split, split-is_not, split-glued,
  any-not-all, all-separated, last-separated, all-snoc, separated-snoc,
}
use styrn.Manifest.Paths.{slash, backslash, is_bad_windows_component, is_bad_windows_path}
use styrn.Manifest.Paths.Unix.{is_plain}

abbrev colon : ℕ
colon = b':'

abbrev is_good : List ℕ → Bool
is_good component = not (is_bad_windows_component component)

abbrev pub is_letter : ℕ → Bool
is_letter c = is_lower c || is_upper c

-- A name that is no device, not empty, not `.` or `..`, does not end with a dot or a space, and holds
-- none of the characters that separate or that Windows forbids.
abbrev pub is_windows_component : List ℕ → Bool
is_windows_component component =
    is_good component
    && (all (is_not backslash) component
        && (all (is_not slash) component
            && (all (is_not colon) component && all is_plain component)))

split_tests :
    (parts : List (List ℕ))
    → all is_windows_component parts ≡ (
        all is_good parts
        && (all (all (is_not backslash)) parts
            && (all (all (is_not slash)) parts
                && (all (all (is_not colon)) parts && all (all is_plain) parts))))
split_tests [] = refl
split_tests (part ∷ parts) = ground (arith, split_tests parts)

good-not_empty : (part : List ℕ) → is_good part ≡ true → is_empty part ≡ false
unfolding is_bad_windows_component
good-not_empty part h = ground arith

good-is_part :
    (parts : List (List ℕ))
    → all is_good parts ≡ true
    → all (all (is_not backslash)) parts ≡ true
    → all (is_part backslash) parts ≡ true
good-is_part [] h g = refl
good-is_part (part ∷ parts) h g = ground (arith, good-is_part parts, good-not_empty part)

is_empty-append : (s t : List ℕ) → is_empty s ≡ false → is_empty (s ++ t) ≡ false
is_empty-append [] t h = absurd (ground arith)
is_empty-append (c ∷ s) t h = refl

-- A drive, a colon, and the parts.
abbrev pub drive_path : ℕ → List ℕ → List (List ℕ) → List ℕ
drive_path drive first rest = drive ∷ colon ∷ separated backslash (first ∷ rest)

bad_windows_path-separated :
    (drive : ℕ) (first : List ℕ) (rest : List (List ℕ))
    → all (all (is_not backslash)) (first ∷ rest) ≡ true
    → is_letter drive ≡ true
    → is_bad_windows_path (drive_path drive first rest)
      ≡ not (
          all is_good (first ∷ rest)
          && (all (all (is_not slash)) (first ∷ rest) && all (all (is_not colon)) (first ∷ rest)))
unfolding is_bad_windows_path ends_with last_char separated
bad_windows_path-separated drive first rest h letter =
    let parts = first ∷ rest in
    let behind = first ++ separated backslash rest in
    let pieces = split-glued backslash first rest h in
    let slashes = any-not-all (λ (c : ℕ). c == slash) (drive_path drive first rest) in
    let no_slash = all-separated (is_not slash) backslash parts refl in
    let colons = any-not-all (λ (c : ℕ). c == colon) behind in
    let no_colon = all-separated (is_not colon) backslash parts refl in
    let bad = any-not-all is_bad_windows_component parts in
    elim (Bool-cases (all is_good parts)) [
      | inl good ↦
          let (e, last, off) =
            last-separated backslash (some colon) first rest (good-is_part parts good h) in
          rw pieces (
            ground (
              arith,
              slashes,
              no_slash,
              colons,
              no_colon,
              bad,
              good,
              last,
              off,
              letter,
              good-not_empty first,
              is_empty-append first (separated backslash rest),
            ))
      | inr some_bad ↦ rw pieces (ground (arith, bad, some_bad))
    ]

-- A drive's letter, a colon, and one or more components, each behind a backslash.
abbrev pub IsWindowsPath : List ℕ → Type 0
IsWindowsPath value =
    (drive : ℕ) × (first : List ℕ) × (rest : List (List ℕ)) × (value ≡ drive_path drive first rest)
    × (is_letter drive ≡ true)
    × (all is_windows_component (first ∷ rest) ≡ true)

letter-is_plain : (drive : ℕ) → is_letter drive ≡ true → is_plain drive ≡ true
letter-is_plain drive h = ground arith

accepted_parts :
    (drive : ℕ) (first : List ℕ) (rest : List (List ℕ))
    → all (all (is_not backslash)) (first ∷ rest) ≡ true
    → is_letter drive ≡ true
    → ((is_bad_windows_path (drive_path drive first rest) ≡ false)
        × (any is_control (drive_path drive first rest) ≡ false))
      ↔ (all is_windows_component (first ∷ rest) ≡ true)
accepted_parts drive first rest h letter = ground (
  arith,
  bad_windows_path-separated drive first rest h letter,
  split_tests (first ∷ rest),
  any-not-all is_control (separated backslash (first ∷ rest)),
  all-separated is_plain backslash (first ∷ rest) refl,
  letter-is_plain drive letter,
)

lacks_backslashes :
    (parts : List (List ℕ))
    → all is_windows_component parts ≡ true
    → all (all (is_not backslash)) parts ≡ true
lacks_backslashes parts h = ground (arith, split_tests parts)

begins_with_drive :
    (value : List ℕ)
    → is_bad_windows_path value ≡ false
    → (drive : ℕ) × (rest : List ℕ) × (value ≡ drive ∷ colon ∷ backslash ∷ rest)
      × (is_letter drive ≡ true)
unfolding is_bad_windows_path
begins_with_drive [] h = absurd (ground arith)
begins_with_drive (a ∷ []) h = absurd (ground arith)
begins_with_drive (a ∷ b ∷ []) h = absurd (ground arith)
begins_with_drive (a ∷ b ∷ c ∷ rest) h = (a, rest, ground arith, ground arith)

pub IsWindowsPath-iff :
    (value : List ℕ)
    → ((is_bad_windows_path value ≡ false) × (any is_control value ≡ false)) ↔ IsWindowsPath value
IsWindowsPath-iff value = (
  λ (fine, plain).
      let (drive, text, e, letter) = begins_with_drive value fine in
      let (first, rest, cut) = split-cons backslash text in
      let whole : value ≡ drive_path drive first rest =
        unfold separated in
        e
        ∙ ap (λ (s : List ℕ). drive ∷ colon ∷ backslash ∷ s)
            (subst (λ (parts : List (List ℕ)). text ≡ glued backslash parts) cut
              (sym (glued-split backslash text))) in
      let lacks =
        subst (λ (parts : List (List ℕ)). all (all (is_not backslash)) parts ≡ true) cut
          (split-is_not backslash text) in
      (
        drive,
        first,
        rest,
        whole,
        letter,
        (accepted_parts drive first rest lacks letter).0 (
          subst (λ (s : List ℕ). is_bad_windows_path s ≡ false) whole fine,
          subst (λ (s : List ℕ). any is_control s ≡ false) whole plain,
        ),
      ),
  λ (drive, first, rest, whole, letter, good).
      subst (λ (s : List ℕ). (is_bad_windows_path s ≡ false) × (any is_control s ≡ false))
        (sym whole)
        ((accepted_parts drive first rest (lacks_backslashes (first ∷ rest) good) letter).1 good),
)

-- A path with one more component is a path.
pub child-IsWindowsPath :
    (value leaf : List ℕ)
    → is_windows_component leaf ≡ true
    → IsWindowsPath value
    → IsWindowsPath (value ++ (backslash ∷ leaf))
child-IsWindowsPath value leaf h (drive, first, rest, whole, letter, good) = (
  drive,
  first,
  rest ++ leaf ∷ [],
  rw whole
      (ap (λ (s : List ℕ). drive ∷ colon ∷ s) (sym (separated-snoc backslash (first ∷ rest) leaf))),
  letter,
  all-snoc is_windows_component (first ∷ rest) leaf good h,
)
