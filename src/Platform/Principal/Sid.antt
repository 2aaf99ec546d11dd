-- ===== src/Platform/Principal/Sid.antt =====
-- The Windows identifiers that src/platform/mod.rs accepts.
use styrn.Common.{
  ℕ, suc, ◌≤◌, ◌≡◌, ◌≢◌, ◌⊎◌, refl, sym, ap, ◌∙◌, ◌↔◌, Bool, true, false, not, String, List, [],
  ◌∷◌, ◌++◌, ltb, length, all, All, Result, ok, err, ◌>>=◌, ◌>>◌, refuse_if, inl, inr, Option-cases,
  arith,
}
use mathlib.Core.Path.{subst}
use styrn.Common.Text.{is_digit}
use styrn.Common.Chars.{chars_eq, chars_eq_iff, strip_prefix, strip_prefix_iff}
use styrn.Common.Splitting.{separated, glued, is_not, split-cons, glued-split, split-glued}
use styrn.Common.Decimal.{all_digits-decimal}
use styrn.Platform.Principal.{
  u32_max, u64_max, max_authority, sid_prefix, system_sid, component_count_ok, canonical_decimal,
  check_components, check_sid_components, validate_windows_sid,
}
use styrn.Platform.Principal.Decimals.{shown, canonical_decimal_iff}

abbrev pub shown_all : List ℕ → List (List ℕ)
shown_all [] = []
shown_all (n ∷ ns) = shown n ∷ shown_all ns

abbrev pub IsSubauthority : ℕ → Type 0
IsSubauthority n = n ≤ u32_max

Result-split : (r : Result String ℕ) → ((n : ℕ) × (r ≡ ok n)) ⊎ ((e : String) × (r ≡ err e))
Result-split (ok n) = inl (n, refl)
Result-split (err e) = inr (e, refl)

read_back :
    (component : List ℕ) (components : List (List ℕ)) (ns : List ℕ)
    → component ∷ components ≡ shown_all ns
    → All IsSubauthority ns
    → (((ms : List ℕ) × (components ≡ shown_all ms) × All IsSubauthority ms)
        → check_components components ≡ ok tt)
    → check_components (component ∷ components) ≡ ok tt
unfolding check_components
read_back component components [] e bounded later = absurd (ground arith)
read_back component components (n ∷ ns) e (le, bounded) later =
    rw ((canonical_decimal_iff component u32_max n (omega arith)).1 (ground arith, le))
      (later (ns, ground arith, bounded))

check_components_iff :
    (components : List (List ℕ))
    → (check_components components ≡ ok tt)
      ↔ ((ns : List ℕ) × (components ≡ shown_all ns) × All IsSubauthority ns)
unfolding check_components
check_components_iff [] = (λ _. ([], refl, tt), λ _. refl)
check_components_iff (component ∷ components) = (
  λ h. elim (Result-split (canonical_decimal component u32_max)) [
    | inl (n, e) ↦
        let (same, le) = (canonical_decimal_iff component u32_max n (omega arith)).0 e in
        let (ns, rest, bounded) = (check_components_iff components).0 (rw e at h) in
        (
          n ∷ ns,
          ap (λ (s : List ℕ). s ∷ components) same
              ∙ ap (λ (parts : List (List ℕ)). shown n ∷ parts) rest,
          (le, bounded),
        )
    | inr (e, failed) ↦ absurd (ground arith)
  ],
  λ (ns, e, bounded).
      read_back component components ns e bounded (check_components_iff components).1,
)

length-shown_all : (ns : List ℕ) → length (shown_all ns) ≡ length ns
length-shown_all [] = refl
length-shown_all (n ∷ ns) = ap suc (length-shown_all ns)

digits-is_not : (s : List ℕ) → all is_digit s ≡ true → all (is_not b'-') s ≡ true
digits-is_not [] h = refl
digits-is_not (c ∷ s) h = ground (arith, digits-is_not s)

shown-is_not : (n : ℕ) → all (is_not b'-') (shown n) ≡ true
shown-is_not n = digits-is_not (shown n) (all_digits-decimal n)

shown_all-is_not : (ns : List ℕ) → all (all (is_not b'-')) (shown_all ns) ≡ true
shown_all-is_not [] = refl
shown_all-is_not (n ∷ ns) = rw (shown-is_not n) (shown_all-is_not ns)

-- `S-1-`, an authority of 48 bits and one to fifteen numbers of 32 bits, each written in decimal
-- behind a hyphen; and not the account SYSTEM.
abbrev pub IsSid : List ℕ → Type 0
IsSid value =
    (authority : ℕ) × (ns : List ℕ) × (value
      ≡ sid_prefix ++ (shown authority ++ separated b'-' (shown_all ns)))
    × (authority ≤ max_authority)
    × All IsSubauthority ns
    × (1 ≤ length ns)
    × (length ns ≤ 15)
    × (value ≢ system_sid)

-- The chain of checks behind the prefix, over the results of its parts.
abbrev sid_checks :
    Bool → Result String ℕ → Result String (Unit {0}) → Bool → Result String (Unit {0})
sid_checks counted first others is_system = do
  refuse_if (not counted) "worker SID has an invalid component count"
  authority ← first
  refuse_if (ltb max_authority authority) "worker SID authority is out of range"
  others
  refuse_if is_system "SYSTEM cannot be a worker principal"
  ok tt

sid_checks-ok :
    (counted is_system : Bool) (first : Result String ℕ) (others : Result String (Unit {0}))
    → sid_checks counted first others is_system ≡ ok tt
    → (authority : ℕ) × (first ≡ ok authority)
      × (authority ≤ max_authority)
      × (others ≡ ok tt)
      × (counted ≡ true)
      × (is_system ≡ false)
sid_checks-ok counted is_system (err e) others h = absurd (ground arith)
sid_checks-ok counted is_system (ok authority) others h =
    (authority, refl, ground arith, ground arith, ground arith, ground arith)

sid_checks_pass :
    (counted is_system : Bool) (authority : ℕ) (others : Result String (Unit {0}))
    → authority ≤ max_authority
    → others ≡ ok tt
    → counted ≡ true
    → is_system ≡ false
    → sid_checks counted (ok authority) others is_system ≡ ok tt
sid_checks_pass counted is_system authority others h k l m = ground arith

check_sid_components-eq :
    (value first : List ℕ) (rest : List (List ℕ))
    → check_sid_components value (first ∷ rest)
      ≡ sid_checks
          (component_count_ok (first ∷ rest))
          (canonical_decimal first u64_max)
          (check_components rest)
          (chars_eq value system_sid)
unfolding check_sid_components
check_sid_components-eq value first rest = refl

accepted-IsSid :
    (value first : List ℕ) (rest : List (List ℕ))
    → value ≡ sid_prefix ++ (first ++ separated b'-' rest)
    → check_sid_components value (first ∷ rest) ≡ ok tt
    → IsSid value
accepted-IsSid value first rest e h =
    let (authority, parsed, le, others, counted, user) =
      sid_checks-ok (component_count_ok (first ∷ rest)) (chars_eq value system_sid)
        (canonical_decimal first u64_max) (check_components rest)
        (sym (check_sid_components-eq value first rest) ∙ h) in
    let (same, _) = (canonical_decimal_iff first u64_max authority (omega arith)).0 parsed in
    let (ns, listed, bounded) = (check_components_iff rest).0 others in
    let size : length rest ≡ length ns = ap length listed ∙ length-shown_all ns in
    (
      authority,
      ns,
      e
          ∙ ap (λ (s : List ℕ). sid_prefix ++ (s ++ separated b'-' rest)) same
          ∙ ap (λ (parts : List (List ℕ)). sid_prefix ++ (shown authority ++ separated b'-' parts))
              listed,
      le,
      bounded,
      ground (arith, size),
      ground (arith, size),
      ground (arith, (chars_eq_iff value system_sid).1),
    )

IsSid-accepted :
    (value : List ℕ) (sid : IsSid value)
    → check_sid_components value (shown sid.0 ∷ shown_all sid.1) ≡ ok tt
IsSid-accepted value (authority, ns, e, le, bounded, some_ns, few, user) =
    let size = length-shown_all ns in
    check_sid_components-eq value (shown authority) (shown_all ns)
    ∙ rw
        ((canonical_decimal_iff (shown authority) u64_max authority (omega arith)).1
          (refl, omega arith))
        (sid_checks_pass (component_count_ok (shown authority ∷ shown_all ns))
          (chars_eq value system_sid) authority (check_components (shown_all ns)) le
          ((check_components_iff (shown_all ns)).1 (ns, refl, bounded)) (ground (arith, size))
          (ground (arith, (chars_eq_iff value system_sid).0)))

-- A Windows identifier is accepted exactly when it is `S-1-`, an authority of 48 bits and one to
-- fifteen numbers of 32 bits, each in canonical decimal behind a hyphen, and not that of SYSTEM.
pub validate_windows_sid_iff : (value : List ℕ) → (validate_windows_sid value ≡ ok tt) ↔ IsSid value
unfolding validate_windows_sid
validate_windows_sid_iff value = (
  λ h. elim (Option-cases (strip_prefix sid_prefix value)) [
    | inl e ↦ absurd (ground arith)
    | inr (text, e) ↦
        let (first, rest, cut) = split-cons b'-' text in
        let whole : text ≡ first ++ separated b'-' rest =
          subst (λ (parts : List (List ℕ)). text ≡ glued b'-' parts) cut
            (sym (glued-split b'-' text)) in
        accepted-IsSid value first rest
          ((strip_prefix_iff sid_prefix value text).0 e
            ∙ ap (λ (s : List ℕ). sid_prefix ++ s) whole)
          (rw (e, cut) at h)
  ],
  λ sid.
      let (authority, ns, e, _, _, _, _, _) = sid in
      let text = shown authority ++ separated b'-' (shown_all ns) in
      let cut =
        split-glued b'-' (shown authority) (shown_all ns) (shown_all-is_not (authority ∷ ns)) in
      rw ((strip_prefix_iff sid_prefix value text).1 e, cut) (IsSid-accepted value sid),
)
