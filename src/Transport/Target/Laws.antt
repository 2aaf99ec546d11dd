-- ===== src/Transport/Target/Laws.antt =====
-- What src/transport hands to OpenSSH.
use styrn.Common.{
  ℕ, ◌==◌, ◌≤◌, ◌≡◌, refl, sym, ◌∙◌, ◌↔◌, inl, inr, Bool, true, false, ◌||◌, Option, none, some,
  String, len, List, [], ◌∷◌, ◌++◌, ltb, all, Result, ok, err, Option-cases, and-true, ◌⊎◌, arith,
  if◌then◌else◌,
}
use mathlib.Core.Path.{subst}
use styrn.Common.Text.{codes, empty_text}
use styrn.Common.Splitting.{all-append}
use styrn.Transport.Address.{is_ipv6}
use styrn.Transport.Address.Characters.{is_address_char, is_ipv6-all}
use styrn.Transport.HostKey.{TransportError, authentication}
use styrn.Transport.Target.{
  strip_last, bracketed, is_name_char, begins_with_hyphen, validate_host, validate_user,
}

-- The characters of a host: those of a name, and those of an address in brackets.
abbrev pub is_host_char : ℕ → Bool
is_host_char c = is_name_char c || is_address_char c || c == b'[' || c == b']'

-- A text of such characters that OpenSSH cannot take for an option.
abbrev pub IsPlainHost : String → Type 0
IsPlainHost host =
    (empty_text host ≡ false)
    × (len host ≤ 255)
    × (begins_with_hyphen (codes host) ≡ false)
    × (all is_host_char (codes host) ≡ true)

strip_last-append : (d : ℕ) (s inner : List ℕ) → strip_last d s ≡ some inner → s ≡ inner ++ d ∷ []
unfolding strip_last
strip_last-append d [] inner h = absurd (ground arith)
strip_last-append d (c ∷ []) inner h = ground arith
strip_last-append d (c ∷ e ∷ s) inner h = elim (Option-cases (strip_last d (e ∷ s))) [
  | inl f ↦ absurd (ground arith)
  | inr (more, f) ↦ ground (arith, strip_last-append d (e ∷ s) more f)
]

bracketed-append : (s inner : List ℕ) → bracketed s ≡ some inner → s ≡ b'[' ∷ (inner ++ b']' ∷ [])
bracketed-append [] inner h = absurd (ground arith)
bracketed-append (c ∷ s) inner h = ground (arith, strip_last-append b']' s inner)

first_of : (a b c d : Bool) → a ≡ true → (a || b || c || d) ≡ true
first_of a b c d h = ground arith

second_of : (a b c d : Bool) → b ≡ true → (a || b || c || d) ≡ true
second_of a b c d h = ground arith

some-true : (b : Bool) → some b ≡ some true → b ≡ true
some-true true h = refl
some-true false h = cc

pub all_weaken :
    (p q : ℕ → Bool) (s : List ℕ)
    → ((c : ℕ) → p c ≡ true → q c ≡ true)
    → all p s ≡ true
    → all q s ≡ true
all_weaken p q [] h holds = refl
all_weaken p q (c ∷ s) h holds =
    let (here, later) = and-true (p c) (all p s) holds in rw (h c here) (all_weaken p q s h later)

pub name-is_host : (c : ℕ) → is_name_char c ≡ true → is_host_char c ≡ true
name-is_host c h = first_of (is_name_char c) (is_address_char c) (c == b'[') (c == b']') h

address-is_host : (c : ℕ) → is_address_char c ≡ true → is_host_char c ≡ true
address-is_host c h = second_of (is_name_char c) (is_address_char c) (c == b'[') (c == b']') h

brackets-all :
    (inner : List ℕ)
    → all is_address_char inner ≡ true
    → all is_host_char (b'[' ∷ (inner ++ b']' ∷ [])) ≡ true
brackets-all inner h =
    rw
      (
        all-append is_host_char inner (b']' ∷ []),
        all_weaken is_address_char is_host_char inner address-is_host h,
      )
      refl

-- The checks of a host, over the results of the tests.
abbrev host_result : Bool → Option Bool → Bool → Result TransportError (Unit {0})
host_result bad address named = if bad then err authentication else (elim address [
  | some valid ↦ if valid then ok tt else err authentication
  | none ↦ if named then ok tt else err authentication
])

host_result-ok :
    (bad : Bool) (address : Option Bool) (named : Bool)
    → host_result bad address named ≡ ok tt
    → (bad ≡ false) × ((address ≡ some true) ⊎ ((address ≡ none) × (named ≡ true)))
host_result-ok bad none named h = (ground arith, inr (refl, ground arith))
host_result-ok bad (some true) named h = (ground arith, inl refl)
host_result-ok bad (some false) named h = absurd (ground arith)

abbrev address_test : Option (List ℕ) → Option Bool
address_test none = none
address_test (some inner) = some (is_ipv6 inner)

abbrev bad_host : String → Bool
bad_host host = empty_text host || ltb 255 (len host) || begins_with_hyphen (codes host)

validate_host-eq :
    (host : String)
    → validate_host host
      ≡ host_result
          (bad_host host)
          (address_test (bracketed (codes host)))
          (all is_name_char (codes host))
unfolding validate_host
validate_host-eq host = elim (Option-cases (bracketed (codes host))) [
  | inl e ↦ rw e refl
  | inr (inner, e) ↦ rw e refl
]

bad_host-false :
    (host : String)
    → bad_host host ≡ false
    → (empty_text host ≡ false) × (len host ≤ 255) × (begins_with_hyphen (codes host) ≡ false)
bad_host-false host h = (ground arith, ground arith, ground arith)

tested_address :
    (o : Option (List ℕ))
    → address_test o ≡ some true
    → (inner : List ℕ) × (o ≡ some inner) × (is_ipv6 inner ≡ true)
tested_address none h = absurd (ground arith)
tested_address (some inner) h = (inner, refl, some-true (is_ipv6 inner) h)

-- An accepted host is a plain one.
pub validate_host-IsPlainHost : (host : String) → validate_host host ≡ ok tt → IsPlainHost host
validate_host-IsPlainHost host h =
    let (fine, kind) =
      host_result-ok (bad_host host) (address_test (bracketed (codes host)))
        (all is_name_char (codes host)) (sym (validate_host-eq host) ∙ h) in
    let (written, short, plain) = bad_host-false host fine in
    (
      written,
      short,
      plain,
      elim kind [
        | inl valid ↦
            let (inner, e, address) = tested_address (bracketed (codes host)) valid in
            subst (λ (s : List ℕ). all is_host_char s ≡ true)
              (sym (bracketed-append (codes host) inner e))
              (brackets-all inner (is_ipv6-all inner address))
        | inr (_, named) ↦ all_weaken is_name_char is_host_char (codes host) name-is_host named
      ],
    )

-- A user is accepted exactly when it is a text of 1 to 255 bytes of letters, digits, dots, hyphens and
-- underscores that does not begin with a hyphen.
pub validate_user_iff :
    (user : String)
    → (validate_user user ≡ ok tt) ↔ (
        (empty_text user ≡ false)
        × (len user ≤ 255)
        × (begins_with_hyphen (codes user) ≡ false)
        × (all is_name_char (codes user) ≡ true))
unfolding validate_user
validate_user_iff user = ground arith
