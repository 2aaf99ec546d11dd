-- ===== src/Transport/Address/Characters.antt =====
-- The characters of the addresses that are read for src/transport/mod.rs.
use styrn.Common.{
  ℕ, zero, suc, ◌+◌, ◌-◌, ◌==◌, ◌≡◌, refl, sym, ap, ◌∙◌, inl, inr, Bool, true, false, ◌||◌, Option,
  none, some, List, [], ◌∷◌, ◌++◌, all, Option-cases, Bool-cases, arith, if◌then◌else◌,
}
use mathlib.Core.List.{append_assoc, append-nil}
use mathlib.Core.Path.{subst}
use styrn.Common.Text.{is_digit}
use styrn.Common.Splitting.{all-append}
use styrn.Transport.Address.{
  Reader, ◌then_read◌, is_hex_digit, read_given, digits_of, behind_digits, read_octet, read_group,
  read_separator, read_ipv4, Groups, read_groups, read_tail, is_consumed, is_ipv6,
}

-- What a reader took is made of the characters of addresses.
abbrev pub is_address_char : ℕ → Bool
is_address_char c = is_hex_digit c || c == b':' || c == b'.'

abbrev pub Takes : List ℕ → List ℕ → Type 0
Takes s rest = (used : List ℕ) × (s ≡ used ++ rest) × (all is_address_char used ≡ true)

Takes-then : (s mid rest : List ℕ) → Takes s mid → Takes mid rest → Takes s rest
Takes-then s mid rest (used, e, fine) (more, f, fine') = (
  used ++ more,
  e ∙ ap (λ (t : List ℕ). used ++ t) f ∙ sym (append_assoc used more rest),
  rw (all-append is_address_char used more, fine) fine',
)

abbrev pub Reads : Reader → Type 0
Reads r = (s rest : List ℕ) → r s ≡ some rest → Takes s rest

then_read-Takes :
    (o : Option (List ℕ)) (next : Reader) (s rest : List ℕ)
    → ((mid : List ℕ) → o ≡ some mid → Takes s mid)
    → Reads next
    → (o then_read next) ≡ some rest
    → Takes s rest
then_read-Takes none next s rest first later h = absurd (ground arith)
then_read-Takes (some mid) next s rest first later h =
    Takes-then s mid rest (first mid refl) (later mid rest h)

read_given-Reads : (c : ℕ) → is_address_char c ≡ true → Reads (read_given c)
read_given-Reads c fine [] rest h = absurd (ground arith)
read_given-Reads c fine (d ∷ s) rest h = (d ∷ [], ground arith, ground arith)

digits_of-append : (p : ℕ → Bool) (s : List ℕ) → digits_of p s ++ behind_digits p s ≡ s
unfolding digits_of behind_digits
digits_of-append p [] = refl
digits_of-append p (c ∷ s) = ground (arith, digits_of-append p s)

digits_of-all :
    (p : ℕ → Bool) (s : List ℕ)
    → ((c : ℕ) → p c ≡ true → is_address_char c ≡ true)
    → all is_address_char (digits_of p s) ≡ true
unfolding digits_of
digits_of-all p [] h = refl
digits_of-all p (c ∷ s) h = ground (arith, digits_of-all p s h, h c)

digits-Takes :
    (p : ℕ → Bool) (s rest : List ℕ)
    → ((c : ℕ) → p c ≡ true → is_address_char c ≡ true)
    → behind_digits p s ≡ rest
    → Takes s rest
digits-Takes p s rest h e = (
  digits_of p s,
  sym (digits_of-append p s) ∙ ap (λ (t : List ℕ). digits_of p s ++ t) e,
  digits_of-all p s h,
)

read_octet-Reads : Reads read_octet
unfolding read_octet
read_octet-Reads s rest h = digits-Takes is_digit s rest (λ c d. ground arith) (ground arith)

read_group-Reads : Reads read_group
unfolding read_group
read_group-Reads s rest h = digits-Takes is_hex_digit s rest (λ c d. ground arith) (ground arith)

later_taken :
    (index : ℕ) (o : Option (List ℕ)) {p : Option (List ℕ)} {rest : List ℕ}
    → (if suc index == 0 then o else p) ≡ some rest
    → p ≡ some rest
later_taken index o h = ground arith

read_separator-Reads :
    (separator index : ℕ) (inner : Reader)
    → is_address_char separator ≡ true
    → Reads inner
    → Reads (read_separator separator index inner)
read_separator-Reads separator zero inner fine h s rest e = h s rest e
read_separator-Reads separator (suc index) inner fine h s rest e =
    then_read-Takes (read_given separator s) inner s rest (read_given-Reads separator fine s) h
      (later_taken index (inner s) e)

read_ipv4-Reads : Reads read_ipv4
unfolding read_ipv4
read_ipv4-Reads s rest h =
    let octet = λ (i : ℕ). read_separator-Reads b'.' i read_octet refl read_octet-Reads in
    then_read-Takes
      (read_octet s
        then_read read_separator b'.' 1 read_octet
        then_read read_separator b'.' 2 read_octet)
      (read_separator b'.' 3 read_octet) s rest
      (λ mid e.
        then_read-Takes (read_octet s then_read read_separator b'.' 1 read_octet)
          (read_separator b'.' 2 read_octet) s mid
          (λ mid' e'.
            then_read-Takes (read_octet s) (read_separator b'.' 1 read_octet) s mid'
              (read_octet-Reads s) (octet 1) e')
          (octet 2) e)
      (octet 3) h

Takes-none : (s : List ℕ) → Takes s s
Takes-none s = ([], refl, refl)

last_taken :
    (more : ℕ) {o : Option (List ℕ)} {rest : List ℕ}
    → (if more == 0 then none else o) ≡ some rest
    → o ≡ some rest
last_taken more h = ground arith

abbrev next_ipv4 : ℕ → ℕ → List ℕ → Option (List ℕ)
next_ipv4 index more s = if more == 0 then none else read_separator b':' index read_ipv4 s

groups_end : Groups → List ℕ
groups_end (size, has_ipv4, rest) = rest

-- The two choices of a round of the loop.
abbrev pick_group : ℕ → ℕ → List ℕ → Option (List ℕ) → Groups
pick_group index more s o = elim o [
  | some rest ↦ read_groups (index + 1) more rest
  | none ↦ (index, false, s)
]

abbrev pick_groups : ℕ → ℕ → List ℕ → Option (List ℕ) → Groups
pick_groups index more s o = elim o [
  | some rest ↦ (index + 2, true, rest)
  | none ↦ pick_group index more s (read_separator b':' index read_group s)
]

unfold_zero : (index : ℕ) (s : List ℕ) → Takes s (groups_end (read_groups index zero s))
unfolding read_groups groups_end
unfold_zero index s = Takes-none s

read_groups-ipv4 :
    (index more : ℕ) (s rest : List ℕ)
    → next_ipv4 index more s ≡ some rest
    → read_groups index (suc more) s ≡ (index + 2, true, rest)
unfolding read_groups
read_groups-ipv4 index more s rest e = ap (pick_groups index more s) e

read_groups-group :
    (index more : ℕ) (s rest : List ℕ)
    → next_ipv4 index more s ≡ none
    → read_separator b':' index read_group s ≡ some rest
    → read_groups index (suc more) s ≡ read_groups (index + 1) more rest
unfolding read_groups
read_groups-group index more s rest e f =
    ap (pick_groups index more s) e ∙ ap (pick_group index more s) f

read_groups-none :
    (index more : ℕ) (s : List ℕ)
    → next_ipv4 index more s ≡ none
    → read_separator b':' index read_group s ≡ none
    → read_groups index (suc more) s ≡ (index, false, s)
unfolding read_groups
read_groups-none index more s e f = ap (pick_groups index more s) e ∙ ap (pick_group index more s) f

read_groups-Takes : (index more : ℕ) (s : List ℕ) → Takes s (groups_end (read_groups index more s))
unfolding groups_end
read_groups-Takes index zero s = unfold_zero index s
read_groups-Takes index (suc more) s = elim (Option-cases (next_ipv4 index more s)) [
  | inr (rest, e) ↦
      rw (read_groups-ipv4 index more s rest e)
        (read_separator-Reads b':' index read_ipv4 refl read_ipv4-Reads s rest (last_taken more e))
  | inl e ↦ elim (Option-cases (read_separator b':' index read_group s)) [
    | inr (rest, f) ↦ rw (read_groups-group index more s rest e f) (
        Takes-then s rest (groups_end (read_groups (index + 1) more rest))
          (read_separator-Reads b':' index read_group refl read_group-Reads s rest f)
          (read_groups-Takes (index + 1) more rest))
    | inl f ↦ rw (read_groups-none index more s e f) (Takes-none s)
  ]
]

some-injective : {A : Type 0} {a b : A} → some a ≡ some b → a ≡ b
some-injective e = cc

tail-Takes :
    (s : List ℕ) (groups : Groups) (rest : List ℕ)
    → Takes s (groups_end groups)
    → read_tail groups ≡ some rest
    → Takes s rest
unfolding groups_end
tail-Takes s (size, has_ipv4, mid) rest taken h = elim (Bool-cases (size == 8)) [
  | inl full ↦ let same : mid ≡ rest = ground arith in subst (λ (t : List ℕ). Takes s t) same taken
  | inr short ↦ elim (Bool-cases has_ipv4) [
    | inl v4 ↦ absurd (ground arith)
    | inr v6 ↦
        let after = λ (r : List ℕ). some (groups_end (read_groups 0 (7 - size) r)) in
        let whole : (read_given b':' mid then_read read_given b':' then_read after) ≡ some rest =
          ground arith in
        Takes-then s mid rest taken (
          then_read-Takes (read_given b':' mid then_read read_given b':') after mid rest
            (λ r e.
              then_read-Takes (read_given b':' mid) (read_given b':') mid r
                (read_given-Reads b':' refl mid) (read_given-Reads b':' refl) e)
            (λ r last e.
              subst (λ (t : List ℕ). Takes r t) (some-injective e)
                (read_groups-Takes 0 (7 - size) r))
            whole)
  ]
]

consumed_rest : (o : Option (List ℕ)) → is_consumed o ≡ true → o ≡ some []
consumed_rest none h = absurd (ground arith)
consumed_rest (some []) h = refl
consumed_rest (some (c ∷ s)) h = absurd (ground arith)

-- An address is written with hexadecimal digits, colons and dots only.
pub is_ipv6-all : (s : List ℕ) → is_ipv6 s ≡ true → all is_address_char s ≡ true
unfolding is_ipv6
is_ipv6-all s h =
    let (used, e, fine) =
      tail-Takes s (read_groups 0 8 s) [] (read_groups-Takes 0 8 s)
        (consumed_rest (read_tail (read_groups 0 8 s)) h) in
    rw (e, append-nil) fine
