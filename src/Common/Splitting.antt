-- ===== src/Common/Splitting.antt =====
-- `str::split` at one character, and the texts that it splits.
use styrn.Common.{
  ℕ, ◌==◌, ◌≡◌, refl, ◌∙◌, inl, inr, Bool, true, false, not, ◌&&◌, Option, none, some, List, [],
  ◌∷◌, ◌++◌, all, any, is_empty, Bool-cases, arith,
}
use mathlib.Core.List.{append_assoc, append-nil}
use styrn.Common.Text.{split}
use styrn.Common.Chars.{last_char, ends_with}

-- Every part behind the character.
unfoldable pub separated : ℕ → List (List ℕ) → List ℕ
separated d [] = []
separated d (part ∷ parts) = (d ∷ part) ++ separated d parts

abbrev pub is_not : ℕ → ℕ → Bool
is_not d c = not (c == d)

-- The first part, and the others behind the character.
abbrev pub glued : ℕ → List (List ℕ) → List ℕ
glued d [] = []
glued d (part ∷ parts) = part ++ separated d parts

pub split-cons :
    (d : ℕ) (s : List ℕ) → (first : List ℕ) × (rest : List (List ℕ)) × (split d s ≡ first ∷ rest)
unfolding split
split-cons d [] = ([], [], refl)
split-cons d (c ∷ s) =
    let (first, rest, e) = split-cons d s in
    elim (Bool-cases (c == d)) [
      | inl at ↦ ([], split d s, rw at refl)
      | inr off ↦ (c ∷ first, rest, rw (off, e) refl)
    ]

pub glued-split : (d : ℕ) (s : List ℕ) → glued d (split d s) ≡ s
unfolding split separated
glued-split d [] = refl
glued-split d (c ∷ s) = let (first, rest, e) = split-cons d s in ground (arith, glued-split d s, e)

pub split-is_not : (d : ℕ) (s : List ℕ) → all (all (is_not d)) (split d s) ≡ true
unfolding split
split-is_not d [] = refl
split-is_not d (c ∷ s) =
    let (first, rest, e) = split-cons d s in ground (arith, split-is_not d s, e)

split-append :
    (d : ℕ) (part s first : List ℕ) (rest : List (List ℕ))
    → all (is_not d) part ≡ true
    → split d s ≡ first ∷ rest
    → split d (part ++ s) ≡ (part ++ first) ∷ rest
unfolding split
split-append d [] s first rest h e = e
split-append d (c ∷ part) s first rest h e = ground (arith, split-append d part s first rest)

-- The parts that lack the character are found again.
pub split-glued :
    (d : ℕ) (first : List ℕ) (rest : List (List ℕ))
    → all (all (is_not d)) (first ∷ rest) ≡ true
    → split d (first ++ separated d rest) ≡ first ∷ rest
unfolding separated split
split-glued d first [] h = split-append d first [] [] [] (ground arith) refl ∙ rw append-nil
split-glued d first (next ∷ rest) h =
    let later = split-glued d next rest (ground arith) in
    split-append d first (d ∷ (next ++ separated d rest)) [] (next ∷ rest) (ground arith)
      (ground (arith, later))
    ∙ rw append-nil

pub all-append : (p : ℕ → Bool) (s t : List ℕ) → all p (s ++ t) ≡ (all p s && all p t)
all-append p [] t = refl
all-append p (c ∷ s) t = ground (arith, all-append p s t)

pub any-not-all {ℓ} :
    {A : Type ℓ} (p : A → Bool) (s : List A) → any p s ≡ not (all (λ (c : A). not (p c)) s)
any-not-all p [] = refl
any-not-all p (c ∷ s) = ground (arith, any-not-all p s)

pub all-and {ℓ} :
    {A : Type ℓ} (p q : A → Bool) (xs : List A)
    → all (λ (x : A). p x && q x) xs ≡ (all p xs && all q xs)
all-and p q [] = refl
all-and p q (x ∷ xs) = ground (arith, all-and p q xs)

-- A test that the character passes holds of all the text where it holds of the parts.
pub all-separated :
    (p : ℕ → Bool) (d : ℕ) (parts : List (List ℕ))
    → p d ≡ true
    → all p (separated d parts) ≡ all (all p) parts
unfolding separated
all-separated p d [] h = refl
all-separated p d (part ∷ parts) h =
    ground (arith, all-append p part (separated d parts), all-separated p d parts h)

pub last_char-append :
    (before : Option ℕ) (s t : List ℕ)
    → last_char before (s ++ t) ≡ last_char (last_char before s) t
unfolding last_char
last_char-append before [] t = refl
last_char-append before (c ∷ s) t = last_char-append (some c) s t

pub last_char-all :
    (p : ℕ → Bool) (before c : ℕ) (s : List ℕ)
    → all p (c ∷ s) ≡ true
    → (e : ℕ) × (last_char (some before) (c ∷ s) ≡ some e) × (p e ≡ true)
unfolding last_char
last_char-all p before c [] h = (c, refl, ground arith)
last_char-all p before c (e ∷ s) h = last_char-all p c e s (ground arith)

-- A part that is not empty and lacks the character.
abbrev pub is_part : ℕ → List ℕ → Bool
is_part d part = not (is_empty part) && all (is_not d) part

-- The text ends with the last character of its last part.
pub last-separated :
    (d : ℕ) (before : Option ℕ) (first : List ℕ) (rest : List (List ℕ))
    → all (is_part d) (first ∷ rest) ≡ true
    → (e : ℕ) × (last_char before (separated d (first ∷ rest)) ≡ some e) × (is_not d e ≡ true)
unfolding separated last_char
last-separated d before [] rest h = absurd (ground arith)
last-separated d before (c ∷ part) [] h =
    rw append-nil (last_char-all (is_not d) d c part (ground arith))
last-separated d before (c ∷ part) (next ∷ rest) h =
    let (e, last, off) = last-separated d (last_char (some c) part) next rest (ground arith) in
    (e, last_char-append (some c) part (separated d (next ∷ rest)) ∙ last, off)

pub ends_with-separated :
    (d : ℕ) (first : List ℕ) (rest : List (List ℕ))
    → all (is_part d) (first ∷ rest) ≡ true
    → ends_with d (separated d (first ∷ rest)) ≡ false
unfolding ends_with
ends_with-separated d first rest h =
    let (e, last, off) = last-separated d none first rest h in ground (arith, last)

pub all-snoc {ℓ} :
    {A : Type ℓ} (p : A → Bool) (xs : List A) (x : A)
    → all p xs ≡ true
    → p x ≡ true
    → all p (xs ++ x ∷ []) ≡ true
all-snoc p [] x h g = ground arith
all-snoc p (y ∷ xs) x h g = ground (arith, all-snoc p xs x)

pub separated-snoc :
    (d : ℕ) (parts : List (List ℕ)) (leaf : List ℕ)
    → separated d (parts ++ leaf ∷ []) ≡ separated d parts ++ (d ∷ leaf)
unfolding separated
separated-snoc d [] leaf = rw append-nil refl
separated-snoc d (part ∷ parts) leaf = simp (separated-snoc d parts leaf, append_assoc)
