-- ===== src/Common/Errors.antt =====
-- Fallible code: Rust's `Result`, the `?` operator as bind, and `Option::ok_or`.
use mathlib.Core.Path.{◌≡◌, refl}
use mathlib.Core.Logic.{◌⊎◌, ◌↔◌, inl, inr}
use mathlib.Core.Bool.{Bool, true, false}
use mathlib.Core.Option.{Option, none, some}
use native.Mathlib.Omega.{arith}

pub data Result {ℓ κ} (E : Type ℓ) (A : Type κ) : Type (ℓ ⊔ κ) where
  ok : A → Result E A
  err : E → Result E A

infixl 5 ◌>>=◌ ◌>>◌
abbrev pub ◌>>=◌ {ℓ κ μ} :
    {E : Type ℓ} {A : Type κ} {B : Type μ} → Result E A → (A → Result E B) → Result E B
ok a >>= f = f a
err e >>= f = err e

abbrev pub ◌>>◌ {ℓ κ} : {E : Type ℓ} {B : Type κ} → Result E (Unit {0}) → Result E B → Result E B
err e >> later = err e
ok _ >> later = later

-- `ok_or_else(|| e)` on an optional value.
abbrev pub ok_or {ℓ κ} : {E : Type ℓ} {A : Type κ} → Option A → E → Result E A
ok_or none e = err e
ok_or (some a) e = ok a

-- `if bad { return Err(e) }`.
abbrev pub refuse_if {ℓ} : {E : Type ℓ} → Bool → E → Result E (Unit {0})
refuse_if true e = err e
refuse_if false e = ok tt

-- `Option::filter`.
abbrev pub filter_by {ℓ} : {A : Type ℓ} → (A → Bool) → Option A → Option A
filter_by p none = none
filter_by p (some a) = elim (p a) [ true ↦ some a | false ↦ none ]

module _ {ℓ κ μ} {E : Type ℓ} {A : Type κ} {B : Type μ} where
  -- What a successful chain went through.
  pub >>=-eq-ok :
      (first : Result E A) (next : A → Result E B) {last : B}
      → (first >>= next) ≡ ok last
      → (mid : A) × (first ≡ ok mid) × (next mid ≡ ok last)
  >>=-eq-ok (err e) next failed = cc
  >>=-eq-ok (ok mid) next passed = (mid, refl, passed)

-- A split on a computed check that keeps the equation.
pub Result-cases {ℓ} :
    {E : Type ℓ} (r : Result E (Unit {0})) → (r ≡ ok tt) ⊎ ((e : E) × (r ≡ err e))
Result-cases (ok passed) = inl refl
Result-cases (err e) = inr (e, refl)

module _ {ℓ κ} {E : Type ℓ} {A : Type κ} where
  pub ok_or-eq-ok : (o : Option A) (e : E) {a : A} → ok_or o e ≡ ok a → o ≡ some a
  ok_or-eq-ok none e h = cc
  ok_or-eq-ok (some a) e h = cc

  pub refuse_if-eq-ok :
      (b : Bool) (e : E) (k : Result E A) {a : A}
      → (refuse_if b e >> k) ≡ ok a
      → (b ≡ false) × (k ≡ ok a)
  refuse_if-eq-ok true e k h = cc
  refuse_if-eq-ok false e k h = (refl, h)

pub filter_by-eq-some {ℓ} :
    {A : Type ℓ} (p : A → Bool) (o : Option A) {a : A}
    → filter_by p o ≡ some a
    → (o ≡ some a) × (p a ≡ true)
filter_by-eq-some p o h = ground arith

then_iff {ℓ κ μ} :
    {E : Type ℓ} {P : Type κ} {Q : Type μ} (first rest : Result E (Unit {0}))
    → (first ≡ ok tt) ↔ P
    → (rest ≡ ok tt) ↔ Q
    → ((first >> rest) ≡ ok tt) ↔ (P × Q)
then_iff (ok tt) rest p q = (λ h. (p.0 refl, q.0 h), λ (_, y). q.1 y)
then_iff (err e) rest p q = (λ h. absurd (ground arith), λ (x, _). absurd (ground (arith, p.1 x)))

-- A chain passes exactly when its first check and the rest pass.
pub >>-iff {ℓ κ μ} :
    {E : Type ℓ} {P : Type κ} {Q : Type μ} {first rest : Result E (Unit {0})}
    → (first ≡ ok tt) ↔ P
    → (rest ≡ ok tt) ↔ Q
    → ((first >> rest) ≡ ok tt) ↔ (P × Q)
>>-iff {first = first} {rest = rest} p q = then_iff first rest p q

pub refuse_if_iff {ℓ} : {E : Type ℓ} (b : Bool) (e : E) → (refuse_if b e ≡ ok tt) ↔ (b ≡ false)
refuse_if_iff b e = ground arith

-- What a chain that succeeded went through.
pub >>-eq-ok {ℓ κ} :
    {E : Type ℓ} {A : Type κ} (first : Result E (Unit {0})) (rest : Result E A) {a : A}
    → (first >> rest) ≡ ok a
    → (first ≡ ok tt) × (rest ≡ ok a)
>>-eq-ok (ok tt) rest h = (refl, h)
>>-eq-ok (err e) rest h = cc
