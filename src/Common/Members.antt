-- ===== src/Common/Members.antt =====
-- The members of a list that a Boolean test or a predicate picks.
use styrn.Common.{◌≡◌, refl, sym, inl, inr, Bool, true, List, [], ◌∷◌, any, All, arith, Bool-cases}
use mathlib.Core.List.{Memᴰ}
use mathlib.Core.Path.{subst}

module _ {ℓ} {A : Type ℓ} (p : A → Bool) where
  pub any-Memᴰ : (xs : List A) → any p xs ≡ true → (x : A) × Memᴰ x xs × (p x ≡ true)
  any-Memᴰ [] h = absurd (ground arith)
  any-Memᴰ (x ∷ xs) h = elim (Bool-cases (p x)) [
    | inl here ↦ (x, Memᴰ.head refl, here)
    | inr later ↦
        let (y, member, holds) = any-Memᴰ xs (ground arith) in (y, Memᴰ.tail member, holds)
  ]

  pub any_of_Memᴰ : {x : A} {xs : List A} → Memᴰ x xs → p x ≡ true → any p xs ≡ true
  any_of_Memᴰ (Memᴰ.head e) h = ground arith
  any_of_Memᴰ (Memᴰ.tail member) h = ground (arith, any_of_Memᴰ member h)

pub All-Memᴰ {ℓ κ} :
    {A : Type ℓ} (P : A → Type κ) {x : A} {xs : List A} → Memᴰ x xs → All P xs → P x
All-Memᴰ P (Memᴰ.head e) h = subst P (sym e) h.0
All-Memᴰ P (Memᴰ.tail member) h = All-Memᴰ P member h.1
