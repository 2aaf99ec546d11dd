-- ===== src/Common/Keys.antt =====
-- A `HashSet` of keys that a loop fills, as the list of the keys so far.
use Prim.Native.String.{String}
use mathlib.Core.Path.{◌≡◌, refl}
use mathlib.Core.Logic.{◌≢◌, ◌↔◌}
use mathlib.Core.Bool.{Bool, false, ◌||◌}
use mathlib.Core.List.{List, [], ◌∷◌}
use text.Mathlib.Text.{◌==◌ as str_eq}
use text.Mathlib.TextEquality.{eq_iff}
use native.Mathlib.Omega.{arith}
use styrn.Common.Lists.{All}

-- `HashSet::insert` finds the key there.
unfoldable pub contains : String → List String → Bool
contains s [] = false
contains s (t ∷ ts) = str_eq t s || contains s ts

module _ {ℓ} {A : Type ℓ} (key : A → String) where
  -- No two elements have one key.
  abbrev pub Distinct : List A → Type 0
  Distinct [] = Unit
  Distinct (x ∷ xs) = All (λ y. key y ≢ key x) xs × Distinct xs

  -- No element has one of the keys.
  abbrev pub Fresh : List String → List A → Type 0
  Fresh keys xs = All (λ y. contains (key y) keys ≡ false) xs

  pub Fresh-cons :
      (s : String) (keys : List String) (xs : List A)
      → Fresh (s ∷ keys) xs ↔ (Fresh keys xs × All (λ y. key y ≢ s) xs)
  unfolding contains
  Fresh-cons s keys [] = (λ h. (tt, tt), λ h. tt)
  Fresh-cons s keys (x ∷ xs) = ground (arith, Fresh-cons s keys xs, eq_iff s (key x))

  pub Fresh-none : (xs : List A) → Fresh [] xs
  unfolding contains
  Fresh-none [] = tt
  Fresh-none (x ∷ xs) = (refl, Fresh-none xs)
