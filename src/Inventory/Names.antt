-- ===== src/Inventory/Names.antt =====
-- `str::cmp` on names: the order of the bytes, which is that of the code points.
use styrn.Common.{
  ℕ, ◌==◌, ◌≡◌, ◌≢◌, refl, Bool, true, false, ◌&&◌, ◌||◌, List, [], ◌∷◌, ltb, String, arith,
}
use styrn.Common.Text.{codes}

unfoldable pub codes_lt : List ℕ → List ℕ → Bool
codes_lt [] [] = false
codes_lt [] (d ∷ t) = true
codes_lt (c ∷ s) [] = false
codes_lt (c ∷ s) (d ∷ t) = ltb c d || c == d && codes_lt s t

abbrev pub name_lt : String → String → Bool
name_lt a b = codes_lt (codes a) (codes b)

pub codes_lt_irrefl : (s : List ℕ) → codes_lt s s ≡ false
unfolding codes_lt
codes_lt_irrefl [] = refl
codes_lt_irrefl (c ∷ s) = ground (arith, codes_lt_irrefl s)

pub codes_lt_trans :
    (s t u : List ℕ) → codes_lt s t ≡ true → codes_lt t u ≡ true → codes_lt s u ≡ true
unfolding codes_lt
codes_lt_trans [] [] u h g = absurd (ground arith)
codes_lt_trans [] (d ∷ t) [] h g = absurd (ground arith)
codes_lt_trans [] (d ∷ t) (e ∷ u) h g = refl
codes_lt_trans (c ∷ s) [] u h g = absurd (ground arith)
codes_lt_trans (c ∷ s) (d ∷ t) [] h g = absurd (ground arith)
codes_lt_trans (c ∷ s) (d ∷ t) (e ∷ u) h g = ground (arith, codes_lt_trans s t u)

pub codes_lt_total : (s t : List ℕ) → codes_lt s t ≡ false → s ≢ t → codes_lt t s ≡ true
unfolding codes_lt
codes_lt_total [] [] h differ = absurd (differ refl)
codes_lt_total [] (d ∷ t) h differ = absurd (ground arith)
codes_lt_total (c ∷ s) [] h differ = refl
codes_lt_total (c ∷ s) (d ∷ t) h differ = ground (arith, codes_lt_total s t)
