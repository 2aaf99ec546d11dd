-- ===== src/Common/Utf8.antt =====
-- `str::from_utf8`: which byte sequences are UTF-8.
use Prim.Native.Nat.{ℕ, zero, suc}
use mathlib.Core.Bool.{Bool, true, false, ◌&&◌}
use mathlib.Core.List.{List, [], ◌∷◌}
use styrn.Common.Tests.{ltb, ◌==◌, if◌then◌else◌}
use styrn.Common.Text.{in_range}

-- What the first byte of a character asks for: how many bytes follow, and the range of the next.
pub data Lead : Type 0 where
  malformed : Lead
  follow : (count lo hi : ℕ) → Lead

abbrev pub lead : ℕ → Lead
lead b =
    if ltb b 0x80
    then follow 0 0x80 0xbf
    else if in_range 0xc2 0xdf b
    then follow 1 0x80 0xbf
    else if b == 0xe0
    then follow 2 0xa0 0xbf
    else if b == 0xed
    then follow 2 0x80 0x9f
    else if in_range 0xe1 0xef b
    then follow 2 0x80 0xbf
    else if b == 0xf0
    then follow 3 0x90 0xbf
    else if in_range 0xf1 0xf3 b
    then follow 3 0x80 0xbf
    else if b == 0xf4
    then follow 3 0x80 0x8f
    else malformed

-- `count` bytes of the current character are still to come, the next one in `lo` to `hi`.
utf8_from : ℕ → ℕ → ℕ → List ℕ → Bool
utf8_from zero lo hi [] = true
utf8_from (suc count) lo hi [] = false
utf8_from zero lo hi (b ∷ bs) = elim (lead b) [
  | malformed ↦ false
  | follow count next_lo next_hi ↦ utf8_from count next_lo next_hi bs
]
utf8_from (suc count) lo hi (b ∷ bs) = in_range lo hi b && utf8_from count 0x80 0xbf bs

unfoldable pub is_utf8 : List ℕ → Bool
unfolding utf8_from
is_utf8 bytes = utf8_from 0 0x80 0xbf bytes
