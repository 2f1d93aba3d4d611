-- ===== src/Bits.antt =====
-- include/bitset.h and include/bitmap.h: the lowest bit of a word, and bitmaps of 64-bit words.
pub mod Digits
pub mod Lowest
pub mod Bitmap
use Prim.Native.Nat.{bit_and, bit_or}
use jrinx.Base.{
  ℕ, zero, suc, ◌+◌, ◌-◌, ◌*◌, ◌/◌, ◌%◌, ◌^◌, Bool, Option, none, some, List, [], ◌∷◌, ◌++◌,
  get_elem?, set_elem, leb, ◌==◌, if◌then◌else◌,
}
use jrinx.Kernel.{◌>>=◌}

abbrev pub run : ℕ → ℕ → List ℕ → List ℕ
run zero x xs = xs
run (suc n) x xs = x ∷ run n x xs

-- The table of `ffs32`.
abbrev pub table : List ℕ
table = 0 ∷ run 1 1 (run 2 2 (run 4 3 (run 8 4 (run 16 5 (run 32 6 (run 64 7 (run 128 8 [])))))))

-- `ffs32` from `i & -i` on; `none` is a read outside the table.
unfoldable pub ffs_of : ℕ → Option ℕ
ffs_of j =
    let k =
      if leb j 0xffff then (if leb j 0xff then 0 else 8) else if leb j 0xffffff then 16 else 24 in
    do v ← get_elem? table (j / 2 ^ k); some (v + k)

-- `-i` in words of `w` bits.
abbrev pub negative : ℕ → ℕ → ℕ
negative w i = (2 ^ w - i) % 2 ^ w

unfoldable pub ffs32 : ℕ → Option ℕ
ffs32 i = ffs_of (bit_and i (negative 32 i))

unfoldable pub ffs64 : ℕ → Option ℕ
ffs64 i =
    if leb (bit_and i (negative 64 i)) 0xffffffff
    then ffs32 (i % 2 ^ 32)
    else do v ← ffs32 (i / 2 ^ 32); some (v + 32)

-- `~w`.
abbrev pub complement : ℕ → ℕ
complement w = 2 ^ 64 - 1 - w

-- Bit `i` set, cleared and read; `none` is an access behind the bitmap.
unfoldable pub bitmap_set_bit : ℕ → List ℕ → Option (List ℕ)
bitmap_set_bit i ws = do
  w ← get_elem? ws (i / 64)
  some (set_elem (i / 64) (bit_or w (2 ^ (i % 64))) ws)

unfoldable pub bitmap_clr_bit : ℕ → List ℕ → Option (List ℕ)
bitmap_clr_bit i ws = do
  w ← get_elem? ws (i / 64)
  some (set_elem (i / 64) (bit_and w (complement (2 ^ (i % 64)))) ws)

unfoldable pub bitmap_get_bit : ℕ → List ℕ → Option Bool
bitmap_get_bit i ws = do
  w ← get_elem? ws (i / 64)
  some (if bit_and w (2 ^ (i % 64)) == 0 then Bool.false else Bool.true)

-- The search from word `i` on. Behind the last word the code reads one more: `none`.
unfoldable pub first_zero_from : ℕ → List ℕ → Option ℕ
first_zero_from i [] = none
first_zero_from i (w ∷ ws) =
    let rest = first_zero_from (suc i) ws in
    if complement w == 0 then rest else do
      j ← ffs64 (complement w)
      some (if j == 0 then 2 ^ 32 - 1 else (i * 64 + (j - 1)) % 2 ^ 32)

unfoldable pub bitmap_find_first_zero_bit : List ℕ → Option ℕ
bitmap_find_first_zero_bit ws = first_zero_from 0 ws
