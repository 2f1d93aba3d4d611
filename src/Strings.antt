-- ===== src/Strings.antt =====
-- lib/string.c: numbers in texts. A text is the characters before the NUL.
use Prim.Native.Char.{code}
use Prim.Native.String.{String}
use jrinx.Base.{ℕ, ◌+◌, ◌-◌, ◌*◌, ◌%◌, ◌^◌, Bool, false, not, ◌||◌, ltb, ◌==◌, if◌then◌else◌}
use jrinx.Base.Int.{ℤ, pos, negsuc}
use jrinx.Circbuf.{word}

-- The second loop of `strtol`, on 64 bits.
unfoldable pub digits_from : ℕ → String → ℕ
digits_from res String.[] = res
digits_from res (String.◌∷◌ c s) = digits_from (word (res * 10 + code c + (2 ^ 64 - 48))) s

-- The first loop, over the signs, and the second.
unfoldable pub strtol : Bool → String → ℕ
strtol negative String.[] = 0
strtol negative (String.◌∷◌ c s) =
    let res = digits_from 0 (String.◌∷◌ c s) in
    let rest = strtol (if code c == 45 then not negative else negative) s in
    if code c == 45 || code c == 43 then rest else if negative then word (2 ^ 64 - res) else res

-- The cast to `int`.
abbrev pub int_of : ℕ → ℤ
int_of n = if ltb (n % 2 ^ 32) (2 ^ 31) then pos (n % 2 ^ 32) else negsuc (2 ^ 32 - 1 - n % 2 ^ 32)

unfoldable pub atoi : String → ℤ
atoi s = int_of (strtol false s)

-- The conversion of an `int` to `size_t`.
abbrev pub to_size : ℤ → ℕ
to_size (pos n) = n
to_size (negsuc n) = 2 ^ 64 - 1 - n
