-- ===== src/Arithmetic.antt =====
-- lib/arithmetic.c: greatest common divisors and least common multiples of `intmax_t`.
pub mod Divisors
use jrinx.Base.{
  ℕ, zero, suc, ◌+◌, ◌%◌, ◌/◌, ◌^◌, Bool, true, false, not, ◌&&◌, Option, none, some, ltb, leb,
  ◌==◌, if◌then◌else◌,
}
use jrinx.Base.Int.{ℤ, pos, negsuc, pos_part, neg_part, sub_ℕ, ◌+ℤ◌, ◌*ℤ◌}
use jrinx.Kernel.{◌>>=◌}

abbrev pub abs : ℤ → ℕ
abs a = pos_part a + neg_part a

-- A value of a sign and a size.
abbrev pub signed : Bool → ℕ → ℤ
signed negative n = if negative then sub_ℕ 0 n else pos n

abbrev pub is_negative : ℤ → Bool
is_negative (pos n) = false
is_negative (negsuc n) = true

-- `a % b` of C has the sign of `a`, and `a / b` is rounded towards zero.
unfoldable pub rem : ℤ → ℤ → ℤ
rem a b = signed (is_negative a) (abs a % abs b)

unfoldable pub quot : ℤ → ℤ → ℤ
quot a b = signed (if is_negative a then not (is_negative b) else is_negative b) (abs a / abs b)

-- `while ((a %= b) && (b %= a)) {}`: the variables at its end, `none` without fuel.
unfoldable pub gcd_loop : ℕ → ℤ → ℤ → Option (ℤ × ℤ)
gcd_loop zero a b = none
gcd_loop (suc fuel) a b =
    let a' = rem a b in
    let b' = rem b a' in
    let rest = gcd_loop fuel a' b' in
    if abs a' == 0 then some (a', b) else if abs b' == 0 then some (a', b') else rest

-- Each round makes `b` smaller: as many rounds as `b` is large, and one, are enough.
unfoldable pub gcd : ℤ → ℤ → Option ℤ
gcd a b =
    if abs b == 0 then some (a +ℤ b) else do ab ← gcd_loop (suc (abs b)) a b; some (ab.0 +ℤ ab.1)

-- `INTMAX_MIN <= a && a <= INTMAX_MAX`.
abbrev pub in_range : ℤ → Bool
in_range a = ltb (pos_part a) (2 ^ 63) && leb (neg_part a) (2 ^ 63)

-- `none`: the product overflows, which C leaves undefined, or the divisor is 0.
unfoldable pub lcm : ℤ → ℤ → Option ℤ
lcm a b = do
  g ← gcd a b
  if in_range (a *ℤ b) && not (abs g == 0) then some (quot (a *ℤ b) g) else none
