-- ===== src/Arithmetic/Divisors.antt =====
-- What gcd and lcm of lib/arithmetic.c compute, and that their loop ends.
use jrinx.Base.{
  ℕ, zero, suc, ◌+◌, ◌*◌, ◌%◌, ◌/◌, ◌^◌, ◌<◌, ◌≤◌, ◌≡◌, ◌≢◌, ◌↔◌, refl, ◌∙◌, ap, inl, inr, true,
  false, Bool-cases, not, ◌&&◌, some, ◌==◌, arith,
}
use jrinx.Base.Int.{ℤ, pos, negsuc, ◌+ℤ◌, ◌*ℤ◌}
use Prim.Native.Nat.{◌∣◌}
use mathlib.Core.Path.{subst}
use native.Mathlib.Nat.{
  dvd-mod_iff, dvd-zero, mod-zero, mod-lt, pos_of_dvd_of_pos, le_of_dvd, div-le_self,
  le-div_iff_mul-le, mul-le-mul, mul-div_assoc, dvd-mul_right, dvd_refl,
}
use jrinx.Arithmetic.{abs, rem, gcd_loop, gcd, lcm, quot, in_range, is_negative}

abs-rem : (a b : ℤ) → abs (rem a b) ≡ abs a % abs b
unfolding rem
abs-rem (pos a) b = omega arith
abs-rem (negsuc a) b = ground arith

-- The common divisors of the two are the divisors of `g`.
abbrev pub IsGcd : ℤ → ℤ → ℤ → Type 0
IsGcd a b g = (d : ℕ) → ((d ∣ abs g) ↔ ((d ∣ abs a) × (d ∣ abs b)))

abs_sum_left : (a b : ℤ) → abs a ≡ 0 → abs (a +ℤ b) ≡ abs b
unfolding ◌+ℤ◌
abs_sum_left a b h = ground arith

abs_sum_right : (a b : ℤ) → abs b ≡ 0 → abs (a +ℤ b) ≡ abs a
unfolding ◌+ℤ◌
abs_sum_right a b h = ground arith

abbrev pub NonNeg : ℤ → Type 0
NonNeg a = is_negative a ≡ false

rem-NonNeg : (a b : ℤ) → NonNeg a → NonNeg (rem a b)
unfolding rem
rem-NonNeg (pos a) b h = refl
rem-NonNeg (negsuc a) b h = cc

sum-NonNeg : (a b : ℤ) → NonNeg a → NonNeg b → NonNeg (a +ℤ b)
unfolding ◌+ℤ◌
sum-NonNeg (pos a) (pos b) h k = ground arith
sum-NonNeg (pos a) (negsuc b) h k = cc
sum-NonNeg (negsuc a) b h k = cc

NonNeg-pos : (a : ℤ) → NonNeg a → a ≡ pos (abs a)
NonNeg-pos (pos a) h = ap pos (omega arith)
NonNeg-pos (negsuc a) h = cc

abbrev Ends : ℕ → ℤ → ℤ → Type 0
Ends fuel a b =
    (ab : ℤ × ℤ) × (gcd_loop fuel a b ≡ some ab)
    × IsGcd a b (ab.0 +ℤ ab.1)
    × (NonNeg a → NonNeg b → NonNeg (ab.0 +ℤ ab.1))

-- One round keeps the common divisors.
common : (d x y : ℕ) → ((d ∣ x % y) × (d ∣ y % (x % y))) ↔ ((d ∣ x) × (d ∣ y))
common d x y = (
  λ h. let dy = (dvd-mod_iff d h.0).0 h.1 in ((dvd-mod_iff d dy).0 h.0, dy),
  λ h. let dx = (dvd-mod_iff d h.1).1 h.0 in (dx, (dvd-mod_iff d dx).1 h.1),
)

IsGcd-round : (a b g : ℤ) → IsGcd (rem a b) (rem b (rem a b)) g → IsGcd a b g
IsGcd-round a b g h d =
    let c = common d (abs a) (abs b) in
    let k : (d ∣ abs g) ↔ ((d ∣ abs a % abs b) × (d ∣ abs b % (abs a % abs b))) =
      rw (← abs-rem a b) (rw (← abs-rem b (rem a b)) (h d)) in
    (λ x. c.0 (k.0 x), λ x. k.1 (c.1 x))

IsGcd-first : (a b : ℤ) → abs (rem a b) ≡ 0 → IsGcd (rem a b) (rem b (rem a b)) (rem a b +ℤ b)
IsGcd-first a b e d =
    let g = abs_sum_left (rem a b) b e in
    let r : abs (rem b (rem a b)) ≡ abs b = abs-rem b (rem a b) ∙ rw e (mod-zero (abs b)) in
    rw (g, r, e) (λ x. (dvd-zero d, x), λ x. x.1)

IsGcd-second :
    (a b : ℤ)
    → abs (rem b (rem a b)) ≡ 0
    → IsGcd (rem a b) (rem b (rem a b)) (rem a b +ℤ rem b (rem a b))
IsGcd-second a b e d =
    let g = abs_sum_right (rem a b) (rem b (rem a b)) e in
    rw (g, e) (λ x. (x, dvd-zero d), λ x. x.0)

rounds_less :
    (fuel : ℕ) (a b : ℤ)
    → abs b ≢ 0
    → abs b < suc fuel
    → abs (rem a b) ≢ 0
    → abs (rem b (rem a b)) < fuel
rounds_less fuel a b nz lt nz' =
    let p : abs a % abs b < abs b = mod-lt (abs a) (omega arith) in
    let q : abs b % abs (rem a b) < abs (rem a b) = mod-lt (abs b) (omega arith) in
    let ra = abs-rem a b in let rb = abs-rem b (rem a b) in omega arith

gcd_loop_lem : (fuel : ℕ) (a b : ℤ) → abs b ≢ 0 → abs b < fuel → Ends fuel a b
unfolding gcd_loop
gcd_loop_lem zero a b nz lt = absurd (omega arith)
gcd_loop_lem (suc fuel) a b nz lt = elim (Bool-cases (abs (rem a b) == 0)) [
  | inl e ↦ (
    (rem a b, b),
    rw e refl,
    IsGcd-round a b (rem a b +ℤ b) (IsGcd-first a b (ground arith)),
    λ x y. sum-NonNeg (rem a b) b (rem-NonNeg a b x) y,
  )
  | inr e ↦ elim (Bool-cases (abs (rem b (rem a b)) == 0)) [
    | inl f ↦ (
      (rem a b, rem b (rem a b)),
      rw e (rw f refl),
      IsGcd-round a b (rem a b +ℤ rem b (rem a b)) (IsGcd-second a b (ground arith)),
      λ x y. sum-NonNeg (rem a b) (rem b (rem a b)) (rem-NonNeg a b x) (rem-NonNeg b (rem a b) y),
    )
    | inr f ↦
        let less : abs (rem b (rem a b)) < fuel = rounds_less fuel a b nz lt (ground arith) in
        let ih = gcd_loop_lem fuel (rem a b) (rem b (rem a b)) (ground arith) less in
        (
          ih.0,
          rw e (rw f ih.1),
          IsGcd-round a b (ih.0.0 +ℤ ih.0.1) ih.2,
          λ x y. ih.3 (rem-NonNeg a b x) (rem-NonNeg b (rem a b) y),
        )
  ]
]

-- The loop of gcd always ends. Gcd gives the number whose divisors are the common divisors of its
-- arguments, and it is not negative where they are not.
pub gcd_lem :
    (a b : ℤ) → (g : ℤ) × (gcd a b ≡ some g) × IsGcd a b g × (NonNeg a → NonNeg b → NonNeg g)
unfolding gcd
gcd_lem a b = elim (Bool-cases (abs b == 0)) [
  | inl e ↦
      let zero_b : abs b ≡ 0 = ground arith in
      let sum = abs_sum_right a b zero_b in
      (
        a +ℤ b,
        rw e refl,
        λ d. rw (sum, zero_b) (λ x. (x, dvd-zero d), λ x. x.0),
        λ x y. sum-NonNeg a b x y,
      )
  | inr e ↦
      let run = gcd_loop_lem (suc (abs b)) a b (ground arith) (omega arith) in
      (run.0.0 +ℤ run.0.1, rw e (rw run.1 refl), run.2, run.3)
]

-- The quotient by a common divisor is a multiple of both.
multiple :
    (g a b : ℕ)
    → 0 < a
    → 0 < b
    → g ∣ a
    → g ∣ b
    → (0 < g) × (0 < a * b / g) × (a ∣ a * b / g) × (b ∣ a * b / g)
multiple g a b pa pb ga gb =
    let pg = pos_of_dvd_of_pos ga pa in
    let le = le_of_dvd pb gb in
    let over_b = mul-div_assoc g a gb in
    let over_a : a * b / g ≡ b * (a / g) =
      ap (λ (t : ℕ). t / g) (omega arith) ∙ mul-div_assoc g b ga in
    (
      pg,
      (le-div_iff_mul-le pg).1 (mul-le-mul {n₁ = 1} {m₁ = g} {n₂ = a} {m₂ = b} pa le),
      rw over_b (dvd-mul_right a (b / g)),
      rw over_a (dvd-mul_right b (a / g)),
    )

mul_pos : (a b : ℕ) → pos a *ℤ pos b ≡ pos (a * b)
unfolding ◌*ℤ◌
mul_pos a b = ground arith

quot_pos : (x y : ℕ) → quot (pos x) (pos y) ≡ pos (x / y)
unfolding quot
quot_pos x y =
    ap pos (ap (λ (t : ℕ). t / (y + 0)) (omega arith) ∙ ap (λ (t : ℕ). x / t) (omega arith))

lcm_at :
    (a b g : ℕ)
    → gcd (pos a) (pos b) ≡ some (pos g)
    → 0 < g
    → a * b < 2 ^ 63
    → lcm (pos a) (pos b) ≡ some (pos (a * b / g))
unfolding lcm
lcm_at a b g e p fits =
    let ok : (in_range (pos (a * b)) && not (abs (pos g) == 0)) ≡ true = ground arith in
    rw (e, lcm) (rw (mul_pos a b) (rw ok (ap some (quot_pos (a * b) g))))

-- The least common multiple of two positive numbers is defined where their product is in the range
-- of the type, and is then a positive multiple of both, not larger than the product.
pub lcm_lem :
    (a b : ℕ)
    → 0 < a
    → 0 < b
    → a * b < 2 ^ 63
    → (l : ℕ) × (lcm (pos a) (pos b) ≡ some (pos l)) × (0 < l) × (a ∣ l) × (b ∣ l) × (l ≤ a * b)
lcm_lem a b pa pb fits =
    let (g, e, divides, non_neg) = gcd_lem (pos a) (pos b) in
    let g_pos = NonNeg-pos g (non_neg refl refl) in
    let both = (divides (abs g)).0 (dvd_refl (abs g)) in
    let za : a + 0 ≡ a = omega arith in
    let zb : b + 0 ≡ b = omega arith in
    let m =
      multiple (abs g) a b pa pb (subst (λ t. abs g ∣ t) za both.0)
        (subst (λ t. abs g ∣ t) zb both.1) in
    (
      a * b / abs g,
      lcm_at a b (abs g) (e ∙ ap some g_pos) m.0 fits,
      m.1,
      m.2,
      m.3,
      div-le_self (a * b) (abs g),
    )
