-- ===== src/Bits/Digits.antt =====
-- The binary digits of words, and `&`, `|` by digits.
use Prim.Native.Nat.{min, max, bit_and, bit_or, digits, bit_and-bitwise, bit_or-bitwise}
use native.Mathlib.Nat.{div-div-eq-div-mul}
use jrinx.Base.{
  ℕ, zero, suc, ◌+◌, ◌-◌, ◌*◌, ◌/◌, ◌%◌, ◌^◌, ◌≤◌, ◌<◌, ◌≡◌, ◌≢◌, refl, sym, ap, ◌∙◌, arith,
}

-- The digit at a place.
abbrev pub digit : ℕ → ℕ → ℕ
digit a zero = a % 2
digit a (suc j) = digit (a / 2) j

module _ (z : ℕ → ℕ) (f : ℕ → ℕ → ℕ) where
  -- More steps than the first number has digits make no difference.
  digits-enough : (n m a b : ℕ) → a ≤ n → a ≤ m → digits z f n a b ≡ digits z f m a b
  digits-enough zero zero a b p q = refl
  digits-enough zero (suc m) zero b p q = refl
  digits-enough (suc n) zero zero b p q = refl
  digits-enough (suc n) (suc m) zero b p q = refl
  digits-enough zero m (suc a) b p q = absurd (omega arith)
  digits-enough (suc n) zero (suc a) b p q = absurd (omega arith)
  digits-enough (suc n) (suc m) (suc a) b p q =
      ap (λ d. d * 2 + f (suc a % 2) (b % 2))
        (digits-enough n m (suc a / 2) (b / 2) (omega arith) (omega arith))

  digits-step :
      (a b : ℕ)
      → digits z f (suc a) (suc a) b
        ≡ digits z f (suc a / 2) (suc a / 2) (b / 2) * 2 + f (suc a % 2) (b % 2)
  digits-step a b =
      ap (λ d. d * 2 + f (suc a % 2) (b % 2))
        (digits-enough a (suc a / 2) (suc a / 2) (b / 2) (omega arith) (omega arith))

pub bit_and-step : (a b : ℕ) → bit_and a b ≡ bit_and (a / 2) (b / 2) * 2 + min (a % 2) (b % 2)
bit_and-step zero b = omega (arith, bit_and-bitwise 0 b, bit_and-bitwise 0 (b / 2))
bit_and-step (suc a) b =
    bit_and-bitwise (suc a) b
    ∙ digits-step (λ x. 0) min a b
    ∙ ap (λ x. x * 2 + min (suc a % 2) (b % 2)) (sym (bit_and-bitwise (suc a / 2) (b / 2)))

pub bit_or-step : (a b : ℕ) → bit_or a b ≡ bit_or (a / 2) (b / 2) * 2 + max (a % 2) (b % 2)
bit_or-step zero b = omega (arith, bit_or-bitwise 0 b, bit_or-bitwise 0 (b / 2))
bit_or-step (suc a) b =
    bit_or-bitwise (suc a) b
    ∙ digits-step (λ x. x) max a b
    ∙ ap (λ x. x * 2 + max (suc a % 2) (b % 2)) (sym (bit_or-bitwise (suc a / 2) (b / 2)))

pub digit-bit_and : (a b j : ℕ) → digit (bit_and a b) j ≡ min (digit a j) (digit b j)
digit-bit_and a b zero = omega (arith, bit_and-step a b)
digit-bit_and a b (suc j) =
    let half : bit_and a b / 2 ≡ bit_and (a / 2) (b / 2) = omega (arith, bit_and-step a b) in
    ap (λ x. digit x j) half ∙ digit-bit_and (a / 2) (b / 2) j

pub digit-bit_or : (a b j : ℕ) → digit (bit_or a b) j ≡ max (digit a j) (digit b j)
digit-bit_or a b zero = omega (arith, bit_or-step a b)
digit-bit_or a b (suc j) =
    let half : bit_or a b / 2 ≡ bit_or (a / 2) (b / 2) = omega (arith, bit_or-step a b) in
    ap (λ x. digit x j) half ∙ digit-bit_or (a / 2) (b / 2) j

pub digit-bound : (a j : ℕ) → digit a j < 2
digit-bound a zero = omega arith
digit-bound a (suc j) = digit-bound (a / 2) j

pub digit-zero : (j : ℕ) → digit 0 j ≡ 0
digit-zero zero = refl
digit-zero (suc j) = digit-zero j

-- The digits of a power, and of a complement.
pub digit-power_self : (k : ℕ) → digit (2 ^ k) k ≡ 1
digit-power_self zero = refl
digit-power_self (suc k) =
    let half : 2 ^ suc k / 2 ≡ 2 ^ k = omega arith in ap (λ x. digit x k) half ∙ digit-power_self k

pub digit-power_other : (k j : ℕ) → j ≢ k → digit (2 ^ k) j ≡ 0
digit-power_other zero zero h = absurd (h refl)
digit-power_other zero (suc j) h = digit-zero j
digit-power_other (suc k) zero h = omega arith
digit-power_other (suc k) (suc j) h =
    let half : 2 ^ suc k / 2 ≡ 2 ^ k = omega arith in
    ap (λ x. digit x j) half ∙ digit-power_other k j (λ e. h (ap suc e))

pub digit-complement : (w a j : ℕ) → a < 2 ^ w → j < w → digit (2 ^ w - 1 - a) j ≡ 1 - digit a j
digit-complement zero a j h k = absurd (omega arith)
digit-complement (suc w) a zero h k = omega arith
digit-complement (suc w) a (suc j) h k =
    let power : 2 ^ suc w ≡ 2 * 2 ^ w = omega arith in
    let half : (2 ^ suc w - 1 - a) / 2 ≡ 2 ^ w - 1 - a / 2 = omega (arith, power, h) in
    ap (λ x. digit x j) half
    ∙ digit-complement w (a / 2) j (omega (arith, power, h)) (omega (arith, k))

-- The low part of a number keeps its digits, and the high part has the others.
power_up : (w q : ℕ) → q * 2 ^ suc w ≡ 2 * (q * 2 ^ w)
power_up w q = grind arith

pub digit-low : (w q r j : ℕ) → r < 2 ^ w → j < w → digit (q * 2 ^ w + r) j ≡ digit r j
digit-low zero q r j h k = absurd (omega arith)
digit-low (suc w) q r zero h k = let power = power_up w q in omega (arith, power)
digit-low (suc w) q r (suc j) h k =
    let power = power_up w q in
    let half : (q * 2 ^ suc w + r) / 2 ≡ q * 2 ^ w + r / 2 = omega (arith, power) in
    ap (λ x. digit x j) half ∙ digit-low w q (r / 2) j (omega (arith, h)) (omega (arith, k))

pub digit-high : (n a j m : ℕ) → m ≡ n + j → digit a m ≡ digit (a / 2 ^ n) j
digit-high zero a j m e =
    let same : a / 2 ^ 0 ≡ a = omega arith in
    let at_j : m ≡ j = omega (arith, e) in ap (digit a) at_j ∙ ap (λ x. digit x j) (sym same)
digit-high (suc n) a j zero e = absurd (omega (arith, e))
digit-high (suc n) a j (suc m) e =
    digit-high n (a / 2) j m (omega (arith, e))
    ∙ ap (λ x. digit x j) (div-div-eq-div-mul a 2 (2 ^ n) ∙ ap (λ p. a / p) (omega arith))
