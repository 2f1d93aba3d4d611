-- ===== src/Bits/Lowest.antt =====
-- `ffs64` (include/bitset.h) gives the lowest bit of a word.
use Prim.Native.Nat.{bit_and}
use native.Mathlib.Nat.{mod-eq_of_lt}
use jrinx.Base.{
  ℕ, zero, suc, ◌+◌, ◌-◌, ◌*◌, ◌/◌, ◌%◌, ◌^◌, ◌≤◌, ◌<◌, ◌≡◌, refl, sym, ap, ◌∙◌, inl, inr, Bool,
  Bool-cases, true, false, ◌&&◌, Option, none, some, ltb, leb, ◌==◌, ==_iff, arith,
}
use jrinx.Bits.{ffs_of, negative, ffs32, ffs64}
use jrinx.Bits.Digits.{digit, digit-zero, digit-low, digit-high, bit_and-step}

-- The lowest digit that is 1 is at place `k`.
abbrev pub IsLowest : ℕ → ℕ → Type 0
IsLowest a k = (digit a k ≡ 1) × ((j : ℕ) → j < k → digit a j ≡ 0)

-- Every number that is not 0 has one.
pub lowest : (w a : ℕ) → 0 < a → a < 2 ^ w → (k : ℕ) × (k < w) × IsLowest a k
lowest zero a pos bound = absurd (omega (arith, bound))
lowest (suc w) a pos bound = elim (Bool-cases (a % 2 == 1)) [
  | inl odd ↦ (0, omega arith, ((==_iff (a % 2) 1).0 odd, λ j h. absurd (omega (arith, h))))
  | inr even ↦
      let power : 2 ^ suc w ≡ 2 * 2 ^ w = omega arith in
      let zero_digit : a % 2 ≡ 0 = ground (arith, even) in
      let (k, below, is_lowest) =
        lowest w (a / 2) (omega (arith, zero_digit, pos)) (omega (arith, power, bound)) in
      (suc k, omega (arith, below), (is_lowest.0, λ j h. below_suc a k zero_digit is_lowest.1 j h))
]
  where
    below_suc :
        (a k : ℕ)
        → a % 2 ≡ 0
        → ((j : ℕ) → j < k → digit (a / 2) j ≡ 0)
        → (j : ℕ) → j < suc k
        → digit a j ≡ 0
    below_suc a k first rest zero h = first
    below_suc a k first rest (suc j) h = rest j (omega (arith, h))

-- A number and its complement have no bit in common.
bit_and-complement : (w a : ℕ) → a < 2 ^ w → bit_and a (2 ^ w - 1 - a) ≡ 0
bit_and-complement zero a h =
    let none_left : a ≡ 0 = omega (arith, h) in ap (λ x. bit_and x (2 ^ 0 - 1 - x)) none_left
bit_and-complement (suc w) a h =
    let power : 2 ^ suc w ≡ 2 * 2 ^ w = omega arith in
    let half : (2 ^ suc w - 1 - a) / 2 ≡ 2 ^ w - 1 - a / 2 = omega (arith, power, h) in
    let rest = ap (bit_and (a / 2)) half ∙ bit_and-complement w (a / 2) (omega (arith, power, h)) in
    omega (arith, power, h, bit_and-step a (2 ^ suc w - 1 - a), rest)

-- `i & -i` is the power of the lowest digit.
pub lowest_power : (w a k : ℕ) → a < 2 ^ w → k < w → IsLowest a k → bit_and a (2 ^ w - a) ≡ 2 ^ k
lowest_power zero a k bound below l = absurd (omega (arith, below))
lowest_power (suc w) a zero bound below l =
    let power : 2 ^ suc w ≡ 2 * 2 ^ w = omega arith in
    let half : (2 ^ suc w - a) / 2 ≡ 2 ^ w - 1 - a / 2 = omega (arith, power, bound, l.0) in
    let rest =
      ap (bit_and (a / 2)) half ∙ bit_and-complement w (a / 2) (omega (arith, power, bound)) in
    omega (arith, power, bound, l.0, bit_and-step a (2 ^ suc w - a), rest)
lowest_power (suc w) a (suc k) bound below l =
    let power : 2 ^ suc w ≡ 2 * 2 ^ w = omega arith in
    let first : a % 2 ≡ 0 = l.1 0 (omega arith) in
    let half : (2 ^ suc w - a) / 2 ≡ 2 ^ w - a / 2 = omega (arith, power, bound, first) in
    let rest =
      ap (bit_and (a / 2)) half
      ∙ lowest_power w (a / 2) k (omega (arith, power, bound)) (omega (arith, below))
          (l.0, λ j h. l.1 (suc j) (omega (arith, h))) in
    omega (arith, power, bound, first, bit_and-step a (2 ^ suc w - a), rest)

-- A test that holds at every number below a bound.
abbrev all_less : ℕ → (ℕ → Bool) → Bool
all_less zero test = true
all_less (suc n) test = test n && all_less n test

all_less-at : (n : ℕ) (test : ℕ → Bool) (k : ℕ) → all_less n test ≡ true → k < n → test k ≡ true
all_less-at zero test k all h = absurd (omega (arith, h))
all_less-at (suc n) test k all h = ground (arith, all_less-at n test k, all, h)

is_answer : Option ℕ → ℕ → Bool
is_answer none k = false
is_answer (some v) k = v == suc k

ffs_of-table : all_less 32 (λ k. is_answer (ffs_of (2 ^ k)) k) ≡ true
unfolding ffs_of is_answer
ffs_of-table = refl

answered : (o : Option ℕ) (k : ℕ) → is_answer o k ≡ true → o ≡ some (suc k)
unfolding is_answer
answered none k h = cc
answered (some v) k h = ap some ((==_iff v (suc k)).0 h)

-- The table gives the place of a power, counted from 1.
ffs_of-power : (k : ℕ) → k < 32 → ffs_of (2 ^ k) ≡ some (suc k)
ffs_of-power k h =
    answered (ffs_of (2 ^ k)) k
      (all_less-at 32 (λ x. is_answer (ffs_of (2 ^ x)) x) k ffs_of-table h)

same_tests : Bool → Bool → Bool
same_tests true b = b
same_tests false true = false
same_tests false false = true

same_tests_sound : (a b : Bool) → same_tests a b ≡ true → a ≡ b
unfolding same_tests
same_tests_sound true b h = sym h
same_tests_sound false true h = cc
same_tests_sound false false h = refl

low_powers : all_less 64 (λ k. same_tests (leb (2 ^ k) 0xffffffff) (ltb k 32)) ≡ true
unfolding same_tests
low_powers = refl

low_power : (k : ℕ) → k < 64 → leb (2 ^ k) 0xffffffff ≡ ltb k 32
low_power k h =
    same_tests_sound _ _
      (all_less-at 64 (λ x. same_tests (leb (2 ^ x) 0xffffffff) (ltb x 32)) k low_powers h)

not_zero : (a k : ℕ) → digit a k ≡ 1 → 0 < a
not_zero zero k h = absurd (omega (arith, h, digit-zero k))
not_zero (suc a) k h = omega arith

negative-exact : (w a : ℕ) → 0 < a → a < 2 ^ w → negative w a ≡ 2 ^ w - a
negative-exact w a pos bound = mod-eq_of_lt (omega (arith, pos, bound))

ffs32-lowest : (a k : ℕ) → a < 2 ^ 32 → k < 32 → IsLowest a k → ffs32 a ≡ some (suc k)
unfolding ffs32
ffs32-lowest a k bound below l =
    ap (λ n. ffs_of (bit_and a n)) (negative-exact 32 a (not_zero a k l.0) bound)
    ∙ ap ffs_of (lowest_power 32 a k bound below l)
    ∙ ffs_of-power k below

low_digit : (a j : ℕ) → j < 32 → digit (a % 2 ^ 32) j ≡ digit a j
low_digit a j h =
    let parts : a / 2 ^ 32 * 2 ^ 32 + a % 2 ^ 32 ≡ a = omega arith in
    sym (digit-low 32 (a / 2 ^ 32) (a % 2 ^ 32) j (omega arith) h) ∙ ap (λ x. digit x j) parts

-- ffs64 gives the place of the lowest bit, counted from 1.
pub ffs64-lowest : (a k : ℕ) → a < 2 ^ 64 → k < 64 → IsLowest a k → ffs64 a ≡ some (suc k)
unfolding ffs64
ffs64-lowest a k bound below l =
    let power : bit_and a (negative 64 a) ≡ 2 ^ k =
      ap (bit_and a) (negative-exact 64 a (not_zero a k l.0) bound)
      ∙ lowest_power 64 a k bound below l in
    let test : leb (bit_and a (negative 64 a)) 0xffffffff ≡ ltb k 32 =
      ap (λ p. leb p 0xffffffff) power ∙ low_power k below in
    elim (Bool-cases (ltb k 32)) [
      | inl low ↦
          let within : k < 32 = ground (arith, low) in
          let digits = low_digit a in
          rw (test ∙ low) (
            ffs32-lowest (a % 2 ^ 32) k (omega arith) within
              (digits k within ∙ l.0, λ j h. digits j (omega (arith, h, within)) ∙ l.1 j h))
      | inr high ↦
          let beyond : 32 ≤ k = ground (arith, high) in
          let place : k ≡ 32 + (k - 32) = omega (arith, beyond) in
          let is_lowest : IsLowest (a / 2 ^ 32) (k - 32) = (
            sym (digit-high 32 a (k - 32) k place) ∙ l.0,
            λ j h. sym (digit-high 32 a j (32 + j) refl) ∙ l.1 (32 + j) (omega (arith, h, beyond)),
          ) in
          let found : some (suc (k - 32) + 32) ≡ some (suc k) = ap some (omega (arith, place)) in
          rw (test ∙ high) (
            rw
              (ffs32-lowest (a / 2 ^ 32) (k - 32) (omega (arith, bound))
                (omega (arith, below, beyond)) is_lowest)
              found)
    ]
