-- ===== src/Hashmap/Codes.antt =====
-- The hash codes of lib/hashmap.c. A string is its bytes before the NUL; `char` is unsigned on the
-- target.
use Prim.Native.Nat.{bit_xor}
use jrinx.Base.{
  ℕ, ◌+◌, ◌-◌, ◌*◌, ◌/◌, ◌%◌, ◌^◌, ◌<◌, ◌≤◌, ◌≡◌, sym, ap, ◌∙◌, Bool, List, [], ◌∷◌, ◌==◌, arith,
  All,
}
use native.Mathlib.Nat.{
  mod-lt, mod-eq_of_lt, mod-add-div, add-mul-mod_self_left, mod-add-mod, add-mod-mod, mul-le-mul,
}

abbrev pub hash_mod : ℕ
hash_mod = 1000000009

-- The loop of `hash_code_str` from `val` and `pow` on. `str[i] - 'a' + 1` is converted to 64 bits,
-- at which the product and the sum wrap around.
unfoldable pub hash_loop : List ℕ → ℕ → ℕ → ℕ
hash_loop [] val pow = val
hash_loop (c ∷ cs) val pow =
    hash_loop cs ((val + (c + (2 ^ 64 - 96)) % 2 ^ 64 * pow) % 2 ^ 64 % hash_mod)
      (pow * 31 % hash_mod)

unfoldable pub hash_code_str : List ℕ → ℕ
hash_code_str str = hash_loop str 0 1

unfoldable pub hash_code_uint32 : ℕ → ℕ
hash_code_uint32 key =
    let a = bit_xor (key / 2 ^ 16) key * 0x119de1f3 % 2 ^ 32 in
    let b = bit_xor (a / 2 ^ 16) a * 0x119de1f3 % 2 ^ 32 in bit_xor (b / 2 ^ 16) b

unfoldable pub hash_code_uint64 : ℕ → ℕ
hash_code_uint64 key =
    let a = bit_xor key (key / 2 ^ 30) * 0xbf58476d1ce4e5b9 % 2 ^ 64 in
    let b = bit_xor a (a / 2 ^ 27) * 0x94d049bb133111eb % 2 ^ 64 in bit_xor b (b / 2 ^ 31)

abbrev pub hash_eq_uint32 : ℕ → ℕ → Bool
hash_eq_uint32 num1 num2 = num1 == num2

abbrev pub hash_eq_uint64 : ℕ → ℕ → Bool
hash_eq_uint64 num1 num2 = num1 == num2

-- The polynomial that the code of a string of letters stands for.
abbrev pub poly : List ℕ → ℕ
poly [] = 0
poly (c ∷ cs) = c - 96 + 31 * poly cs

mod-times : (w p m : ℕ) → w % m * p % m ≡ w * p % m
mod-times w p m = sym (
    ap (λ (t : ℕ). t * p % m) (sym (mod-add-div w m))
    ∙ ap (λ (t : ℕ). t % m) (omega arith)
    ∙ add-mul-mod_self_left (w % m * p) m (w / m * p))

-- One round, with the remainders taken at the end.
round_mod : (a x p m : ℕ) → (a % m + x % m * p) % m ≡ (a + x * p) % m
round_mod a x p m =
    mod-add-mod a m (x % m * p)
    ∙ sym (add-mod-mod a (x % m * p) m)
    ∙ ap (λ (t : ℕ). (a + t) % m) (mod-times x p m)
    ∙ add-mod-mod a (x * p) m

letter_fits : (c pow : ℕ) → c < 256 → pow < hash_mod → (c - 96) * pow < 160 * hash_mod
letter_fits c pow h p =
    let b : (c - 96) * pow ≤ 159 * (hash_mod - 1) =
      mul-le-mul {n₂ = 159} {m₂ = hash_mod - 1} (omega arith) (omega arith) in
    omega arith

hash_loop-poly :
    (str : List ℕ) (val pow : ℕ)
    → val < hash_mod
    → pow < hash_mod
    → All (λ c. (96 ≤ c) × (c < 256)) str
    → hash_loop str val pow ≡ (val + pow * poly str) % hash_mod
unfolding hash_loop
hash_loop-poly [] val pow v p letters =
    sym (mod-eq_of_lt v) ∙ ap (λ (t : ℕ). t % hash_mod) (omega arith)
hash_loop-poly (c ∷ cs) val pow v p ((low, high), letters) =
    let term : (c + (2 ^ 64 - 96)) % 2 ^ 64 ≡ c - 96 = omega arith in
    let fits = letter_fits c pow high p in
    let whole : (val + (c - 96) * pow) % 2 ^ 64 ≡ val + (c - 96) * pow =
      mod-eq_of_lt (omega arith) in
    rw term (
      rw whole (
        hash_loop-poly cs ((val + (c - 96) * pow) % hash_mod) (pow * 31 % hash_mod)
          (mod-lt _ (omega arith)) (mod-lt _ (omega arith)) letters
        ∙ round_mod (val + (c - 96) * pow) (pow * 31) (poly cs) hash_mod
        ∙ ap (λ (t : ℕ). t % hash_mod) (omega arith)))

-- The hash code of a string of characters from '`' on is its polynomial in 31, reduced: no step of
-- the loop wraps around.
pub hash_code_str_lem :
    (str : List ℕ) → All (λ c. (96 ≤ c) × (c < 256)) str → hash_code_str str ≡ poly str % hash_mod
unfolding hash_code_str
hash_code_str_lem str letters =
    hash_loop-poly str 0 1 (omega arith) (omega arith) letters
    ∙ ap (λ (t : ℕ). t % hash_mod) (omega arith)
