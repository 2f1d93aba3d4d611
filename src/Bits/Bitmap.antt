-- ===== src/Bits/Bitmap.antt =====
-- Bitmaps (include/bitmap.h): the first zero, and writing a bit.
use jrinx.Base.{
  ℕ, zero, suc, ◌+◌, ◌-◌, ◌*◌, ◌/◌, ◌%◌, ◌^◌, ◌<◌, ◌≡◌, ◌⊎◌, refl, ap, ◌∙◌, inl, inr, Bool-cases,
  false, Option, none, some, List, [], ◌∷◌, All, get_elem?, ◌==◌, arith,
}
use jrinx.Bits.{complement, first_zero_from}
use jrinx.Bits.Digits.{digit}
use jrinx.Bits.Lowest.{IsLowest, lowest, ffs64-lowest}

abbrev pub IsWord : ℕ → Type 0
IsWord w = w < 2 ^ 64

abbrev pub full : ℕ
full = 2 ^ 64 - 1

-- A bit of a bitmap; there are none behind its words.
abbrev pub digit_of : Option ℕ → ℕ → ℕ
digit_of none j = 0
digit_of (some w) j = digit w j

abbrev pub taken : List ℕ → ℕ → ℕ
taken ws i = digit_of (get_elem? ws (i / 64)) (i % 64)

-- The place `b` that the search from word `i` on gives: the lowest zero of a word behind full ones.
pub record FirstZero (i : ℕ) (ws : List ℕ) (b : ℕ) : Type 0 where
  pub n : ℕ
  pub w : ℕ
  pub k : ℕ
  pub there : get_elem? ws n ≡ some w
  pub below : k < 64
  pub is_lowest : IsLowest (complement w) k
  pub before : (m : ℕ) → m < n → get_elem? ws m ≡ some full
  pub place : b ≡ ((i + n) * 64 + k) % 2 ^ 32

pub first_zero_lem :
    (i : ℕ) (ws : List ℕ)
    → All IsWord ws
    → ((first_zero_from i ws ≡ none) × All (λ w. w ≡ full) ws)
      ⊎ ((b : ℕ) × (first_zero_from i ws ≡ some b) × FirstZero i ws b)
unfolding first_zero_from
first_zero_lem i [] words = inl (refl, tt)
first_zero_lem i (w ∷ ws) words = elim (Bool-cases (complement w == 0)) [
  | inr free ↦
      let pos : 0 < complement w = ground (arith, free) in
      let (k, below, l) = lowest 64 (complement w) pos (omega arith) in
      let ffs = ffs64-lowest (complement w) k (omega arith) below l in
      let not_none : (suc k == 0) ≡ false = ground arith in
      inr (
        (i * 64 + k) % 2 ^ 32,
        rw free (rw ffs (rw not_none (ap some (omega arith)))),
        record {
          n = 0;
          w = w;
          k = k;
          there = refl;
          below = below;
          is_lowest = l;
          before = λ m h. absurd (omega (arith, h));
          place = omega arith;
        },
      )
  | inl none_free ↦
      let is_full : w ≡ full = ground (arith, none_free, words.0) in
      elim (first_zero_lem (suc i) ws words.1) [
        | inl rest ↦ inl (rw none_free rest.0, (is_full, rest.1))
        | inr (b, found, z) ↦ inr (
          b,
          rw none_free found,
          record {
            n = suc z.n;
            w = z.w;
            k = z.k;
            there = z.there;
            below = z.below;
            is_lowest = z.is_lowest;
            before = λ m h. before_suc w ws z.n is_full z.before m h;
            place = z.place ∙ ap (λ x. (x * 64 + z.k) % 2 ^ 32) (omega arith);
          },
        )
      ]
]
  where
    before_suc :
        (w : ℕ) (ws : List ℕ) (n : ℕ)
        → w ≡ full
        → ((m : ℕ) → m < n → get_elem? ws m ≡ some full)
        → (m : ℕ) → m < suc n
        → get_elem? (w ∷ ws) m ≡ some full
    before_suc w ws n is_full rest zero h = ap some is_full
    before_suc w ws n is_full rest (suc m) h = rest m (omega (arith, h))
