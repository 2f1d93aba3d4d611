-- ===== src/Asid/Alloc.antt =====
-- `asid_alloc` (kern/mm/asid.c) takes the smallest identifier that is not taken.
use Prim.Native.Nat.{bit_or}
use jrinx.Base.{
  ℕ, ◌+◌, ◌-◌, ◌*◌, ◌/◌, ◌%◌, ◌^◌, ◌≤◌, ◌<◌, ◌≡◌, ◌≢◌, ◌⊎◌, refl, sym, ap, ◌∙◌, inl, inr,
  Bool-cases, true, none, some, List, All, All-get_elem?, length, lt-get_elem?, get_elem?, set_elem,
  get_elem?-set_elem, ltb, ◌==◌, ==_iff, arith, if◌then◌else◌,
}
use jrinx.Kernel.{◌>>=◌}
use jrinx.Bits.{complement, bitmap_find_first_zero_bit, bitmap_set_bit}
use jrinx.Bits.Digits.{
  digit, digit-bound, digit-zero, digit-complement, digit-bit_or, digit-power_self,
  digit-power_other,
}
use jrinx.Bits.Bitmap.{IsWord, full, digit_of, taken, FirstZero, first_zero_lem}
use jrinx.Asid.{Asids, asid_alloc}

digit-full : (j : ℕ) → j < 64 → digit full j ≡ 1
digit-full j h = digit-complement 64 0 j (omega arith) h ∙ ap (λ d. 1 - d) (digit-zero j)

-- A zero of the complement is a one.
digit-flipped : (w j : ℕ) → IsWord w → j < 64 → digit (complement w) j + digit w j ≡ 1
digit-flipped w j word h = omega (arith, digit-complement 64 w j word h, digit-bound w j)

-- What an allocation of `b` does to the bits.
pub record Allocated (ws : List ℕ) (b : ℕ) (ws' : List ℕ) : Type 0 where
  pub was_free : taken ws b ≡ 0
  pub smallest : (c : ℕ) → c < b → taken ws c ≡ 1
  pub now_taken : taken ws' b ≡ 1
  pub others : (c : ℕ) → c ≢ b → taken ws' c ≡ taken ws c

module _ (ws : List ℕ) (words : All IsWord ws) (b : ℕ) (z : FirstZero 0 ws b)
    (small : length ws * 64 ≤ 2 ^ 32) where
  is_word : IsWord z.w
  is_word = All-get_elem? IsWord ws z.n words z.there

  pub exact : b ≡ z.n * 64 + z.k
  exact = omega (arith, z.place, z.below, small, lt-get_elem? ws z.n z.there)

  word_place : b / 64 ≡ z.n
  word_place = omega (arith, exact, z.below)

  bit_place : b % 64 ≡ z.k
  bit_place = omega (arith, exact, z.below)

  free_digit : digit z.w z.k ≡ 0
  free_digit = omega (arith, digit-flipped z.w z.k is_word z.below, z.is_lowest.0)

  was_free : taken ws b ≡ 0
  was_free =
      ap (λ n. digit_of (get_elem? ws n) (b % 64)) word_place
      ∙ ap (λ o. digit_of o (b % 64)) z.there
      ∙ ap (digit z.w) bit_place
      ∙ free_digit

  smallest : (c : ℕ) → c < b → taken ws c ≡ 1
  smallest c h = elim (Bool-cases (ltb (c / 64) z.n)) [
    | inl earlier ↦
        let before : c / 64 < z.n = ground (arith, earlier) in
        ap (λ o. digit_of o (c % 64)) (z.before (c / 64) before) ∙ digit-full (c % 64) (omega arith)
    | inr same ↦
        let not_before : z.n ≤ c / 64 = ground (arith, same) in
        let at_n : c / 64 ≡ z.n = omega (arith, not_before, exact, h, z.below) in
        let below_k : c % 64 < z.k = omega (arith, exact, h, at_n) in
        ap (λ n. digit_of (get_elem? ws n) (c % 64)) at_n
        ∙ ap (λ o. digit_of o (c % 64)) z.there
        ∙ omega (
          arith,
          digit-flipped z.w (c % 64) is_word (omega arith),
          z.is_lowest.1 (c % 64) below_k,
        )
  ]

  abbrev pub changed : List ℕ
  changed = set_elem z.n (bit_or z.w (2 ^ z.k)) ws

  pub set_bit : bitmap_set_bit b ws ≡ some changed
  unfolding bitmap_set_bit
  set_bit =
      ap (λ n. get_elem? ws n >>= λ w. some (set_elem n (bit_or w (2 ^ (b % 64))) ws)) word_place
      ∙ ap (λ j. get_elem? ws z.n >>= λ w. some (set_elem z.n (bit_or w (2 ^ j)) ws)) bit_place
      ∙ ap (λ o. o >>= λ w. some (set_elem z.n (bit_or w (2 ^ z.k)) ws)) z.there

  changed_word :
      (c : ℕ)
      → taken changed c
        ≡ (if c / 64 == z.n then digit (bit_or z.w (2 ^ z.k)) (c % 64) else taken ws c)
  changed_word c =
      ap (λ o. digit_of o (c % 64))
        (get_elem?-set_elem z.n (bit_or z.w (2 ^ z.k)) ws (c / 64) z.there)
      ∙ elim (Bool-cases (c / 64 == z.n)) [ inl same ↦ rw same refl | inr other ↦ rw other refl ]

  now_taken : taken changed b ≡ 1
  now_taken =
      let here : (b / 64 == z.n) ≡ true = (==_iff (b / 64) z.n).1 word_place in
      changed_word b
      ∙ rw here (
          ap (digit (bit_or z.w (2 ^ z.k))) bit_place
          ∙ omega (arith, digit-bit_or z.w (2 ^ z.k) z.k, digit-power_self z.k, free_digit))

  others : (c : ℕ) → c ≢ b → taken changed c ≡ taken ws c
  others c differ = elim (Bool-cases (c / 64 == z.n)) [
    | inr other ↦ changed_word c ∙ rw other refl
    | inl same ↦
        let at_n : c / 64 ≡ z.n = (==_iff (c / 64) z.n).0 same in
        let bit : c % 64 ≢ z.k = λ e. differ (omega (arith, at_n, e, exact)) in
        let kept : digit (bit_or z.w (2 ^ z.k)) (c % 64) ≡ digit z.w (c % 64) =
          omega (arith, digit-bit_or z.w (2 ^ z.k) (c % 64), digit-power_other z.k (c % 64) bit) in
        let before : taken ws c ≡ digit z.w (c % 64) =
          ap (λ n. digit_of (get_elem? ws n) (c % 64)) at_n
          ∙ ap (λ o. digit_of o (c % 64)) z.there in
        changed_word c ∙ rw same (kept ∙ sym before)
  ]

  pub allocated : Allocated ws b changed
  allocated = record {
    was_free = was_free;
    smallest = smallest;
    now_taken = now_taken;
    others = others;
  }

-- asid_alloc on a bitmap of words that `unsigned` can count: it takes the smallest identifier that is
-- free, and no other changes; it fails and changes nothing if that one is beyond the largest; and
-- where all words are full it reads behind them.
pub asid_alloc_lem :
    (a : Asids)
    → All IsWord a.bitmap
    → length a.bitmap * 64 ≤ 2 ^ 32
    → ((asid_alloc a ≡ none) × All (λ w. w ≡ full) a.bitmap)
      ⊎ ((b : ℕ) × (ws' : List ℕ) × Allocated a.bitmap b ws'
          × (((b ≤ a.asid_max) × (asid_alloc a ≡ some (some b, record a { bitmap = ws' })))
              ⊎ ((a.asid_max < b) × (asid_alloc a ≡ some (none, a)))))
unfolding asid_alloc bitmap_find_first_zero_bit
asid_alloc_lem a words small = elim (first_zero_lem 0 a.bitmap words) [
  | inl all_full ↦ inl (rw all_full.0 refl, all_full.1)
  | inr (b, found, z) ↦ inr (
    b,
    changed a.bitmap words b z small,
    allocated a.bitmap words b z small,
    elim (Bool-cases (ltb a.asid_max b)) [
      | inl beyond ↦ inr (ground (arith, beyond), rw found (rw beyond refl))
      | inr within ↦ inl (
        ground (arith, within),
        rw found (rw within (rw (set_bit a.bitmap words b z small) refl)),
      )
    ],
  )
]
