-- ===== src/Tests/Asids.antt =====
-- Address space identifiers at small inputs.
use jrinx.Base.{ℕ, zero, suc, ◌≤◌, ◌<◌, ◌≡◌, ◌⊎◌, refl, none, some, List, [], ◌∷◌, All, arith}
use jrinx.Bits.{ffs64, bitmap_find_first_zero_bit, first_zero_from}
use jrinx.Bits.Digits.{digit}
use jrinx.Bits.Lowest.{ffs64-lowest}
use jrinx.Bits.Bitmap.{full}
use jrinx.Asid.{Asids, PartAsid, asid_alloc, alloc_loop, renew_asid}
use jrinx.Asid.Alloc.{Allocated, asid_alloc_lem}
use jrinx.Asid.Renew.{Renewed, renew_asid_lem}

-- Identifiers up to 100, of which 0 and 1 are taken.
abbrev two_taken : Asids
two_taken = record { asid_max = 100; generation = 3; bitmap = 3 ∷ 0 ∷ [] }

ffs64_example : ffs64 12 ≡ some 3
ffs64_example = ffs64-lowest 12 2 (omega arith) (omega arith) (refl, low)
  where
    low : (j : ℕ) → j < 2 → digit 12 j ≡ 0
    low zero h = refl
    low (suc zero) h = refl
    low (suc (suc j)) h = absurd (omega (arith, h))

asid_alloc_example :
    ((asid_alloc two_taken ≡ none) × All (λ w. w ≡ full) (3 ∷ 0 ∷ []))
    ⊎ ((b : ℕ) × (ws' : List ℕ) × Allocated (3 ∷ 0 ∷ []) b ws'
        × (((b ≤ 100) × (asid_alloc two_taken ≡ some (some b, record two_taken { bitmap = ws' })))
            ⊎ ((100 < b) × (asid_alloc two_taken ≡ some (none, two_taken)))))
asid_alloc_example = asid_alloc_lem two_taken (omega arith, (omega arith, tt)) (omega arith)

abbrev old_part : PartAsid
old_part = record { asid = 1; asid_generation = 2 }

renew_asid_example :
    ((renew_asid 2 old_part two_taken ≡ none) × All (λ w. w ≡ full) (3 ∷ 0 ∷ []))
    ⊎ Renewed two_taken (renew_asid 2 old_part two_taken)
renew_asid_example =
    renew_asid_lem two_taken old_part
      ((omega arith, (omega arith, tt)), omega arith, omega arith, omega arith) (omega arith)

-- The hardware takes 64 identifiers and all are in use: the search reads behind the bitmap.
abbrev all_taken : Asids
all_taken = record { asid_max = 63; generation = 3; bitmap = full ∷ [] }

search_behind : renew_asid 2 old_part all_taken ≡ none
unfolding renew_asid alloc_loop asid_alloc bitmap_find_first_zero_bit first_zero_from
search_behind = refl
