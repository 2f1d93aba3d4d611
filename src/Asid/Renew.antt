-- ===== src/Asid/Renew.antt =====
-- Address space identifiers do not clash (`proc_run` of kern/multitask/process.c).
use jrinx.Base.{
  ℕ, zero, suc, ◌+◌, ◌*◌, ◌/◌, ◌%◌, ◌^◌, ◌≤◌, ◌<◌, ◌≡◌, ◌≢◌, ◌⊎◌, refl, sym, ap, ◌∙◌, inl, inr,
  Bool-cases, true, Option, none, some, List, [], ◌∷◌, All, length, get_elem?, ltb, lt→ltb, ◌==◌,
  ==_iff, arith,
}
use jrinx.Circbuf.{word}
use jrinx.Bits.Digits.{digit-zero}
use jrinx.Bits.Bitmap.{IsWord, full, digit_of, taken}
use jrinx.Asid.{Asids, asid_inc_generation, asid_alloc, PartAsid, cleared, alloc_loop, renew_asid}
use jrinx.Asid.Alloc.{Allocated, asid_alloc_lem}

zeros-taken : (ws : List ℕ) (n j : ℕ) → digit_of (get_elem? (cleared ws) n) j ≡ 0
zeros-taken [] n j = refl
zeros-taken (w ∷ ws) zero j = digit-zero j
zeros-taken (w ∷ ws) (suc n) j = zeros-taken ws n j

zeros-words : (ws : List ℕ) → All IsWord (cleared ws)
zeros-words [] = tt
zeros-words (w ∷ ws) = (omega arith, zeros-words ws)

length-zeros : (ws : List ℕ) → length (cleared ws) ≡ length ws
length-zeros [] = refl
length-zeros (w ∷ ws) = omega (arith, length-zeros ws)

zeros-not_full : (ws : List ℕ) → 0 < length ws → All (λ w. w ≡ full) (cleared ws) → ⊥
zeros-not_full [] h f = omega (arith, h)
zeros-not_full (w ∷ ws) h f = omega (arith, f.0)

-- The identifier of a partition is of an earlier generation, or it is taken.
abbrev pub IsCurrent : Asids → PartAsid → Type 0
IsCurrent a q =
    (q.asid_generation ≤ a.generation)
    × (q.asid_generation ≡ a.generation → taken a.bitmap q.asid ≡ 1)

-- What `asid_alloc` has to work on.
abbrev pub IsBitmap : Asids → Type 0
IsBitmap a =
    All IsWord a.bitmap
    × (0 < length a.bitmap)
    × (length a.bitmap * 64 ≤ 2 ^ 32)
    × (a.generation + 1 < 2 ^ 64)

-- A new identifier: no other partition has it in this generation.
pub record Fresh (a : Asids) (asid : ℕ) (a' : Asids) : Type 0 where
  pub legal : asid ≤ a.asid_max
  pub itself : taken a'.bitmap asid ≡ 1
  pub keeps : (q : PartAsid) → IsCurrent a q → IsCurrent a' q
  pub differs : (q : PartAsid) → IsCurrent a q → q.asid_generation ≡ a'.generation → q.asid ≢ asid

asid_alloc-Fresh :
    (a : Asids) (b : ℕ) (ws' : List ℕ)
    → b ≤ a.asid_max
    → Allocated a.bitmap b ws'
    → Fresh a b (record a { bitmap = ws' })
asid_alloc-Fresh a b ws' within al = record {
  legal = within;
  itself = al.now_taken;
  keeps = λ q c. (
    c.0,
    λ e. elim (Bool-cases (q.asid == b)) [
      | inl same ↦ ap (taken ws') ((==_iff q.asid b).0 same) ∙ al.now_taken
      | inr other ↦ al.others q.asid (λ s. ground (arith, other, s)) ∙ c.1 e
    ],
  );
  differs = λ q c e same. omega (arith, c.1 e, ap (taken a.bitmap) same, al.was_free);
}

-- A new generation begins with the identifier 0.
new_generation :
    (a : Asids)
    → IsBitmap a
    → (a' : Asids) × (asid_alloc (asid_inc_generation a) ≡ some (some 0, a'))
      × Fresh a 0 a'
      × (a'.generation ≡ a.generation + 1)
unfolding asid_inc_generation
new_generation a (words, some_words, small, bound) =
    let next = asid_inc_generation a in
    let count : word (a.generation + 1) ≡ a.generation + 1 = omega (arith, bound) in
    elim (asid_alloc_lem next (zeros-words a.bitmap)
      (omega (arith, length-zeros a.bitmap, small))) [
        | inl (_, all_full) ↦ absurd (zeros-not_full a.bitmap some_words all_full)
        | inr (b, ws', al, result) ↦
            let is_0 : b ≡ 0 = elim (Bool-cases (ltb 0 b)) [
              | inl above ↦
                  let pos : 0 < b = ground (arith, above) in
                  absurd (omega (arith, al.smallest 0 pos, zeros-taken a.bitmap (0 / 64) (0 % 64)))
              | inr zero_b ↦ ground (arith, zero_b)
            ] in
            elim result [
              | inr (beyond, _) ↦ absurd (omega (arith, beyond, is_0))
              | inl (within, found) ↦ (
                record next { bitmap = ws' },
                found ∙ ap (λ x. some (some x, record next { bitmap = ws' })) is_0,
                record {
                  legal = omega arith;
                  itself = ap (taken ws') (sym is_0) ∙ al.now_taken;
                  keeps = λ q c.
                      (omega (arith, c.0, count), λ e. absurd (omega (arith, c.0, count, e)));
                  differs = λ q c e. absurd (omega (arith, c.0, count, e));
                },
                count,
              )
            ]
      ]

-- What `renew_asid` does for a partition of an earlier generation: it has a fresh identifier of the
-- hart's generation from then on.
abbrev pub Renewed : Asids → Option (PartAsid × Asids) → Type 0
Renewed a result =
    (p' : PartAsid) × (a' : Asids) × (result ≡ some (p', a'))
    × (p'.asid_generation ≡ a'.generation)
    × Fresh a p'.asid a'

-- For a partition whose identifier is of an earlier generation, the loop of proc_run ends in at most two
-- rounds: unless all words of the bitmap are full, where it reads behind them, the partition gets an
-- identifier that the hardware takes, that is marked in the bitmap, and that no other partition has
-- in this generation; the identifiers of the others stay marked.
pub renew_asid_lem :
    (a : Asids) (p : PartAsid)
    → IsBitmap a
    → p.asid_generation < a.generation
    → ((renew_asid 2 p a ≡ none) × All (λ w. w ≡ full) a.bitmap) ⊎ Renewed a (renew_asid 2 p a)
unfolding renew_asid alloc_loop
renew_asid_lem a p ok older =
    let due : ltb p.asid_generation a.generation ≡ true = lt→ltb _ _ older in
    elim (asid_alloc_lem a ok.0 ok.2) [
      | inl (undefined, all_full) ↦ inl (rw due (rw undefined refl), all_full)
      | inr (b, ws', al, result) ↦ elim result [
        | inl (within, found) ↦ inr (
          record { asid = b; asid_generation = a.generation },
          record a { bitmap = ws' },
          rw due (rw found refl),
          refl,
          asid_alloc-Fresh a b ws' within al,
        )
        | inr (beyond, failed) ↦
            let (a', found, fresh, generation) = new_generation a ok in
            inr (
              record { asid = 0; asid_generation = a'.generation },
              a',
              rw due (rw failed (rw found refl)),
              refl,
              fresh,
            )
      ]
    ]
