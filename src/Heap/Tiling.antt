-- ===== src/Heap/Tiling.antt =====
-- The blocks of the kernel heap (kern/mm/kalloc.c) tile its pool.
use mathlib.Core.Path.{subst}
use jrinx.Base.{
  ℕ, zero, suc, ◌+◌, ◌*◌, ◌/◌, ◌^◌, ◌<◌, ◌≤◌, ◌≡◌, ◌⊎◌, inl, inr, refl, sym, ap, ◌∙◌, true, false,
  Bool-cases, Option, none, some, List, [], ◌∷◌, get_elem?, All, ltb, leb, if◌then◌else◌, arith,
}
use jrinx.Syscalls.CreateProcess.{align_up}
use jrinx.Circbuf.{word}
use jrinx.Heap.{
  BuddyBlock, header, halvings, min_size, max_size, block_size, fits, split, take_block, kalloc,
}

-- The blocks follow each other from one address to another, and their sizes are powers of two.
abbrev pub Tiles : ℕ → List BuddyBlock → ℕ → Type 0
Tiles from [] end = from ≡ end
Tiles from (b ∷ bs) end =
    (b.addr ≡ from) × ((k : ℕ) × (b.size ≡ 2 ^ k) × (k ≤ halvings)) × Tiles (from + b.size) bs end

-- The bytes of the blocks in use.
abbrev pub in_use : List BuddyBlock → ℕ
in_use [] = 0
in_use (b ∷ bs) = (if b.is_used then b.size else 0) + in_use bs

-- The heap `bs` has a block in use for `n` bytes before `ptr`, and `used` bytes in use apart from it.
pub record HasBlock (n from end used ptr : ℕ) (bs : List BuddyBlock) : Type 0 where
  pub place : ℕ
  pub block : BuddyBlock
  pub there : get_elem? bs place ≡ some block
  pub before_ptr : block.addr + header ≡ ptr
  pub taken : block.is_used ≡ true
  pub large : n ≤ block.size
  pub tight : block.size / 2 < n
  pub tiles : Tiles from bs end
  pub usage : in_use bs ≡ used + block.size

stop :
    (n : ℕ) (b : BuddyBlock) (rest : List BuddyBlock) (from end : ℕ)
    → b.is_used ≡ true
    → n ≤ b.size
    → b.size / 2 < n
    → Tiles from (b ∷ rest) end
    → HasBlock n from end (in_use rest) (b.addr + header) (b ∷ rest)
stop n b rest from end used large tight tiles = record {
  place = 0;
  block = b;
  there = refl;
  before_ptr = refl;
  taken = used;
  large = large;
  tight = tight;
  tiles = tiles;
  usage = rw used (omega arith);
}

pub split_lem :
    (fuel k n : ℕ) (b : BuddyBlock) (rest : List BuddyBlock) (from end : ℕ)
    → k ≤ fuel
    → k ≤ halvings
    → b.size ≡ 2 ^ k
    → 0 < n
    → n ≤ b.size
    → b.is_used ≡ true
    → b.addr ≡ from
    → Tiles (from + b.size) rest end
    → HasBlock n from end (in_use rest) (b.addr + header) (split fuel n b rest)
unfolding split
split_lem zero k n b rest from end enough short pow pos large used at tiles =
    let none_left : k ≡ 0 = omega arith in
    let one : b.size ≡ 1 = pow ∙ ap (λ j. 2 ^ j) none_left in
    stop n b rest from end used large (omega arith) (at, (k, pow, short), tiles)
split_lem (suc fuel) zero n b rest from end enough short pow pos large used at tiles =
    let one : b.size ≡ 1 = pow in
    let small : leb n (b.size / 2) ≡ false = ground arith in
    rw small (stop n b rest from end used large (omega arith) (at, (0, pow, short), tiles))
split_lem (suc fuel) (suc k) n b rest from end enough short pow pos large used at tiles =
    let twice : 2 ^ suc k ≡ 2 * 2 ^ k = omega arith in
    let half : b.size / 2 ≡ 2 ^ k = omega arith in
    let whole : from + b.size ≡ from + b.size / 2 + b.size / 2 = omega arith in
    elim (Bool-cases (leb n (b.size / 2))) [
      | inl more ↦
          let zero_more : in_use rest ≡ 0 + in_use rest = omega arith in
          rw more (
            rw zero_more (
              split_lem fuel k n (record b { size = b.size / 2 })
                (record { addr = b.addr + b.size / 2; size = b.size / 2; is_used = false } ∷ rest)
                from end (omega arith) (omega arith) half pos (ground arith) used at
                (
                  ap (λ a. a + b.size / 2) at,
                  (k, half, omega arith),
                  subst (λ a. Tiles a rest end) whole tiles,
                )))
      | inr stays ↦
          rw stays
            (stop n b rest from end used large (ground arith) (at, (suc k, pow, short), tiles))
    ]

-- A block before the others changes nothing.
after :
    (n from end used ptr : ℕ) (b : BuddyBlock) (bs : List BuddyBlock)
    → b.addr ≡ from
    → (k : ℕ) × (b.size ≡ 2 ^ k) × (k ≤ halvings)
    → HasBlock n (from + b.size) end used ptr bs
    → HasBlock n from end ((if b.is_used then b.size else 0) + used) ptr (b ∷ bs)
after n from end used ptr b bs at pow h = record {
  place = suc h.place;
  block = h.block;
  there = h.there;
  before_ptr = h.before_ptr;
  taken = h.taken;
  large = h.large;
  tight = h.tight;
  tiles = (at, pow, h.tiles);
  usage = omega (arith, h.usage);
}

abbrev pub Outcome : ℕ → ℕ → ℕ → List BuddyBlock → Option (ℕ × List BuddyBlock) → Type 0
Outcome n from end bs result =
    ((result ≡ none) × All (λ b. fits n b ≡ false) bs)
    ⊎ ((ptr : ℕ) × (bs' : List BuddyBlock) × (result ≡ some (ptr, bs'))
        × HasBlock n from end (in_use bs) ptr bs')

take_block_lem :
    (n from end : ℕ) (bs : List BuddyBlock)
    → 0 < n
    → Tiles from bs end
    → Outcome n from end bs (take_block n bs)
unfolding take_block
take_block_lem n from end [] pos tiles = inl (refl, tt)
take_block_lem n from end (b ∷ bs) pos tiles = elim (Bool-cases (fits n b)) [
  | inl fit ↦
      let unused : b.is_used ≡ false = ground (arith, fit) in
      let large : n ≤ b.size = ground (arith, fit) in
      let free : in_use (b ∷ bs) ≡ in_use bs = rw unused (omega arith) in
      inr (
        b.addr + header,
        split halvings n (record b { is_used = true }) bs,
        rw fit refl,
        subst
            (λ u.
              HasBlock n from end u (b.addr + header)
                (split halvings n (record b { is_used = true }) bs))
            (sym free)
            (split_lem halvings tiles.1.0 n (record b { is_used = true }) bs from end tiles.1.2
              tiles.1.2 tiles.1.1 pos large refl tiles.0 tiles.2),
      )
  | inr other ↦ elim (take_block_lem n (from + b.size) end bs pos tiles.2) [
    | inl failed ↦ inl (rw (other, failed.0) refl, (other, failed.1))
    | inr found ↦ inr (
      found.0,
      b ∷ found.1,
      rw (other, found.2) refl,
      after n from end _ found.0 b found.1 tiles.0 tiles.1 found.3,
    )
  ]
]

-- A number below 2^63 and the header fit in the rounded size.
aligned : (n : ℕ) → n < 2 ^ 63 → n + header ≤ word (align_up n 8 + header)
unfolding align_up
aligned n h = omega arith

block_size-large : (size : ℕ) → (2 ^ 63 ≤ size) ⊎ (size + header ≤ block_size size)
block_size-large size = elim (Bool-cases (ltb size min_size)) [
  | inl small ↦ rw small (inr (ground (arith, aligned min_size (omega arith))))
  | inr large ↦ rw large (elim (Bool-cases (ltb size (2 ^ 63))) [
    | inl below ↦ inr (aligned size (ground arith))
    | inr beyond ↦ inl (ground arith)
  ])
]

-- In blocks whose sizes are powers of two and that tile the pool, kalloc gives the memory behind the
-- header of a block that is in use from then on, is large enough for the rounded size, which the
-- header and a size below 2^63 fit in, and not twice too large; the blocks still tile the pool with powers of two, and the bytes in use grow by just this
-- block. It gives NULL only for a size beyond the largest, or where no free block is large enough.
pub kalloc_lem :
    (size from end : ℕ) (bs : List BuddyBlock)
    → 0 < block_size size
    → Tiles from bs end
    → ((kalloc size bs ≡ none)
        × ((max_size < block_size size) ⊎ All (λ b. fits (block_size size) b ≡ false) bs))
      ⊎ ((ptr : ℕ) × (bs' : List BuddyBlock) × (kalloc size bs ≡ some (ptr, bs'))
          × HasBlock (block_size size) from end (in_use bs) ptr bs'
          × ((2 ^ 63 ≤ size) ⊎ (size + header ≤ block_size size)))
unfolding kalloc
kalloc_lem size from end bs pos tiles = elim (Bool-cases (ltb max_size (block_size size))) [
  | inl too_large ↦ inl (rw too_large refl, inl (ground arith))
  | inr fine ↦ elim (take_block_lem (block_size size) from end bs pos tiles) [
    | inl failed ↦ inl (rw fine failed.0, inr failed.1)
    | inr found ↦ inr (found.0, found.1, rw fine found.2, found.3, block_size-large size)
  ]
]
