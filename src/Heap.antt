-- ===== src/Heap.antt =====
-- kern/mm/kalloc.c: the kernel heap, a list of blocks whose sizes are powers of two.
-- The list stands in the order of the links; the two locks are open between the calls of one hart.
pub mod Free
pub mod Tiling
use jrinx.Base.{
  ℕ, zero, suc, ◌+◌, ◌*◌, ◌/◌, Bool, true, false, not, ◌&&◌, Option, none, some, List, [], ◌∷◌, ltb,
  leb, if◌then◌else◌,
}
use jrinx.Circbuf.{word}
use jrinx.Kernel.{◌>>=◌}
use jrinx.Syscalls.CreateProcess.{pgsize, align_up}

-- `struct buddy_block` with its address; the links are the list.
pub record BuddyBlock : Type 0 where
  pub addr : ℕ
  pub size : ℕ
  pub is_used : Bool

-- `sizeof(struct buddy_block)`.
abbrev pub header : ℕ
header = 32

abbrev pub min_size : ℕ
min_size = 32

abbrev pub max_size : ℕ
max_size = pgsize * 8

abbrev pub pool_size : ℕ
pool_size = pgsize * 128

unfoldable pub kalloc_init : ℕ → List BuddyBlock
kalloc_init pool = record { addr = pool; size = pool_size; is_used = false } ∷ []

-- The size that a block needs for `size` bytes behind its header.
abbrev pub block_size : ℕ → ℕ
block_size size = word (align_up (if ltb size min_size then min_size else size) 8 + header)

abbrev pub fits : ℕ → BuddyBlock → Bool
fits n b = not b.is_used && leb n b.size

-- The loop that halves a block while the half is large enough, with what follows it in the list.
unfoldable pub split : ℕ → ℕ → BuddyBlock → List BuddyBlock → List BuddyBlock
split zero n b rest = b ∷ rest
split (suc fuel) n b rest =
    let half : BuddyBlock = record b { size = b.size / 2 } in
    let new_block : BuddyBlock = record {
      addr = b.addr + b.size / 2;
      size = b.size / 2;
      is_used = false;
    } in
    let more = split fuel n half (new_block ∷ rest) in if leb n (b.size / 2) then more else b ∷ rest

-- A size of 64 bits is halved at most 64 times.
abbrev pub halvings : ℕ
halvings = 64

-- The first free block that is large enough, taken and divided; `none` is NULL.
unfoldable pub take_block : ℕ → List BuddyBlock → Option (ℕ × List BuddyBlock)
take_block n [] = none
take_block n (b ∷ bs) =
    let later = take_block n bs in
    if fits n b
    then some (b.addr + header, split halvings n (record b { is_used = true }) bs)
    else do found ← later; some (found.0, b ∷ found.1)

unfoldable pub kalloc : ℕ → List BuddyBlock → Option (ℕ × List BuddyBlock)
kalloc size bs = if ltb max_size (block_size size) then none else take_block (block_size size) bs
