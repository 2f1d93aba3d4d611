-- ===== src/Heap/Free.antt =====
-- `kfree` and `kalloc_get_used` of kern/mm/kalloc.c.
use jrinx.Base.{
  ℕ, zero, suc, ◌+◌, ◌-◌, ◌*◌, ◌%◌, false, not, ◌&&◌, Option, none, some, List, [], ◌∷◌, ltb, leb,
  ◌==◌, if◌then◌else◌,
}
use jrinx.Circbuf.{word}
use jrinx.Kernel.{◌>>=◌}
use jrinx.Heap.{BuddyBlock, header, max_size, pool_size, halvings}

-- The bytes in use, added up block by block from `used` on.
unfoldable pub used_from : ℕ → List BuddyBlock → ℕ
used_from used [] = used
used_from used (b ∷ bs) = used_from (if b.is_used then word (used + b.size) else used) bs

unfoldable pub kalloc_get_used : List BuddyBlock → ℕ
kalloc_get_used bs = used_from 0 bs

-- The address of the buddy; `none` is NULL.
unfoldable pub get_buddy : BuddyBlock → Option ℕ
get_buddy b =
    if b.size == max_size
    then none
    else if b.addr % (b.size * 2) == 0
    then some (b.addr + b.size)
    else some (b.addr - b.size)

-- The block at an address; `none` where no block of the list is there, and a read is not defined.
unfoldable pub block_at : ℕ → List BuddyBlock → Option BuddyBlock
block_at a [] = none
block_at a (b ∷ bs) = let later = block_at a bs in if b.addr == a then some b else later

-- The list from the successor of the block at an address on.
unfoldable pub next_of : ℕ → List BuddyBlock → List BuddyBlock
next_of a [] = []
next_of a (b ∷ bs) = let later = next_of a bs in if b.addr == a then bs else later

-- The block in the place of the one at its address, followed by `next`.
unfoldable pub linked : BuddyBlock → List BuddyBlock → List BuddyBlock → List BuddyBlock
linked m next [] = []
linked m next (b ∷ bs) =
    let later = linked m next bs in if b.addr == m.addr then m ∷ next else b ∷ later

-- `block` and its buddy as one block of the list, the one at the lower address.
unfoldable pub join : BuddyBlock → BuddyBlock → List BuddyBlock → BuddyBlock × List BuddyBlock
join block buddy bs =
    let below = ltb buddy.addr block.addr in
    let merged = if below then buddy else block in
    let other = if below then block else buddy in
    let merged_block : BuddyBlock = record merged { size = merged.size * 2 } in
    (merged_block, linked merged_block (next_of other.addr bs) bs)

-- The loop that merges a block with its buddy while that is free and of the same size. The size is
-- doubled in each round.
unfoldable pub merge : ℕ → BuddyBlock → List BuddyBlock → Option (List BuddyBlock)
merge zero block bs = none
merge (suc fuel) block bs = elim (get_buddy block) [
  | none ↦ some bs
  | some a ↦ do
    buddy ← block_at a bs
    if not buddy.is_used && buddy.size == block.size
        then merge fuel (join block buddy bs).0 (join block buddy bs).1
        else some bs
]

-- `none` is a failed assertion.
unfoldable pub kfree : ℕ → ℕ → List BuddyBlock → Option (List BuddyBlock)
kfree pool ptr bs = do
  block ← block_at (ptr - header) bs
  let free_block : BuddyBlock = record block { is_used = false }
  if leb pool ptr && ltb ptr (pool + pool_size) && block.is_used
      then merge halvings free_block (linked free_block (next_of block.addr bs) bs)
      else none
