-- ===== src/Tests/Libs.antt =====
-- The hash map, the arithmetic and the launch of the schedule at small inputs.
use jrinx.Base.{
  All, List, ℕ, ◌+◌, ◌^◌, ◌≤◌, ◌<◌, ◌≡◌, ◌⊎◌, refl, some, none, [], ◌∷◌, ◌==◌, ==_iff, arith,
  if◌then◌else◌, false,
}
use jrinx.Base.Int.{ℤ, pos, negsuc, ◌+ℤ◌}
use jrinx.Hashmap.{Hashmap, hashmap_init, hashmap_put, hashmap_remove, hashmap_get}
use jrinx.Hashmap.Codes.{hash_code_uint64, hash_eq_uint64}
use jrinx.Hashmap.Finite.{IsValid, hashmap_init_lem, hashmap_put_lem, hashmap_remove_lem}
use jrinx.Arithmetic.{gcd}
use jrinx.Arithmetic.Divisors.{IsGcd, gcd_lem, NonNeg}
use jrinx.Sched.Modules.{SchedTable}
use jrinx.Sched.Launch.{periods_of}
use jrinx.Sched.Launch.MajorFrame.{IsFrame, Launch, sched_launch_lem}
use jrinx.Frames.{Region, PhyFrame, phy_frame_alloc, phy_frame_ref_dec}
use jrinx.Frames.Counts.{IsConsistent, Taken, EmptyBetween, phy_frame_alloc_lem}
use jrinx.Frames.Release.{phy_frame_ref_dec_lem}
use jrinx.Syscalls.CreateProcess.{align_up}
use jrinx.Kernel.{◌>>=◌}
use jrinx.Heap.Free.{
  kfree, kalloc_get_used, used_from, merge, join, get_buddy, block_at, next_of, linked,
}
use jrinx.Heap.{
  take_block, split, kalloc_init, kalloc, fits, max_size, block_size, header, BuddyBlock,
}
use jrinx.Heap.Tiling.{HasBlock, in_use, kalloc_lem}
use jrinx.Tests.System.{system, ring, events-IsSorted, two_windows}

-- Nodes that are their own keys, in four buckets that hold anything before the initialisation.
abbrev raw : Hashmap ℕ ℕ
raw = record {
  h_key = λ n. n;
  h_code = hash_code_uint64;
  h_equals = hash_eq_uint64;
  h_cap = 4;
  h_num = 0;
  h_array = (9 ∷ []) ∷ [] ∷ [] ∷ (8 ∷ []) ∷ [];
}

hashmap_put_example :
    (m' : Hashmap ℕ ℕ) × (hashmap_put (hashmap_init raw) 17 ≡ some m')
    × IsValid m'
    × ((k : ℕ)
        → hashmap_get m' k ≡ (if k == 17 then some (some 17) else hashmap_get (hashmap_init raw) k))
unfolding hashmap_init
hashmap_put_example =
    hashmap_put_lem (hashmap_init raw) (hashmap_init_lem raw ==_iff (omega arith) refl refl).0 17

hashmap_remove_example :
    (m' : Hashmap ℕ ℕ) × (hashmap_remove (hashmap_init raw) 17 ≡ some m')
    × IsValid m'
    × ((k : ℕ)
        → hashmap_get m' k ≡ (if k == 17 then some none else hashmap_get (hashmap_init raw) k))
unfolding hashmap_init
hashmap_remove_example =
    hashmap_remove_lem (hashmap_init raw) (hashmap_init_lem raw ==_iff (omega arith) refl refl).0 17

-- "ab".
gcd_example :
    (g : ℤ) × (gcd (negsuc 11) (pos 18) ≡ some g)
    × IsGcd (negsuc 11) (pos 18) g
    × (NonNeg (negsuc 11) → NonNeg (pos 18) → NonNeg g)
gcd_example = gcd_lem (negsuc 11) (pos 18)

abbrev table : SchedTable
table = record {
  sched_modules = two_windows;
  sched_parts = 1 ∷ [];
  sched_cur_mod = none;
  sched_major_frame = pos 0;
}

sched_launch_example : (f : ℕ) × IsFrame (1000 ∷ []) f × Launch (some (pos 0)) table (system ring) f
unfolding periods_of ◌+ℤ◌
sched_launch_example =
    sched_launch_lem (some (pos 0)) table (system ring) (1000 ∷ []) refl refl (omega arith, tt)
      (omega arith) (omega arith, (omega arith, tt)) (omega arith, (omega arith, tt))
      events-IsSorted

-- A region of three pages, of which the first is used twice and the others are free.
abbrev region : Region
region = record {
  mem_addr = 4096;
  mem_size = 12288;
  pf_free_list = 1 ∷ 2 ∷ [];
  pf_ref = 2 ∷ 0 ∷ 0 ∷ [];
}

abbrev used_frame : PhyFrame
used_frame = record { sel = 0; place = 0 }

phy_frame_alloc_example :
    ((phy_frame_alloc (region ∷ []) ≡ some none) × All (λ r. r.pf_free_list ≡ []) (region ∷ []))
    ⊎ ((f : PhyFrame) × (rs' : List Region) × (phy_frame_alloc (region ∷ []) ≡ some (some (f, rs')))
        × Taken (region ∷ []) f rs'
        × EmptyBetween 0 f.sel (region ∷ []))
phy_frame_alloc_example =
    phy_frame_alloc_lem (region ∷ []) (((refl, (refl, tt)), (refl, (refl, tt))), tt)

phy_frame_ref_dec_example :
    ((0 < 1)
      × (phy_frame_ref_dec used_frame (region ∷ [])
          ≡ some (some (record region { pf_ref = 1 ∷ 0 ∷ 0 ∷ [] } ∷ [])))
      × All IsConsistent (record region { pf_ref = 1 ∷ 0 ∷ 0 ∷ [] } ∷ []))
    ⊎ ((◌≡◌ {A = ℕ} 1 0)
        × (phy_frame_ref_dec used_frame (region ∷ [])
            ≡ some (
                some
                  (record region { pf_ref = 1 ∷ 0 ∷ 0 ∷ []; pf_free_list = 1 ∷ 2 ∷ 0 ∷ [] } ∷ [])))
        × All IsConsistent
            (record region { pf_ref = 1 ∷ 0 ∷ 0 ∷ []; pf_free_list = 1 ∷ 2 ∷ 0 ∷ [] } ∷ []))
phy_frame_ref_dec_example =
    phy_frame_ref_dec_lem used_frame (region ∷ []) region 1 refl refl
      (((refl, (refl, tt)), (refl, (refl, tt))), tt)

-- The heap after its initialisation.
kalloc_example :
    ((kalloc 100 (kalloc_init 65536) ≡ none)
      × ((max_size < block_size 100)
          ⊎ All (λ b. fits (block_size 100) b ≡ false) (kalloc_init 65536)))
    ⊎ ((ptr : ℕ) × (bs' : List BuddyBlock) × (kalloc 100 (kalloc_init 65536) ≡ some (ptr, bs'))
        × HasBlock (block_size 100) 65536 589824 (in_use (kalloc_init 65536)) ptr bs'
        × ((2 ^ 63 ≤ 100) ⊎ (100 + header ≤ block_size 100)))
unfolding kalloc_init align_up
kalloc_example =
    kalloc_lem 100 65536 589824 (kalloc_init 65536) (omega arith)
      (refl, (19, refl, omega arith), refl)

-- Memory that is given back is merged with its buddies up to the largest size.
abbrev heap_of_sizes : List ℕ → ℕ → List BuddyBlock
heap_of_sizes [] from = []
heap_of_sizes (size ∷ sizes) from =
    record { addr = from; size = size; is_used = false } ∷ heap_of_sizes sizes (from + size)

allocated_and_freed :
    (kalloc 100 (kalloc_init 65536) >>= λ r. kfree 65536 r.0 r.1)
    ≡ some (heap_of_sizes (32768 ∷ 32768 ∷ 65536 ∷ 131072 ∷ 262144 ∷ []) 65536)
unfolding kalloc take_block split kalloc_init align_up kfree merge join get_buddy block_at next_of
    linked
allocated_and_freed = refl

used_bytes : (kalloc 100 (kalloc_init 65536) >>= λ r. some (kalloc_get_used r.1)) ≡ some 256
unfolding kalloc take_block split kalloc_init align_up kalloc_get_used used_from
used_bytes = refl
