-- ===== src/Frames.antt =====
-- kern/mm/pmm.c: the page frames of the memory regions, with their reference counts and free lists.
-- The regions are those of kern/drivers/mems.c. A frame is its region and its place in `pf_array`; the
-- two locks are open between the calls of one hart, and the bytes of the pages are not modelled.
pub mod Address
pub mod Counts
pub mod Release
use jrinx.Base.{
  ℕ, zero, suc, ◌+◌, ◌-◌, ◌*◌, ◌/◌, ◌%◌, ◌^◌, Bool, ◌&&◌, Option, none, some, List, [], ◌∷◌, ◌++◌,
  length, get_elem?, set_elem, ltb, leb, ◌==◌, if◌then◌else◌,
}
use jrinx.Circbuf.{word}
use jrinx.Kernel.{◌>>=◌}
use jrinx.Syscalls.CreateProcess.{pgsize, align_up, minus}

-- A region with `pf_free_list`, by places, and `pf_array`, by reference counts.
pub record Region : Type 0 where
  pub mem_addr : ℕ
  pub mem_size : ℕ
  pub pf_free_list : List ℕ
  pub pf_ref : List ℕ

-- `struct phy_frame *`.
pub record PhyFrame : Type 0 where
  pub sel : ℕ
  pub place : ℕ

-- `palloc`: the address, and the base of the free memory afterwards.
unfoldable pub palloc : ℕ → ℕ → ℕ → ℕ → ℕ × ℕ
palloc kern_end size align base =
    let start = align_up (if base == 0 then kern_end else base) align in
    (start, word (start + size))

abbrev pub holds_address : ℕ → Region → Bool
holds_address addr r = leb r.mem_addr addr && ltb addr (word (r.mem_addr + r.mem_size))

-- The loop from region `i` on; `none` is the error -KER_MEM_ER.
unfoldable pub sel_from : ℕ → ℕ → List Region → Option ℕ
sel_from i addr [] = none
sel_from i addr (r ∷ rs) =
    let rest = sel_from (suc i) addr rs in if holds_address addr r then some i else rest

unfoldable pub pa2sel : ℕ → List Region → Option ℕ
pa2sel addr rs = sel_from 0 addr rs

-- The pointer lies in the array of its region.
unfoldable pub frame2sel : PhyFrame → List Region → Option ℕ
frame2sel f rs = do
  r ← get_elem? rs f.sel
  if ltb f.place (length r.pf_ref) then some f.sel else none

unfoldable pub pa2frame : ℕ → List Region → Option PhyFrame
pa2frame addr rs = do
  sel ← pa2sel addr rs
  r ← get_elem? rs sel
  some (record { sel = sel; place = (addr - r.mem_addr) / pgsize })

unfoldable pub frame2pa : PhyFrame → List Region → Option ℕ
frame2pa f rs = do
  sel ← frame2sel f rs
  r ← get_elem? rs sel
  some (word (r.mem_addr + f.place * pgsize))

-- The regions as `pmm_init` sets them up before it takes the frames of the kernel: every frame of
-- every region is free.
abbrev pub places : ℕ → ℕ → List ℕ
places from zero = []
places from (suc n) = from ∷ places (suc from) n

abbrev pub zeros : ℕ → List ℕ
zeros zero = []
zeros (suc n) = 0 ∷ zeros n

unfoldable pub init_region : ℕ → ℕ → Region
init_region addr size = record {
  mem_addr = addr;
  mem_size = size;
  pf_free_list = places 0 (size / pgsize);
  pf_ref = zeros (size / pgsize);
}

-- One round of the search for a frame: the inner `none` is the error -KER_MEM_ER, the outer one a
-- panic on a frame outside its array; `later` is what the other rounds give.
abbrev pub Allocation : Type 0
Allocation = Option (Option (PhyFrame × List Region))

unfoldable pub take_first : ℕ → List Region → Region → List ℕ → Allocation → Allocation
take_first i rs r [] later = later
take_first i rs r (first ∷ others) later = do
  pa ← frame2pa (record { sel = i; place = first }) rs
  some
      (some (record { sel = i; place = first }, set_elem i (record r { pf_free_list = others }) rs))

unfoldable pub alloc_from : ℕ → List Region → List Region → Allocation
alloc_from i rs [] = some none
alloc_from i rs (r ∷ rest) = take_first i rs r r.pf_free_list (alloc_from (suc i) rs rest)

unfoldable pub phy_frame_alloc : List Region → Allocation
phy_frame_alloc rs = alloc_from 0 rs rs

-- `none` is the error -KER_MEM_ER.
unfoldable pub phy_frame_free : PhyFrame → List Region → Option (List Region)
phy_frame_free f rs = do
  sel ← frame2sel f rs
  r ← get_elem? rs sel
  some (set_elem sel (record r { pf_free_list = r.pf_free_list ++ f.place ∷ [] }) rs)

-- `frame->pf_ref`, `none` for a pointer outside the arrays.
unfoldable pub ref_of : PhyFrame → List Region → Option ℕ
ref_of f rs = do r ← get_elem? rs f.sel; get_elem? r.pf_ref f.place

unfoldable pub set_ref : PhyFrame → ℕ → List Region → Option (List Region)
set_ref f n rs = do
  r ← get_elem? rs f.sel
  some (set_elem f.sel (record r { pf_ref = set_elem f.place n r.pf_ref }) rs)

-- The error, inner `none`, is a count of 0, or a frame that cannot be freed; the count is down then.
unfoldable pub phy_frame_ref_dec : PhyFrame → List Region → Option (Option (List Region))
phy_frame_ref_dec f rs = do
  n ← ref_of f rs
  if n == 0 then some none else do
    down ← set_ref f (n - 1) rs
    if n - 1 == 0 then some (phy_frame_free f down) else some (some down)

unfoldable pub phy_frame_ref_inc : PhyFrame → List Region → Option (List Region)
phy_frame_ref_inc f rs = do n ← ref_of f rs; set_ref f (word (n + 1)) rs
