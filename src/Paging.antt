-- ===== src/Paging.antt =====
-- kern/mm/vmm.c and include/kern/mm/vmm.h: the page tables of Sv39.
-- Memory is seen as pages of entries: a page is its number, the address without the offset, and a
-- pointer to an entry is a page and an index. The frames that tables are made of come from `palloc`
-- at boot and from kern/mm/pmm.c (Frames) later.
pub mod Entries
pub mod Tree
pub mod Grow
pub mod Walk
pub mod Map
pub mod Allocators
use jrinx.Base.{
  ℕ, zero, suc, ◌+◌, ◌-◌, ◌*◌, ◌/◌, ◌%◌, ◌^◌, Bool, true, false, not, ◌&&◌, Option, none, some,
  List, ◌==◌, if◌then◌else◌,
}
use jrinx.Kernel.{◌>>=◌}
use jrinx.Frames.{
  Region, palloc, pa2frame, frame2pa, phy_frame_alloc, phy_frame_ref_inc, phy_frame_ref_dec,
}
use jrinx.Syscalls.CreateProcess.{pgsize}

-- `pte_t` is a word: the bit `v`, the permissions, which hold it, and the page number.
abbrev pub is_valid : ℕ → Bool
is_valid e = e % 2 == 1

abbrev pub ppn : ℕ → ℕ
ppn e = e / 1024 % 2 ^ 44

abbrev pub perm_of : ℕ → ℕ
perm_of e = e % 1024

-- Writing `pp.ppn` and `pp.perm`.
abbrev pub with_ppn : ℕ → ℕ → ℕ
with_ppn p e = e / 2 ^ 54 * 2 ^ 54 + p * 1024 + e % 1024

abbrev pub with_perm : ℕ → ℕ → ℕ
with_perm perm e = e / 1024 * 1024 + perm % 1024

-- `pp.ppn` of an address, and the address that `pte2pa` gives.
abbrev pub page_of : ℕ → ℕ
page_of pa = pa / pgsize % 2 ^ 44

abbrev pub pte2pa : ℕ → ℕ
pte2pa e = ppn e * pgsize

abbrev pub vpn2 : ℕ → ℕ
vpn2 va = va / 2 ^ 30 % 512

abbrev pub vpn1 : ℕ → ℕ
vpn1 va = va / 2 ^ 21 % 512

abbrev pub vpn0 : ℕ → ℕ
vpn0 va = va / 2 ^ 12 % 512

-- The entry that points to a table.
abbrev pub table_entry : ℕ → ℕ
table_entry pa = with_ppn (page_of pa) 1

-- `pte_t *`.
pub record Pte : Type 0 where
  pub page : ℕ
  pub index : ℕ

abbrev pub Memory : Type 0
Memory = ℕ → ℕ → ℕ

abbrev pub write : ℕ → ℕ → ℕ → Memory → Memory
write p i e m q k = if (q == p) && (k == i) then e else m q k

-- `memset` of a page to 0.
abbrev pub zero_page : ℕ → Memory → Memory
zero_page p m q k = if q == p then 0 else m q k

pub record Vmm : Type 0 where
  pub memory : Memory
  pub regions : List Region
  pub freemem_base : ℕ

abbrev pub set_entry : ℕ → ℕ → ℕ → Vmm → Vmm
set_entry p i e s = record s { memory = write p i e s.memory }

-- What a call gives: `none` is a panic, the inner `none` the error -KER_MEM_ER.
abbrev pub Outcome : Type 0 → Type 0
Outcome A = Option (Option A × Vmm)

-- The variables `pt_frame_alloc`, `pt_frame_ref_inc` and `pt_frame_ref_dec`. The counting functions
-- return no errors.
pub record FrameOps : Type 0 where
  pub pt_frame_alloc : Vmm → Outcome ℕ
  pub pt_frame_ref_inc : ℕ → Vmm → Option Vmm
  pub pt_frame_ref_dec : ℕ → Vmm → Option Vmm

-- `pt_boot_...`; `kern_end` is where the kernel's image ends.
unfoldable pub boot_ops : ℕ → FrameOps
boot_ops kern_end = record {
  pt_frame_alloc = λ s.
      let r = palloc kern_end pgsize pgsize s.freemem_base in
      some (some r.0, record s { memory = zero_page (page_of r.0) s.memory; freemem_base = r.1 });
  pt_frame_ref_inc = λ pa s. some s;
  pt_frame_ref_dec = λ pa s. some s;
}

unfoldable pub pt_phy_frame_alloc : Vmm → Outcome ℕ
pt_phy_frame_alloc s = do
  r ← phy_frame_alloc s.regions
  elim r [
    | none ↦ some (none, s)
    | some (frame, regions) ↦ do
      pa ← frame2pa frame regions
      counted ← phy_frame_ref_inc frame regions
      some (some pa, record s { memory = zero_page (page_of pa) s.memory; regions = counted })
  ]

-- An address outside the regions belongs to a device and is not counted.
unfoldable pub pt_phy_frame_ref_inc : ℕ → Vmm → Option Vmm
pt_phy_frame_ref_inc pa s = elim (pa2frame pa s.regions) [
  | none ↦ some s
  | some frame ↦ do
    regions ← phy_frame_ref_inc frame s.regions
    some (record s { regions = regions })
]

unfoldable pub pt_phy_frame_ref_dec : ℕ → Vmm → Option Vmm
pt_phy_frame_ref_dec pa s = elim (pa2frame pa s.regions) [
  | none ↦ some s
  | some frame ↦ do
    result ← phy_frame_ref_dec frame s.regions
    regions ← result
    some (record s { regions = regions })
]

unfoldable pub phy_ops : FrameOps
phy_ops = record {
  pt_frame_alloc = pt_phy_frame_alloc;
  pt_frame_ref_inc = pt_phy_frame_ref_inc;
  pt_frame_ref_dec = pt_phy_frame_ref_dec;
}

-- `pa1.val != 0` tells whether the middle table is new.
abbrev pub give_back : FrameOps → ℕ → Vmm → Outcome (Option Pte)
give_back ops pa1 s =
    if pa1 == 0 then some (none, s) else do s' ← ops.pt_frame_ref_dec pa1 s; some (none, s')

-- The second half of `pt_walk`, in the middle table `t`: `some none` is NULL.
unfoldable pub walk_middle : FrameOps → Bool → ℕ → ℕ → ℕ → Vmm → Outcome (Option Pte)
walk_middle ops create t va pa1 s =
    if is_valid (s.memory t (vpn1 va))
    then some (some (some (record { page = ppn (s.memory t (vpn1 va)); index = vpn0 va })), s)
    else if not create
    then some (some none, s)
    else do
      r ← ops.pt_frame_alloc s
      elim r.0 [
        | none ↦ give_back ops pa1 r.1
        | some pa2 ↦
            let s' = set_entry t (vpn1 va) (table_entry pa2) r.1 in
            some (some (some (record { page = ppn (s'.memory t (vpn1 va)); index = vpn0 va })), s')
      ]

unfoldable pub pt_walk : FrameOps → Bool → ℕ → ℕ → Vmm → Outcome (Option Pte)
pt_walk ops create pgdir va s =
    if is_valid (s.memory pgdir (vpn2 va))
    then walk_middle ops create (ppn (s.memory pgdir (vpn2 va))) va 0 s
    else if not create
    then some (some none, s)
    else do
      r ← ops.pt_frame_alloc s
      elim r.0 [
        | none ↦ some (none, r.1)
        | some pa1 ↦
            let s' = set_entry pgdir (vpn2 va) (table_entry pa1) r.1 in
            walk_middle ops create (ppn (s'.memory pgdir (vpn2 va))) va pa1 s'
      ]

-- `pte == NULL || !pte->bits.v` gives NULL.
unfoldable pub valid_only : Vmm → Option Pte → Option Pte
valid_only s none = none
valid_only s (some p) = if is_valid (s.memory p.page p.index) then some p else none

unfoldable pub pt_lookup : FrameOps → ℕ → ℕ → Vmm → Outcome (Option Pte)
pt_lookup ops pgdir va s = do
  r ← pt_walk ops false pgdir va s
  elim r.0 [ none ↦ some (none, r.1) | some pte ↦ some (some (valid_only r.1 pte), r.1) ]

unfoldable pub unmap_at : FrameOps → Option Pte → Vmm → Outcome (Unit {0})
unmap_at ops none s = some (some tt, s)
unmap_at ops (some p) s = do
  s' ← ops.pt_frame_ref_dec (pte2pa (s.memory p.page p.index)) s
  some (some tt, set_entry p.page p.index 0 s')

unfoldable pub pt_unmap : FrameOps → ℕ → ℕ → Vmm → Outcome (Unit {0})
pt_unmap ops pgdir va s = do
  r ← pt_lookup ops pgdir va s
  elim r.0 [ none ↦ some (none, r.1) | some pte ↦ unmap_at ops pte r.1 ]

-- The entry with a page and permissions, which get the bit `v`.
abbrev pub mapped_entry : ℕ → ℕ → ℕ → ℕ
mapped_entry pa perm e = with_perm (perm / 2 * 2 + 1) (with_ppn (page_of pa) e)

unfoldable pub enter : FrameOps → ℕ → ℕ → Option Pte → Vmm → Outcome (Unit {0})
enter ops pa perm none s = none
enter ops pa perm (some p) s = do
  s' ←
      ops.pt_frame_ref_inc (pa / pgsize * pgsize)
        (set_entry p.page p.index (mapped_entry pa perm (s.memory p.page p.index)) s)
  some (some tt, s')

-- The walk that creates what is missing, and the entry.
unfoldable pub map_fresh : FrameOps → ℕ → ℕ → ℕ → ℕ → Vmm → Outcome (Unit {0})
map_fresh ops pgdir va pa perm s = do
  r ← pt_walk ops true pgdir va s
  elim r.0 [ none ↦ some (none, r.1) | some pte ↦ enter ops pa perm pte r.1 ]

-- The page that is mapped already, if it is, is unmapped first.
unfoldable pub map_over : FrameOps → ℕ → ℕ → ℕ → ℕ → Vmm → Option Pte → Outcome (Unit {0})
map_over ops pgdir va pa perm s none = map_fresh ops pgdir va pa perm s
map_over ops pgdir va pa perm s (some p) = do
  u ← pt_unmap ops pgdir va s
  elim u.0 [ none ↦ some (none, u.1) | some done ↦ map_fresh ops pgdir va pa perm u.1 ]

unfoldable pub pt_map : FrameOps → ℕ → ℕ → ℕ → ℕ → Vmm → Outcome (Unit {0})
pt_map ops pgdir va pa perm s = do
  r ← pt_walk ops false pgdir va s
  elim r.0 [
    | none ↦ some (none, r.1)
    | some pte ↦ map_over ops pgdir va pa perm r.1 (valid_only r.1 pte)
  ]
