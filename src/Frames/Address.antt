-- ===== src/Frames/Address.antt =====
-- Addresses and frames of kern/mm/pmm.c correspond.
use mathlib.Core.Path.{subst}
use native.Mathlib.Nat.{mod-eq_of_lt}
use jrinx.Base.{
  ℕ, suc, ◌+◌, ◌-◌, ◌*◌, ◌/◌, ◌%◌, ◌^◌, ◌<◌, ◌≤◌, ◌≡◌, refl, sym, ap, ◌∙◌, inl, inr, true, ◌&&◌,
  Bool-cases, some, some_inj, List, [], ◌∷◌, length, get_elem?, All, ltb, leb, lt→ltb, arith,
}
use jrinx.Circbuf.{word}
use jrinx.Kernel.{>>=-eq-some}
use jrinx.Syscalls.CreateProcess.{pgsize}
use jrinx.Frames.{Region, PhyFrame, holds_address, sel_from, pa2sel, frame2sel, pa2frame, frame2pa}

-- A region in the address space, of whole pages, with a count for every frame.
abbrev pub IsRegion : Region → Type 0
IsRegion r = (r.mem_addr + r.mem_size < 2 ^ 64) × (r.mem_size ≡ length r.pf_ref * pgsize)

-- What the search has found.
sel_from-holds :
    (i addr : ℕ) (rs : List Region) {sel : ℕ}
    → sel_from i addr rs ≡ some sel
    → All IsRegion rs
    → (n : ℕ) × (r : Region) × (sel ≡ i + n)
      × (get_elem? rs n ≡ some r)
      × (holds_address addr r ≡ true)
      × IsRegion r
unfolding sel_from
sel_from-holds i addr [] e h = cc
sel_from-holds i addr (r ∷ rs) e h = elim (Bool-cases (holds_address addr r)) [
  | inl y ↦ let e' = rw y at e in (0, r, sym (some_inj e') ∙ omega arith, refl, y, h.0)
  | inr n ↦
      let e' = rw n at e in
      let ih = sel_from-holds (suc i) addr rs e' h.1 in
      (suc ih.0, ih.1, ih.2 ∙ omega arith, ih.3, ih.4, ih.5)
]

-- The frame is there, at the start of the page that the address lies in.
abbrev pub Located : ℕ → List Region → PhyFrame → Type 0
Located addr rs f =
    (pa : ℕ) × (r : Region) × (frame2pa f rs ≡ some pa)
    × (get_elem? rs f.sel ≡ some r)
    × (pa ≤ addr)
    × (addr < pa + pgsize)
    × ((pa - r.mem_addr) % pgsize ≡ 0)

located :
    (addr : ℕ) (rs : List Region) (sel : ℕ) (r : Region)
    → get_elem? rs sel ≡ some r
    → holds_address addr r ≡ true
    → IsRegion r
    → Located addr rs (record { sel = sel; place = (addr - r.mem_addr) / pgsize })
unfolding frame2pa frame2sel
located addr rs sel r at_sel holds (fits, whole) =
    let end : word (r.mem_addr + r.mem_size) ≡ r.mem_addr + r.mem_size = mod-eq_of_lt fits in
    let held : (leb r.mem_addr addr && ltb addr (r.mem_addr + r.mem_size)) ≡ true =
      ap (λ (t : ℕ). leb r.mem_addr addr && ltb addr t) (sym end) ∙ holds in
    let inside : (r.mem_addr ≤ addr) × (addr < r.mem_addr + r.mem_size) = ground (arith, held) in
    let there : ltb ((addr - r.mem_addr) / pgsize) (length r.pf_ref) ≡ true =
      lt→ltb _ _ (omega (arith, inside.0, inside.1)) in
    let exact : word (r.mem_addr + (addr - r.mem_addr) / pgsize * pgsize)
        ≡ r.mem_addr + (addr - r.mem_addr) / pgsize * pgsize =
      mod-eq_of_lt (omega (arith, inside.0, inside.1)) in
    (
      r.mem_addr + (addr - r.mem_addr) / pgsize * pgsize,
      r,
      rw (at_sel, frame2sel) (rw there (rw at_sel (rw exact refl))),
      at_sel,
      omega (arith, inside.0),
      omega (arith, inside.0),
      omega arith,
    )

-- An address that `pa2frame` finds a frame for, in regions of whole pages: the frame is there, and its
-- own address is the start of the page that the address lies in, counted from the region's start.
pub frame2pa-pa2frame :
    (addr : ℕ) (rs : List Region) (f : PhyFrame)
    → All IsRegion rs
    → pa2frame addr rs ≡ some f
    → Located addr rs f
unfolding pa2frame pa2sel
frame2pa-pa2frame addr rs f regions e =
    let (sel, found, e₁) = >>=-eq-some (sel_from 0 addr rs) _ e in
    let (n, r, same, at_n, holds, ok) = sel_from-holds 0 addr rs found regions in
    let at_sel : get_elem? rs sel ≡ some r = ap (get_elem? rs) (same ∙ omega arith) ∙ at_n in
    subst (Located addr rs) (some_inj (rw at_sel at e₁)) (located addr rs sel r at_sel holds ok)
