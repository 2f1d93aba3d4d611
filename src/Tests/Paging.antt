-- ===== src/Tests/Paging.antt =====
-- Page tables at small inputs.
use mathlib.Core.Path.{subst}
use jrinx.Base.{
  ℕ, ◌≡◌, ◌⊎◌, refl, sym, inl, inr, true, Bool-cases, ==_iff, Option, none, some, List, [], ◌∷◌,
  ◌==◌, if◌then◌else◌, arith,
}
use jrinx.Kernel.{◌>>=◌}
use jrinx.Syscalls.CreateProcess.{align_up}
use jrinx.Frames.{
  Region, palloc, phy_frame_ref_inc, phy_frame_ref_dec, phy_frame_free, pa2frame, pa2sel, sel_from,
  frame2sel, ref_of, set_ref,
}
use jrinx.Paging.{
  is_valid, ppn, table_entry, mapped_entry, Memory, write, Vmm, set_entry, Pte, boot_ops, phy_ops,
  pt_lookup, pt_unmap, pt_map, pt_walk, walk_middle, valid_only, map_over, unmap_at, map_fresh,
  enter, pt_phy_frame_ref_inc, pt_phy_frame_ref_dec,
}
use jrinx.Paging.Entries.{translation}
use jrinx.Paging.Tree.{Node, unused, root, middle, leaf, IsTree}
use jrinx.Paging.Walk.{seen, pt_lookup_lem}
use jrinx.Paging.Walk.Create.{Failed}
use jrinx.Paging.Map.{Becomes, pt_unmap_lem}
use jrinx.Paging.Map.Entered.{Mapped, pt_map_lem}
use jrinx.Paging.Allocators.{HasRoom, boot_laws}

-- An empty root table at page 1; the kernel ends at page 512.
abbrev empty : Vmm
empty = record { memory = λ q k. 0; regions = []; freemem_base = 0 }

abbrev root_only : ℕ → Node
root_only q = if q == 1 then root else unused

abbrev kern_end : ℕ
kern_end = 2097152

empty-IsTree : IsTree empty.memory 1 root_only
empty-IsTree = record { at_root = refl; middles = λ i e. cc; leaves = λ i j e. cc }

empty-HasRoom : HasRoom kern_end 2 root_only empty
unfolding palloc align_up
empty-HasRoom = (omega arith, λ q from. ground (arith, from))

-- The page at 5 * 4096 is mapped to page 77, readable and writable.
pt_map_example :
    Mapped
      (boot_ops kern_end)
      (boot_laws kern_end)
      1
      20480
      315392
      6
      empty
      (pt_map (boot_ops kern_end) 1 20480 315392 6 empty)
    ⊎ Failed
        (boot_ops kern_end)
        (boot_laws kern_end)
        1
        20480
        0
        empty.memory
        (pt_map (boot_ops kern_end) 1 20480 315392 6 empty)
unfolding boot_laws
pt_map_example =
    pt_map_lem (boot_ops kern_end) (boot_laws kern_end) 1 20480 315392 6 empty root_only
      empty-IsTree empty-HasRoom (λ e none_there. cc)

-- The tables after that, with the middle table at page 2 and the last one at page 3.
abbrev one_page : Memory
one_page =
    write 3 5 (mapped_entry 315392 6 0)
      (write 2 0 (table_entry 12288) (write 1 0 (table_entry 8192) empty.memory))

abbrev one_page_owner : ℕ → Node
one_page_owner q =
    if q == 1 then root else if q == 2 then middle 0 else if q == 3 then leaf 0 0 else unused

abbrev mapped : Vmm
mapped = record empty { memory = one_page }

one_page-root : (i : ℕ) → is_valid (one_page 1 i) ≡ true → i ≡ 0
one_page-root i e = elim (Bool-cases (i == 0)) [
  | inl z ↦ (==_iff i 0).0 z
  | inr n ↦ let none_there = rw n at e in cc
]

one_page-middle : (j : ℕ) → is_valid (one_page 2 j) ≡ true → j ≡ 0
one_page-middle j e = elim (Bool-cases (j == 0)) [
  | inl z ↦ (==_iff j 0).0 z
  | inr n ↦ let none_there = rw n at e in cc
]

one_page-IsTree : IsTree one_page 1 one_page_owner
one_page-IsTree = record {
  at_root = refl;
  middles = λ i e.
      let at_0 = one_page-root i e in
      subst (λ x. one_page_owner (ppn (one_page 1 x)) ≡ middle x) (sym at_0) refl;
  leaves = λ i j e.
      subst
        (λ x.
          is_valid (one_page (ppn (one_page 1 x)) j) ≡ true
          → one_page_owner (ppn (one_page (ppn (one_page 1 x)) j)) ≡ leaf x j)
        (sym (one_page-root i e))
        (λ e1.
          subst (λ y. one_page_owner (ppn (one_page 2 y)) ≡ leaf 0 y) (sym (one_page-middle j e1))
            refl);
}

pt_lookup_example :
    (pte : Option Pte) × (pt_lookup (boot_ops kern_end) 1 20480 mapped ≡ some (some pte, mapped))
    × (seen mapped pte ≡ translation one_page 1 20480)
pt_lookup_example = pt_lookup_lem (boot_ops kern_end) 1 20480 mapped

pt_unmap_example :
    (s' : Vmm) × (pt_unmap (boot_ops kern_end) 1 20480 mapped ≡ some (some tt, s'))
    × (s' ≡ set_entry 3 5 0 mapped)
    × Becomes 1 20480 one_page_owner one_page none s'
unfolding boot_ops
pt_unmap_example =
    pt_unmap_lem (boot_ops kern_end) (boot_laws kern_end) 1 20480 mapped mapped one_page_owner
      (mapped_entry 315392 6 0) one_page-IsTree refl refl

-- The frame at page 4 has one reference, from the mapping; mapping its page again with other
-- permissions frees it before it is counted again: it is in use and free at the same time.
abbrev table_frames : List ℕ → Region
table_frames free = record {
  mem_addr = 8192;
  mem_size = 12288;
  pf_free_list = free;
  pf_ref = 1 ∷ 1 ∷ 1 ∷ [];
}

abbrev last_mapping : Vmm
last_mapping = record {
  memory = write 3 5 (mapped_entry 16384 6 0) one_page;
  regions = table_frames [] ∷ [];
  freemem_base = 0;
}

mapped_and_free :
    (pt_map phy_ops 1 20480 16384 2 last_mapping >>= λ r. some r.1.regions)
    ≡ some (table_frames (2 ∷ []) ∷ [])
unfolding pt_map pt_walk walk_middle valid_only map_over pt_unmap pt_lookup unmap_at map_fresh enter
    phy_ops pt_phy_frame_ref_inc pt_phy_frame_ref_dec phy_frame_ref_inc phy_frame_ref_dec
    phy_frame_free pa2frame pa2sel sel_from frame2sel ref_of set_ref
mapped_and_free = refl
