-- ===== src/Paging/Map.antt =====
-- `pt_map` and `pt_unmap` of kern/mm/vmm.c against the translation that the tables stand for.
pub mod Entered
use mathlib.Core.Path.{subst}
use jrinx.Base.{
  ℕ, ◌+◌, ◌*◌, ◌/◌, ◌%◌, ◌^◌, ◌≡◌, ◌≢◌, ◌⊎◌, refl, sym, ap, ◌∙◌, inl, inr, true, false, Bool-cases,
  ==_iff, Option, none, some, some_inj, ◌==◌, if◌then◌else◌,
}
use jrinx.Kernel.{◌>>=◌}
use jrinx.Syscalls.CreateProcess.{pgsize}
use jrinx.Paging.{
  is_valid, ppn, perm_of, page_of, pte2pa, vpn2, vpn1, vpn0, Memory, write, Vmm, set_entry, Outcome,
  FrameOps, valid_only, pt_walk, pt_lookup, pt_unmap, unmap_at, mapped_entry, enter, map_fresh,
  pt_map,
}
use jrinx.Paging.Entries.{
  entry_at, translation, same_page, write-other, mapped_entry-valid, ppn-mapped_entry,
  perm_of-mapped_entry,
}
use jrinx.Paging.Tree.{
  Node, leaf, IsTree, apart, root≢leaf, middle≢leaf, write_leaf-IsTree, write_leaf-entry,
  write_leaf-here,
}
use jrinx.Paging.Walk.{
  FrameLaws, SameEntries, last_table, entry_of, HasTables, walk-there, walk-lookup,
}
use jrinx.Paging.Walk.Create.{Found, Failed, walk_create_lem}

-- Addresses of different pages.
abbrev pub Apart : ℕ → ℕ → Type 0
Apart va' va = va' / pgsize % 2 ^ 27 ≢ va / pgsize % 2 ^ 27

-- The other pages are translated as before.
abbrev pub OthersSame : ℕ → ℕ → Memory → Memory → Type 0
OthersSame pgdir va m m' =
    (va' : ℕ) → Apart va' va → translation m' pgdir va' ≡ translation m pgdir va'

module _ (pgdir va : ℕ) (m : Memory) (owner : ℕ → Node) (tree : IsTree m pgdir owner)
    (tables : HasTables m pgdir va) where
  pub its_leaf : owner (last_table m pgdir va) ≡ leaf (vpn2 va) (vpn1 va)
  its_leaf = tree.leaves (vpn2 va) (vpn1 va) tables.0 tables.1

  pub written-IsTree : (e : ℕ) → IsTree (write (last_table m pgdir va) (vpn0 va) e m) pgdir owner
  written-IsTree e =
      write_leaf-IsTree m pgdir owner tree (last_table m pgdir va) (vpn2 va) (vpn1 va) (vpn0 va) e
        its_leaf

  -- The tables on the way to the address are still there.
  pub written-HasTables : (e : ℕ) → HasTables (write (last_table m pgdir va) (vpn0 va) e m) pgdir va
  written-HasTables e =
      let p = last_table m pgdir va in
      let at_root =
        write-other p (vpn0 va) e m pgdir (vpn2 va)
          (apart owner pgdir p tree.at_root its_leaf root≢leaf) in
      let at_middle = write-other p (vpn0 va) e m (ppn (m pgdir (vpn2 va))) (vpn1 va) (
        apart owner (ppn (m pgdir (vpn2 va))) p (tree.middles (vpn2 va) tables.0) its_leaf
          middle≢leaf) in
      (
        ap is_valid at_root ∙ tables.0,
        ap (λ x. is_valid (write p (vpn0 va) e m (ppn x) (vpn1 va))) at_root
            ∙ ap is_valid at_middle
            ∙ tables.1,
      )

  pub written-here :
      (e : ℕ)
      → translation (write (last_table m pgdir va) (vpn0 va) e m) pgdir va
        ≡ (if is_valid e then some e else none)
  written-here e =
      write_leaf-here m pgdir owner tree (last_table m pgdir va) (vpn2 va) (vpn1 va) (vpn0 va) e
        its_leaf tables.0 tables.1 refl

  pub written-others : (e : ℕ) → OthersSame pgdir va m (write (last_table m pgdir va) (vpn0 va) e m)
  written-others e va' differ =
      write_leaf-entry m pgdir owner tree (last_table m pgdir va) (vpn2 va) (vpn1 va) (vpn0 va) e
        its_leaf (vpn2 va') (vpn1 va') (vpn0 va')
        (λ e2 e1. elim (Bool-cases (vpn0 va' == vpn0 va)) [
          | inr other ↦ other
          | inl same ↦
              absurd (differ (same_page va' va e2 e1 ((==_iff (vpn0 va') (vpn0 va)).0 same)))
        ])

-- A translation needs the tables, and is the entry there.
pub translated :
    (ops : FrameOps) (pgdir va : ℕ) (s : Vmm) (e : ℕ)
    → translation s.memory pgdir va ≡ some e
    → HasTables s.memory pgdir va
      × (s.memory (last_table s.memory pgdir va) (vpn0 va) ≡ e)
      × (is_valid e ≡ true)
translated ops pgdir va s e h = elim (walk-lookup ops pgdir va s) [
  | inr (null, nothing) ↦ let clash : none ≡ some e = sym nothing ∙ h in absurd cc
  | inl t ↦ elim (Bool-cases (is_valid (s.memory (last_table s.memory pgdir va) (vpn0 va)))) [
    | inl valid ↦
        let found : some (s.memory (last_table s.memory pgdir va) (vpn0 va)) ≡ some e =
          sym (rw t.0 (rw t.1 (rw valid refl))) ∙ h in
        let same = some_inj found in (t, same, ap is_valid (sym same) ∙ valid)
    | inr invalid ↦
        let clash : none ≡ some e = sym (rw t.0 (rw t.1 (rw invalid refl))) ∙ h in absurd cc
  ]
]

pub invalid_entry :
    (ops : FrameOps) (pgdir va : ℕ) (s : Vmm)
    → HasTables s.memory pgdir va
    → translation s.memory pgdir va ≡ none
    → is_valid (s.memory (last_table s.memory pgdir va) (vpn0 va)) ≡ false
invalid_entry ops pgdir va s t nothing =
    elim (Bool-cases (is_valid (s.memory (last_table s.memory pgdir va) (vpn0 va)))) [
      | inr invalid ↦ invalid
      | inl valid ↦
          let clash : some (s.memory (last_table s.memory pgdir va) (vpn0 va)) ≡ none =
            sym (rw t.0 (rw t.1 (rw valid refl))) ∙ nothing in
          absurd cc
    ]

-- What is to happen to the tables when the page of `va` becomes `e`: they stay a tree, the page is
-- translated to `e`, and the others as before.
pub record Becomes (pgdir va : ℕ) (owner : ℕ → Node) (m : Memory) (e : Option ℕ) (s' : Vmm)
    : Type 0 where
  pub tree : IsTree s'.memory pgdir owner
  pub here : translation s'.memory pgdir va ≡ e
  pub others : OthersSame pgdir va m s'.memory

-- pt_unmap of a page whose frame can be given back comes through: the tables stay a tree, the page
-- has no translation any more, and the other pages are translated as before.
pub pt_unmap_lem :
    (ops : FrameOps) (laws : FrameLaws ops) (pgdir va : ℕ) (s s1 : Vmm) (owner : ℕ → Node) (e : ℕ)
    → IsTree s.memory pgdir owner
    → translation s.memory pgdir va ≡ some e
    → ops.pt_frame_ref_dec (pte2pa e) s ≡ some s1
    → (s' : Vmm) × (pt_unmap ops pgdir va s ≡ some (some tt, s'))
      × (s' ≡ set_entry (last_table s.memory pgdir va) (vpn0 va) 0 s1)
      × Becomes pgdir va owner s.memory none s'
unfolding pt_unmap pt_lookup valid_only unmap_at
pt_unmap_lem ops laws pgdir va s s1 owner e tree h dec =
    let (tables, at_e, valid) = translated ops pgdir va s e h in
    let p = last_table s.memory pgdir va in
    let memory1 = laws.dec_memory s s1 (pte2pa e) dec in
    let m' : write p (vpn0 va) 0 s1.memory ≡ write p (vpn0 va) 0 s.memory =
      ap (write p (vpn0 va) 0) memory1 in
    (
      set_entry p (vpn0 va) 0 s1,
      rw (walk-there ops false pgdir va s tables)
          (rw (ap is_valid at_e ∙ valid) (rw at_e (rw dec refl))),
      refl,
      record {
        tree =
            subst (λ m. IsTree m pgdir owner) (sym m')
              (written-IsTree pgdir va s.memory owner tree tables 0);
        here =
            ap (λ m. translation m pgdir va) m'
            ∙ written-here pgdir va s.memory owner tree tables 0;
        others = λ va' apart_va.
            ap (λ m. translation m pgdir va') m'
            ∙ written-others pgdir va s.memory owner tree tables 0 va' apart_va;
      },
    )
