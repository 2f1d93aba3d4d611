-- ===== src/Paging/Map/Entered.antt =====
-- `pt_map` of kern/mm/vmm.c: the page of an address is mapped to a frame.
use mathlib.Core.Path.{subst}
use jrinx.Base.{
  ℕ, Bool, ◌+◌, ◌*◌, ◌/◌, ◌%◌, ◌≡◌, ◌⊎◌, refl, sym, ap, ◌∙◌, inl, inr, true, false, Option-cases,
  none, some, if◌then◌else◌,
}
use jrinx.Syscalls.CreateProcess.{pgsize}
use jrinx.Paging.{
  is_valid, ppn, perm_of, page_of, pte2pa, vpn2, vpn1, vpn0, write, Vmm, set_entry, Outcome,
  FrameOps, valid_only, mapped_entry, enter, map_fresh, map_over, pt_map,
}
use jrinx.Paging.Entries.{translation, mapped_entry-valid, ppn-mapped_entry, perm_of-mapped_entry}
use jrinx.Paging.Tree.{Node, IsTree}
use jrinx.Paging.Walk.{FrameLaws, last_table, entry_of, HasTables, walk-there, walk-lookup}
use jrinx.Paging.Walk.Create.{Failed, walk_create_lem}
use jrinx.Paging.Map.{
  Becomes, written-IsTree, written-HasTables, written-here, written-others, translated,
  invalid_entry, pt_unmap_lem,
}

module _ (ops : FrameOps) (laws : FrameLaws ops) (pgdir va pa perm : ℕ) where
  -- The page is mapped to the frame of `pa` with the permissions and the bit `v`.
  abbrev pub Mapped : Vmm → Outcome (Unit {0}) → Type 0
  Mapped s result =
      (s' : Vmm) × (e : ℕ) × (owner' : ℕ → Node) × (result ≡ some (some tt, s'))
      × (ppn e ≡ page_of pa)
      × (perm_of e ≡ perm % 1024 / 2 * 2 + 1)
      × Becomes pgdir va owner' s.memory (some e) s'

  enter_lem :
      (s : Vmm) (owner : ℕ → Node)
      → IsTree s.memory pgdir owner
      → laws.Holds 0 owner s
      → HasTables s.memory pgdir va
      → Mapped s (enter ops pa perm (some (entry_of s.memory pgdir va)) s)
  unfolding enter
  enter_lem s owner tree holds tables =
      let p = last_table s.memory pgdir va in
      let old = s.memory p (vpn0 va) in
      let e = mapped_entry pa perm old in
      let s1 = set_entry p (vpn0 va) e s in
      let holds1 = laws.write_holds 0 owner s p (vpn0 va) e holds in
      let counted = laws.inc_total 0 owner s1 (pa / pgsize * pgsize) holds1 in
      let m' : counted.0.memory ≡ write p (vpn0 va) e s.memory =
        laws.inc_memory s1 counted.0 (pa / pgsize * pgsize) counted.1 in
      (
        counted.0,
        e,
        owner,
        rw counted.1 refl,
        ppn-mapped_entry pa perm old,
        perm_of-mapped_entry pa perm old,
        record {
          tree =
              subst (λ m. IsTree m pgdir owner) (sym m')
                (written-IsTree pgdir va s.memory owner tree tables e);
          here =
              ap (λ m. translation m pgdir va) m'
              ∙ written-here pgdir va s.memory owner tree tables e
              ∙ rw (mapped_entry-valid pa perm old) refl;
          others = λ va' apart_va.
              ap (λ m. translation m pgdir va') m'
              ∙ written-others pgdir va s.memory owner tree tables e va' apart_va;
        },
      )

  -- A walk that creates tables, and the entry.
  map_fresh_lem :
      (s : Vmm) (owner : ℕ → Node)
      → IsTree s.memory pgdir owner
      → laws.Holds 2 owner s
      → Mapped s (map_fresh ops pgdir va pa perm s)
        ⊎ Failed ops laws pgdir va 0 s.memory (map_fresh ops pgdir va pa perm s)
  unfolding map_fresh
  map_fresh_lem s owner tree holds = elim (walk_create_lem ops laws pgdir va 0 s owner tree holds) [
    | inr (s', failed, same) ↦ inr (s', rw failed refl, same)
    | inl f ↦
        let done = enter_lem f.state f.owner f.tree f.holds f.tables in
        inl (
          done.0,
          done.1,
          done.2,
          rw f.comes_back done.3,
          done.4,
          done.5,
          record {
            tree = done.6.tree;
            here = done.6.here;
            others = λ va' apart_va.
                done.6.others va' apart_va ∙ f.same (vpn2 va') (vpn1 va') (vpn0 va');
          },
        )
  ]

  -- Where the tables are there, the entry decides.
  map-there :
      (s : Vmm) (b : Bool)
      → HasTables s.memory pgdir va
      → is_valid (s.memory (last_table s.memory pgdir va) (vpn0 va)) ≡ b
      → pt_map ops pgdir va pa perm s
        ≡ map_over ops pgdir va pa perm s (if b then some (entry_of s.memory pgdir va) else none)
  unfolding pt_map valid_only
  map-there s b tables e = rw (walk-there ops false pgdir va s tables) (
      ap
        (λ c.
          map_over ops pgdir va pa perm s (if c then some (entry_of s.memory pgdir va) else none))
        e)

  -- A page that is mapped already: its frame is given back first.
  remap_lem :
      (s s1 : Vmm) (owner : ℕ → Node) (e : ℕ)
      → IsTree s.memory pgdir owner
      → translation s.memory pgdir va ≡ some e
      → ops.pt_frame_ref_dec (pte2pa e) s ≡ some s1
      → laws.Holds 0 owner s1
      → Mapped s (pt_map ops pgdir va pa perm s)
  unfolding map_over map_fresh
  remap_lem s s1 owner e tree h dec holds1 =
      let (tables, at_e, valid) = translated ops pgdir va s e h in
      let p = last_table s.memory pgdir va in
      let (s', unmapped, is_s', becomes) = pt_unmap_lem ops laws pgdir va s s1 owner e tree h dec in
      let m' : s'.memory ≡ write p (vpn0 va) 0 s.memory =
        ap (λ (x : Vmm). x.memory) is_s'
        ∙ ap (write p (vpn0 va) 0) (laws.dec_memory s s1 (pte2pa e) dec) in
      let holds' : laws.Holds 0 owner s' =
        subst (laws.Holds 0 owner) (sym is_s') (laws.write_holds 0 owner s1 p (vpn0 va) 0 holds1) in
      let tables' : HasTables s'.memory pgdir va =
        subst (λ m. HasTables m pgdir va) (sym m')
          (written-HasTables pgdir va s.memory owner tree tables 0) in
      let done = enter_lem s' owner becomes.tree holds' tables' in
      (
        done.0,
        done.1,
        done.2,
        map-there s true tables (ap is_valid at_e ∙ valid)
            ∙ rw unmapped (rw (walk-there ops true pgdir va s' tables') done.3),
        done.4,
        done.5,
        record {
          tree = done.6.tree;
          here = done.6.here;
          others = λ va' apart_va. done.6.others va' apart_va ∙ becomes.others va' apart_va;
        },
      )

  -- In a tree of page tables, with an allocator that has the laws for two frames, and with a frame that
  -- can be given back where the page is mapped already, pt_map either maps the page to the frame with
  -- the permissions and the bit `v`, the tables being a tree and all other pages translated as
  -- before, or fails for want of frames, with every page translated as before.
  pub pt_map_lem :
      (s : Vmm) (owner : ℕ → Node)
      → IsTree s.memory pgdir owner
      → laws.Holds 2 owner s
      → ((e : ℕ)
          → translation s.memory pgdir va ≡ some e
          → (s1 : Vmm) × (ops.pt_frame_ref_dec (pte2pa e) s ≡ some s1) × laws.Holds 0 owner s1)
      → Mapped s (pt_map ops pgdir va pa perm s)
        ⊎ Failed ops laws pgdir va 0 s.memory (pt_map ops pgdir va pa perm s)
  unfolding pt_map map_over map_fresh valid_only
  pt_map_lem s owner tree holds back = elim (Option-cases (translation s.memory pgdir va)) [
    | inr (e, h) ↦
        let (s1, dec, holds1) = back e h in inl (remap_lem s s1 owner e tree h dec holds1)
    | inl nothing ↦ elim (walk-lookup ops pgdir va s) [
      | inr (null, _) ↦ rw null (map_fresh_lem s owner tree holds)
      | inl tables ↦
          let invalid = invalid_entry ops pgdir va s tables nothing in
          rw (map-there s false tables invalid) (map_fresh_lem s owner tree holds)
    ]
  ]
