-- ===== src/Paging/Walk/Create.antt =====
-- `pt_walk` of kern/mm/vmm.c with the creation of the tables that are missing.
use mathlib.Core.Path.{subst}
use jrinx.Base.{
  ℕ, suc, Option, ◌≡◌, ◌⊎◌, refl, sym, ap, ◌∙◌, inl, inr, true, false, Bool-cases, some, none, ◌==◌,
}
use jrinx.Paging.{
  is_valid, ppn, page_of, vpn2, vpn1, vpn0, table_entry, Memory, zero_page, write, Vmm, set_entry,
  FrameOps, Pte, Outcome, give_back, walk_middle, pt_walk,
}
use jrinx.Paging.Entries.{entry_at, table_entry-valid, write-same}
use jrinx.Paging.Tree.{Node, unused, middle, leaf, IsTree}
use jrinx.Paging.Grow.{assign, grown}
use jrinx.Paging.Grow.Middle.{grow_root-entry, grow_root-IsTree, grow_root-valid}
use jrinx.Paging.Grow.Leaf.{root_same, grow_middle-entry, grow_middle-IsTree}
use jrinx.Paging.Walk.{FrameLaws, SameEntries, entry_of, HasTables}

module _ (ops : FrameOps) (laws : FrameLaws ops) (pgdir va n : ℕ) where
  -- The walk has found the entry, in tables that are all there, or it has failed; in both cases the
  -- translations are as before.
  pub record Found (m : Memory) (result : Outcome (Option Pte)) : Type 0 where
    pub state : Vmm
    pub owner : ℕ → Node
    pub comes_back : result ≡ some (some (some (entry_of state.memory pgdir va)), state)
    pub tree : IsTree state.memory pgdir owner
    pub holds : laws.Holds n owner state
    pub tables : HasTables state.memory pgdir va
    pub same : SameEntries pgdir m state.memory

  abbrev pub Failed : {A : Type 0} → Memory → Outcome A → Type 0
  Failed m result = (s' : Vmm) × (result ≡ some (none, s')) × SameEntries pgdir m s'.memory

  -- A table of the last level is added.
  leaf_added :
      (s s1 : Vmm) (owner : ℕ → Node) (pa1 pa2 : ℕ)
      → IsTree s.memory pgdir owner
      → is_valid (s.memory pgdir (vpn2 va)) ≡ true
      → is_valid (s.memory (ppn (s.memory pgdir (vpn2 va))) (vpn1 va)) ≡ false
      → owner (page_of pa2) ≡ unused
      → ops.pt_frame_alloc s ≡ some (some pa2, s1)
      → s1.memory ≡ zero_page (page_of pa2) s.memory
      → ((role : Node) → laws.Holds n (assign (page_of pa2) role owner) s1)
      → Found s.memory (walk_middle ops true (ppn (s.memory pgdir (vpn2 va))) va pa1 s)
  unfolding walk_middle
  leaf_added s s1 owner pa1 pa2 tree yes2 no1 fresh alloc cleared holds1 =
      let t = ppn (s.memory pgdir (vpn2 va)) in
      let s' = set_entry t (vpn1 va) (table_entry pa2) s1 in
      let owner' = assign (page_of pa2) (leaf (vpn2 va) (vpn1 va)) owner in
      let m' : s'.memory ≡ grown t (vpn1 va) pa2 s.memory =
        ap (write t (vpn1 va) (table_entry pa2)) cleared in
      let at_root : s'.memory pgdir (vpn2 va) ≡ s.memory pgdir (vpn2 va) =
        ap (λ m. m pgdir (vpn2 va)) m'
        ∙ root_same s.memory pgdir owner tree (vpn2 va) (vpn1 va) pa2 yes2 no1 fresh (vpn2 va) in
      let at_middle : s'.memory t (vpn1 va) ≡ table_entry pa2 =
        write-same t (vpn1 va) (table_entry pa2) s1.memory in
      record {
        state = s';
        owner = owner';
        comes_back = rw no1 (
            rw alloc (
              ap
                (λ e. some (
                  some
                      (some (record { page = ppn (s'.memory (ppn e) (vpn1 va)); index = vpn0 va })),
                  s',
                ))
                (sym at_root)));
        tree =
            subst (λ m. IsTree m pgdir owner') (sym m')
              (grow_middle-IsTree s.memory pgdir owner tree (vpn2 va) (vpn1 va) pa2 yes2 no1 fresh);
        holds =
            laws.write_holds n owner' s1 t (vpn1 va) (table_entry pa2)
              (holds1 (leaf (vpn2 va) (vpn1 va)));
        tables = (
          ap is_valid at_root ∙ yes2,
          ap (λ e. is_valid (s'.memory (ppn e) (vpn1 va))) at_root
              ∙ ap is_valid at_middle
              ∙ table_entry-valid pa2,
        );
        same = λ i j k.
            ap (λ m. entry_at m pgdir i j k) m'
            ∙ grow_middle-entry s.memory pgdir owner tree (vpn2 va) (vpn1 va) pa2 yes2 no1 fresh i j
                k;
      }

  -- The tables for an address whose middle table is there. `back` is what happens to a new middle
  -- table when there is no frame for the last one.
  middle_lem :
      (s : Vmm) (owner : ℕ → Node) (pa1 : ℕ)
      → IsTree s.memory pgdir owner
      → laws.Holds (suc n) owner s
      → is_valid (s.memory pgdir (vpn2 va)) ≡ true
      → ((s2 : Vmm) × (give_back ops pa1 s ≡ some (none, s2)) × (s2.memory ≡ s.memory))
      → Found s.memory (walk_middle ops true (ppn (s.memory pgdir (vpn2 va))) va pa1 s)
        ⊎ Failed s.memory (walk_middle ops true (ppn (s.memory pgdir (vpn2 va))) va pa1 s)
  unfolding walk_middle
  middle_lem s owner pa1 tree holds yes2 back =
      elim (Bool-cases (is_valid (s.memory (ppn (s.memory pgdir (vpn2 va))) (vpn1 va)))) [
        | inl yes1 ↦ inl (record {
          state = s;
          owner = owner;
          comes_back = rw yes1 refl;
          tree = tree;
          holds = laws.fewer n owner s holds;
          tables = (yes2, yes1);
          same = λ i j k. refl;
        })
        | inr no1 ↦ elim (laws.alloc_total n owner s holds) [
          | inr failed ↦
              inr (
                back.0,
                rw no1 (rw failed back.1),
                λ i j k. ap (λ m. entry_at m pgdir i j k) back.2,
              )
          | inl (pa2, s1, alloc, fresh, cleared, holds1) ↦
              inl (leaf_added s s1 owner pa1 pa2 tree yes2 no1 fresh alloc cleared holds1)
        ]
      ]

  give_back_lem :
      (s s2 : Vmm) (pa1 : ℕ)
      → ops.pt_frame_ref_dec pa1 s ≡ some s2
      → (s3 : Vmm) × (give_back ops pa1 s ≡ some (none, s3)) × (s3.memory ≡ s.memory)
  give_back_lem s s2 pa1 dec = elim (Bool-cases (pa1 == 0)) [
    | inl zero ↦ (s, rw zero refl, refl)
    | inr new ↦ (s2, rw new (rw dec refl), laws.dec_memory s s2 pa1 dec)
  ]

  -- A walk that creates tables finds the entry of the address or fails for want of frames; no
  -- translation changes.
  pub walk_create_lem :
      (s : Vmm) (owner : ℕ → Node)
      → IsTree s.memory pgdir owner
      → laws.Holds (suc (suc n)) owner s
      → Found s.memory (pt_walk ops true pgdir va s) ⊎ Failed s.memory (pt_walk ops true pgdir va s)
  unfolding pt_walk
  walk_create_lem s owner tree holds = elim (Bool-cases (is_valid (s.memory pgdir (vpn2 va)))) [
    | inl yes2 ↦
        rw yes2 (middle_lem s owner 0 tree (laws.fewer (suc n) owner s holds) yes2 (s, refl, refl))
    | inr no2 ↦ elim (laws.alloc_total (suc n) owner s holds) [
      | inr failed ↦ inr (s, rw no2 (rw failed refl), λ i j k. refl)
      | inl (pa1, s1, alloc, fresh, cleared, holds1) ↦
          let s' = set_entry pgdir (vpn2 va) (table_entry pa1) s1 in
          let owner' = assign (page_of pa1) (middle (vpn2 va)) owner in
          let m' : s'.memory ≡ grown pgdir (vpn2 va) pa1 s.memory =
            ap (write pgdir (vpn2 va) (table_entry pa1)) cleared in
          let tree' : IsTree s'.memory pgdir owner' =
            subst (λ m. IsTree m pgdir owner') (sym m')
              (grow_root-IsTree s.memory pgdir owner tree (vpn2 va) pa1 no2 fresh) in
          let yes2 : is_valid (s'.memory pgdir (vpn2 va)) ≡ true =
            ap (λ m. is_valid (m pgdir (vpn2 va))) m'
            ∙ grow_root-valid s.memory pgdir owner tree (vpn2 va) pa1 no2 fresh in
          let same1 : SameEntries pgdir s.memory s'.memory = λ i j k.
            ap (λ m. entry_at m pgdir i j k) m'
            ∙ grow_root-entry s.memory pgdir owner tree (vpn2 va) pa1 no2 fresh i j k in
          let holds' =
            laws.write_holds (suc n) owner' s1 pgdir (vpn2 va) (table_entry pa1)
              (holds1 (middle (vpn2 va))) in
          let dec =
            laws.dec_new (suc n) owner s s1 pa1 pgdir (vpn2 va) (table_entry pa1) holds alloc in
          rw no2 (
            rw alloc
              (elim (middle_lem s' owner' pa1 tree' holds' yes2
                (give_back_lem s' dec.0 pa1 dec.1)) [
                  | inl f ↦ inl (record {
                    state = f.state;
                    owner = f.owner;
                    comes_back = f.comes_back;
                    tree = f.tree;
                    holds = f.holds;
                    tables = f.tables;
                    same = λ i j k. f.same i j k ∙ same1 i j k;
                  })
                  | inr f ↦ inr (f.0, f.1, λ i j k. f.2 i j k ∙ same1 i j k)
                ]))
    ]
  ]
