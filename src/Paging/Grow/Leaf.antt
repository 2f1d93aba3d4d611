-- ===== src/Paging/Grow/Leaf.antt =====
-- `pt_walk` (kern/mm/vmm.c) adds a table to a middle table.
use mathlib.Core.Path.{subst}
use jrinx.Base.{
  ℕ, ◌&&◌, arith, ◌≡◌, ◌≢◌, sym, ap, ◌∙◌, inl, inr, true, false, Bool-cases, ==_iff, ◌==◌,
}
use jrinx.Paging.{is_valid, ppn, page_of, table_entry, Memory}
use jrinx.Paging.Entries.{entry_at, same_entry, no_leaf, no_entry}
use jrinx.Paging.Tree.{Node, unused, middle, leaf, IsTree, apart, root≢middle, middle≢leaf}
use jrinx.Paging.Grow.{
  assign, grown, root≢unused, middle≢unused, leaf≢unused, elsewhere, beside, grown-child, keeps,
  assigned, child_empty, zero_invalid,
}

module _ (m : Memory) (pgdir : ℕ) (owner : ℕ → Node) (tree : IsTree m pgdir owner) (i j pa : ℕ)
    (has_middle : is_valid (m pgdir i) ≡ true) (missing : is_valid (m (ppn (m pgdir i)) j) ≡ false)
    (fresh : owner (page_of pa) ≡ unused) where
  abbrev t : ℕ
  t = ppn (m pgdir i)

  abbrev m' : Memory
  m' = grown t j pa m

  at_t : owner t ≡ middle i
  at_t = tree.middles i has_middle

  pub root_same : (i' : ℕ) → m' pgdir i' ≡ m pgdir i'
  root_same i' =
      elsewhere m owner t j pa at_t middle≢unused fresh pgdir i' tree.at_root root≢unused
        (apart owner pgdir t tree.at_root at_t root≢middle)

  -- Another entry of a middle table.
  middle_same :
      (i' j' : ℕ)
      → is_valid (m pgdir i') ≡ true
      → (i' ≡ i → (j' == j) ≡ false)
      → m' (ppn (m pgdir i')) j' ≡ m (ppn (m pgdir i')) j'
  middle_same i' j' valid other = elim (Bool-cases (ppn (m pgdir i') == t)) [
    | inr table ↦
        elsewhere m owner t j pa at_t middle≢unused fresh (ppn (m pgdir i')) j'
          (tree.middles i' valid) middle≢unused table
    | inl table ↦
        let eq : ppn (m pgdir i') ≡ t = (==_iff (ppn (m pgdir i')) t).0 table in
        let nodes : middle i' ≡ middle i = sym (tree.middles i' valid) ∙ ap owner eq ∙ at_t in
        let same_i : i' ≡ i = cc in
        subst (λ q. m' q j' ≡ m q j') (sym eq)
          (beside m owner t j pa at_t middle≢unused fresh j' (other same_i))
  ]

  leaf_same :
      (i' j' k' : ℕ)
      → is_valid (m pgdir i') ≡ true
      → is_valid (m (ppn (m pgdir i')) j') ≡ true
      → m' (ppn (m (ppn (m pgdir i')) j')) k' ≡ m (ppn (m (ppn (m pgdir i')) j')) k'
  leaf_same i' j' k' valid2 valid1 =
      let at_q = tree.leaves i' j' valid2 valid1 in
      elsewhere m owner t j pa at_t middle≢unused fresh (ppn (m (ppn (m pgdir i')) j')) k' at_q
        leaf≢unused
        (apart owner (ppn (m (ppn (m pgdir i')) j')) t at_q at_t (λ e. middle≢leaf (sym e)))

  pub child : m' (ppn (m' pgdir i)) j ≡ table_entry pa
  child = ap (λ e. m' (ppn e) j) (root_same i) ∙ grown-child m owner t j pa at_t middle≢unused fresh

  below_empty : (k : ℕ) → is_valid (m' (ppn (m' (ppn (m' pgdir i)) j)) k) ≡ false
  below_empty k =
      ap (λ e. is_valid (m' (ppn (m' (ppn e) j)) k)) (root_same i)
      ∙ zero_invalid (child_empty m owner t j pa at_t middle≢unused fresh k)

  pub grow_middle-entry : (i' j' k' : ℕ) → entry_at m' pgdir i' j' k' ≡ entry_at m pgdir i' j' k'
  grow_middle-entry i' j' k' = elim (Bool-cases (i' == i && j' == j)) [
    | inl same ↦
        let eq_i : i' ≡ i = ground (arith, same) in
        let eq_j : j' ≡ j = ground (arith, same) in
        subst (λ x. entry_at m' pgdir x j' k' ≡ entry_at m pgdir x j' k') (sym eq_i)
          (subst (λ x. entry_at m' pgdir i x k' ≡ entry_at m pgdir i x k') (sym eq_j)
            (no_entry m' pgdir i j k' (below_empty k') ∙ sym (no_leaf m pgdir i j k' missing)))
    | inr other ↦
        let apart_j : i' ≡ i → (j' == j) ≡ false = λ e. ground (arith, other, e) in
        same_entry m m' pgdir i' j' k' (root_same i') (λ v. middle_same i' j' v apart_j)
          (leaf_same i' j' k')
  ]

  kept :
      (q : ℕ) {n' : Node} → owner q ≡ n' → n' ≢ unused → assign (page_of pa) (leaf i j) owner q ≡ n'
  kept q = keeps m owner t j pa at_t middle≢unused fresh (leaf i j) q

  new_leaf : assign (page_of pa) (leaf i j) owner (ppn (m' (ppn (m' pgdir i)) j)) ≡ leaf i j
  new_leaf =
      ap (λ e. assign (page_of pa) (leaf i j) owner (ppn e)) child
      ∙ assigned m owner t j pa at_t middle≢unused fresh (leaf i j)

  pub grow_middle-IsTree : IsTree m' pgdir (assign (page_of pa) (leaf i j) owner)
  grow_middle-IsTree = record {
    at_root = kept pgdir tree.at_root root≢unused;
    middles = λ i' valid. rw (root_same i') (
        kept (ppn (m pgdir i')) (tree.middles i' (ap is_valid (sym (root_same i')) ∙ valid))
          middle≢unused);
    leaves = λ i' j' valid2 valid1. elim (Bool-cases (i' == i && j' == j)) [
      | inl same ↦
          let eq_i : i' ≡ i = ground (arith, same) in
          let eq_j : j' ≡ j = ground (arith, same) in
          ap (λ x. assign (page_of pa) (leaf i j) owner (ppn (m' (ppn (m' pgdir x)) j'))) eq_i
          ∙ ap (λ x. assign (page_of pa) (leaf i j) owner (ppn (m' (ppn (m' pgdir i)) x))) eq_j
          ∙ new_leaf
          ∙ cc
      | inr other ↦
          let apart_j : i' ≡ i → (j' == j) ≡ false = λ e. ground (arith, other, e) in
          let valid2' = ap is_valid (sym (root_same i')) ∙ valid2 in
          let path : m' (ppn (m' pgdir i')) j' ≡ m (ppn (m pgdir i')) j' =
            ap (λ e. m' (ppn e) j') (root_same i') ∙ middle_same i' j' valid2' apart_j in
          ap (λ e. assign (page_of pa) (leaf i j) owner (ppn e)) path
          ∙ kept (ppn (m (ppn (m pgdir i')) j'))
              (tree.leaves i' j' valid2' (ap is_valid (sym path) ∙ valid1)) leaf≢unused
    ];
  }
