-- ===== src/Paging/Grow/Middle.antt =====
-- `pt_walk` (kern/mm/vmm.c) adds a table to the root.
use mathlib.Core.Path.{subst}
use jrinx.Base.{ℕ, ◌≡◌, ◌≢◌, sym, ap, ◌∙◌, inl, inr, true, false, Bool-cases, ==_iff, ◌==◌}
use jrinx.Paging.{is_valid, ppn, page_of, Memory}
use jrinx.Paging.Entries.{entry_at, same_entry, table_entry-valid, no_middle, no_leaf}
use jrinx.Paging.Tree.{Node, unused, middle, IsTree, apart, root≢middle, root≢leaf}
use jrinx.Paging.Grow.{
  assign, grown, root≢unused, middle≢unused, leaf≢unused, elsewhere, beside, grown-child, keeps,
  assigned, child_empty, zero_invalid, false≢true,
}

-- A new middle table, for an index of the root that has none.
module _ (m : Memory) (pgdir : ℕ) (owner : ℕ → Node) (tree : IsTree m pgdir owner) (i pa : ℕ)
    (missing : is_valid (m pgdir i) ≡ false) (fresh : owner (page_of pa) ≡ unused) where
  at_i : (i' : ℕ) → (i' == i) ≡ true → i' ≡ i
  at_i i' e = (==_iff i' i).0 e

  root_beside : (i' : ℕ) → (i' == i) ≡ false → grown pgdir i pa m pgdir i' ≡ m pgdir i'
  root_beside i' = beside m owner pgdir i pa tree.at_root root≢unused fresh i'

  below_empty : (j : ℕ) → is_valid (grown pgdir i pa m (ppn (grown pgdir i pa m pgdir i)) j) ≡ false
  below_empty j = zero_invalid (child_empty m owner pgdir i pa tree.at_root root≢unused fresh j)

  -- The tables below the others keep their entries.
  middle_same :
      (i' j' : ℕ)
      → is_valid (m pgdir i') ≡ true
      → grown pgdir i pa m (ppn (m pgdir i')) j' ≡ m (ppn (m pgdir i')) j'
  middle_same i' j' valid =
      let at_q = tree.middles i' valid in
      elsewhere m owner pgdir i pa tree.at_root root≢unused fresh (ppn (m pgdir i')) j' at_q
        middle≢unused
        (apart owner (ppn (m pgdir i')) pgdir at_q tree.at_root (λ e. root≢middle (sym e)))

  pub grow_root-entry :
      (i' j' k' : ℕ) → entry_at (grown pgdir i pa m) pgdir i' j' k' ≡ entry_at m pgdir i' j' k'
  grow_root-entry i' j' k' = elim (Bool-cases (i' == i)) [
    | inl same ↦
        subst (λ x. entry_at (grown pgdir i pa m) pgdir x j' k' ≡ entry_at m pgdir x j' k')
          (sym (at_i i' same))
          (no_leaf (grown pgdir i pa m) pgdir i j' k' (below_empty j')
            ∙ sym (no_middle m pgdir i j' k' missing))
    | inr other ↦
        same_entry m (grown pgdir i pa m) pgdir i' j' k' (root_beside i' other)
          (λ valid. middle_same i' j' valid)
          (λ valid2 valid1.
            let at_q = tree.leaves i' j' valid2 valid1 in
            elsewhere m owner pgdir i pa tree.at_root root≢unused fresh
              (ppn (m (ppn (m pgdir i')) j')) k' at_q leaf≢unused
              (apart owner (ppn (m (ppn (m pgdir i')) j')) pgdir at_q tree.at_root
                (λ e. root≢leaf (sym e))))
  ]

  new_middle :
      (i' : ℕ)
      → i' ≡ i
      → assign (page_of pa) (middle i) owner (ppn (grown pgdir i pa m pgdir i')) ≡ middle i'
  new_middle i' eq =
      ap (λ x. assign (page_of pa) (middle i) owner (ppn (grown pgdir i pa m pgdir x))) eq
      ∙ ap (λ e. assign (page_of pa) (middle i) owner (ppn e))
          (grown-child m owner pgdir i pa tree.at_root root≢unused fresh)
      ∙ assigned m owner pgdir i pa tree.at_root root≢unused fresh (middle i)
      ∙ ap middle (sym eq)

  pub grow_root-IsTree : IsTree (grown pgdir i pa m) pgdir (assign (page_of pa) (middle i) owner)
  grow_root-IsTree = record {
    at_root = kept pgdir tree.at_root root≢unused;
    middles = λ i' valid. elim (Bool-cases (i' == i)) [
      | inl same ↦ new_middle i' (at_i i' same)
      | inr other ↦
          let read = root_beside i' other in
          let valid' = ap is_valid (sym read) ∙ valid in
          rw read (kept (ppn (m pgdir i')) (tree.middles i' valid') middle≢unused)
    ];
    leaves = λ i' j' valid2 valid1. elim (Bool-cases (i' == i)) [
      | inl same ↦
          let empty =
            ap (λ x. is_valid (grown pgdir i pa m (ppn (grown pgdir i pa m pgdir x)) j'))
              (at_i i' same) in
          absurd (false≢true (empty ∙ below_empty j') valid1)
      | inr other ↦
          let read = root_beside i' other in
          let valid2' = ap is_valid (sym read) ∙ valid2 in
          let path = ap (λ e. grown pgdir i pa m (ppn e) j') read ∙ middle_same i' j' valid2' in
          let valid1' = ap is_valid (sym path) ∙ valid1 in
          ap (λ e. assign (page_of pa) (middle i) owner (ppn e)) path
          ∙ kept (ppn (m (ppn (m pgdir i')) j')) (tree.leaves i' j' valid2' valid1') leaf≢unused
    ];
  }
    where
      kept :
          (q : ℕ) {n' : Node}
          → owner q ≡ n'
          → n' ≢ unused
          → assign (page_of pa) (middle i) owner q ≡ n'
      kept q = keeps m owner pgdir i pa tree.at_root root≢unused fresh (middle i) q

  -- The new table is there.
  pub grow_root-valid : is_valid (grown pgdir i pa m pgdir i) ≡ true
  grow_root-valid =
      ap is_valid (grown-child m owner pgdir i pa tree.at_root root≢unused fresh)
      ∙ table_entry-valid pa
