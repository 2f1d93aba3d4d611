-- ===== src/Paging/Tree.antt =====
-- The page tables in memory (kern/mm/vmm.c) are a tree of two levels of tables below the root.
use mathlib.Core.Path.{subst}
use jrinx.Base.{
  ℕ, ◌≡◌, ◌≢◌, refl, sym, ap, ◌∙◌, inl, inr, true, false, Bool-cases, ==_iff, none, some, ◌==◌,
  if◌then◌else◌,
}
use jrinx.Paging.{is_valid, ppn, Memory, write}
use jrinx.Paging.Entries.{entry_at, write-other, write-index, write-same, same_entry}

-- What a page is used for: the root, the table of an index of the root, the table of an index of that
-- one, or anything but a table.
pub data Node : Type 0 where
  unused root : Node
  middle : ℕ → Node
  leaf : ℕ → ℕ → Node

-- The tables from `pgdir` on are told apart by their places in the tree.
pub record IsTree (m : Memory) (pgdir : ℕ) (owner : ℕ → Node) : Type 0 where
  pub at_root : owner pgdir ≡ root
  pub middles : (i : ℕ) → is_valid (m pgdir i) ≡ true → owner (ppn (m pgdir i)) ≡ middle i
  pub leaves :
      (i j : ℕ)
      → is_valid (m pgdir i) ≡ true
      → is_valid (m (ppn (m pgdir i)) j) ≡ true
      → owner (ppn (m (ppn (m pgdir i)) j)) ≡ leaf i j

pub apart :
    (owner : ℕ → Node) (q p : ℕ) {n n' : Node}
    → owner q ≡ n
    → owner p ≡ n'
    → n ≢ n'
    → (q == p) ≡ false
apart owner q p at_q at_p differ = elim (Bool-cases (q == p)) [
  | inl e ↦ absurd (differ (sym at_q ∙ ap owner ((==_iff q p).0 e) ∙ at_p))
  | inr e ↦ e
]

pub root≢middle : {i : ℕ} → root ≢ middle i
root≢middle e = cc

pub root≢leaf : {i j : ℕ} → root ≢ leaf i j
root≢leaf e = cc

pub middle≢leaf : {a i j : ℕ} → middle a ≢ leaf i j
middle≢leaf e = cc

-- A tree stays one while the entries of its inner tables stay.
pub IsTree-agree :
    (m m' : Memory) (pgdir : ℕ) (owner : ℕ → Node)
    → IsTree m pgdir owner
    → ((k : ℕ) → m' pgdir k ≡ m pgdir k)
    → ((q i k : ℕ) → owner q ≡ middle i → m' q k ≡ m q k)
    → IsTree m' pgdir owner
IsTree-agree m m' pgdir owner tree same_root same_middle = record {
  at_root = tree.at_root;
  middles = λ i valid. rw (same_root i) (tree.middles i (ap is_valid (sym (same_root i)) ∙ valid));
  leaves = λ i j valid2 valid1.
      let valid2' = ap is_valid (sym (same_root i)) ∙ valid2 in
      let here = same_middle (ppn (m pgdir i)) i j (tree.middles i valid2') in
      let path : m' (ppn (m' pgdir i)) j ≡ m (ppn (m pgdir i)) j =
        ap (λ e. m' (ppn e) j) (same_root i) ∙ here in
      ap (λ e. owner (ppn e)) path ∙ tree.leaves i j valid2' (ap is_valid (sym path) ∙ valid1);
}

module _ (m : Memory) (pgdir : ℕ) (owner : ℕ → Node) (tree : IsTree m pgdir owner) (p i j k e : ℕ)
    (its_leaf : owner p ≡ leaf i j) where
  -- Writing an entry of the last level.
  pub write_leaf-IsTree : IsTree (write p k e m) pgdir owner
  write_leaf-IsTree =
      IsTree-agree m (write p k e m) pgdir owner tree
        (λ k'. write-other p k e m pgdir k' (apart owner pgdir p tree.at_root its_leaf root≢leaf))
        (λ q i' k' its_middle.
          write-other p k e m q k' (apart owner q p its_middle its_leaf middle≢leaf))

  -- It is not seen at other places.
  pub write_leaf-entry :
      (i' j' k' : ℕ)
      → (i' ≡ i → j' ≡ j → (k' == k) ≡ false)
      → entry_at (write p k e m) pgdir i' j' k' ≡ entry_at m pgdir i' j' k'
  write_leaf-entry i' j' k' elsewhere =
      same_entry m (write p k e m) pgdir i' j' k'
        (write-other p k e m pgdir i' (apart owner pgdir p tree.at_root its_leaf root≢leaf))
        (λ valid2.
          write-other p k e m (ppn (m pgdir i')) j'
            (apart owner (ppn (m pgdir i')) p (tree.middles i' valid2) its_leaf middle≢leaf))
        (λ valid2 valid1. read (ppn (m (ppn (m pgdir i')) j')) (tree.leaves i' j' valid2 valid1))
    where
      read : (q : ℕ) → owner q ≡ leaf i' j' → write p k e m q k' ≡ m q k'
      read q at_q = elim (Bool-cases (q == p)) [
        | inr other ↦ write-other p k e m q k' other
        | inl same ↦
            let eq : q ≡ p = (==_iff q p).0 same in
            let nodes : leaf i' j' ≡ leaf i j = sym at_q ∙ ap owner eq ∙ its_leaf in
            let same_i : i' ≡ i = cc in
            let same_j : j' ≡ j = cc in
            let index = elsewhere same_i same_j in
            subst (λ x. write p k e m x k' ≡ m x k') (sym eq) (write-index p k e m k' index)
      ]

  -- It is seen at its own place.
  pub write_leaf-here :
      is_valid (m pgdir i) ≡ true
      → is_valid (m (ppn (m pgdir i)) j) ≡ true
      → p ≡ ppn (m (ppn (m pgdir i)) j)
      → entry_at (write p k e m) pgdir i j k ≡ (if is_valid e then some e else none)
  write_leaf-here valid2 valid1 at_p =
      let root_read =
        write-other p k e m pgdir i (apart owner pgdir p tree.at_root its_leaf root≢leaf) in
      let middle_read =
        write-other p k e m (ppn (m pgdir i)) j
          (apart owner (ppn (m pgdir i)) p (tree.middles i valid2) its_leaf middle≢leaf) in
      let leaf_read : write p k e m (ppn (m (ppn (m pgdir i)) j)) k ≡ e =
        ap (λ q. write p k e m q k) (sym at_p) ∙ write-same p k e m in
      rw root_read (rw valid2 (rw middle_read (rw valid1 (rw leaf_read refl))))
