-- ===== src/Paging/Grow.antt =====
-- New tables in the tree (`pt_walk` of kern/mm/vmm.c): the tree stays one, no translation changes.
pub mod Middle
pub mod Leaf
use mathlib.Core.Path.{subst}
use jrinx.Base.{
  ℕ, Bool, ◌≡◌, ◌≢◌, refl, sym, ap, ◌∙◌, inl, inr, true, false, Bool-cases, ==_iff, Option, none,
  some, ◌==◌, if◌then◌else◌,
}
use jrinx.Paging.{is_valid, ppn, page_of, table_entry, Memory, write, zero_page}
use jrinx.Paging.Entries.{
  entry_at, write-other, write-index, write-same, same_entry, table_entry-valid, ppn-table_entry,
  no_middle, no_leaf, no_entry,
}
use jrinx.Paging.Tree.{
  Node, unused, root, middle, leaf, IsTree, apart, root≢middle, root≢leaf, middle≢leaf,
}

-- The page `p` becomes a table.
abbrev pub assign : ℕ → Node → (ℕ → Node) → ℕ → Node
assign p n owner q = if q == p then n else owner q

-- The memory with a cleared table that entry `k` of table `t` points to.
abbrev pub grown : ℕ → ℕ → ℕ → Memory → Memory
grown t k pa m = write t k (table_entry pa) (zero_page (page_of pa) m)

pub root≢unused : root ≢ unused
root≢unused e = cc

pub middle≢unused : {i : ℕ} → middle i ≢ unused
middle≢unused e = cc

pub leaf≢unused : {i j : ℕ} → leaf i j ≢ unused
leaf≢unused e = cc

module _ (m : Memory) (owner : ℕ → Node) (t k pa : ℕ) {n_t : Node} (at_t : owner t ≡ n_t)
    (used : n_t ≢ unused) (fresh : owner (page_of pa) ≡ unused) where
  -- Tables apart from `t` keep their entries, and so does `t` apart from the new one.
  pub elsewhere :
      (q k' : ℕ) {n : Node}
      → owner q ≡ n
      → n ≢ unused
      → (q == t) ≡ false
      → grown t k pa m q k' ≡ m q k'
  elsewhere q k' at_q h other =
      write-other t k (table_entry pa) (zero_page (page_of pa) m) q k' other
      ∙ rw (apart owner q (page_of pa) at_q fresh h) refl

  pub beside : (k' : ℕ) → (k' == k) ≡ false → grown t k pa m t k' ≡ m t k'
  beside k' other =
      write-index t k (table_entry pa) (zero_page (page_of pa) m) k' other
      ∙ rw (apart owner t (page_of pa) at_t fresh used) refl

  pub grown-child : grown t k pa m t k ≡ table_entry pa
  grown-child = write-same t k (table_entry pa) (zero_page (page_of pa) m)

  pub grown-cleared : (k' : ℕ) → grown t k pa m (page_of pa) k' ≡ 0
  grown-cleared k' =
      write-other t k (table_entry pa) (zero_page (page_of pa) m) (page_of pa) k'
        (apart owner (page_of pa) t fresh at_t (λ e. used (sym e)))
      ∙ rw ((==_iff (page_of pa) (page_of pa)).1 refl) refl

  pub keeps :
      (n : Node) (q : ℕ) {n' : Node}
      → owner q ≡ n'
      → n' ≢ unused
      → assign (page_of pa) n owner q ≡ n'
  keeps n q at_q h = rw (apart owner q (page_of pa) at_q fresh h) at_q

  pub assigned : (n : Node) → assign (page_of pa) n owner (ppn (table_entry pa)) ≡ n
  assigned n = rw (ppn-table_entry pa) (rw ((==_iff (page_of pa) (page_of pa)).1 refl) refl)

  pub child_empty : (k' : ℕ) → grown t k pa m (ppn (grown t k pa m t k)) k' ≡ 0
  child_empty k' =
      ap (λ e. grown t k pa m (ppn e) k') grown-child
      ∙ ap (λ p. grown t k pa m p k') (ppn-table_entry pa)
      ∙ grown-cleared k'

pub zero_invalid : {e : ℕ} → e ≡ 0 → is_valid e ≡ false
zero_invalid h = rw h refl

pub false≢true : {b : Bool} → b ≡ false → b ≡ true → ⊥
false≢true f t = cc
