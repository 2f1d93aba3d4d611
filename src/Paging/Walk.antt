-- ===== src/Paging/Walk.antt =====
-- `pt_walk` and `pt_lookup` of kern/mm/vmm.c in a tree of page tables, with frames from an allocator
-- of which the laws are assumed.
pub mod Create
use mathlib.Core.Path.{subst}
use jrinx.Base.{
  ℕ, suc, Bool, ◌≡◌, ◌⊎◌, refl, sym, ap, ◌∙◌, inl, inr, true, false, Bool-cases, ==_iff, Option,
  none, some, ◌==◌, if◌then◌else◌,
}
use jrinx.Kernel.{◌>>=◌}
use jrinx.Paging.{
  is_valid, ppn, page_of, vpn2, vpn1, vpn0, table_entry, Pte, Memory, zero_page, Vmm, set_entry,
  FrameOps, give_back, walk_middle, pt_walk, valid_only, pt_lookup,
}
use jrinx.Paging.Entries.{entry_at, translation, table_entry-valid, no_middle, no_leaf}
use jrinx.Paging.Tree.{Node, unused, root, middle, leaf, IsTree}
use jrinx.Paging.Grow.{assign, grown, grown-child, root≢unused, middle≢unused}
use jrinx.Paging.Grow.Middle.{grow_root-entry, grow_root-IsTree}
use jrinx.Paging.Grow.Leaf.{grow_middle-entry, grow_middle-IsTree}

-- What page tables need of the frame functions, for a number of allocations: an allocation gives a
-- cleared page that is no table, or it fails and changes nothing; a new frame can be given back, and
-- counting comes through and leaves memory alone.
pub record FrameLaws (ops : FrameOps) : Type 1 where
  pub Holds : ℕ → (ℕ → Node) → Vmm → Type 0
  pub fewer : (n : ℕ) (owner : ℕ → Node) (s : Vmm) → Holds (suc n) owner s → Holds n owner s
  pub alloc_total :
      (n : ℕ) (owner : ℕ → Node) (s : Vmm)
      → Holds (suc n) owner s
      → ((pa : ℕ) × (s1 : Vmm) × (ops.pt_frame_alloc s ≡ some (some pa, s1))
          × (owner (page_of pa) ≡ unused)
          × (s1.memory ≡ zero_page (page_of pa) s.memory)
          × ((role : Node) → Holds n (assign (page_of pa) role owner) s1))
        ⊎ (ops.pt_frame_alloc s ≡ some (none, s))
  pub write_holds :
      (n : ℕ) (owner : ℕ → Node) (s : Vmm) (p i e : ℕ)
      → Holds n owner s
      → Holds n owner (set_entry p i e s)
  pub dec_new :
      (n : ℕ) (owner : ℕ → Node) (s s1 : Vmm) (pa p i e : ℕ)
      → Holds (suc n) owner s
      → ops.pt_frame_alloc s ≡ some (some pa, s1)
      → (s2 : Vmm) × (ops.pt_frame_ref_dec pa (set_entry p i e s1) ≡ some s2)
  pub dec_memory :
      (s s1 : Vmm) (pa : ℕ) → ops.pt_frame_ref_dec pa s ≡ some s1 → s1.memory ≡ s.memory
  pub inc_total :
      (n : ℕ) (owner : ℕ → Node) (s : Vmm) (pa : ℕ)
      → Holds n owner s
      → (s1 : Vmm) × (ops.pt_frame_ref_inc pa s ≡ some s1)
  pub inc_memory :
      (s s1 : Vmm) (pa : ℕ) → ops.pt_frame_ref_inc pa s ≡ some s1 → s1.memory ≡ s.memory

-- All translations are the same.
abbrev pub SameEntries : ℕ → Memory → Memory → Type 0
SameEntries pgdir m m' = (i j k : ℕ) → entry_at m' pgdir i j k ≡ entry_at m pgdir i j k

-- The pointer to the entry of an address, and the last table that it is in.
abbrev pub last_table : Memory → ℕ → ℕ → ℕ
last_table m pgdir va = ppn (m (ppn (m pgdir (vpn2 va))) (vpn1 va))

abbrev pub entry_of : Memory → ℕ → ℕ → Pte
entry_of m pgdir va = record { page = last_table m pgdir va; index = vpn0 va }

-- The tables on the way to an address are there.
abbrev pub HasTables : Memory → ℕ → ℕ → Type 0
HasTables m pgdir va =
    (is_valid (m pgdir (vpn2 va)) ≡ true)
    × (is_valid (m (ppn (m pgdir (vpn2 va))) (vpn1 va)) ≡ true)

pub walk-there :
    (ops : FrameOps) (create : Bool) (pgdir va : ℕ) (s : Vmm)
    → HasTables s.memory pgdir va
    → pt_walk ops create pgdir va s ≡ some (some (some (entry_of s.memory pgdir va)), s)
unfolding pt_walk walk_middle
walk-there ops create pgdir va s h = rw h.0 (rw h.1 refl)

-- Without the creation of tables, a walk finds the entry or gives NULL.
pub walk-lookup :
    (ops : FrameOps) (pgdir va : ℕ) (s : Vmm)
    → HasTables s.memory pgdir va
      ⊎ ((pt_walk ops false pgdir va s ≡ some (some none, s))
          × (translation s.memory pgdir va ≡ none))
unfolding pt_walk walk_middle
walk-lookup ops pgdir va s = elim (Bool-cases (is_valid (s.memory pgdir (vpn2 va)))) [
  | inr no2 ↦ inr (rw no2 refl, no_middle s.memory pgdir _ _ _ no2)
  | inl yes2 ↦ elim (Bool-cases (is_valid (s.memory (ppn (s.memory pgdir (vpn2 va))) (vpn1 va)))) [
    | inr no1 ↦ inr (rw yes2 (rw no1 refl), no_leaf s.memory pgdir _ _ _ no1)
    | inl yes1 ↦ inl (yes2, yes1)
  ]
]

-- The entry that a pointer points to, if it is valid: what the caller of `pt_lookup` reads.
abbrev pub seen : Vmm → Option Pte → Option ℕ
seen s none = none
seen s (some p) = some (s.memory p.page p.index)

-- pt_lookup never fails and changes nothing; the entry that it points to is the translation of the
-- address, and it gives NULL just where there is none.
pub pt_lookup_lem :
    (ops : FrameOps) (pgdir va : ℕ) (s : Vmm)
    → (pte : Option Pte) × (pt_lookup ops pgdir va s ≡ some (some pte, s))
      × (seen s pte ≡ translation s.memory pgdir va)
unfolding pt_lookup valid_only
pt_lookup_lem ops pgdir va s = elim (walk-lookup ops pgdir va s) [
  | inr (null, nothing) ↦ (none, rw null refl, sym nothing)
  | inl h ↦ (
    valid_only s (some (entry_of s.memory pgdir va)),
    rw (walk-there ops false pgdir va s h) refl,
    elim (Bool-cases (is_valid (s.memory (last_table s.memory pgdir va) (vpn0 va)))) [
      | inl valid ↦ rw valid (rw (h.0, h.1) refl)
      | inr invalid ↦ rw invalid (rw (h.0, h.1) refl)
    ],
  )
]
