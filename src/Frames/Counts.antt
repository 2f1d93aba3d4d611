-- ===== src/Frames/Counts.antt =====
-- The free lists and the reference counts of kern/mm/pmm.c stay consistent.
use mathlib.Core.Path.{subst}
use jrinx.Base.{
  ℕ, suc, ◌+◌, ◌*◌, ◌≡◌, ◌≤◌, ◌<◌, ◌⊎◌, some_inj, refl, sym, ap, ◌∙◌, inl, inr, true, false,
  Bool-cases, none, some, List, [], ◌∷◌, length, get_elem?, set_elem, get_elem?-set_elem,
  get_elem?-set_elem_self, contains, All, All-set_elem, All-get_elem?, lt-get_elem?, NoDup, ltb,
  lt→ltb, ◌==◌, arith,
}
use jrinx.Circbuf.{word}
use jrinx.Syscalls.CreateProcess.{pgsize}
use jrinx.Kernel.{◌>>=◌}
use jrinx.Frames.{
  Region, PhyFrame, frame2sel, frame2pa, alloc_from, take_first, phy_frame_alloc, ref_of,
}

-- No frame is twice in the free list, and those in it have no references.
abbrev pub IsConsistent : Region → Type 0
IsConsistent r = NoDup r.pf_free_list × All (λ p. get_elem? r.pf_ref p ≡ some 0) r.pf_free_list

-- A frame with references is not in the free list.
pub not_free :
    (refs ps : List ℕ) (q n : ℕ)
    → All (λ p. get_elem? refs p ≡ some 0) ps
    → get_elem? refs q ≡ some (suc n)
    → contains q ps ≡ false
not_free refs [] q n h e = refl
not_free refs (p ∷ ps) q n h e = elim (Bool-cases (p == q)) [
  | inl same ↦
      let eq : p ≡ q = ground arith in absurd (ground (arith, h.0, e, ap (get_elem? refs) eq))
  | inr other ↦ rw other (not_free refs ps q n h.1 e)
]

-- A count of a frame that is not in the list does not matter to it.
pub zero_refs_set :
    (refs ps : List ℕ) (q n m : ℕ)
    → get_elem? refs q ≡ some m
    → contains q ps ≡ false
    → All (λ p. get_elem? refs p ≡ some 0) ps
    → All (λ p. get_elem? (set_elem q n refs) p ≡ some 0) ps
zero_refs_set refs [] q n m at h a = tt
zero_refs_set refs (p ∷ ps) q n m at h a =
    let set = get_elem?-set_elem q n refs p at in
    let apart : (p == q) ≡ false = ground arith in
    let rest : contains q ps ≡ false = ground arith in
    (set ∙ rw apart a.0, zero_refs_set refs ps q n m at rest a.1)

-- The frame that an allocation takes.
pub record Taken (rs : List Region) (f : PhyFrame) (rs' : List Region) : Type 0 where
  pub region : Region
  pub others : List ℕ
  pub its_region : get_elem? rs f.sel ≡ some region
  pub was_first : region.pf_free_list ≡ f.place ∷ others
  pub changed : rs' ≡ set_elem f.sel (record region { pf_free_list = others }) rs
  pub not_again : contains f.place others ≡ false
  pub unreferenced : ref_of f rs' ≡ some 0
  pub consistent : All IsConsistent rs'

-- The free lists of the regions before one are empty.
abbrev pub EmptyBetween : ℕ → ℕ → List Region → Type 0
EmptyBetween i sel rs =
    (j : ℕ) (r : Region) → i ≤ j → j < sel → get_elem? rs j ≡ some r → r.pf_free_list ≡ []

abbrev Outcome : ℕ → List Region → List Region → Type 0
Outcome i rs rest =
    ((alloc_from i rs rest ≡ some none) × All (λ r. r.pf_free_list ≡ []) rest)
    ⊎ ((f : PhyFrame) × (rs' : List Region) × (alloc_from i rs rest ≡ some (some (f, rs')))
        × Taken rs f rs'
        × (i ≤ f.sel)
        × EmptyBetween i f.sel rs)

-- A region with an empty list before those that were searched.
EmptyBetween-empty :
    (i sel : ℕ) (rs : List Region) (r : Region)
    → get_elem? rs i ≡ some r
    → r.pf_free_list ≡ []
    → EmptyBetween (suc i) sel rs
    → EmptyBetween i sel rs
EmptyBetween-empty i sel rs r at_i empty later j r' from below at_j = elim (Bool-cases (i == j)) [
  | inl same ↦
      let eq : i ≡ j = ground arith in
      let r-r' : r ≡ r' = some_inj (sym at_i ∙ ap (get_elem? rs) eq ∙ at_j) in
      subst (λ (x : Region). x.pf_free_list ≡ []) r-r' empty
  | inr apart ↦ later j r' (ground arith) below at_j
]

first-Taken :
    (rs : List Region) (i : ℕ) (r : Region) (first : ℕ) (others : List ℕ)
    → get_elem? rs i ≡ some r
    → r.pf_free_list ≡ first ∷ others
    → All IsConsistent rs
    → Taken rs
        (record { sel = i; place = first })
        (set_elem i (record r { pf_free_list = others }) rs)
unfolding ref_of
first-Taken rs i r first others at_i free all =
    let ok = All-get_elem? IsConsistent rs i all at_i in
    let once : NoDup (first ∷ others) = subst NoDup free ok.0 in
    let unref : All (λ p. get_elem? r.pf_ref p ≡ some 0) (first ∷ others) =
      subst (All (λ p. get_elem? r.pf_ref p ≡ some 0)) free ok.1 in
    record {
      region = r;
      others = others;
      its_region = at_i;
      was_first = free;
      changed = refl;
      not_again = once.0;
      unreferenced =
          ap (λ o. o >>= λ r'. get_elem? r'.pf_ref first) (get_elem?-set_elem_self i _ rs at_i)
          ∙ unref.0;
      consistent = All-set_elem IsConsistent i _ rs all (once.1, unref.1);
    }

frame2pa-there :
    (i place n : ℕ) (rs : List Region) (r : Region)
    → get_elem? rs i ≡ some r
    → get_elem? r.pf_ref place ≡ some n
    → (pa : ℕ) × (frame2pa (record { sel = i; place = place }) rs ≡ some pa)
unfolding frame2pa frame2sel
frame2pa-there i place n rs r at_i at_place =
    let there : ltb place (length r.pf_ref) ≡ true =
      lt→ltb _ _ (lt-get_elem? r.pf_ref place at_place) in
    (word (r.mem_addr + place * pgsize), rw (at_i, frame2sel) (rw there (rw at_i refl)))

round_lem :
    (rs : List Region) (i : ℕ) (r : Region) (rest : List Region)
    → All IsConsistent rs
    → get_elem? rs i ≡ some r
    → Outcome (suc i) rs rest
    → (l : List ℕ) → r.pf_free_list ≡ l
    → Outcome i rs (r ∷ rest)
unfolding alloc_from take_first
round_lem rs i r rest all at_i later [] e = elim later [
  | inl empty ↦
      inl (ap (λ l. take_first i rs r l (alloc_from (suc i) rs rest)) e ∙ empty.0, (e, empty.1))
  | inr (f, rs', comes, taken, from, empty) ↦ inr (
    f,
    rs',
    ap (λ l. take_first i rs r l (alloc_from (suc i) rs rest)) e ∙ comes,
    taken,
    omega arith,
    EmptyBetween-empty i f.sel rs r at_i e empty,
  )
]
round_lem rs i r rest all at_i later (first ∷ others) e =
    let unref =
      subst (All (λ p. get_elem? r.pf_ref p ≡ some 0)) e
        (All-get_elem? IsConsistent rs i all at_i).1 in
    let pa = frame2pa-there i first 0 rs r at_i unref.0 in
    inr (
      record { sel = i; place = first },
      set_elem i (record r { pf_free_list = others }) rs,
      ap (λ l. take_first i rs r l (alloc_from (suc i) rs rest)) e ∙ rw pa.1 refl,
      first-Taken rs i r first others at_i e all,
      omega arith,
      λ j r' from below at_j. absurd (omega arith),
    )

alloc_from_lem :
    (rs : List Region) (i : ℕ) (rest : List Region)
    → All IsConsistent rs
    → ((j : ℕ) → get_elem? rest j ≡ get_elem? rs (i + j))
    → Outcome i rs rest
unfolding alloc_from
alloc_from_lem rs i [] all suffix = inl (refl, tt)
alloc_from_lem rs i (r ∷ rest) all suffix =
    round_lem rs i r rest all (ap (get_elem? rs) (omega arith) ∙ sym (suffix 0))
      (alloc_from_lem rs (suc i) rest all (λ j. suffix (suc j) ∙ ap (get_elem? rs) (omega arith)))
      r.pf_free_list refl

-- An allocation from consistent regions comes through: either every free list is empty and it is the
-- error -KER_MEM_ER, or it takes the first frame of a free list, those of the regions before it being
-- empty; this frame has no references and is free no longer, and the regions stay consistent.
pub phy_frame_alloc_lem :
    (rs : List Region)
    → All IsConsistent rs
    → ((phy_frame_alloc rs ≡ some none) × All (λ r. r.pf_free_list ≡ []) rs)
      ⊎ ((f : PhyFrame) × (rs' : List Region) × (phy_frame_alloc rs ≡ some (some (f, rs')))
          × Taken rs f rs'
          × EmptyBetween 0 f.sel rs)
unfolding phy_frame_alloc
phy_frame_alloc_lem rs all =
    elim (alloc_from_lem rs 0 rs all (λ j. ap (get_elem? rs) (omega arith))) [
      | inl empty ↦ inl empty
      | inr (f, rs', comes, taken, _, earlier) ↦ inr (f, rs', comes, taken, earlier)
    ]
