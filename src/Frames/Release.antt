-- ===== src/Frames/Release.antt =====
-- Giving back a reference of a page frame (kern/mm/pmm.c).
use jrinx.Base.{
  ℕ, suc, ◌-◌, ◌<◌, ◌≡◌, ◌⊎◌, inl, inr, Bool-cases, refl, ap, ◌∙◌, true, false, some, List, [], ◌∷◌,
  ◌++◌, length, get_elem?, set_elem, get_elem?-set_elem_self, contains, All, All-append,
  All-set_elem, All-get_elem?, lt-get_elem?, length-set_elem, NoDup-append, ltb, lt→ltb, ◌==◌,
  arith,
}
use jrinx.Frames.{Region, PhyFrame, frame2sel, phy_frame_free, ref_of, set_ref, phy_frame_ref_dec}
use jrinx.Frames.Counts.{IsConsistent, not_free, zero_refs_set}

module _ (f : PhyFrame) (rs : List Region) (r : Region) (n : ℕ) (at_f : get_elem? rs f.sel ≡ some r)
    (count : get_elem? r.pf_ref f.place ≡ some (suc n)) (all : All IsConsistent rs) where
  abbrev pub down : Region
  down = record r { pf_ref = set_elem f.place n r.pf_ref }

  abbrev pub freed : Region
  freed = record down { pf_free_list = r.pf_free_list ++ f.place ∷ [] }

  ok : IsConsistent r
  ok = All-get_elem? IsConsistent rs f.sel all at_f

  used : contains f.place r.pf_free_list ≡ false
  used = not_free r.pf_ref r.pf_free_list f.place n ok.1 count

  still : All (λ p. get_elem? down.pf_ref p ≡ some 0) r.pf_free_list
  still = zero_refs_set r.pf_ref r.pf_free_list f.place n (suc n) count used ok.1

  ref_there : ref_of f rs ≡ some (suc n)
  unfolding ref_of
  ref_there = rw (at_f, ref_of) count

  set_down : set_ref f n rs ≡ some (set_elem f.sel down rs)
  unfolding set_ref
  set_down = rw (at_f, set_ref) refl

  kept :
      0 < n
      → (phy_frame_ref_dec f rs ≡ some (some (set_elem f.sel down rs)))
        × All IsConsistent (set_elem f.sel down rs)
  unfolding phy_frame_ref_dec
  kept several =
      let one_less : suc n - 1 ≡ n = omega arith in
      let not_last : (n == 0) ≡ false = ground arith in
      let some_left : (suc n == 0) ≡ false = ground arith in
      (
        rw (ref_there, phy_frame_ref_dec)
            (rw some_left (rw one_less (rw set_down (rw not_last refl)))),
        All-set_elem IsConsistent f.sel down rs all (ok.0, still),
      )

  frees :
      phy_frame_free f (set_elem f.sel down rs)
      ≡ some (set_elem f.sel freed (set_elem f.sel down rs))
  unfolding phy_frame_free frame2sel
  frees =
      let at : get_elem? (set_elem f.sel down rs) f.sel ≡ some down =
        get_elem?-set_elem_self f.sel down rs at_f in
      let there : ltb f.place (length (set_elem f.place n r.pf_ref)) ≡ true =
        lt→ltb _ _ (
          omega (arith, lt-get_elem? r.pf_ref f.place count, length-set_elem f.place n r.pf_ref)) in
      rw (at, frame2sel) (rw there (rw at refl))

  last :
      n ≡ 0
      → (phy_frame_ref_dec f rs ≡ some (some (set_elem f.sel freed (set_elem f.sel down rs))))
        × All IsConsistent (set_elem f.sel freed (set_elem f.sel down rs))
  unfolding phy_frame_ref_dec
  last none_left =
      let one_less : suc n - 1 ≡ n = omega arith in
      let is_last : (n == 0) ≡ true = ground arith in
      let some_left : (suc n == 0) ≡ false = ground arith in
      let at : get_elem? (set_elem f.place n r.pf_ref) f.place ≡ some 0 =
        get_elem?-set_elem_self f.place n r.pf_ref count ∙ ap some none_left in
      (
        rw (ref_there, phy_frame_ref_dec)
            (rw some_left (rw one_less (rw set_down (rw is_last (ap some frees))))),
        All-set_elem IsConsistent f.sel freed (set_elem f.sel down rs)
            (All-set_elem IsConsistent f.sel down rs all (ok.0, still))
            (
              NoDup-append f.place r.pf_free_list ok.0 used,
              All-append _ r.pf_free_list (f.place ∷ []) still (at, tt),
            ),
      )

  -- Giving back a reference of a frame that has some, in consistent regions: with more than one, its
  -- count goes down and nothing else changes; the last one puts the frame at the end of its
  -- region's free list as well. The regions stay consistent in both cases.
  pub phy_frame_ref_dec_lem :
      ((0 < n)
        × (phy_frame_ref_dec f rs ≡ some (some (set_elem f.sel down rs)))
        × All IsConsistent (set_elem f.sel down rs))
      ⊎ ((n ≡ 0)
          × (phy_frame_ref_dec f rs ≡ some (some (set_elem f.sel freed (set_elem f.sel down rs))))
          × All IsConsistent (set_elem f.sel freed (set_elem f.sel down rs)))
  phy_frame_ref_dec_lem = elim (Bool-cases (n == 0)) [
    | inl e ↦ let zero_n : n ≡ 0 = ground arith in let r' = last zero_n in inr (zero_n, r'.0, r'.1)
    | inr e ↦ let pos_n : 0 < n = ground arith in let r' = kept pos_n in inl (pos_n, r'.0, r'.1)
  ]
