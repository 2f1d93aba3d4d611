-- ===== src/Paging/Allocators.antt =====
-- The laws of the frame functions for the boot allocator (`palloc` of kern/mm/pmm.c).
use jrinx.Base.{
  ℕ, ◌+◌, ◌*◌, ◌/◌, ◌%◌, ◌^◌, ◌≤◌, ◌<◌, ◌≡◌, refl, sym, ap, ◌∙◌, inl, false, some_inj, ◌==◌,
  if◌then◌else◌, arith,
}
use jrinx.Circbuf.{word}
use jrinx.Frames.{palloc}
use jrinx.Syscalls.CreateProcess.{pgsize, align_up}
use jrinx.Paging.{page_of, zero_page, Vmm, boot_ops}
use jrinx.Paging.Tree.{Node, unused}
use jrinx.Paging.Walk.{FrameLaws}

-- The address of the next page of `palloc`.
abbrev pub next_page : ℕ → ℕ → ℕ
next_page kern_end base = (palloc kern_end pgsize pgsize base).0

-- There is room for `n` pages below 2^56, and no page from the next one on is a table.
abbrev pub HasRoom : ℕ → ℕ → (ℕ → Node) → Vmm → Type 0
HasRoom kern_end n owner s =
    (next_page kern_end s.freemem_base + n * pgsize ≤ 2 ^ 56)
    × ((q : ℕ) → next_page kern_end s.freemem_base / pgsize ≤ q → owner q ≡ unused)

align_up-page : (x : ℕ) → align_up x pgsize % pgsize ≡ 0
unfolding align_up
align_up-page x = omega arith

align_up-whole : (x : ℕ) → x + pgsize ≤ 2 ^ 64 → x % pgsize ≡ 0 → align_up x pgsize ≡ x
unfolding align_up
align_up-whole x room whole = omega arith

pub page_start : (kern_end base : ℕ) → next_page kern_end base % pgsize ≡ 0
unfolding palloc
page_start kern_end base = align_up-page (if base == 0 then kern_end else base)

-- Behind a whole page starts the next one.
pub page_after :
    (kern_end page : ℕ)
    → page + pgsize ≤ 2 ^ 56
    → page % pgsize ≡ 0
    → next_page kern_end (word (page + pgsize)) ≡ page + pgsize
unfolding palloc
page_after kern_end page room whole =
    let exact : word (page + pgsize) ≡ page + pgsize = omega arith in
    let set : (word (page + pgsize) == 0) ≡ false = ground (arith, exact) in
    rw set (
      ap (λ x. align_up x pgsize) exact
      ∙ align_up-whole (page + pgsize) (omega arith) (omega arith))

-- The allocation at boot has the laws, for as many frames as there is room for.
unfoldable pub boot_laws : (kern_end : ℕ) → FrameLaws (boot_ops kern_end)
unfolding boot_ops palloc
boot_laws kern_end = record {
  Holds = HasRoom kern_end;
  fewer = λ n owner s h. (omega (arith, h.0), h.1);
  alloc_total = λ n owner s h.
      let a = next_page kern_end s.freemem_base in
      let whole = page_start kern_end s.freemem_base in
      let bounded : a < 2 ^ 56 = omega (arith, h.0) in
      let page : page_of a ≡ a / pgsize = omega arith in
      let after = page_after kern_end a (omega (arith, h.0)) whole in
      inl (
        a,
        record s {
          memory = zero_page (page_of a) s.memory;
          freemem_base = (palloc kern_end pgsize pgsize s.freemem_base).1;
        },
        refl,
        h.1 (page_of a) (omega (arith, page)),
        refl,
        λ role. (
          omega (arith, after, h.0),
          λ q from.
              let above : a / pgsize < q = omega (arith, after, whole, from) in
              let other : (q == page_of a) ≡ false = ground (arith, page, above) in
              rw other (h.1 q (omega (arith, above))),
        ),
      );
  write_holds = λ n owner s p i e h. h;
  dec_new = λ n owner s s1 pa p i e h alloc. (_, refl);
  dec_memory = λ s s1 pa e. sym (ap (λ (x : Vmm). x.memory) (some_inj e));
  inc_total = λ n owner s pa h. (s, refl);
  inc_memory = λ s s1 pa e. sym (ap (λ (x : Vmm). x.memory) (some_inj e));
}
