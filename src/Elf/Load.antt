-- ===== src/Elf/Load.antt =====
-- The loader (`elf64_load_prog` of lib/elfloader.c) maps the pages of a segment one after the other.
use jrinx.Base.{
  ℕ, zero, suc, ◌+◌, ◌-◌, ◌*◌, ◌/◌, ◌%◌, ◌^◌, ◌≤◌, ◌<◌, ◌≡◌, inl, inr, refl, ◌∙◌, Bool-cases, true,
  false, Option, some, ltb, ◌==◌, arith,
}
use jrinx.Base.Int.{ℤ, pos, negsuc}
use jrinx.Circbuf.{word}
use jrinx.Syscalls.CreateProcess.{pgsize}
use jrinx.Elf.{Phdr, or_else, smaller, zero_loop, file_loop, elf64_load_prog}
use jrinx.Elf.Pages.{
  parts_from, extent, pages, FillsPages, IsInMemory, map_all, file_extent, extent-filesz,
  extent-memsz, memory_extent,
}

or_else-same {ℓ} :
    {S : Type ℓ} (r : ℤ × S) (f g : S → Option (ℤ × S))
    → ((s : S) → f s ≡ g s)
    → or_else r f ≡ or_else r g
unfolding or_else
or_else-same (pos zero, s) f g h = h s
or_else-same (pos (suc n), s) f g h = refl
or_else-same (negsuc n, s) f g h = refl

module _ {ℓ} {S : Type ℓ} (map_callback : ℕ → ℕ → Option ℕ → ℕ → S → ℤ × S) where
  zero_loop-parts :
      (phdr : Phdr) (elf_addr n fuel i : ℕ) (s : S)
      → n < fuel
      → phdr.p_filesz ≤ i
      → (phdr.p_vaddr + i) % pgsize ≡ 0
      → i + n * pgsize < extent phdr + pgsize
      → phdr.p_memsz ≤ i + n * pgsize
      → phdr.p_vaddr + extent phdr + 2 * pgsize ≤ 2 ^ 64
      → zero_loop map_callback fuel phdr i s ≡ map_all map_callback (parts_from phdr elf_addr n i) s
  unfolding zero_loop
  zero_loop-parts phdr elf_addr n zero i s enough behind whole above below bound =
      absurd (omega (arith, enough))
  zero_loop-parts phdr elf_addr zero (suc fuel) i s enough behind whole above below bound =
      let last : ltb i phdr.p_memsz ≡ false = ground (arith, below) in rw last refl
  zero_loop-parts phdr elf_addr (suc n) (suc fuel) i s enough behind whole above below bound =
      let inside : i < extent phdr = omega (arith, above) in
      let more : ltb i phdr.p_memsz ≡ true = ground (arith, memory_extent phdr i behind inside) in
      let no_file : ltb i phdr.p_filesz ≡ false = ground (arith, behind) in
      let address : word (phdr.p_vaddr + i) ≡ phdr.p_vaddr + i = omega arith in
      let next : word (i + pgsize) ≡ i + pgsize = omega arith in
      rw more (
        rw no_file (
          rw address (
            rw next (
              rw whole (
                or_else-same _ _ _ (λ s'.
                  zero_loop-parts phdr elf_addr n fuel (i + pgsize) s' (omega arith) (omega arith)
                    (omega arith) (omega arith) (omega arith) bound))))))

  file_loop-parts :
      (phdr : Phdr) (elf_addr n fuel i : ℕ) (s : S)
      → n < fuel
      → (phdr.p_vaddr + i) % pgsize ≡ 0
      → i + n * pgsize < extent phdr + pgsize
      → extent phdr ≤ i + n * pgsize
      → IsInMemory phdr elf_addr
      → file_loop map_callback fuel phdr elf_addr i s
        ≡ map_all map_callback (parts_from phdr elf_addr n i) s
  unfolding file_loop
  file_loop-parts phdr elf_addr n zero i s enough whole above below memory =
      absurd (omega (arith, enough))
  file_loop-parts phdr elf_addr zero (suc fuel) i s enough whole above below memory =
      let behind : phdr.p_filesz ≤ i = omega (arith, file_extent phdr, below) in
      let no_file : ltb i phdr.p_filesz ≡ false = ground (arith, behind) in
      rw no_file (
        zero_loop-parts phdr elf_addr zero (suc fuel) i s enough behind whole above
          (omega (arith, extent-memsz phdr)) memory.0)
  file_loop-parts phdr elf_addr (suc n) (suc fuel) i s enough whole above below memory =
      elim (Bool-cases (ltb i phdr.p_filesz)) [
        | inl more ↦
            let within : i < phdr.p_filesz = ground (arith, more) in
            let largest = file_extent phdr in
            let room = memory.0 in
            let source_room = memory.1 in
            let address : word (phdr.p_vaddr + i) ≡ phdr.p_vaddr + i = omega arith in
            let source : word (elf_addr + i) ≡ elf_addr + i = omega arith in
            let next : word (i + pgsize) ≡ i + pgsize = omega arith in
            rw more (
              rw address (
                rw source (
                  rw next (
                    rw whole (
                      or_else-same _ _ _ (λ s'.
                        file_loop-parts phdr elf_addr n fuel (i + pgsize) s' (omega arith)
                          (omega arith) (omega arith) (omega arith) memory))))))
        | inr done ↦
            let behind : phdr.p_filesz ≤ i = ground (arith, done) in
            let left : file_loop map_callback (suc fuel) phdr elf_addr i s
                ≡ zero_loop map_callback (suc fuel) phdr i s =
              rw done refl in
            left
            ∙ zero_loop-parts phdr elf_addr (suc n) (suc fuel) i s enough behind whole above
                (omega (arith, extent-memsz phdr, below)) memory.0
      ]

  -- A segment that ends in the page it starts in needs no other.
  no_more_parts :
      (phdr : Phdr) (elf_addr fuel : ℕ) (s : S)
      → phdr.p_memsz ≤ phdr.p_filesz
      → file_loop map_callback (suc fuel) phdr elf_addr phdr.p_filesz s ≡ some (pos 0, s)
  unfolding file_loop zero_loop
  no_more_parts phdr elf_addr fuel s small =
      let file : ltb phdr.p_filesz phdr.p_filesz ≡ false = ground arith in
      let memory : ltb phdr.p_filesz phdr.p_memsz ≡ false = ground (arith, small) in
      rw file (rw memory refl)

  -- After a first page that the segment does not start at the beginning of.
  later_parts :
      (phdr : Phdr) (elf_addr n fuel : ℕ) (s : S)
      → IsInMemory phdr elf_addr
      → FillsPages phdr
      → 0 < phdr.p_vaddr % pgsize
      → pages phdr ≡ suc n
      → n < suc fuel
      → file_loop map_callback
          (suc fuel)
          phdr
          elf_addr
          (smaller phdr.p_filesz (pgsize - phdr.p_vaddr % pgsize))
          s
        ≡ map_all map_callback (parts_from phdr elf_addr n (pgsize - phdr.p_vaddr % pgsize)) s
  later_parts phdr elf_addr n fuel s memory fills inside count enough =
      elim (Bool-cases (ltb phdr.p_filesz (pgsize - phdr.p_vaddr % pgsize))) [
        | inl short ↦
            let less : phdr.p_filesz < pgsize - phdr.p_vaddr % pgsize = ground (arith, short) in
            let small : phdr.p_memsz ≤ phdr.p_filesz = omega (arith, less, inside, fills) in
            let only : n ≡ 0 = omega (arith, count, less, extent-filesz phdr small) in
            rw short (rw only (no_more_parts phdr elf_addr fuel s small))
        | inr long ↦
            let more : pgsize - phdr.p_vaddr % pgsize ≤ phdr.p_filesz = ground (arith, long) in
            let largest = file_extent phdr in
            rw long (
              file_loop-parts phdr elf_addr n (suc fuel) (pgsize - phdr.p_vaddr % pgsize) s enough
                (omega arith) (omega (arith, count)) (omega (arith, count)) memory)
      ]

  -- ...
  -- For any mapping function, the loader maps every page of a segment once and in order, with the
  -- bytes of the file that belong there, up to the first error; it comes to an end after at most as
  -- many rounds as there are pages, and one. The addresses do not wrap around, and the segment starts
  -- at the beginning of a page, is in the file to the end of its first page, or has bytes in the file
  -- and nothing behind it.
  pub elf64_load_prog_lem :
      (phdr : Phdr) (elf_addr fuel : ℕ) (s : S)
      → IsInMemory phdr elf_addr
      → FillsPages phdr
      → pages phdr ≤ fuel
      → elf64_load_prog map_callback (suc fuel) phdr elf_addr s
        ≡ map_all map_callback (parts_from phdr elf_addr (pages phdr) 0) s
  unfolding elf64_load_prog
  elf64_load_prog_lem phdr elf_addr fuel s memory fills enough =
      elim (Bool-cases (phdr.p_vaddr % pgsize == 0)) [
        | inl aligned ↦
            let whole : phdr.p_vaddr % pgsize ≡ 0 = ground (arith, aligned) in
            let left : elf64_load_prog map_callback (suc fuel) phdr elf_addr s
                ≡ file_loop map_callback (suc fuel) phdr elf_addr 0 s =
              rw aligned refl in
            left
            ∙ file_loop-parts phdr elf_addr (pages phdr) (suc fuel) 0 s (omega (arith, enough))
                (omega (arith, whole)) (omega arith) (omega arith) memory
        | inr inside ↦
            let start : 0 < phdr.p_vaddr % pgsize = ground (arith, inside) in
            let n = (phdr.p_vaddr % pgsize + extent phdr - 1) / pgsize in
            let some_file : 0 < phdr.p_filesz = omega (arith, start, fills) in
            let largest = file_extent phdr in
            let count : pages phdr ≡ suc n = omega arith in
            let nonempty : ltb 0 phdr.p_filesz ≡ true = ground (arith, some_file) in
            let first : phdr.p_vaddr + 0 ≡ phdr.p_vaddr = omega arith in
            let source : elf_addr + 0 ≡ elf_addr = omega arith in
            let whole : phdr.p_filesz - 0 ≡ phdr.p_filesz = omega arith in
            let second : 0 + (pgsize - phdr.p_vaddr % pgsize) ≡ pgsize - phdr.p_vaddr % pgsize =
              omega arith in
            rw count (
              rw inside (
                rw nonempty (
                  rw first (
                    rw source (
                      rw whole (
                        rw second (
                          or_else-same _ _ _ (λ s'.
                            later_parts phdr elf_addr n fuel s' memory fills start count
                              (omega (arith, count, enough))))))))))
      ]
