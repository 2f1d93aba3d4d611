-- ===== src/Elf.antt =====
-- lib/elfloader.c: how a segment of a program is handed out to the function that maps its pages.
-- The parameter `map_callback` is the `elf_mapper_callback_t`, on a state of its own: it gets the
-- address, the offset in the page, the source, `none` for NULL, and the length, and returns an error.
pub mod Pages
pub mod Load
use jrinx.Base.{
  ℕ, zero, suc, ◌+◌, ◌-◌, ◌%◌, Bool, true, false, not, Option, none, some, ltb, ◌==◌, if◌then◌else◌,
}
use jrinx.Base.Int.{ℤ, pos, negsuc}
use jrinx.Circbuf.{word}
use jrinx.Syscalls.CreateProcess.{pgsize}

-- `Elf64_Phdr`, less the members that the loader does not read.
pub record Phdr : Type 0 where
  pub p_vaddr : ℕ
  pub p_filesz : ℕ
  pub p_memsz : ℕ

-- Goes on unless there was an error.
unfoldable pub or_else {ℓ} : {S : Type ℓ} → ℤ × S → (S → Option (ℤ × S)) → Option (ℤ × S)
or_else (pos zero, s) next = next s
or_else (pos (suc n), s) next = some (pos (suc n), s)
or_else (negsuc n, s) next = some (negsuc n, s)

abbrev pub smaller : ℕ → ℕ → ℕ
smaller a b = if ltb a b then a else b

module _ {ℓ} {S : Type ℓ} (map_callback : ℕ → ℕ → Option ℕ → ℕ → S → ℤ × S) where
  -- The loop over the pages behind the file, at most as many rounds as the fuel.
  unfoldable pub zero_loop : ℕ → Phdr → ℕ → S → Option (ℤ × S)
  zero_loop zero phdr i s = none
  zero_loop (suc fuel) phdr i s =
      let next : S → Option (ℤ × S) = zero_loop fuel phdr (word (i + pgsize)) in
      if ltb i phdr.p_memsz
      then or_else (map_callback (word (phdr.p_vaddr + i)) 0 none 0 s) next
      else some (pos 0, s)

  -- The loop over the pages of the file, and then the other one.
  unfoldable pub file_loop : ℕ → Phdr → ℕ → ℕ → S → Option (ℤ × S)
  file_loop zero phdr elf_addr i s = none
  file_loop (suc fuel) phdr elf_addr i s =
      let next : S → Option (ℤ × S) = file_loop fuel phdr elf_addr (word (i + pgsize)) in
      if ltb i phdr.p_filesz
      then or_else
          (map_callback (word (phdr.p_vaddr + i)) 0 (some (word (elf_addr + i)))
            (smaller (phdr.p_filesz - i) pgsize) s)
          next
      else zero_loop (suc fuel) phdr i s

  unfoldable pub elf64_load_prog : ℕ → Phdr → ℕ → S → Option (ℤ × S)
  elf64_load_prog fuel phdr elf_addr s =
      let offset = phdr.p_vaddr % pgsize in
      let src_len = smaller phdr.p_filesz (pgsize - offset) in
      if offset == 0
      then file_loop fuel phdr elf_addr 0 s
      else or_else (map_callback phdr.p_vaddr offset (some elf_addr) src_len s)
          (file_loop fuel phdr elf_addr src_len)
