-- ===== src/Elf/Pages.antt =====
-- The pages of a segment, one after the other.
use jrinx.Base.{
  ℕ, zero, suc, ◌+◌, ◌-◌, ◌*◌, ◌/◌, ◌%◌, ◌^◌, ◌≤◌, ◌<◌, ◌≡◌, ◌⊎◌, Option, none, some, List, [], ◌∷◌,
  ltb, if◌then◌else◌, arith,
}
use jrinx.Base.Int.{ℤ, pos}
use jrinx.Syscalls.CreateProcess.{pgsize}
use jrinx.Elf.{Phdr, or_else, smaller}

-- What the mapping function gets for the page of an address.
pub record Part : Type 0 where
  pub va : ℕ
  pub offset : ℕ
  pub src : Option ℕ
  pub src_len : ℕ

-- The bytes of the file from the address to the end of its page or of the file; none behind the file.
abbrev pub part_at : Phdr → ℕ → ℕ → Part
part_at phdr elf_addr i =
    if ltb i phdr.p_filesz
    then record {
      va = phdr.p_vaddr + i;
      offset = (phdr.p_vaddr + i) % pgsize;
      src = some (elf_addr + i);
      src_len = smaller (phdr.p_filesz - i) (pgsize - (phdr.p_vaddr + i) % pgsize);
    }
    else record {
      va = phdr.p_vaddr + i;
      offset = (phdr.p_vaddr + i) % pgsize;
      src = none;
      src_len = 0;
    }

-- `n` pages from the one of the address `p_vaddr + i`, from its start on but for the first.
abbrev pub parts_from : Phdr → ℕ → ℕ → ℕ → List Part
parts_from phdr elf_addr zero i = []
parts_from phdr elf_addr (suc n) i =
    part_at phdr elf_addr i
    ∷ parts_from phdr elf_addr n (i + (pgsize - (phdr.p_vaddr + i) % pgsize))

-- The part of the segment in memory, and the number of pages it lies in.
abbrev pub extent : Phdr → ℕ
extent phdr = if ltb phdr.p_filesz phdr.p_memsz then phdr.p_memsz else phdr.p_filesz

abbrev pub pages : Phdr → ℕ
pages phdr = (phdr.p_vaddr % pgsize + extent phdr + (pgsize - 1)) / pgsize

-- A segment that starts within a page is in the file up to the end of this page, or altogether.
abbrev pub FillsPages : Phdr → Type 0
FillsPages phdr =
    (phdr.p_vaddr % pgsize ≡ 0)
    ⊎ (pgsize ≤ phdr.p_vaddr % pgsize + phdr.p_filesz)
    ⊎ ((phdr.p_memsz ≤ phdr.p_filesz) × (0 < phdr.p_filesz))

-- Addresses do not wrap around.
abbrev pub IsInMemory : Phdr → ℕ → Type 0
IsInMemory phdr elf_addr =
    (phdr.p_vaddr + extent phdr + 2 * pgsize ≤ 2 ^ 64) × (elf_addr + phdr.p_filesz ≤ 2 ^ 64)

-- The extent is at least the file's, and not more than the memory's behind the file.
pub file_extent : (phdr : Phdr) → phdr.p_filesz ≤ extent phdr
file_extent phdr = ground arith

pub extent-filesz : (phdr : Phdr) → phdr.p_memsz ≤ phdr.p_filesz → extent phdr ≡ phdr.p_filesz
extent-filesz phdr h = ground arith

pub extent-memsz : (phdr : Phdr) → phdr.p_memsz ≤ extent phdr
extent-memsz phdr = ground arith

pub memory_extent : (phdr : Phdr) (i : ℕ) → phdr.p_filesz ≤ i → i < extent phdr → i < phdr.p_memsz
memory_extent phdr i behind h = ground arith

module _ {ℓ} {S : Type ℓ} (map_callback : ℕ → ℕ → Option ℕ → ℕ → S → ℤ × S) where
  -- The mapping function on one part after the other, up to an error.
  abbrev pub map_all : List Part → S → Option (ℤ × S)
  map_all [] s = some (pos 0, s)
  map_all (p ∷ ps) s = or_else (map_callback p.va p.offset p.src p.src_len s) (map_all ps)
