-- ===== src/Tests/Programs.antt =====
-- Segments of programs at small inputs.
use jrinx.Base.{ℕ, ◌≡◌, refl, inl, inr, Option, none, some, List, [], ◌∷◌, ◌++◌, arith}
use jrinx.Base.Int.{ℤ, pos}
use jrinx.Elf.{Phdr, zero_loop, file_loop, or_else, elf64_load_prog}
use jrinx.Elf.Pages.{Part, parts_from, map_all}
use jrinx.Elf.Load.{elf64_load_prog_lem}

-- A mapping function that takes down what it gets.
abbrev take_down : ℕ → ℕ → Option ℕ → ℕ → List Part → ℤ × List Part
take_down va offset src src_len ps =
    (pos 0, ps ++ record { va = va; offset = offset; src = src; src_len = src_len } ∷ [])

-- A segment on three pages, the last of which is not in the file.
abbrev three_pages : Phdr
three_pages = record { p_vaddr = 0x1800; p_filesz = 0x900; p_memsz = 0x1900 }

elf64_load_prog_example :
    elf64_load_prog take_down 4 three_pages 0x80000 []
    ≡ map_all take_down (parts_from three_pages 0x80000 3 0) []
elf64_load_prog_example =
    elf64_load_prog_lem take_down three_pages 0x80000 3 [] (omega arith, omega arith)
      (inr (inl (omega arith))) (omega arith)

-- A segment within a page with a rest that is not in the file: the page is mapped a second time,
-- with nothing of the file, and at an address within the page.
abbrev short_file : Phdr
short_file = record { p_vaddr = 0x1800; p_filesz = 8; p_memsz = 16 }

page_twice :
    elf64_load_prog take_down 2 short_file 0x80000 []
    ≡ some (
      pos 0,
      record { va = 0x1800; offset = 0x800; src = some 0x80000; src_len = 8 }
          ∷ record { va = 0x1808; offset = 0; src = none; src_len = 0 }
          ∷ [],
    )
unfolding elf64_load_prog file_loop zero_loop or_else
page_twice = refl
