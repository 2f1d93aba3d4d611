-- ===== src/Abi/Console.antt =====
-- The system calls on the console, as include/user/sys makes them and as kern/traps/syscalls.c takes
-- them apart.
use jrinx.Base.{ℕ, List, [], ◌∷◌}
use jrinx.Base.Int.{ℤ}
use jrinx.Abi.Registers.{Regs, syscall, of_time, to_int}
use jrinx.Abi.Sysno.{Sysno, number}

-- The calls on the console, with their arguments.
pub data ConsoleCall : Type 0 where
  cons_write_char : ℤ → ConsoleCall
  cons_read_char : ConsoleCall
  cons_write_buf : ℕ → ℕ → ConsoleCall
  halt : ConsoleCall

abbrev pub sys_cons_write_char : ℤ → Regs
sys_cons_write_char ch = syscall (number Sysno.cons_write_char) (of_time ch) 0 0 0 0 0 0

abbrev pub sys_cons_read_char : Regs
sys_cons_read_char = syscall (number Sysno.cons_read_char) 0 0 0 0 0 0 0

abbrev pub sys_cons_write_buf : ℕ → ℕ → Regs
sys_cons_write_buf buf len = syscall (number Sysno.cons_write_buf) buf len 0 0 0 0 0

abbrev pub sys_halt : Regs
sys_halt = syscall (number Sysno.halt) 0 0 0 0 0 0 0

-- These calls have no service: programs make them by their wrappers.
abbrev pub user_console_call : ConsoleCall → Regs
user_console_call (cons_write_char x) = sys_cons_write_char x
user_console_call cons_read_char = sys_cons_read_char
user_console_call (cons_write_buf x y) = sys_cons_write_buf x y
user_console_call halt = sys_halt

-- The cases of `do_syscall` for them: which function is called with which registers.
abbrev pub console_cases : List (ℕ × (Regs → ConsoleCall))
console_cases =
    (number Sysno.cons_write_char, λ r. cons_write_char (to_int r.a0))
    ∷ (number Sysno.cons_read_char, λ r. cons_read_char)
    ∷ (number Sysno.cons_write_buf, λ r. cons_write_buf r.a0 r.a1)
    ∷ (number Sysno.halt, λ r. halt)
    ∷ []
