-- ===== src/Abi/Received/Console.antt =====
-- The system calls of Abi/Console as the kernel receives them.
use jrinx.Base.{◌≡◌, some, refl, ap}
use jrinx.Abi.Registers.{IsInt, to_int-of_time}
use jrinx.Abi.Console.{ConsoleCall, user_console_call}
use jrinx.Abi.Dispatch.{switch, console}

-- The arguments are values of their types: what is narrower than a register or signed is in range.
abbrev pub ConsoleRanges : ConsoleCall → Type 0
ConsoleRanges (ConsoleCall.cons_write_char x) = IsInt x
ConsoleRanges ConsoleCall.cons_read_char = Unit
ConsoleRanges (ConsoleCall.cons_write_buf x y) = Unit
ConsoleRanges ConsoleCall.halt = Unit

pub do_console_call :
    (c : ConsoleCall) → ConsoleRanges c → switch (user_console_call c) ≡ some (console c)
do_console_call (ConsoleCall.cons_write_char x) h =
    ap (λ q. some (console (ConsoleCall.cons_write_char q))) (to_int-of_time x h)
do_console_call ConsoleCall.cons_read_char h = refl
do_console_call (ConsoleCall.cons_write_buf x y) h = refl
do_console_call ConsoleCall.halt h = refl
