-- ===== src/Abi/Serve/Return.antt =====
-- `do_syscall` of kern/traps/syscalls.c as a whole, and what a program gets back.
use jrinx.Base.{ℕ, ◌+◌, ◌≡◌, refl, ap, ◌∙◌, Bool, false, Option, none, some, List, [], arith}
use jrinx.Base.Int.{ℤ}
use jrinx.Circbuf.{word}
use jrinx.Types.{
  RetCode, no_error, no_action, not_available, invalid_param, invalid_config, invalid_mode,
  timed_out, invalid_sysno,
}
use jrinx.Kernel.{Resume, ◌>>=◌}
use jrinx.Abi.Registers.{Regs, of_time, to_int, to_int-of_time, IsInt}
use jrinx.Abi.Dispatch.{Call, all_cases, switch}
use jrinx.Abi.Received.{user_call, Passes, switch-user_call, is_known, case_of-unknown}
use jrinx.Abi.Serve.{User, World, Write, Progress, returned, left, Reply, ret_code_value}
use jrinx.Abi.Serve.Groups.{serve}

-- What `struct context` keeps of the caller: the argument registers and the place of the `ecall`.
pub record Frame : Type 0 where
  pub ctx_regs : Regs
  pub ctx_sepc : ℕ

-- The caller goes on, or waits with its frame for the rest of the service.
pub data Ending : Type 0 where
  back : Frame → Ending
  waits : Frame → Bool → Resume → Ending

-- `context->ctx_regs.names.a0 = ret`.
abbrev pub with_a0 : ℤ → Frame → Frame
with_a0 ret f = record f { ctx_regs = record f.ctx_regs { a0 = of_time ret } }

abbrev pub ending : Progress → Frame → Ending
ending (returned ret) f = back (with_a0 ret f)
ending (left rr resume) f = waits f rr resume

abbrev pub Syscall : Type 0
Syscall = Option (Ending × List Write × World)

abbrev pub advanced : Frame → Frame
advanced f = record f { ctx_sepc = word (f.ctx_sepc + 4) }

abbrev pub end_of : Frame → Option Reply → Syscall
end_of f r = do r' ← r; some (ending r'.progress (advanced f), r'.writes, r'.world)

-- The switch; `none` is its default case.
unfoldable pub answer : ℕ → User → Frame → World → Option Call → Syscall
answer fuel u f w none = some (back (with_a0 (ret_code_value invalid_sysno) (advanced f)), [], w)
answer fuel u f w (some c) = end_of f (serve fuel u c w)

unfoldable pub do_syscall : ℕ → User → Frame → World → Syscall
do_syscall fuel u f w = answer fuel u f w (switch f.ctx_regs)

-- A system call other than READ_SAMPLING_MESSAGE, made by a program with arguments of their types, is
-- the service of that name on those arguments, with the program behind its `ecall` afterwards.
pub do_syscall_lem :
    (fuel : ℕ) (u : User) (c : Call) (f : Frame) (w : World)
    → f.ctx_regs ≡ user_call c
    → Passes c
    → do_syscall fuel u f w ≡ end_of f (serve fuel u c w)
unfolding do_syscall answer
do_syscall_lem fuel u c f w regs h = ap (answer fuel u f w) (ap switch regs ∙ switch-user_call c h)

-- A number that no system call has is answered by INVALID_SYSNO: nothing is written, nothing changes.
pub do_syscall-unknown :
    (fuel : ℕ) (u : User) (f : Frame) (w : World)
    → is_known f.ctx_regs.a7 all_cases ≡ false
    → do_syscall fuel u f w
      ≡ some (back (with_a0 (ret_code_value invalid_sysno) (advanced f)), [], w)
unfolding do_syscall answer
do_syscall-unknown fuel u f w other =
    ap (answer fuel u f w) (case_of-unknown f.ctx_regs.a7 all_cases f.ctx_regs other)

-- A return code keeps its value on the way through a0 into the `int` of the caller.
a0-ret_code_value : (code : RetCode) → to_int (of_time (ret_code_value code)) ≡ ret_code_value code
a0-ret_code_value code = to_int-of_time (ret_code_value code) (small code)
  where
    small : (code : RetCode) → IsInt (ret_code_value code)
    small no_error = omega arith
    small no_action = omega arith
    small not_available = omega arith
    small invalid_param = omega arith
    small invalid_config = omega arith
    small invalid_mode = omega arith
    small timed_out = omega arith
    small invalid_sysno = omega arith

-- A service that returns a code gives it back: the program goes on behind its `ecall` and finds the
-- value of the code in a0, and its other registers are as they were.
pub do_syscall-returned :
    (fuel : ℕ) (u : User) (c : Call) (f : Frame) (w : World) (code : RetCode) (writes : List Write)
    (w' : World)
    → f.ctx_regs ≡ user_call c
    → Passes c
    → serve fuel u c w
      ≡ some (record { progress = returned (ret_code_value code); writes = writes; world = w' })
    → (f' : Frame) × (do_syscall fuel u f w ≡ some (back f', writes, w'))
      × (to_int f'.ctx_regs.a0 ≡ ret_code_value code)
      × (f'.ctx_sepc ≡ word (f.ctx_sepc + 4))
      × ((record f'.ctx_regs { a0 = 0 }) ≡ (record f.ctx_regs { a0 = 0 }))
do_syscall-returned fuel u c f w code writes w' regs h served = (
  with_a0 (ret_code_value code) (advanced f),
  do_syscall_lem fuel u c f w regs h ∙ ap (end_of f) served,
  a0-ret_code_value code,
  refl,
  refl,
)
