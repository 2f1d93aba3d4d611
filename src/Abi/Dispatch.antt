-- ===== src/Abi/Dispatch.antt =====
-- `do_syscall` of kern/traps/syscalls.c: the number in a7 chooses the service, the registers give
-- its arguments.
use jrinx.Base.{ℕ, Option, none, some, List, [], ◌∷◌, ◌++◌, ◌==◌, if◌then◌else◌}
use jrinx.Abi.Registers.{Regs}
use jrinx.Abi.Console.{ConsoleCall, console_cases}
use jrinx.Abi.Process.{ProcessCall, process_cases, TimeCall, time_cases}
use jrinx.Abi.Ports.{SamplingCall, sampling_cases, QueuingCall, queuing_cases}
use jrinx.Abi.Comm.{BufferCall, buffer_cases, BlackboardCall, blackboard_cases}
use jrinx.Abi.Sync.{SemaphoreCall, semaphore_cases, EventCall, event_cases, MutexCall, mutex_cases}

-- A call that the kernel makes of one of its `do_…` functions, with the arguments.
pub data Call : Type 0 where
  console : ConsoleCall → Call
  process : ProcessCall → Call
  time : TimeCall → Call
  sampling : SamplingCall → Call
  queuing : QueuingCall → Call
  buffer : BufferCall → Call
  blackboard : BlackboardCall → Call
  semaphore : SemaphoreCall → Call
  event : EventCall → Call
  mutex : MutexCall → Call

-- The cases of a switch in order, with the reading of the registers for each.
abbrev pub Cases : Type 0 → Type 0
Cases C = List (ℕ × (Regs → C))

abbrev pub as_calls : {C : Type 0} → (C → Call) → Cases C → Cases Call
as_calls f [] = []
as_calls f (c ∷ cs) = (c.0, λ r. f (c.1 r)) ∷ as_calls f cs

abbrev pub all_cases : Cases Call
all_cases =
    as_calls console console_cases
    ++ as_calls process process_cases
    ++ as_calls time time_cases
    ++ as_calls sampling sampling_cases
    ++ as_calls queuing queuing_cases
    ++ as_calls buffer buffer_cases
    ++ as_calls blackboard blackboard_cases
    ++ as_calls semaphore semaphore_cases
    ++ as_calls event event_cases
    ++ as_calls mutex mutex_cases

abbrev pub case_of : ℕ → Cases Call → Regs → Option Call
case_of n [] r = none
case_of n (c ∷ cs) r = if n == c.0 then some (c.1 r) else case_of n cs r

-- `switch (sysno)`; `none` is the default case.
abbrev pub switch : Regs → Option Call
switch r = case_of r.a7 all_cases r
