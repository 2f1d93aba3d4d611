-- ===== src/Abi/Received.antt =====
-- Every system call that a program makes arrives in the kernel as the call of the same function with
-- the same arguments.
pub mod Console
pub mod Process
pub mod Ports
pub mod Comm
pub mod Sync
use jrinx.Base.{
  ℕ, ◌≡◌, ◌≢◌, refl, inl, inr, Bool, false, Bool-cases, none, some, [], ◌∷◌, ◌==◌, ◌||◌, arith,
  if◌then◌else◌,
}
use jrinx.Abi.Registers.{Regs}
use jrinx.Abi.Sysno.{Sysno, number}
use jrinx.Abi.Console.{user_console_call}
use jrinx.Abi.Process.{user_process_call, user_time_call}
use jrinx.Abi.Ports.{user_sampling_call, user_queuing_call, read_sampling_message}
use jrinx.Abi.Comm.{user_buffer_call, user_blackboard_call}
use jrinx.Abi.Sync.{user_semaphore_call, user_event_call, user_mutex_call}
use jrinx.Abi.Dispatch.{
  Call, console, process, time, sampling, queuing, buffer, blackboard, semaphore, event, mutex,
  Cases, all_cases, case_of, switch,
}
use jrinx.Abi.Received.Console.{ConsoleRanges, do_console_call}
use jrinx.Abi.Received.Process.{ProcessRanges, do_process_call, TimeRanges, do_time_call}
use jrinx.Abi.Received.Ports.{
  SamplingRanges, Agrees, do_sampling_call, QueuingRanges, do_queuing_call,
}
use jrinx.Abi.Received.Comm.{BufferRanges, do_buffer_call, BlackboardRanges, do_blackboard_call}
use jrinx.Abi.Received.Sync.{
  SemaphoreRanges, do_semaphore_call, EventRanges, do_event_call, MutexRanges, do_mutex_call,
}

-- The registers at the `ecall` of a program.
abbrev pub user_call : Call → Regs
user_call (console c) = user_console_call c
user_call (process c) = user_process_call c
user_call (time c) = user_time_call c
user_call (sampling c) = user_sampling_call c
user_call (queuing c) = user_queuing_call c
user_call (buffer c) = user_buffer_call c
user_call (blackboard c) = user_blackboard_call c
user_call (semaphore c) = user_semaphore_call c
user_call (event c) = user_event_call c
user_call (mutex c) = user_mutex_call c

-- The arguments are values of their C types, and the call is not READ_SAMPLING_MESSAGE.
abbrev pub Passes : Call → Type 0
Passes (console c) = ConsoleRanges c
Passes (process c) = ProcessRanges c
Passes (time c) = TimeRanges c
Passes (sampling c) = SamplingRanges c × Agrees c
Passes (queuing c) = QueuingRanges c
Passes (buffer c) = BufferRanges c
Passes (blackboard c) = BlackboardRanges c
Passes (semaphore c) = SemaphoreRanges c
Passes (event c) = EventRanges c
Passes (mutex c) = MutexRanges c

-- A system call other than READ_SAMPLING_MESSAGE, with arguments that are values of their C types,
-- makes the kernel call the function of the same name with the same arguments.
pub switch-user_call : (c : Call) → Passes c → switch (user_call c) ≡ some c
switch-user_call (console c) h = do_console_call c h
switch-user_call (process c) h = do_process_call c h
switch-user_call (time c) h = do_time_call c h
switch-user_call (sampling c) h = do_sampling_call c h.0 h.1
switch-user_call (queuing c) h = do_queuing_call c h
switch-user_call (buffer c) h = do_buffer_call c h
switch-user_call (blackboard c) h = do_blackboard_call c h
switch-user_call (semaphore c) h = do_semaphore_call c h
switch-user_call (event c) h = do_event_call c h
switch-user_call (mutex c) h = do_mutex_call c h

-- READ_SAMPLING_MESSAGE arrives with other arguments: a NULL pointer for the length, and the pointer
-- to the length in the place of the pointer to the validity, whatever the caller passes there.
pub read_sampling_message_lem :
    (id addr len validity : ℕ)
    → switch (user_call (sampling (read_sampling_message id addr len validity)))
      ≡ some (sampling (read_sampling_message id addr 0 len))
read_sampling_message_lem id addr len validity = refl

-- Is the number one of those of the cases?
abbrev pub is_known : ℕ → Cases Call → Bool
is_known n [] = false
is_known n (c ∷ cs) = (n == c.0) || is_known n cs

pub case_of-unknown :
    (n : ℕ) (cs : Cases Call) (r : Regs) → is_known n cs ≡ false → case_of n cs r ≡ none
case_of-unknown n [] r h = refl
case_of-unknown n (c ∷ cs) r h = ground (arith, case_of-unknown n cs r)
