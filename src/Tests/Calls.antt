-- ===== src/Tests/Calls.antt =====
-- System calls, the console and the creation of processes on the small system.
use jrinx.Base.{
  ◌+◌, ◌≤◌, ◌<◌, ◌≡◌, ◌⊎◌, refl, some, none, [], ◌∷◌, ◌^◌, ◌==◌, arith, if◌then◌else◌, true,
}
use jrinx.Base.Int.{pos, negsuc}
use jrinx.Lock.{unlocked}
use jrinx.Types.{no_error, soft, cold_start}
use jrinx.Kernel.{Kernel, Part, Outcome}
use jrinx.Abi.Registers.{Regs, syscall}
use jrinx.Abi.Process.{suspend_self}
use jrinx.Abi.Dispatch.{Call, process, switch, sampling, event}
use jrinx.Abi.Sync.{set_event}
use jrinx.Abi.Ports.{read_sampling_message}
use jrinx.Abi.Received.{user_call, switch-user_call, read_sampling_message_lem}
use jrinx.Abi.Serve.{User, World}
use jrinx.Abi.Serve.Send.{Ends, do_syscall-send_buffer}
use jrinx.Abi.Comm.{sys_send_buffer}
use jrinx.Syscalls.Buffer.Send.{Transferred}
use jrinx.Circbuf.{circbuf_init}
use jrinx.Abi.Serve.Return.{Frame, Ending, do_syscall}
use jrinx.Syscalls.Console.{Serial, do_cons_write_buf, do_cons_read_char}
use jrinx.Syscalls.Console.Writes.{do_cons_write_buf_lem, do_cons_read_char_lem, with_returns}
use jrinx.Syscalls.CreateProcess.{
  ProcessAttribute, do_create_process, proc_xstack_setup, proc_ustack_setup, align_up, kstksize,
}
use jrinx.Arithmetic.{rem}
use jrinx.Syscalls.CreateProcess.Memory.{NewProcess, do_create_process_lem, stacks_mem}
use jrinx.Tests.System.{system, ring, a_part, a_buffer, greeting, ring-Represents, waiter-CanWake}

abbrev attr : ProcessAttribute
attr = record {
  period = pos 2000;
  time_capacity = pos 100;
  entry_point = 4194304;
  stack_size = 5000;
  base_priority = 1;
  deadline = soft;
  name = "worker";
}

abbrev user : User
user = record { name_at = λ _. "b"; bytes_at = λ _ _. []; attributes_at = λ _. attr }

-- The device takes every byte.
abbrev serial : Serial
serial = record {
  out_lock = unlocked;
  in_lock = unlocked;
  accepts = λ _. true;
  puts = 0;
  written = [];
  arrives = λ _. some 97;
  gets = 0;
}

abbrev world : World
world = record { kernel = system ring; serial = serial }

abbrev waiting_call : Call
waiting_call = process (suspend_self (negsuc 0))

abbrev frame_of : Regs → Frame
frame_of r = record { ctx_regs = r; ctx_sepc = 65536 }

switch-user_call_example : switch (user_call waiting_call) ≡ some waiting_call
switch-user_call_example = switch-user_call waiting_call (omega arith)

read_sampling_message_example :
    switch (user_call (sampling (read_sampling_message 1 4096 8192 8200)))
    ≡ some (sampling (read_sampling_message 1 4096 0 8192))
read_sampling_message_example = read_sampling_message_lem 1 4096 8192 8200

-- A program with a greeting of two bytes in its memory.
abbrev greeter : User
greeter = record user { bytes_at = λ _ _. greeting }

do_syscall-send_buffer_example :
    (o : Outcome) × (k' : Kernel) × (e : Ending) × (do_syscall 3 greeter
        (frame_of (sys_send_buffer 7 8192 2 (pos 30)))
        world
      ≡ some (e, [], record world { kernel = k' }))
    × Transferred 7 (a_buffer ring) (system ring) (greeting ∷ []) o k'
    × Ends (frame_of (sys_send_buffer 7 8192 2 (pos 30))) o e
unfolding circbuf_init
do_syscall-send_buffer_example =
    do_syscall-send_buffer 3 greeter (frame_of (sys_send_buffer 7 8192 2 (pos 30))) world 7 8192 2
      (pos 30) (a_buffer ring) [] refl (omega arith) refl refl refl (waiter-CanWake, tt)
      (omega arith) (omega arith) ring-Represents (omega arith)

abbrev no_call : Regs
no_call = syscall 5 0 0 0 0 0 0 0

abbrev event_call : Call
event_call = event (set_event 3)

do_cons_write_buf_example :
    (s' : Serial) × (do_cons_write_buf 0 1 (104 ∷ 10 ∷ []) serial ≡ some s')
    × (s'.written ≡ with_returns (104 ∷ 10 ∷ []))
    × (s'.out_lock ≡ unlocked)
do_cons_write_buf_example =
    do_cons_write_buf_lem 0 1 1 (104 ∷ 10 ∷ []) serial (omega arith) (λ n. (0, omega arith, refl))
      refl

do_cons_read_char_example : do_cons_read_char 0 7 serial ≡ none
do_cons_read_char_example = do_cons_read_char_lem 0 7 serial refl

-- The partition 1 before its normal mode.
abbrev cold_part : Part
cold_part = record a_part { pa_op_mode = cold_start }

abbrev cold : Kernel
cold = record (system ring) { parts = λ i. if i == 1 then some cold_part else none }

do_create_process_example :
    (k' : Kernel) × (do_create_process attr cold ≡ some (no_error, some 5, k'))
    × NewProcess attr cold_part cold 5 k'
unfolding align_up rem
do_create_process_example =
    do_create_process_lem attr cold cold_part refl (omega arith) (omega arith) (omega arith) refl
      (ground arith) (ground arith) (omega arith)

-- 70000 bytes are enough for a stack of two pages, and not for the kernel's stack with it.
stacks_mem_example :
    ((8192 + kstksize ≤ 70000)
      × ((proc_xstack_setup
              (proc_ustack_setup 8192 (record a_part { pa_mem_rem = 70000 }))).pa_mem_rem
            + 8192
            + kstksize
          ≡ 70000))
    ⊎ ((70000 < 8192 + kstksize)
        × ((proc_xstack_setup
                (proc_ustack_setup 8192 (record a_part { pa_mem_rem = 70000 }))).pa_mem_rem
              + 8192
              + kstksize
            ≡ 70000 + 2 ^ 64)
        × (70000
            < (proc_xstack_setup
                (proc_ustack_setup 8192 (record a_part { pa_mem_rem = 70000 }))).pa_mem_rem))
stacks_mem_example =
    stacks_mem (record a_part { pa_mem_rem = 70000 }) 8192 (omega arith) (omega arith) (omega arith)
