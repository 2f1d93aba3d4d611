-- ===== src/Abi/Serve.antt =====
-- The calls of `do_syscall` carried out by the services of kern/traps/syscalls.c: what they read
-- through the pointers of the caller, what they write there, and what they return.
pub mod Groups
pub mod Return
pub mod Send
use jrinx.Base.{ℕ, suc, Bool, Option, none, some, List, [], ◌∷◌, length, ◌==◌, if◌then◌else◌}
use jrinx.Base.Int.{ℤ, pos, negsuc}
use jrinx.Types.{
  RetCode, no_error, no_action, not_available, invalid_param, invalid_config, invalid_mode,
  timed_out, invalid_sysno, Time, Name, QueDisc, fifo, priority, PortDir, source, destination,
}
use jrinx.Kernel.{Kernel, Msg, Outcome, done, gives_up, Step, Resume, ◌>>=◌}
use jrinx.Syscalls.Common.{Receive}
use jrinx.Syscalls.Console.{Serial}
use jrinx.Syscalls.Create.{Creation}
use jrinx.Syscalls.CreateProcess.{ProcessAttribute}
use jrinx.Syscalls.Partition.{PartitionStatus}
use jrinx.Syscalls.Process.{ProcessStatus}
use jrinx.Syscalls.Buffer.{BufferStatus}
use jrinx.Syscalls.Blackboard.{BlackboardStatus}
use jrinx.Syscalls.Queuing.{QueuingPortStatus}

-- The values of `RETURN_CODE_TYPE`.
abbrev pub ret_code_value : RetCode → ℤ
ret_code_value no_error = pos 0
ret_code_value no_action = negsuc 0
ret_code_value not_available = negsuc 1
ret_code_value invalid_param = negsuc 2
ret_code_value invalid_config = negsuc 3
ret_code_value invalid_mode = negsuc 4
ret_code_value timed_out = negsuc 5
ret_code_value invalid_sysno = negsuc 4095

-- What the caller's memory holds behind its pointers.
pub record User : Type 0 where
  pub name_at : ℕ → Name
  pub bytes_at : ℕ → ℕ → List ℕ
  pub attributes_at : ℕ → ProcessAttribute

-- What a service writes behind them.
pub data Write : Type 0 where
  word_to : ℕ → ℕ → Write
  time_to : ℕ → Time → Write
  message_to : ℕ → Msg → Write
  partition_status_to : ℕ → PartitionStatus → Write
  process_status_to : ℕ → ProcessStatus → Write
  buffer_status_to : ℕ → BufferStatus → Write
  blackboard_status_to : ℕ → BlackboardStatus → Write
  queuing_port_status_to : ℕ → QueuingPortStatus → Write

-- A service returns a value, or gives up the processor and goes on later.
pub data Progress : Type 0 where
  returned : ℤ → Progress
  left : Bool → Resume → Progress

pub record World : Type 0 where
  pub kernel : Kernel
  pub serial : Serial

pub record Reply : Type 0 where
  pub progress : Progress
  pub writes : List Write
  pub world : World

abbrev pub progress_of : Outcome → Progress
progress_of (done code) = returned (ret_code_value code)
progress_of (gives_up rr resume) = left rr resume

-- The results of the services in the form of replies.
abbrev pub reply : World → RetCode → List Write → Option Reply
reply w code writes =
    some (record { progress = returned (ret_code_value code); writes = writes; world = w })

abbrev pub reply_step : World → Step → Option Reply
reply_step w s = do
  r ← s
  some (record { progress = progress_of r.0; writes = []; world = record w { kernel = r.1 } })

-- `memcpy` to the address and `*length`, where there is a message; the length alone for an empty
-- one.
abbrev pub received : ℕ → ℕ → Option Msg → List Write
received addr len none = []
received addr len (some []) = word_to len 0 ∷ []
received addr len (some (b ∷ bs)) = message_to addr (b ∷ bs) ∷ word_to len (suc (length bs)) ∷ []

abbrev pub reply_receive : World → ℕ → ℕ → Receive → Option Reply
reply_receive w addr len s = do
  r ← s
  some (record {
    progress = progress_of r.0;
    writes = received addr len r.1;
    world = record w { kernel = r.2 };
  })

-- A value that is written only where there is one.
abbrev pub written_to : {A : Type 0} → (A → Write) → Option A → List Write
written_to f none = []
written_to f (some a) = f a ∷ []

abbrev pub reply_creation : World → ℕ → Creation → Option Reply
reply_creation w ptr s = do
  r ← s
  reply (record w { kernel = r.2 }) r.0 (written_to (word_to ptr) r.1)

abbrev pub reply_read :
    {A : Type 0} → World → (A → Write) → Option (RetCode × Option A) → Option Reply
reply_read w f s = do r ← s; reply w r.0 (written_to f r.1)

-- An enumeration by its number: `== FIFO` is the only test of a discipline, and a direction that is
-- neither is found in no configuration.
abbrev pub que_disc_of : ℕ → QueDisc
que_disc_of e = if e == 0 then fifo else priority

abbrev pub port_dir_of : ℕ → Option PortDir
port_dir_of e = if e == 0 then some source else if e == 1 then some destination else none
