-- ===== src/Types.antt =====
-- include/types.h: the enumerations and constants of the ARINC 653 services, and the reasons for
-- which a process waits (include/kern/multitask/process.h). Names are compared as texts, an
-- address or an identifier is a number, and `sys_time_t`, which is signed, is an integer, with sums on 64 bits.
use Prim.Native.String.{String}
use jrinx.Base.{
  ℕ, ◌+◌, ◌-◌, ◌%◌, ◌^◌, ◌<◌, ◌≡◌, Bool, true, false, ◌==◌, leb, ltb, if◌then◌else◌, arith,
}
use jrinx.Base.Int.{ℤ, pos, negsuc, ◌+ℤ◌, pos_part, neg_part, ltb_ℤ}

-- `RETURN_CODE_TYPE`.
pub data RetCode : Type 0 where
  no_error no_action not_available invalid_param invalid_config : RetCode
  invalid_mode timed_out invalid_sysno : RetCode

-- `OPERATING_MODE_TYPE` is kept as the number that the service call was given.
abbrev pub idle : ℕ
idle = 0

abbrev pub cold_start : ℕ
cold_start = 1

abbrev pub warm_start : ℕ
warm_start = 2

abbrev pub normal : ℕ
normal = 3

-- `PROCESS_STATE_TYPE`.
pub data ProcState : Type 0 where
  dormant ready running waiting faulted : ProcState

-- `proc_waiting_reason_t`.
pub data WaitingReason : Type 0 where
  previous_started delayed_started suspended suspended_with_timeout : WaitingReason
  buffer_blocked buffer_blocked_with_timeout : WaitingReason
  blackboard_blocked blackboard_blocked_with_timeout : WaitingReason
  queuing_port_blocked queuing_port_blocked_with_timeout : WaitingReason
  timed_wait_timeout : WaitingReason

-- `DEADLINE_TYPE`, `PORT_DIRECTION_TYPE`, `QUEUING_DISCIPLINE_TYPE`, `EMPTY_INDICATOR_TYPE`.
pub data Deadline : Type 0 where
  soft hard : Deadline

pub data PortDir : Type 0 where
  source destination : PortDir

pub data QueDisc : Type 0 where
  fifo priority : QueDisc

pub data EmptyInd : Type 0 where
  empty occupied : EmptyInd

abbrev pub Time : Type 0
Time = ℤ

-- `SYSTEM_TIME_INFINITE_VAL`, the largest value of `intmax_t`.
pub system_time_infinite_val : Time
system_time_infinite_val = pos (2 ^ 63 - 1)

-- `a <= b`, `a < b` and `a == b` on times.
abbrev pub le_time : Time → Time → Bool
le_time a b = leb (pos_part a + neg_part b) (pos_part b + neg_part a)

abbrev pub eq_time : Time → Time → Bool
eq_time a b = pos_part a + neg_part b == pos_part b + neg_part a

abbrev pub lt_time : Time → Time → Bool
lt_time a b = ltb_ℤ a b

-- The values of `intmax_t`, and the integer of 64 bits that a sum comes down to.
abbrev pub IsTime : Time → Type 0
IsTime (pos n) = n < 2 ^ 63
IsTime (negsuc n) = n < 2 ^ 63

abbrev signed : ℕ → Time
signed w = if ltb w (2 ^ 63) then pos w else negsuc (2 ^ 64 - 1 - w)

abbrev wrap : ℤ → Time
wrap (pos n) = signed (n % 2 ^ 64)
wrap (negsuc n) = signed (2 ^ 64 - 1 - n % 2 ^ 64)

-- `a + b` on times, as the machine adds: it wraps around.
unfoldable pub add_time : Time → Time → Time
add_time a b = wrap (a +ℤ b)

wrap-IsTime : (t : Time) → IsTime t → wrap t ≡ t
wrap-IsTime (pos n) h = ground arith
wrap-IsTime (negsuc n) h = ground arith

pub add_time_lem : (a b : Time) → IsTime (a +ℤ b) → add_time a b ≡ a +ℤ b
unfolding add_time
add_time_lem a b h = wrap-IsTime (a +ℤ b) h

-- The tests by which the services tell states and reasons apart.
abbrev pub is_dormant : ProcState → Bool
is_dormant dormant = true
is_dormant _ = false

abbrev pub is_waiting : ProcState → Bool
is_waiting waiting = true
is_waiting _ = false

abbrev pub is_faulted : ProcState → Bool
is_faulted faulted = true
is_faulted _ = false

abbrev pub is_running : ProcState → Bool
is_running running = true
is_running _ = false

-- READY or RUNNING: what the scheduler may elect.
abbrev pub is_runnable : ProcState → Bool
is_runnable ready = true
is_runnable running = true
is_runnable _ = false

abbrev pub is_previous_started : WaitingReason → Bool
is_previous_started previous_started = true
is_previous_started _ = false

abbrev pub is_suspended : WaitingReason → Bool
is_suspended suspended = true
is_suspended suspended_with_timeout = true
is_suspended _ = false

abbrev pub is_suspended_with_timeout : WaitingReason → Bool
is_suspended_with_timeout suspended_with_timeout = true
is_suspended_with_timeout _ = false

abbrev pub is_buffer_timeout : WaitingReason → Bool
is_buffer_timeout buffer_blocked_with_timeout = true
is_buffer_timeout _ = false

abbrev pub is_blackboard_timeout : WaitingReason → Bool
is_blackboard_timeout blackboard_blocked_with_timeout = true
is_blackboard_timeout _ = false

abbrev pub is_queuing_port_timeout : WaitingReason → Bool
is_queuing_port_timeout queuing_port_blocked_with_timeout = true
is_queuing_port_timeout _ = false

abbrev pub is_occupied : EmptyInd → Bool
is_occupied occupied = true
is_occupied empty = false

abbrev pub Name : Type 0
Name = String
