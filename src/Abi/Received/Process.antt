-- ===== src/Abi/Received/Process.antt =====
-- The system calls of Abi/Process as the kernel receives them.
use jrinx.Base.{◌≡◌, some, refl, ap}
use jrinx.Types.{IsTime}
use jrinx.Abi.Registers.{to_time-of_time}
use jrinx.Abi.Process.{ProcessCall, user_process_call, TimeCall, user_time_call}
use jrinx.Abi.Dispatch.{switch, process, time}

-- The arguments are values of their types: what is narrower than a register or signed is in range.
abbrev pub ProcessRanges : ProcessCall → Type 0
ProcessRanges (ProcessCall.get_partition_status x) = Unit
ProcessRanges (ProcessCall.set_partition_mode x) = Unit
ProcessRanges (ProcessCall.get_process_id x y) = Unit
ProcessRanges (ProcessCall.get_process_status x y) = Unit
ProcessRanges (ProcessCall.create_process x y) = Unit
ProcessRanges (ProcessCall.set_priority x y) = Unit
ProcessRanges (ProcessCall.suspend_self x) = IsTime x
ProcessRanges (ProcessCall.suspend x) = Unit
ProcessRanges (ProcessCall.resume x) = Unit
ProcessRanges ProcessCall.stop_self = Unit
ProcessRanges (ProcessCall.stop x) = Unit
ProcessRanges (ProcessCall.start x) = Unit
ProcessRanges (ProcessCall.delayed_start x y) = IsTime y
ProcessRanges (ProcessCall.lock_preemption x) = Unit
ProcessRanges (ProcessCall.unlock_preemption x) = Unit
ProcessRanges (ProcessCall.get_my_id x) = Unit
ProcessRanges (ProcessCall.initialize_process_core_affinity x y) = Unit
ProcessRanges (ProcessCall.get_my_processor_core_id x) = Unit
ProcessRanges (ProcessCall.get_my_index x) = Unit

pub do_process_call :
    (c : ProcessCall) → ProcessRanges c → switch (user_process_call c) ≡ some (process c)
do_process_call (ProcessCall.get_partition_status x) h = refl
do_process_call (ProcessCall.set_partition_mode x) h = refl
do_process_call (ProcessCall.get_process_id x y) h = refl
do_process_call (ProcessCall.get_process_status x y) h = refl
do_process_call (ProcessCall.create_process x y) h = refl
do_process_call (ProcessCall.set_priority x y) h = refl
do_process_call (ProcessCall.suspend_self x) h =
    ap (λ q. some (process (ProcessCall.suspend_self q))) (to_time-of_time x h)
do_process_call (ProcessCall.suspend x) h = refl
do_process_call (ProcessCall.resume x) h = refl
do_process_call ProcessCall.stop_self h = refl
do_process_call (ProcessCall.stop x) h = refl
do_process_call (ProcessCall.start x) h = refl
do_process_call (ProcessCall.delayed_start x y) h =
    ap (λ q. some (process (ProcessCall.delayed_start x q))) (to_time-of_time y h)
do_process_call (ProcessCall.lock_preemption x) h = refl
do_process_call (ProcessCall.unlock_preemption x) h = refl
do_process_call (ProcessCall.get_my_id x) h = refl
do_process_call (ProcessCall.initialize_process_core_affinity x y) h = refl
do_process_call (ProcessCall.get_my_processor_core_id x) h = refl
do_process_call (ProcessCall.get_my_index x) h = refl

-- The arguments are values of their types: what is narrower than a register or signed is in range.
abbrev pub TimeRanges : TimeCall → Type 0
TimeRanges (TimeCall.timed_wait x) = IsTime x
TimeRanges TimeCall.periodic_wait = Unit
TimeRanges (TimeCall.get_time x) = Unit
TimeRanges (TimeCall.replenish x) = IsTime x

pub do_time_call : (c : TimeCall) → TimeRanges c → switch (user_time_call c) ≡ some (time c)
do_time_call (TimeCall.timed_wait x) h =
    ap (λ q. some (time (TimeCall.timed_wait q))) (to_time-of_time x h)
do_time_call TimeCall.periodic_wait h = refl
do_time_call (TimeCall.get_time x) h = refl
do_time_call (TimeCall.replenish x) h =
    ap (λ q. some (time (TimeCall.replenish q))) (to_time-of_time x h)
