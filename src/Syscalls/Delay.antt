-- ===== src/Syscalls/Delay.antt =====
-- The time services of kern/traps/syscalls.c.
use jrinx.Base.{true, some, if◌then◌else◌}
use jrinx.Base.Int.{pos}
use jrinx.Types.{
  add_time, Time, RetCode, no_error, invalid_param, waiting, timed_wait_timeout, eq_time,
  system_time_infinite_val,
}
use jrinx.Kernel.{
  Kernel, Step, gives_up, returns, process_timed_wait_timeout, ◌>>=◌, boottime_get_now, on_proc,
  acquire_state_lock, release_state_lock,
}
use jrinx.Timer.{time_event_alloc}
use jrinx.Syscalls.Common.{return, give_up_and_return}

unfoldable pub do_timed_wait : Time → Kernel → Step
do_timed_wait delay_time k =
    if eq_time delay_time system_time_infinite_val
    then return invalid_param k
    else if eq_time delay_time (pos 0)
    then some (gives_up true (returns no_error), k)
    else do
      let (now, read) = boottime_get_now k
      held ← acquire_state_lock k.cur_proc read
      let marked =
          on_proc k.cur_proc
            (λ q. record q { pr_state = waiting; pr_waiting_reason = timed_wait_timeout }) held
      released ← release_state_lock k.cur_proc (
          time_event_alloc (process_timed_wait_timeout k.cur_proc) (add_time now delay_time) marked)
      give_up_and_return released

unfoldable pub do_get_time : Kernel → RetCode × Time × Kernel
do_get_time k = let (now, read) = boottime_get_now k in (no_error, now, read)
