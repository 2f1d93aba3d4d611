-- ===== src/Syscalls/Start.antt =====
-- START and DELAYED_START of kern/traps/syscalls.c, and `proc_reset` of kern/multitask/process.c.
use jrinx.Base.{ℕ, ◌&&◌, Option, none, some, [], ◌∷◌, ◌==◌, not, if◌then◌else◌}
use jrinx.Base.Int.{pos}
use jrinx.Lock.{spinlock_init, hartid_max}
use jrinx.Types.{
  add_time, Time, no_error, no_action, invalid_param, normal, ready, waiting, delayed_started,
  previous_started, WaitingReason, is_dormant, le_time, eq_time, system_time_infinite_val,
}
use jrinx.Kernel.{
  Proc, Kernel, Step, process_delayed_start, ◌>>=◌, boottime_get_now, on_proc, acquire_state_lock,
  release_state_lock, proc_of_cur_part,
}
use jrinx.Timer.{time_event_alloc}
use jrinx.Syscalls.Common.{return, give_up_and_return, proc_is_period}

-- Drops the saved contexts, pushes one that starts at the entry point, and opens the lock.
unfoldable pub proc_reset : Proc → Proc
proc_reset p = record p {
  pr_ctx_list =
      record { ctx_sepc = p.pr_entrypoint; ctx_sp = p.pr_ustacktop; ctx_hartid = hartid_max } ∷ [];
  pr_state_lock = spinlock_init;
}

-- `pr_cur_pri = pr_base_pri; proc_reset(proc);`
abbrev pub restart : Proc → Proc
restart p = proc_reset (record p { pr_cur_pri = p.pr_base_pri })

-- The critical section that marks a process as waiting for its start.
unfoldable pub wait_start : ℕ → WaitingReason → Kernel → Option Kernel
wait_start pid reason k = do
  held ← acquire_state_lock pid k
  release_state_lock pid
      (on_proc pid (λ q. record q { pr_state = waiting; pr_waiting_reason = reason }) held)

-- An aperiodic process in normal mode, at once: ready, with its deadline.
unfoldable pub start_now : ℕ → Proc → Kernel → Step
start_now pid p k =
    let (now, read) = boottime_get_now k in
    give_up_and_return (
      on_proc pid
        (λ q. record q { pr_state = ready; pr_deadline_time = add_time now p.pr_time_cap }) read)

-- An aperiodic process in normal mode, after a delay: waiting for its time event.
unfoldable pub start_later : ℕ → Proc → Time → Kernel → Step
start_later pid p delay_time k = do
  held ← acquire_state_lock pid k
  let marked =
      on_proc pid (λ q. record q { pr_state = waiting; pr_waiting_reason = delayed_started }) held
  let (now, read) = boottime_get_now marked
  released ←
      release_state_lock pid
        (time_event_alloc (process_delayed_start pid) (add_time now delay_time) read)
  let (now', read') = boottime_get_now released
  give_up_and_return (
      on_proc pid
        (λ q. record q { pr_deadline_time = add_time (add_time now' p.pr_time_cap) delay_time })
        read')

unfoldable pub do_delayed_start : ℕ → Time → Kernel → Step
do_delayed_start pid delay_time k = elim (proc_of_cur_part pid k) [
  | none ↦ return invalid_param k
  | some p ↦
      if not (is_dormant p.pr_state)
      then return no_action k
      else if eq_time delay_time system_time_infinite_val
      then return invalid_param k
      else if proc_is_period p && le_time p.pr_period delay_time
      then return invalid_param k
      else do
        part ← k.parts k.cur_part
        let reset = on_proc pid restart k
        if part.pa_op_mode == normal && not (proc_is_period p)
            then if eq_time delay_time (pos 0)
              then start_now pid p reset
              else start_later pid p delay_time reset
            else do
              waits ←
                  wait_start pid
                    (if part.pa_op_mode == normal then delayed_started else previous_started) reset
              return no_error waits
]

unfoldable pub do_start : ℕ → Kernel → Step
do_start pid k = do_delayed_start pid (pos 0) k
