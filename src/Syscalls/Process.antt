-- ===== src/Syscalls/Process.antt =====
-- The process services of kern/traps/syscalls.c that act on a process that exists.
pub mod Resumed
use jrinx.Base.{ℕ, Bool, false, not, ◌&&◌, Option, none, some, ltb, if◌then◌else◌}
use jrinx.Base.Int.{pos}
use jrinx.Types.{
  add_time, Time, Name, Deadline, ProcState, RetCode, no_error, no_action, invalid_param,
  invalid_config, invalid_mode, timed_out, dormant, ready, waiting, suspended,
  suspended_with_timeout, is_dormant, is_waiting, is_faulted, is_suspended,
  is_suspended_with_timeout, le_time, eq_time, lt_time, system_time_infinite_val,
}
use jrinx.Kernel.{
  Proc, Kernel, Step, gives_up, check_suspend, process_suspend_timeout, ◌>>=◌, boottime_get_now,
  on_proc, acquire_state_lock, release_state_lock, proc_of_cur_part,
}
use jrinx.Timer.{time_event_alloc, free_asso_timer}
use jrinx.Syscalls.Common.{return, give_up_and_return, proc_is_period}

unfoldable pub do_get_process_id : Name → Kernel → Option (RetCode × Option ℕ)
do_get_process_id name k = do
  part ← k.parts k.cur_part
  some (elim (part.pa_proc_name_map name) [
    | none ↦ (invalid_config, none)
    | some pid ↦ (no_error, some pid)
  ])

-- `PROCESS_STATUS_TYPE` with its attributes.
pub record ProcessStatus : Type 0 where
  pub deadline_time : Time
  pub current_priority : ℕ
  pub process_state : ProcState
  pub period : Time
  pub time_capacity : Time
  pub entry_point : ℕ
  pub stack_size : ℕ
  pub base_priority : ℕ
  pub deadline : Deadline
  pub name : Name

unfoldable pub do_get_process_status : ℕ → Kernel → RetCode × Option ProcessStatus
do_get_process_status pid k = elim (proc_of_cur_part pid k) [
  | none ↦ (invalid_param, none)
  | some p ↦ (
    no_error,
    some (record {
      deadline_time = p.pr_deadline_time;
      current_priority = p.pr_cur_pri;
      process_state = p.pr_state;
      period = p.pr_period;
      time_capacity = p.pr_time_cap;
      entry_point = p.pr_entrypoint;
      stack_size = p.pr_ustacksize;
      base_priority = p.pr_base_pri;
      deadline = p.pr_deadline;
      name = p.pr_name;
    }),
  )
]

unfoldable pub do_set_priority : ℕ → ℕ → Kernel → Step
do_set_priority pid priority k = elim (proc_of_cur_part pid k) [
  | none ↦ return invalid_param k
  | some p ↦
      if is_dormant p.pr_state
      then return invalid_mode k
      else give_up_and_return (on_proc pid (λ q. record q { pr_cur_pri = priority }) k)
]

-- The wait of `do_suspend_self`, inside the critical section.
suspend_timed : Time → Kernel → Step
suspend_timed time_out k = do
  let (now, read) = boottime_get_now k
  let wakeup_time = add_time now time_out
  let marked =
      on_proc k.cur_proc (λ q. record q { pr_waiting_reason = suspended_with_timeout }) read
  released ←
      release_state_lock k.cur_proc
        (time_event_alloc (process_suspend_timeout k.cur_proc) wakeup_time marked)
  some (gives_up false (check_suspend wakeup_time), released)

suspend_untimed : Kernel → Step
suspend_untimed k = do
  released ←
      release_state_lock k.cur_proc
        (on_proc k.cur_proc (λ q. record q { pr_waiting_reason = suspended }) k)
  give_up_and_return released

unfoldable pub do_suspend_self : Time → Kernel → Step
unfolding suspend_timed suspend_untimed
do_suspend_self time_out k = do
  p ← k.procs k.cur_proc
  if proc_is_period p
      then return invalid_mode k
      else if eq_time time_out (pos 0)
      then return no_error k
      else do
        held ← acquire_state_lock k.cur_proc k
        let stopped = on_proc k.cur_proc (λ q. record q { pr_state = waiting }) held
        if lt_time time_out system_time_infinite_val
            then suspend_timed time_out stopped
            else suspend_untimed stopped

-- The end of `do_suspend_self` with a time-out, once elected again.
unfoldable pub resume_suspend_self : Time → Kernel → Step
resume_suspend_self wakeup_time k =
    let (now, read) = boottime_get_now k in
    if le_time wakeup_time now then return timed_out read else return no_error read

unfoldable pub do_suspend : ℕ → Kernel → Step
do_suspend pid k = elim (proc_of_cur_part pid k) [
  | none ↦ return invalid_param k
  | some p ↦
      if is_dormant p.pr_state
      then return invalid_mode k
      else if is_faulted p.pr_state
      then return invalid_mode k
      else if proc_is_period p
      then return invalid_mode k
      else if is_waiting p.pr_state
      then return no_action k
      else give_up_and_return
          (on_proc pid (λ q. record q { pr_state = waiting; pr_waiting_reason = suspended }) k)
]

-- A process that `do_resume` may wake up.
abbrev pub is_resumable : Proc → Bool
is_resumable p =
    if is_waiting p.pr_state then is_suspended p.pr_waiting_reason else is_faulted p.pr_state

-- The rest of `do_resume`, inside the critical section.
resume_held : ℕ → Proc → Kernel → Step
resume_held pid p held =
    if is_resumable p
    then (do
      freed ←
          if is_waiting p.pr_state && is_suspended_with_timeout p.pr_waiting_reason
          then free_asso_timer pid held
          else some held
      released ← release_state_lock pid (on_proc pid (λ q. record q { pr_state = ready }) freed)
      give_up_and_return released)
    else do released ← release_state_lock pid held; return no_action released

unfoldable pub do_resume : ℕ → Kernel → Step
unfolding resume_held
do_resume pid k = elim (proc_of_cur_part pid k) [
  | none ↦ return invalid_param k
  | some p ↦
      if is_dormant p.pr_state
      then return invalid_mode k
      else if proc_is_period p && not (is_faulted p.pr_state)
      then return invalid_mode k
      else do held ← acquire_state_lock pid k; resume_held pid p held
]

unfoldable pub do_stop_self : Kernel → Step
do_stop_self k = give_up_and_return (on_proc k.cur_proc (λ p. record p { pr_state = dormant }) k)

unfoldable pub do_stop : ℕ → Kernel → Step
do_stop pid k = elim (proc_of_cur_part pid k) [
  | none ↦ return invalid_param k
  | some p ↦ if is_dormant p.pr_state then return no_action k else do
    held ← acquire_state_lock pid k
    let stopped = on_proc pid (λ q. record q { pr_state = dormant }) held
    freed ← elim p.pr_asso_timer [ none ↦ some stopped | some _ ↦ free_asso_timer pid stopped ]
    released ← release_state_lock pid freed
    give_up_and_return released
]

unfoldable pub do_get_my_id : Kernel → Option (RetCode × ℕ)
do_get_my_id k = do p ← k.procs k.cur_proc; some (no_error, p.pr_id)

unfoldable pub do_get_my_index : Kernel → Option (RetCode × Option ℕ)
do_get_my_index k = do
  p ← k.procs k.cur_proc
  if ltb p.pr_idx 1 then some (invalid_mode, none) else some (no_error, some p.pr_idx)
