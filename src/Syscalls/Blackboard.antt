-- ===== src/Syscalls/Blackboard.antt =====
-- The blackboard services of kern/traps/syscalls.c.
use jrinx.Base.{ℕ, false, ◌&&◌, Option, none, some, List, [], ◌∷◌, length, ltb, ◌==◌, if◌then◌else◌}
use jrinx.Base.Int.{pos}
use jrinx.Lock.{lk_acquire, lk_release}
use jrinx.Types.{
  add_time, Time, RetCode, Name, EmptyInd, no_error, invalid_param, invalid_config, not_available,
  timed_out, waiting, blackboard_blocked, blackboard_blocked_with_timeout, is_blackboard_timeout,
  le_time, eq_time,
}
use jrinx.Kernel.{
  Kernel, Step, Blackboard, Msg, done, gives_up, wait_read_blackboard, blackboard_block_timeout,
  ◌>>=◌, boottime_get_now, on_proc, on_blackboard,
}
use jrinx.Timer.{time_event_alloc}
use jrinx.Comm.Blackboard.{
  blackboard_is_empty, blackboard_display, blackboard_read, blackboard_clear,
  blackboard_add_waiting_proc, blackboard_get_waiting_proc_nb,
}
use jrinx.Syscalls.Common.{
  Receive, return, give_up_and_return, is_timed, wake, without_message, with_message,
}

unfoldable pub blackboard_of_cur_part : ℕ → Kernel → Option Blackboard
blackboard_of_cur_part id k = do
  b ← k.blackboards id
  if b.bb_part_id == k.cur_part then some b else none

unfoldable pub acquire_blackboard : ℕ → Kernel → Option Kernel
unfolding lk_acquire
acquire_blackboard id k = do
  b ← k.blackboards id
  l ← lk_acquire k.hart b.bb_lock
  some (on_blackboard id (λ c. record c { bb_lock = l }) k)

unfoldable pub release_blackboard : ℕ → Kernel → Option Kernel
unfolding lk_release
release_blackboard id k = do
  b ← k.blackboards id
  l ← lk_release k.hart b.bb_lock
  some (on_blackboard id (λ c. record c { bb_lock = l }) k)

unfoldable pub leave_blackboard : RetCode → ℕ → Kernel → Step
leave_blackboard code id k = do released ← release_blackboard id k; return code released

-- The loop that wakes every waiting process up: the list is the queue as the round finds it.
unfoldable pub wake_readers : ℕ → List ℕ → Kernel → Option Kernel
wake_readers id [] k = some k
wake_readers id (pid ∷ ws) k = do
  woken ←
      wake is_blackboard_timeout pid (on_blackboard id (λ b. record b { bb_waiting_procs = ws }) k)
  wake_readers id ws woken

unfoldable pub do_display_blackboard : ℕ → Msg → Kernel → Step
do_display_blackboard id msg k = elim (blackboard_of_cur_part id k) [
  | none ↦ return invalid_param k
  | some b ↦
      if ltb b.bb_max_msg_size (length msg)
      then return invalid_param k
      else if length msg == 0
      then return invalid_param k
      else do
        held ← acquire_blackboard id k
        woken ← wake_readers id b.bb_waiting_procs (on_blackboard id (blackboard_display msg) held)
        released ← release_blackboard id woken
        give_up_and_return released
]

unfoldable pub queue_on_blackboard : ℕ → Time → Time → Kernel → Kernel
queue_on_blackboard id wakeup_time time_out k =
    let queued =
      on_blackboard id (blackboard_add_waiting_proc k.cur_proc)
        (on_proc k.cur_proc (λ p. record p { pr_state = waiting }) k) in
    if is_timed time_out
    then time_event_alloc (blackboard_block_timeout k.cur_proc id) wakeup_time (
        on_proc k.cur_proc (λ p. record p { pr_waiting_reason = blackboard_blocked_with_timeout })
          queued)
    else on_proc k.cur_proc (λ p. record p { pr_waiting_reason = blackboard_blocked }) queued

unfoldable pub block_on_blackboard : ℕ → Time → Time → Kernel → Step
block_on_blackboard id wakeup_time time_out k =
    let (now, read) = boottime_get_now k in
    if is_timed time_out && le_time wakeup_time now then leave_blackboard timed_out id read else do
      released ←
          release_blackboard id
            (queue_on_blackboard id wakeup_time time_out (if is_timed time_out then read else k))
      some (gives_up false (wait_read_blackboard id wakeup_time time_out), released)

unfoldable pub finish_read_blackboard : ℕ → Kernel → Receive
finish_read_blackboard id k = do
  b ← k.blackboards id
  with_message (blackboard_read b) (leave_blackboard no_error id k)

unfoldable pub do_read_blackboard : ℕ → Time → Kernel → Receive
do_read_blackboard id time_out k = elim (blackboard_of_cur_part id k) [
  | none ↦ some (done invalid_param, none, k)
  | some b ↦ do
    held ← acquire_blackboard id k
    let (now, read) = boottime_get_now held
    if blackboard_is_empty b
        then if eq_time time_out (pos 0)
          then without_message (leave_blackboard not_available id held)
          else without_message (block_on_blackboard id (add_time now time_out) time_out read)
        else finish_read_blackboard id held
]

unfoldable pub resume_read_blackboard : ℕ → Time → Time → Kernel → Receive
resume_read_blackboard id wakeup_time time_out k =
    let (now, read) = boottime_get_now k in
    if is_timed time_out && le_time wakeup_time now
    then without_message (return timed_out read)
    else do
      held ← acquire_blackboard id (if is_timed time_out then read else k)
      b ← held.blackboards id
      if blackboard_is_empty b
          then without_message (block_on_blackboard id wakeup_time time_out held)
          else finish_read_blackboard id held

unfoldable pub do_clear_blackboard : ℕ → Kernel → Step
do_clear_blackboard id k = elim (blackboard_of_cur_part id k) [
  | none ↦ return invalid_param k
  | some b ↦ do
    held ← acquire_blackboard id k
    leave_blackboard no_error id (on_blackboard id blackboard_clear held)
]

unfoldable pub do_get_blackboard_id : Name → Kernel → Option (RetCode × Option ℕ)
do_get_blackboard_id name k = do
  part ← k.parts k.cur_part
  some (elim (part.pa_bb_name_map name) [
    | none ↦ (invalid_config, none)
    | some id ↦ (no_error, some id)
  ])

-- `BLACKBOARD_STATUS_TYPE`.
pub record BlackboardStatus : Type 0 where
  pub empty_indicator : EmptyInd
  pub max_message_size : ℕ
  pub waiting_processes : ℕ

unfoldable pub do_get_blackboard_status : ℕ → Kernel → RetCode × Option BlackboardStatus
do_get_blackboard_status id k = elim (blackboard_of_cur_part id k) [
  | none ↦ (invalid_param, none)
  | some b ↦ (
    no_error,
    some (record {
      empty_indicator = b.bb_empty_ind;
      max_message_size = b.bb_max_msg_size;
      waiting_processes = blackboard_get_waiting_proc_nb b;
    }),
  )
]
